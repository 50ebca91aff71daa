-- ===== src/Backfill/Topics.antt =====
-- Which messages of a topic the backfill submits, and how its loop ends.
use roach.Base.{
  ℕ, zero, suc, ◌+◌, ◌≤◌, ◌≡◌, refl, sym, ap, ◌∙◌, Bool, true, false, ◌||◌, not, ltb, leb, ◌==◌,
  List, [], ◌∷◌, arith, if◌then◌else◌, Bool-cases, inl, inr, length, map, select, subst,
}
use roach.Base.Strings.{sign_bit}
use roach.Models.{Message}
use roach.Backfill.{
  Config, TopicProgress, Seek, first_offset, last_offset, at_offset, minus, seek_of, Round,
  timed_out, fetched, Ending, finished, still_reading, reached_end, first_seen, read_topic,
  new_progress, process_topic,
}

abbrev Reading : Type 0 → Type 0
Reading F = List (Message F) × TopicProgress × Ending

reached_end-before :
    (cfg : Config) (o : ℕ)
    → not (reached_end cfg o) ≡ (leb sign_bit cfg.end_offset || ltb o cfg.end_offset)
unfolding reached_end
reached_end-before cfg o = ground arith

module _ {F : Type 0} where
  -- Offsets grow along a partition.
  abbrev pub GrowFrom : ℕ → List (Message F) → Type 0
  GrowFrom n [] = Unit
  GrowFrom n (m ∷ ms) = (n ≤ m.offset) × GrowFrom (suc m.offset) ms

  -- What the reader gives of the messages of a partition: each in turn, then its timeout.
  abbrev pub deliveries : List (Message F) → List (Round F)
  deliveries [] = timed_out ∷ []
  deliveries (m ∷ ms) = fetched m false ∷ deliveries ms

  abbrev pub from : Seek → List (Message F) → List (Message F)
  from first_offset log = log
  from last_offset log = []
  from (at_offset n) log = select (λ (m : Message F). leb n m.offset) log

  -- An end offset below 0 is no end.
  abbrev pub before_end : Config → List (Message F) → List (Message F)
  before_end cfg =
      select λ (m : Message F). leb sign_bit cfg.end_offset || ltb m.offset cfg.end_offset

  -- The messages that a start offset asks for: -2 for all, -1 for none of those that are there.
  abbrev pub started_at : ℕ → List (Message F) → List (Message F)
  started_at start log =
      if start == minus 1
      then []
      else if start == minus 2
      then log
      else select (λ (m : Message F). leb start m.offset) log

  abbrev pub range_of : Config → List (Message F) → List (Message F)
  range_of cfg log = before_end cfg (started_at cfg.start_offset log)

  select_from_0 : (log : List (Message F)) → select (λ (m : Message F). leb 0 m.offset) log ≡ log
  select_from_0 [] = refl
  select_from_0 (m ∷ log) =
      let e : leb 0 m.offset ≡ true = ground arith in rw e (ap (λ ms. m ∷ ms) (select_from_0 log))

  from-seek_of :
      (start : ℕ) (log : List (Message F)) → from (seek_of start) log ≡ started_at start log
  unfolding seek_of
  from-seek_of zero log = sym (select_from_0 log)
  from-seek_of (suc n) log = ground arith

  none_before_end :
      (cfg : Config) (n : ℕ) (ms : List (Message F))
      → reached_end cfg n ≡ true
      → GrowFrom n ms
      → before_end cfg ms ≡ []
  unfolding reached_end
  none_before_end cfg n [] h g = refl
  none_before_end cfg n (m ∷ ms) h g = ground (arith, none_before_end cfg (suc m.offset) ms)

  abbrev pub last_or : ℕ → List (Message F) → ℕ
  last_or n [] = n
  last_or n (m ∷ ms) = last_or (m.offset + 1) ms

  abbrev advanced : Config → ℕ → Message F → TopicProgress → TopicProgress
  advanced cfg count m p = record (first_seen cfg count m p) {
    current_offset = m.offset + 1;
    messages_processed = (first_seen cfg count m p).messages_processed + 1;
  }

  abbrev with_first : Message F → Reading F → Reading F
  with_first m (ms, p, ending) = (m ∷ ms, p, ending)

  read_topic_step :
      (cfg : Config) (count : ℕ) (p : TopicProgress) (m : Message F) (rounds : List (Round F))
      → read_topic cfg count p (fetched m false ∷ rounds) ≡ (
          if reached_end cfg m.offset
          then ([], first_seen cfg count m p, finished)
          else with_first m (read_topic cfg (suc count) (advanced cfg count m p) rounds))
  unfolding read_topic
  read_topic_step cfg count p m rounds = refl

  read_topic_stops :
      (cfg : Config) (count : ℕ) (p : TopicProgress) (m : Message F) (rounds : List (Round F))
      → reached_end cfg m.offset ≡ true
      → read_topic cfg count p (fetched m false ∷ rounds) ≡ ([], first_seen cfg count m p, finished)
  read_topic_stops cfg count p m rounds e = rw (read_topic_step cfg count p m rounds, e)

  read_topic_goes_on :
      (cfg : Config) (count : ℕ) (p : TopicProgress) (m : Message F) (rounds : List (Round F))
      → reached_end cfg m.offset ≡ false
      → read_topic cfg count p (fetched m false ∷ rounds)
        ≡ with_first m (read_topic cfg (suc count) (advanced cfg count m p) rounds)
  read_topic_goes_on cfg count p m rounds e = rw (read_topic_step cfg count p m rounds, e)

  first_seen-keeps :
      (cfg : Config) (count : ℕ) (m : Message F) (p : TopicProgress)
      → ((first_seen cfg count m p).messages_processed ≡ p.messages_processed)
        × ((first_seen cfg count m p).current_offset ≡ p.current_offset)
  first_seen-keeps cfg count m p = (ground arith, ground arith)

  -- What the loop leaves.
  abbrev Reads : Config → TopicProgress → List (Message F) → Reading F → Type 0
  Reads cfg p ms (submitted, p', ending) =
      (submitted ≡ before_end cfg ms)
      × (ending ≡ finished)
      × (p'.messages_processed ≡ p.messages_processed + length submitted)
      × (p'.current_offset ≡ last_or p.current_offset submitted)

  Reads-next :
      (cfg : Config) (count : ℕ) (p : TopicProgress) (m : Message F) (ms : List (Message F))
      (q : Reading F)
      → reached_end cfg m.offset ≡ false
      → Reads cfg (advanced cfg count m p) ms q
      → Reads cfg p (m ∷ ms) (with_first m q)
  Reads-next cfg count p m ms (submitted, p', ending) e (sent, ended, counted, last) =
      let more : before_end cfg (m ∷ ms) ≡ m ∷ before_end cfg ms =
        rw (sym (reached_end-before cfg m.offset), e) in
      (
        ap (λ xs. m ∷ xs) sent ∙ sym more,
        ended,
        omega (arith, counted, (first_seen-keeps cfg count m p).0),
        last,
      )

  read_topic_lem :
      (cfg : Config) (count : ℕ) (p : TopicProgress) (n : ℕ) (ms : List (Message F))
      → GrowFrom n ms
      → Reads cfg p ms (read_topic cfg count p (deliveries ms))
  read_topic_lem cfg count p n [] g = unfold read_topic in (refl, refl, omega arith, refl)
  read_topic_lem cfg count p n (m ∷ ms) g = elim (Bool-cases (reached_end cfg m.offset)) [
    | inl e ↦
        let stops = read_topic_stops cfg count p m (deliveries ms) e in
        subst (Reads cfg p (m ∷ ms)) (sym stops) (
          sym (none_before_end cfg m.offset (m ∷ ms) e (omega arith, g.1)),
          refl,
          omega (arith, (first_seen-keeps cfg count m p).0),
          (first_seen-keeps cfg count m p).1,
        )
    | inr e ↦
        let goes_on = read_topic_goes_on cfg count p m (deliveries ms) e in
        subst (Reads cfg p (m ∷ ms)) (sym goes_on) (
          Reads-next cfg count p m ms
            (read_topic cfg (suc count) (advanced cfg count m p) (deliveries ms)) e
            (read_topic_lem cfg (suc count) (advanced cfg count m p) (suc m.offset) ms g.1))
  ]

  grow_less : (n k : ℕ) (ms : List (Message F)) → n ≤ k → GrowFrom k ms → GrowFrom n ms
  grow_less n k [] h g = tt
  grow_less n k (m ∷ ms) h g = (omega (arith, g.0), g.1)

  select-GrowFrom :
      (keep : Message F → Bool) (n : ℕ) (ms : List (Message F))
      → GrowFrom n ms
      → GrowFrom n (select keep ms)
  select-GrowFrom keep n [] g = tt
  select-GrowFrom keep n (m ∷ ms) g = elim (Bool-cases (keep m)) [
    | inl e ↦ rw e (g.0, select-GrowFrom keep (suc m.offset) ms g.1)
    | inr e ↦
        rw e (select-GrowFrom keep n ms (grow_less n (suc m.offset) ms (omega (arith, g.0)) g.1))
  ]

  from-GrowFrom :
      (seek : Seek) (log : List (Message F)) → GrowFrom 0 log → GrowFrom 0 (from seek log)
  from-GrowFrom first_offset log g = g
  from-GrowFrom last_offset log g = tt
  from-GrowFrom (at_offset n) log g = select-GrowFrom _ 0 log g

  -- If the reader gives, after a seek, the messages of the partition from there on and then its
  -- timeout, processTopic returns without an error; it has submitted, in their order, exactly the
  -- messages from the configured start to before the configured end, if there is one, and its
  -- progress has their number and the offset after the last of them.
  pub process_topic_lem :
      (cfg : Config) (reader : Seek → List (Round F)) (log : List (Message F))
      → ((seek : Seek) → reader seek ≡ deliveries (from seek log))
      → GrowFrom 0 log
      → let (submitted, progress, end) = process_topic cfg false reader in
        (submitted ≡ range_of cfg log)
        × (end ≡ finished)
        × (progress.messages_processed ≡ length submitted)
        × (progress.current_offset ≡ last_or 0 submitted)
  unfolding process_topic
  process_topic_lem cfg reader log delivers g =
      let seek = seek_of cfg.start_offset in
      let (sent, ended, counted, last) =
        read_topic_lem cfg 0 (new_progress cfg) 0 (from seek log) (from-GrowFrom seek log g) in
      rw (delivers seek) (
        sent ∙ ap (before_end cfg) (from-seek_of cfg.start_offset log),
        ended,
        omega (arith, counted),
        last,
      )

  -- With an end offset below 0, which stands for the latest message, the loop goes on as long as
  -- the reader gives messages: it has submitted all of them, and has not returned.
  pub read_topic_endless :
      (cfg : Config) (count : ℕ) (p : TopicProgress) (ms : List (Message F))
      → sign_bit ≤ cfg.end_offset
      → let (submitted, p', end) = read_topic cfg count p (map (λ m. fetched m false) ms) in
        (submitted ≡ ms) × (end ≡ still_reading)
  read_topic_endless cfg count p [] h = unfold read_topic in (refl, refl)
  read_topic_endless cfg count p (m ∷ ms) h =
      let e : reached_end cfg m.offset ≡ false = unfold reached_end in ground arith in
      let (sent, ended) = read_topic_endless cfg (suc count) (advanced cfg count m p) ms h in
      rw (read_topic_goes_on cfg count p m (map (λ m. fetched m false) ms) e)
        (ap (λ xs. m ∷ xs) sent, ended)
