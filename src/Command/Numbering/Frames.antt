-- ===== src/Command/Numbering/Frames.antt =====
-- services/homeassistant-command/ha/client.go: the numbers of the messages that one call sends.
use roach.Base.{
  ℕ, suc, ◌≡◌, ◌==◌, refl, sym, subst, Bool, true, ◌&&◌, ◌||◌, not, ltb, List, [], ◌∷◌, Option,
  none, some, arith, Bool-cases, inl, inr,
}
use roach.Command.{call_frame, call_on, call_service, ping_on, ping, clear_connection}
use roach.Command.Parts.{Command, Frame, auth, service_call, ping_message, Client, Exchange}

module _ {F : Type 0} where
  -- The first message of a connection has no number, which counts as 0.
  abbrev pub number : Frame F → ℕ
  number (auth token) = 0
  number (service_call id domain service entity payload) = id
  number (ping_message id) = id

  -- All numbers on connection n are below i.
  abbrev pub below : ℕ → ℕ → List (ℕ × Frame F) → Bool
  below n i [] = true
  below n i ((m, f) ∷ sent) = (ltb (number f) i || not (m == n)) && below n i sent

  -- On each connection the numbers grow; the latest message stands first.
  abbrev pub grows : List (ℕ × Frame F) → Bool
  grows [] = true
  grows ((n, f) ∷ sent) = below n (number f) sent && grows sent

  abbrev pub opened : ℕ → List (ℕ × Frame F) → Bool
  opened k [] = true
  opened k ((m, f) ∷ sent) = ltb m k && opened k sent

  abbrev on_connection : Option ℕ → Client F → Bool
  on_connection none c = true
  on_connection (some n) c = ltb n c.connections && below n (suc c.msg_id) c.sent

  pub record IsNumbered (c : Client F) : Type 0 where
    pub past : opened c.connections c.sent ≡ true
    pub present : on_connection c.connection c ≡ true
    pub growing : grows c.sent ≡ true

  pub below_new :
      (k i : ℕ) (sent : List (ℕ × Frame F)) → opened k sent ≡ true → below k i sent ≡ true
  below_new k i [] h = refl
  below_new k i ((m, f) ∷ sent) h = ground (arith, below_new k i sent)

  below_more :
      (n i : ℕ) (sent : List (ℕ × Frame F)) → below n i sent ≡ true → below n (suc i) sent ≡ true
  below_more n i [] h = refl
  below_more n i ((m, f) ∷ sent) h = ground (arith, below_more n i sent)

  pub opened_more :
      (k : ℕ) (sent : List (ℕ × Frame F)) → opened k sent ≡ true → opened (suc k) sent ≡ true
  opened_more k [] h = refl
  opened_more k ((m, f) ∷ sent) h = ground (arith, opened_more k sent)

  -- The next number is used, and may have been sent.
  skip-IsNumbered :
      (c : Client F) (n : ℕ)
      → c.connection ≡ some n
      → IsNumbered c
      → IsNumbered (record c { msg_id = suc c.msg_id })
  skip-IsNumbered c n e h =
      let p : on_connection (some n) c ≡ true = subst (λ o. on_connection o c ≡ true) e h.present in
      let c' : Client F = record c { msg_id = suc c.msg_id } in
      record {
        past = h.past;
        present =
            subst (λ o. on_connection o c' ≡ true) (sym e)
              (ground (arith, p, below_more n (suc c.msg_id) c.sent));
        growing = h.growing;
      }

  send-IsNumbered :
      (c : Client F) (n : ℕ) (f : Frame F)
      → c.connection ≡ some n
      → number f ≡ suc c.msg_id
      → IsNumbered c
      → IsNumbered (record c { msg_id = suc c.msg_id; sent = (n, f) ∷ c.sent })
  send-IsNumbered c n f e i h =
      let p : on_connection (some n) c ≡ true = subst (λ o. on_connection o c ≡ true) e h.present in
      let c' : Client F = record c { msg_id = suc c.msg_id; sent = (n, f) ∷ c.sent } in
      let q : below n (number f) c.sent ≡ true = rw i (ground (arith, p)) in
      record {
        past = ground (arith, p, h.past);
        present =
            subst (λ o. on_connection o c' ≡ true) (sym e)
              (ground (arith, p, i, below_more n (suc c.msg_id) c.sent));
        growing = ground (arith, q, h.growing);
      }

  pub clear-IsNumbered : (c : Client F) → IsNumbered c → IsNumbered (clear_connection c)
  unfolding clear_connection
  clear-IsNumbered c h = record { past = h.past; present = refl; growing = h.growing }

  call_on-IsNumbered :
      (cmd : Command F) (x : Exchange) (c : Client F) (o : Option ℕ)
      → c.connection ≡ o
      → IsNumbered c
      → IsNumbered (call_on cmd x c o).0
  call_on-IsNumbered cmd x c none e h = h
  call_on-IsNumbered cmd x c (some n) e h = elim (Bool-cases x.send_fails) [
    | inl f ↦ rw f (skip-IsNumbered c n e h)
    | inr f ↦ rw f (send-IsNumbered c n (call_frame (suc c.msg_id) cmd) e refl h)
  ]

  pub call_service-IsNumbered :
      (cmd : Command F) (x : Exchange) (c : Client F)
      → IsNumbered c
      → IsNumbered (call_service cmd x c).0
  unfolding call_service
  call_service-IsNumbered cmd x c = call_on-IsNumbered cmd x c c.connection refl

  ping_on-IsNumbered :
      (x : Exchange) (c : Client F) (o : Option ℕ)
      → c.connection ≡ o
      → IsNumbered c
      → IsNumbered (ping_on x c o).0
  ping_on-IsNumbered x c none e h = h
  ping_on-IsNumbered x c (some n) e h = elim (Bool-cases x.send_fails) [
    | inl f ↦ rw f (skip-IsNumbered c n e h)
    | inr f ↦ rw f (send-IsNumbered c n (ping_message (suc c.msg_id)) e refl h)
  ]

  pub ping-IsNumbered : (x : Exchange) (c : Client F) → IsNumbered c → IsNumbered (ping x c).0
  unfolding ping
  ping-IsNumbered x c = ping_on-IsNumbered x c c.connection refl
