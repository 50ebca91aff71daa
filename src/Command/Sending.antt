-- ===== src/Command/Sending.antt =====
-- Which commands services/homeassistant-command sends, and how often.
pub mod Calls
use mathlib.Core.List.{Sublist, nil-sublist}
use mathlib.Core.List.Sublist
use roach.Base.{
  ℕ, suc, ◌≡◌, refl, sym, subst, ap, ◌∙◌, Text, Bool, true, false, List, [], ◌∷◌, ◌++◌, Option,
  none, some, if◌then◌else◌, Bool-cases, inl, inr,
}
use roach.Base.Strings.{codes}
use roach.Models.{Object}
use roach.Command.{
  Script, Event, message, tick, call_frame, call_on, call_service, ping_on, ping, clear_connection,
  connect, connect_from, connect_with_retry, call_again, as_error, reconnect_unless,
  execute_with_reconnect, execute_valid, process_message, reconnect_if, keep_alive_on, keep_alive,
  step, run, validate, wait_after, data_of,
}
use roach.Command.Parts.{
  Command, Frame, auth, service_call, ping_message, Client, Exchange, Attempt, ConnectEnd,
  CallError, refused, ValidationError, connected, given_up, retrying, is_kind, Reply, read_result,
  result_error,
}
use roach.Command.Sending.Calls.{
  Call, call_of, calls_in, if_valid, twice, all_twice, drop_first, keep_first, call_service-calls,
  ping-calls, Succeeds,
}

module _ {F : Type 0} (backoff : List ℕ) (token : Text) where
  connect-calls :
      (a : Attempt) (c : Client F) → calls_in (connect backoff token a c).0.sent ≡ calls_in c.sent
  unfolding connect
  connect-calls a c = elim (Bool-cases a.dial_fails) [
    | inl e ↦ rw e
    | inr e ↦ elim (Bool-cases (is_kind (codes "auth_required") a.greeting)) [
      | inr f ↦ rw (e, f)
      | inl f ↦ elim (Bool-cases a.auth_fails) [
        | inl g ↦ rw (e, f, g)
        | inr g ↦ elim (Bool-cases (is_kind (codes "auth_ok") a.answer)) [
          | inl h ↦ rw (e, f, g, h)
          | inr h ↦ rw (e, f, g, h)
        ]
      ]
    ]
  ]

  connect_from-calls :
      (attempt : ℕ) (attempts : List Attempt) (c : Client F)
      → calls_in (connect_from backoff token attempt attempts c).0.sent ≡ calls_in c.sent
  unfolding connect_from
  connect_from-calls attempt [] c = refl
  connect_from-calls attempt (a ∷ attempts) c =
      let c' : Client F = (connect backoff token a c).0 in
      by_case (connect backoff token a c).1 a.is_done a.is_done_waiting
        (connect_from-calls (suc attempt) attempts c' ∙ connect-calls a c)
    where
      c' : Client F
      c' = (connect backoff token a c).0

      rest : Client F × List ℕ × ConnectEnd
      rest = connect_from backoff token (suc attempt) attempts c'

      by_case :
          (p q r : Bool)
          → calls_in rest.0.sent ≡ calls_in c.sent
          → let out : Client F × List ℕ × ConnectEnd =
              if p
              then (c', [], connected)
              else if q
              then (c', [], given_up)
              else if r
              then (c', wait_after backoff attempt ∷ [], given_up)
              else (rest.0, wait_after backoff attempt ∷ rest.1, rest.2) in
            calls_in out.0.sent ≡ calls_in c.sent
      by_case true q r later = connect-calls a c
      by_case false true r later = connect-calls a c
      by_case false false true later = connect-calls a c
      by_case false false false later = later

  reconnect-calls :
      (attempts : List Attempt) (c : Client F)
      → calls_in (connect_with_retry backoff token attempts (clear_connection c)).0.sent
        ≡ calls_in c.sent
  unfolding connect_with_retry clear_connection
  reconnect-calls attempts c = connect_from-calls 0 attempts (record c { connection = none })

  call_again-calls :
      (cmd : Command F) (x : Exchange) (q : Client F × List ℕ × ConnectEnd)
      → Sublist
          (calls_in (call_again backoff token cmd x q).0.sent)
          (call_of cmd ∷ calls_in q.0.sent)
  call_again-calls cmd x (c, waits, connected) =
      by_error (call_service cmd x c) (call_service-calls cmd x c)
    where
      by_error :
          (q : Client F × Option CallError)
          → Sublist (calls_in q.0.sent) (call_of cmd ∷ calls_in c.sent)
          → Sublist (calls_in (as_error backoff token q).0.sent) (call_of cmd ∷ calls_in c.sent)
      by_error (c', none) h = h
      by_error (c', some e) h = h
  call_again-calls cmd x (c, waits, given_up) = drop_first (Sublist.refl (calls_in c.sent))
  call_again-calls cmd x (c, waits, retrying) = drop_first (Sublist.refl (calls_in c.sent))

  reconnect_unless-calls :
      (cmd : Command F) (s : Script) (calls : List (Call F)) (q : Client F × Option CallError)
      → Sublist (calls_in q.0.sent) calls
      → Sublist (calls_in (reconnect_unless backoff token cmd s q).0.sent) (call_of cmd ∷ calls)
  reconnect_unless-calls cmd s calls (c, none) h = drop_first h
  reconnect_unless-calls cmd s calls (c, some e) h =
      Sublist.trans
        (call_again-calls cmd s.second
          (connect_with_retry backoff token s.attempts (clear_connection c)))
        (keep_first (subst (λ xs. Sublist xs calls) (sym (reconnect-calls s.attempts c)) h))

  step-calls :
      (c : Client F) (e : Event F)
      → Sublist (calls_in (step backoff token c e).sent) (twice e ++ calls_in c.sent)
  unfolding step process_message execute_with_reconnect keep_alive
  step-calls c (message none s) = Sublist.refl (calls_in c.sent)
  step-calls c (message (some cmd) s) = by_error (validate cmd)
    where
      by_error :
          (e : Option ValidationError)
          → Sublist
              (calls_in (execute_valid backoff token cmd s c e).sent)
              (if_valid cmd e ++ calls_in c.sent)
      by_error none =
          reconnect_unless-calls cmd s (call_of cmd ∷ calls_in c.sent) (call_service cmd s.first c)
            (call_service-calls cmd s.first c)
      by_error (some e) = Sublist.refl (calls_in c.sent)
  step-calls c (tick x attempts) =
      subst (λ xs. Sublist xs (calls_in c.sent)) (sym (by_connection c.connection))
        (Sublist.refl (calls_in c.sent))
    where
      by_ping :
          (q : Client F × Option CallError)
          → calls_in q.0.sent ≡ calls_in c.sent
          → calls_in (reconnect_if backoff token attempts q).sent ≡ calls_in c.sent
      by_ping (c', none) h = h
      by_ping (c', some e) h = reconnect-calls attempts c' ∙ h

      by_connection :
          (o : Option ℕ)
          → calls_in (keep_alive_on backoff token x attempts c o).sent ≡ calls_in c.sent
      by_connection none = refl
      by_connection (some n) = by_ping (ping x c) (ping-calls x c)

  -- Whatever fails, and whenever the ticker fires: only the commands of valid messages are sent, in
  -- the order of the messages, and each at most twice.
  pub run-calls :
      (c : Client F) (events : List (Event F)) (calls : List (Call F))
      → Sublist (calls_in c.sent) calls
      → Sublist (calls_in (run backoff token c events).sent) (all_twice calls events)
  unfolding run
  run-calls c [] calls h = h
  run-calls c (e ∷ events) calls h =
      run-calls (step backoff token c e) events (twice e ++ calls)
        (Sublist.trans (step-calls c e) (Sublist.append (Sublist.refl (twice e)) h))

  as_error-first : (q : Client F × Option CallError) → (as_error backoff token q).0 ≡ q.0
  as_error-first (c, none) = refl
  as_error-first (c, some e) = refl

  -- The client once the first attempt has succeeded.
  abbrev reconnected : Client F → Client F
  reconnected c = record {
    connection = some c.connections;
    connections = suc c.connections;
    msg_id = 0;
    sent = (c.connections, auth token) ∷ c.sent;
  }

  connect_with_retry_at_once :
      (a : Attempt) (attempts : List Attempt) (c : Client F)
      → Succeeds a
      → connect_with_retry backoff token (a ∷ attempts) c ≡ (reconnected c, [], connected)
  unfolding connect_with_retry connect_from connect
  connect_with_retry_at_once a attempts c (dials, greets, asks, answers) =
      rw (dials, greets, asks, answers)

  call_service_sent :
      (cmd : Command F) (x : Exchange) (c : Client F) (n : ℕ)
      → c.connection ≡ some n
      → x.send_fails ≡ false
      → call_service cmd x c ≡ (
        record c { msg_id = suc c.msg_id; sent = (n, call_frame (suc c.msg_id) cmd) ∷ c.sent },
        result_error (read_result (suc c.msg_id) x.reads),
      )
  unfolding call_service
  call_service_sent cmd x c n o f = ap (call_on cmd x c) o ∙ rw f

  -- A command that Home Assistant refuses, over a connection that works, is sent a second time once
  -- a new connection is there.
  pub execute_with_reconnect_sends_again :
      (cmd : Command F) (s : Script) (c : Client F) (n : ℕ) (r : Reply) (a : Attempt)
      (attempts : List Attempt)
      → c.connection ≡ some n
      → s.first.send_fails ≡ false
      → read_result (suc c.msg_id) s.first.reads ≡ some r
      → r.success ≡ false
      → s.attempts ≡ a ∷ attempts
      → Succeeds a
      → s.second.send_fails ≡ false
      → calls_in (execute_with_reconnect backoff token cmd s c).0.sent
        ≡ call_of cmd ∷ call_of cmd ∷ calls_in c.sent
  unfolding execute_with_reconnect clear_connection
  execute_with_reconnect_sends_again cmd s c n r a attempts o f g refuses tries succeeds again =
      let c1 : Client F = record c {
        msg_id = suc c.msg_id;
        sent = (n, call_frame (suc c.msg_id) cmd) ∷ c.sent;
      } in
      let cleared : Client F = record c1 { connection = none } in
      let c2 : Client F = reconnected cleared in
      let fails : result_error (read_result (suc c.msg_id) s.first.reads) ≡ some (refused r.error) =
        ap result_error g ∙ rw refuses in
      let first : call_service cmd s.first c ≡ (c1, some (refused r.error)) =
        call_service_sent cmd s.first c n o f ∙ ap (λ e. (c1, e)) fails in
      let connects : connect_with_retry backoff token s.attempts cleared ≡ (c2, [], connected) =
        ap (λ xs. connect_with_retry backoff token xs cleared) tries
        ∙ connect_with_retry_at_once a attempts cleared succeeds in
      let second = call_service_sent cmd s.second c2 c1.connections refl again in
      ap (λ q. calls_in (reconnect_unless backoff token cmd s q).0.sent) first
      ∙ ap (λ q. calls_in (call_again backoff token cmd s.second q).0.sent) connects
      ∙ ap (λ (c' : Client F). calls_in c'.sent) (as_error-first (call_service cmd s.second c2))
      ∙ ap (λ (q : Client F × Option CallError). calls_in q.0.sent) second
