-- ===== src/Command/Numbering.antt =====
-- The numbers of the messages that services/homeassistant-command sends.
pub mod Frames
use roach.Base.{
  ℕ, suc, ◌≡◌, ◌==◌, refl, sym, subst, Text, Bool, true, false, ◌&&◌, ◌||◌, not, ltb, List, [], ◌∷◌,
  Option, none, some, arith, if◌then◌else◌, Bool-cases, inl, inr,
}
use roach.Base.Strings.{codes}
use roach.Command.{
  Script, Event, message, tick, call_frame, call_on, call_service, ping_on, ping, clear_connection,
  connect, connect_from, connect_with_retry, call_again, reconnect_unless, execute_with_reconnect,
  process_message, keep_alive, step, run, new_client, start_from, start, as_error, execute_valid,
  reconnect_if, keep_alive_on, wait_after, validate,
}
use roach.Command.Parts.{
  Command, Frame, auth, service_call, ping_message, Client, Exchange, Attempt, ConnectEnd,
  CallError, ValidationError, connected, given_up, retrying, is_kind,
}
use roach.Command.Numbering.Frames.{
  grows, opened, IsNumbered, below_new, opened_more, clear-IsNumbered, call_service-IsNumbered,
  ping-IsNumbered,
}

module _ {F : Type 0} (backoff : List ℕ) (token : Text) where
  connect-IsNumbered :
      (a : Attempt) (c : Client F) → IsNumbered c → IsNumbered (connect backoff token a c).0
  unfolding connect
  connect-IsNumbered a c h =
      by_case a.dial_fails (is_kind (codes "auth_required") a.greeting) a.auth_fails
        (is_kind (codes "auth_ok") a.answer)
    where
      n : ℕ
      n = c.connections

      dialled : Client F
      dialled = record c { connection = none; connections = suc n }

      asked : Client F
      asked = record dialled { sent = (n, auth token) ∷ c.sent }

      past : opened (suc n) asked.sent ≡ true
      past = ground (arith, opened_more n c.sent h.past)

      growing : grows asked.sent ≡ true
      growing = ground (arith, below_new n 0 c.sent h.past, h.growing)

      dialled-IsNumbered : IsNumbered dialled
      dialled-IsNumbered = record {
        past = opened_more n c.sent h.past;
        present = refl;
        growing = h.growing;
      }

      by_case :
          (p q r s : Bool)
          → let out : Client F × Bool =
              if p
              then (record c { connection = none }, false)
              else if q
              then if r
                then (dialled, false)
                else if s
                then (record asked { connection = some n; msg_id = 0 }, true)
                else (asked, false)
              else (dialled, false) in
            IsNumbered out.0
      by_case true q r s = record { past = h.past; present = refl; growing = h.growing }
      by_case false true true s = dialled-IsNumbered
      by_case false true false true = record {
        past = past;
        present = ground (arith, below_new n 1 c.sent h.past);
        growing = growing;
      }
      by_case false true false false = record { past = past; present = refl; growing = growing }
      by_case false false r s = dialled-IsNumbered

  connect_from-IsNumbered :
      (attempt : ℕ) (attempts : List Attempt) (c : Client F)
      → IsNumbered c
      → IsNumbered (connect_from backoff token attempt attempts c).0
  unfolding connect_from
  connect_from-IsNumbered attempt [] c h = h
  connect_from-IsNumbered attempt (a ∷ attempts) c h =
      by_case (connect backoff token a c).1 a.is_done a.is_done_waiting (
        connect_from-IsNumbered (suc attempt) attempts (connect backoff token a c).0
          (connect-IsNumbered a c h))
    where
      c' : Client F
      c' = (connect backoff token a c).0

      now : IsNumbered c'
      now = connect-IsNumbered a c h

      rest : Client F × List ℕ × ConnectEnd
      rest = connect_from backoff token (suc attempt) attempts c'

      by_case :
          (p q r : Bool)
          → IsNumbered rest.0
          → let out : Client F × List ℕ × ConnectEnd =
              if p
              then (c', [], connected)
              else if q
              then (c', [], given_up)
              else if r
              then (c', wait_after backoff attempt ∷ [], given_up)
              else (rest.0, wait_after backoff attempt ∷ rest.1, rest.2) in
            IsNumbered out.0
      by_case true q r later = now
      by_case false true r later = now
      by_case false false true later = now
      by_case false false false later = later

  connect_with_retry-IsNumbered :
      (attempts : List Attempt) (c : Client F)
      → IsNumbered c
      → IsNumbered (connect_with_retry backoff token attempts c).0
  unfolding connect_with_retry
  connect_with_retry-IsNumbered attempts c = connect_from-IsNumbered 0 attempts c

  call_again-IsNumbered :
      (cmd : Command F) (x : Exchange) (q : Client F × List ℕ × ConnectEnd)
      → IsNumbered q.0
      → IsNumbered (call_again backoff token cmd x q).0
  call_again-IsNumbered cmd x (c, waits, connected) h =
      by_error (call_service cmd x c) (call_service-IsNumbered cmd x c h)
    where
      by_error :
          (q : Client F × Option CallError)
          → IsNumbered q.0
          → IsNumbered (as_error backoff token q).0
      by_error (c, none) h = h
      by_error (c, some e) h = h
  call_again-IsNumbered cmd x (c, waits, given_up) h = h
  call_again-IsNumbered cmd x (c, waits, retrying) h = h

  reconnect_unless-IsNumbered :
      (cmd : Command F) (s : Script) (q : Client F × Option CallError)
      → IsNumbered q.0
      → IsNumbered (reconnect_unless backoff token cmd s q).0
  reconnect_unless-IsNumbered cmd s (c, none) h = h
  reconnect_unless-IsNumbered cmd s (c, some e) h =
      call_again-IsNumbered cmd s.second
        (connect_with_retry backoff token s.attempts (clear_connection c))
        (connect_with_retry-IsNumbered s.attempts (clear_connection c) (clear-IsNumbered c h))

  process_message-IsNumbered :
      (body : Option (Command F)) (s : Script) (c : Client F)
      → IsNumbered c
      → IsNumbered (process_message backoff token body s c)
  unfolding process_message execute_with_reconnect
  process_message-IsNumbered none s c h = h
  process_message-IsNumbered (some cmd) s c h = by_error (validate cmd)
    where
      by_error : (e : Option ValidationError) → IsNumbered (execute_valid backoff token cmd s c e)
      by_error none =
          reconnect_unless-IsNumbered cmd s (call_service cmd s.first c)
            (call_service-IsNumbered cmd s.first c h)
      by_error (some e) = h

  keep_alive-IsNumbered :
      (x : Exchange) (attempts : List Attempt) (c : Client F)
      → IsNumbered c
      → IsNumbered (keep_alive backoff token x attempts c)
  unfolding keep_alive
  keep_alive-IsNumbered x attempts c h = by_connection c.connection
    where
      by_ping :
          (q : Client F × Option CallError)
          → IsNumbered q.0
          → IsNumbered (reconnect_if backoff token attempts q)
      by_ping (c, none) h = h
      by_ping (c, some e) h =
          connect_with_retry-IsNumbered attempts (clear_connection c) (clear-IsNumbered c h)

      by_connection : (o : Option ℕ) → IsNumbered (keep_alive_on backoff token x attempts c o)
      by_connection none = h
      by_connection (some n) = by_ping (ping x c) (ping-IsNumbered x c h)

  run-IsNumbered :
      (c : Client F) (events : List (Event F))
      → IsNumbered c
      → IsNumbered (run backoff token c events)
  unfolding run step
  run-IsNumbered c [] h = h
  run-IsNumbered c (message body s ∷ events) h =
      run-IsNumbered (process_message backoff token body s c) events
        (process_message-IsNumbered body s c h)
  run-IsNumbered c (tick x attempts ∷ events) h =
      run-IsNumbered (keep_alive backoff token x attempts c) events
        (keep_alive-IsNumbered x attempts c h)

  -- From Start on, whatever commands come and whatever fails, as long as no tick of the keepalive comes
  -- while a command is handled: on each connection the numbers of the messages sent grow strictly,
  -- from 0 for the authentication.
  pub grows-start :
      (attempts : List Attempt) (events : List (Event F))
      → grows (start backoff token attempts events).sent ≡ true
  unfolding start
  grows-start attempts events =
      by_end (connect_with_retry backoff token attempts (new_client backoff token)) (
        connect_with_retry-IsNumbered attempts (new_client backoff token)
          (record { past = refl; present = refl; growing = refl }))
    where
      by_end :
          (q : Client F × List ℕ × ConnectEnd)
          → IsNumbered q.0
          → grows (start_from backoff token events q).sent ≡ true
      by_end (c, waits, connected) h = (run-IsNumbered c events h).growing
      by_end (c, waits, given_up) h = h.growing
      by_end (c, waits, retrying) h = h.growing
