-- ===== src/Command.antt =====
-- services/homeassistant-command: models/command.go, ha/client.go and service/service.go. The service
-- takes commands from Kafka and sends them to Home Assistant over a websocket. What the socket, the
-- dialer and the context give while one function runs is an argument; a read that runs into its
-- deadline is one that fails. A duration is in seconds.
pub mod Parts
pub mod Sending
pub mod Numbering
use roach.Base.{
  ℕ, suc, ◌-◌, Text, Bool, true, false, ◌&&◌, ◌==◌, List, [], ◌∷◌, ◌++◌, Option, none, some,
  if◌then◌else◌, text_beq, length, get_or, ltb,
}
use roach.Base.Strings.{codes}
use roach.Models.{Object}
use roach.Command.Parts.{
  Command, ValidationError, Frame, auth, service_call, ping_message, Client, CallError, Exchange,
  Attempt, ConnectEnd, ExecuteError, call_failed, is_empty, is_kind, read_reply, read_result,
  result_error, pong_error, domain_required, service_required, entity_id_required, not_connected,
  send_failed, connected, given_up, retrying, reconnect_failed, still_connecting,
}

module _ {F : Type 0} where
  -- Command.Validate
  unfoldable pub validate : Command F → Option ValidationError
  validate cmd =
      if is_empty cmd.domain
      then some domain_required
      else if is_empty cmd.service
      then some service_required
      else if is_empty cmd.entity_id
      then some entity_id_required
      else none

  abbrev pub data_of : Object F → Option (Object F)
  data_of [] = none
  data_of (e ∷ es) = some (e ∷ es)

  abbrev pub call_frame : ℕ → Command F → Frame F
  call_frame id cmd =
      service_call id cmd.domain cmd.service cmd.entity_id (data_of cmd.service_data)

  -- CallService
  abbrev pub call_on : Command F → Exchange → Client F → Option ℕ → Client F × Option CallError
  call_on cmd x c none = (c, some not_connected)
  call_on cmd x c (some n) =
      let id = suc c.msg_id in
      if x.send_fails then (record c { msg_id = id }, some send_failed) else (
        record c { msg_id = id; sent = (n, call_frame id cmd) ∷ c.sent },
        result_error (read_result id x.reads),
      )

  unfoldable pub call_service : Command F → Exchange → Client F → Client F × Option CallError
  call_service cmd x c = call_on cmd x c c.connection

  -- Ping
  abbrev pub ping_on : Exchange → Client F → Option ℕ → Client F × Option CallError
  ping_on x c none = (c, some not_connected)
  ping_on x c (some n) =
      let id = suc c.msg_id in
      if x.send_fails then (record c { msg_id = id }, some send_failed) else (
        record c { msg_id = id; sent = (n, ping_message id) ∷ c.sent },
        pong_error (read_reply (codes "pong") id x.reads),
      )

  unfoldable pub ping : Exchange → Client F → Client F × Option CallError
  ping x c = ping_on x c c.connection

  -- ClearConnection
  unfoldable pub clear_connection : Client F → Client F
  clear_connection c = record c { connection = none }

-- The wait after an attempt, for a backoff that is not empty.
abbrev pub wait_after : List ℕ → ℕ → ℕ
wait_after backoff attempt =
    if ltb attempt (length backoff)
    then get_or backoff attempt 0
    else get_or backoff (length backoff - 1) 0

-- `backoff` is not empty; `token` is the access token.
module _ {F : Type 0} (backoff : List ℕ) (token : Text) where
  -- Connect; the flag says whether it succeeds.
  unfoldable pub connect : Attempt → Client F → Client F × Bool
  connect a c =
      let n = c.connections in
      let dialled = record c { connection = none; connections = suc n } in
      let asked = record dialled { sent = (n, auth token) ∷ c.sent } in
      if a.dial_fails
      then (record c { connection = none }, false)
      else if is_kind (codes "auth_required") a.greeting
      then if a.auth_fails
        then (dialled, false)
        else if is_kind (codes "auth_ok") a.answer
        then (record asked { connection = some n; msg_id = 0 }, true)
        else (asked, false)
      else (dialled, false)

  -- ConnectWithRetry from an attempt on: the client, the waits and the end.
  unfoldable pub connect_from : ℕ → List Attempt → Client F → Client F × List ℕ × ConnectEnd
  connect_from attempt [] c = (c, [], retrying)
  connect_from attempt (a ∷ attempts) c =
      let (c', ok) = connect a c in
      let (c'', waits, ending) = connect_from (suc attempt) attempts c' in
      if ok
      then (c', [], connected)
      else if a.is_done
      then (c', [], given_up)
      else if a.is_done_waiting
      then (c', wait_after backoff attempt ∷ [], given_up)
      else (c'', wait_after backoff attempt ∷ waits, ending)

  unfoldable pub connect_with_retry : List Attempt → Client F → Client F × List ℕ × ConnectEnd
  connect_with_retry attempts c = connect_from 0 attempts c

-- What happens while one command is executed.
pub record Script : Type 0 where
  pub first : Exchange
  pub attempts : List Attempt
  pub second : Exchange

module _ {F : Type 0} (backoff : List ℕ) (token : Text) where
  abbrev pub as_error : Client F × Option CallError → Client F × Option ExecuteError
  as_error (c, none) = (c, none)
  as_error (c, some e) = (c, some (call_failed e))

  abbrev pub call_again :
      Command F → Exchange → Client F × List ℕ × ConnectEnd → Client F × Option ExecuteError
  call_again cmd x (c, waits, connected) = as_error (call_service cmd x c)
  call_again cmd x (c, waits, given_up) = (c, some reconnect_failed)
  call_again cmd x (c, waits, retrying) = (c, some still_connecting)

  abbrev pub reconnect_unless :
      Command F → Script → Client F × Option CallError → Client F × Option ExecuteError
  reconnect_unless cmd s (c, none) = (c, none)
  reconnect_unless cmd s (c, some e) =
      call_again cmd s.second (connect_with_retry backoff token s.attempts (clear_connection c))

  -- executeWithReconnect
  unfoldable pub execute_with_reconnect :
      Command F → Script → Client F → Client F × Option ExecuteError
  execute_with_reconnect cmd s c = reconnect_unless cmd s (call_service cmd s.first c)

  -- processMessage; a body that is not JSON or not valid is only logged, and so is an error.
  abbrev pub execute_valid : Command F → Script → Client F → Option ValidationError → Client F
  execute_valid cmd s c none = (execute_with_reconnect cmd s c).0
  execute_valid cmd s c (some e) = c

  unfoldable pub process_message : Option (Command F) → Script → Client F → Client F
  process_message none s c = c
  process_message (some cmd) s c = execute_valid cmd s c (validate cmd)

  -- One tick of keepAlive.
  abbrev pub reconnect_if : List Attempt → Client F × Option CallError → Client F
  reconnect_if attempts (c, none) = c
  reconnect_if attempts (c, some e) =
      (connect_with_retry backoff token attempts (clear_connection c)).0

  abbrev pub keep_alive_on : Exchange → List Attempt → Client F → Option ℕ → Client F
  keep_alive_on x attempts c none = c
  keep_alive_on x attempts c (some n) = reconnect_if attempts (ping x c)

  unfoldable pub keep_alive : Exchange → List Attempt → Client F → Client F
  keep_alive x attempts c = keep_alive_on x attempts c c.connection

-- Start takes a message, or the ticker of keepAlive fires; one ends before the other begins.
pub data Event (F : Type 0) : Type 0 where
  message : Option (Command F) → Script → Event F
  tick : Exchange → List Attempt → Event F

module _ {F : Type 0} (backoff : List ℕ) (token : Text) where
  unfoldable pub step : Client F → Event F → Client F
  step c (message body s) = process_message backoff token body s c
  step c (tick x attempts) = keep_alive backoff token x attempts c

  unfoldable pub run : Client F → List (Event F) → Client F
  run c [] = c
  run c (e ∷ events) = run (step c e) events

  -- NewClient
  abbrev pub new_client : Client F
  new_client = record { connection = none; connections = 0; msg_id = 0; sent = [] }

  -- Start: the first connection, and what follows unless the context is done before it is there.
  abbrev pub start_from : List (Event F) → Client F × List ℕ × ConnectEnd → Client F
  start_from events (c, waits, connected) = run c events
  start_from events (c, waits, given_up) = c
  start_from events (c, waits, retrying) = c

  unfoldable pub start : List Attempt → List (Event F) → Client F
  start attempts events = start_from events (connect_with_retry backoff token attempts new_client)
