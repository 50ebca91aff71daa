-- ===== src/Command/Parts.antt =====
-- services/homeassistant-command: the commands of models/command.go and their errors, and the connection of ha/client.go with the replies that it reads.
use roach.Base.{
  ℕ, Text, Bool, true, false, ◌&&◌, ◌==◌, List, [], ◌∷◌, Option, none, some, if◌then◌else◌,
  text_beq,
}
use roach.Base.Strings.{codes}
use roach.Models.{Object}

pub record Command (F : Type 0) : Type 0 where
  pub domain : Text
  pub service : Text
  pub entity_id : Text
  pub service_data : Object F

pub data ValidationError : Type 0 where
  domain_required service_required entity_id_required : ValidationError

-- What is sent; the field service_data is left out where there is none.
pub data Frame (F : Type 0) : Type 0 where
  auth : Text → Frame F
  service_call : ℕ → Text → Text → Text → Option (Object F) → Frame F
  ping_message : ℕ → Frame F

-- A message of Home Assistant, with the fields that the code reads.
pub record Reply : Type 0 where
  pub kind : Text
  pub id : ℕ
  pub success : Bool
  pub error : Option (Text × Text)

pub data Incoming : Type 0 where
  read_failed not_json : Incoming
  reply : Reply → Incoming

-- `connection` is the number of the open connection, counted over all that were dialled; `sent` is
-- what was sent on which connection, the latest first.
pub record Client (F : Type 0) : Type 0 where
  pub connection : Option ℕ
  pub connections : ℕ
  pub msg_id : ℕ
  pub sent : List (ℕ × Frame F)

pub data CallError : Type 0 where
  not_connected send_failed result_missing : CallError
  refused : Option (Text × Text) → CallError

-- What happens while a message is sent and its answer read.
pub record Exchange : Type 0 where
  pub send_fails : Bool
  pub reads : List Incoming

-- One attempt to connect; the context may be done after it, or during the wait that follows.
pub record Attempt : Type 0 where
  pub dial_fails : Bool
  pub greeting : Incoming
  pub auth_fails : Bool
  pub answer : Incoming
  pub is_done : Bool
  pub is_done_waiting : Bool

-- How ConnectWithRetry ends; `retrying` where no more attempts are given.
pub data ConnectEnd : Type 0 where
  connected given_up retrying : ConnectEnd

pub data ExecuteError : Type 0 where
  call_failed : CallError → ExecuteError
  reconnect_failed still_connecting : ExecuteError

abbrev pub is_empty : Text → Bool
is_empty [] = true
is_empty (c ∷ s) = false

abbrev pub is_kind : Text → Incoming → Bool
is_kind kind read_failed = false
is_kind kind not_json = false
is_kind kind (reply r) = text_beq r.kind kind

-- The first message of a kind with an id; all others are passed over.
unfoldable pub read_reply : Text → ℕ → List Incoming → Option Reply
read_reply kind id [] = none
read_reply kind id (read_failed ∷ reads) = none
read_reply kind id (not_json ∷ reads) = read_reply kind id reads
read_reply kind id (reply r ∷ reads) =
    if text_beq r.kind kind && (r.id == id) then some r else read_reply kind id reads

-- readResult
abbrev pub read_result : ℕ → List Incoming → Option Reply
read_result = read_reply (codes "result")

abbrev pub result_error : Option Reply → Option CallError
result_error none = some result_missing
result_error (some r) = if r.success then none else some (refused r.error)

abbrev pub pong_error : Option Reply → Option CallError
pong_error none = some result_missing
pong_error (some r) = none
