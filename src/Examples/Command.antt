-- ===== src/Examples/Command.antt =====
-- services/homeassistant-command at concrete inputs.
use mathlib.Core.List.{Sublist}
use mathlib.Core.List.Sublist
use roach.Base.{ℕ, ◌≡◌, refl, true, false, List, [], ◌∷◌, none, some, Text}
use roach.Base.Strings.{codes}
use roach.Models.{number}
use roach.Command.{Script, Event, message, tick, run, start, execute_with_reconnect, validate}
use roach.Command.Parts.{
  Command, auth, Client, Reply, Incoming, reply, not_json, read_failed, Attempt, read_reply,
}
use roach.Command.Sending.{run-calls, execute_with_reconnect_sends_again}
use roach.Command.Sending.Calls.{calls_in, call_of, all_twice}
use roach.Command.Numbering.{grows-start}
use roach.Command.Numbering.Frames.{grows}

abbrev set_temperature : Command ℕ
set_temperature = record {
  domain = codes "climate";
  service = codes "set_temperature";
  entity_id = codes "climate.sneaux";
  service_data = (codes "temperature", number 72) ∷ [];
}

abbrev no_entity : Command ℕ
no_entity = record set_temperature { entity_id = [] }

abbrev message_of_kind : Text → Incoming
message_of_kind kind = reply (record { kind = kind; id = 0; success = false; error = none })

abbrev works : Attempt
works = record {
  dial_fails = false;
  greeting = message_of_kind (codes "auth_required");
  auth_fails = false;
  answer = message_of_kind (codes "auth_ok");
  is_done = false;
  is_done_waiting = false;
}

abbrev refusal : Reply
refusal = record {
  kind = codes "result";
  id = 1;
  success = false;
  error = some (codes "not_found", codes "no such entity");
}

-- An event of another kind comes first, then the refusal of the command.
abbrev refused_once : Script
refused_once = record {
  first = record {
    send_fails = false;
    reads = message_of_kind (codes "event") ∷ not_json ∷ reply refusal ∷ [];
  };
  attempts = works ∷ [];
  second = record { send_fails = false; reads = read_failed ∷ [] };
}

abbrev token : Text
token = codes "secret"

abbrev client : Client ℕ
client = record { connection = some 0; connections = 1; msg_id = 0; sent = (0, auth token) ∷ [] }

abbrev events : List (Event ℕ)
events =
    message (some set_temperature) refused_once
    ∷ message (some no_entity) refused_once
    ∷ tick (record { send_fails = false; reads = [] }) (works ∷ [])
    ∷ message none refused_once
    ∷ []

run-calls_example :
    Sublist
      (calls_in (run (1 ∷ 5 ∷ []) token client events).sent)
      (all_twice (calls_in client.sent) events)
run-calls_example =
    run-calls (1 ∷ 5 ∷ []) token client events (calls_in client.sent)
      (Sublist.refl (calls_in client.sent))

-- Of these, the first is sent twice, and no other is sent.
only_valid :
    all_twice (calls_in client.sent) events ≡ call_of set_temperature ∷ call_of set_temperature ∷ []
unfolding validate
only_valid = refl

execute_with_reconnect_sends_again_example :
    calls_in (execute_with_reconnect (1 ∷ 5 ∷ []) token set_temperature refused_once client).0.sent
    ≡ call_of set_temperature ∷ call_of set_temperature ∷ []
unfolding read_reply
execute_with_reconnect_sends_again_example =
    execute_with_reconnect_sends_again (1 ∷ 5 ∷ []) token set_temperature refused_once client 0
      refusal works [] refl refl refl refl refl (refl, refl, refl, refl) refl

grows-start_example : grows (start (1 ∷ 5 ∷ []) token (works ∷ []) events).sent ≡ true
grows-start_example = grows-start (1 ∷ 5 ∷ []) token (works ∷ []) events
