-- ===== src/Command/Sending/Calls.antt =====
-- services/homeassistant-command: the calls among the messages sent, and what one exchange adds.
use mathlib.Core.List.{Sublist, nil-sublist}
use mathlib.Core.List.Sublist
use roach.Base.{
  ℕ, ◌≡◌, refl, Text, true, false, List, [], ◌∷◌, ◌++◌, Option, none, some, Bool-cases, inl, inr,
}
use roach.Base.Strings.{codes}
use roach.Models.{Object}
use roach.Command.{Event, message, tick, call_on, call_service, ping_on, ping, validate, data_of}
use roach.Command.Parts.{
  Command, Frame, auth, service_call, ping_message, Client, Exchange, Attempt, ValidationError,
  is_kind,
}

-- A call without its number.
abbrev pub Call : Type 0 → Type 0
Call F = Text × Text × Text × Option (Object F)

module _ {F : Type 0} where
  abbrev pub call_of : Command F → Call F
  call_of cmd = (cmd.domain, cmd.service, cmd.entity_id, data_of cmd.service_data)

  -- The calls among the messages sent, the latest first.
  abbrev pub calls_in : List (ℕ × Frame F) → List (Call F)
  calls_in [] = []
  calls_in ((n, auth token) ∷ sent) = calls_in sent
  calls_in ((n, service_call id domain service entity payload) ∷ sent) =
      (domain, service, entity, payload) ∷ calls_in sent
  calls_in ((n, ping_message id) ∷ sent) = calls_in sent

  abbrev pub if_valid : Command F → Option ValidationError → List (Call F)
  if_valid cmd none = call_of cmd ∷ call_of cmd ∷ []
  if_valid cmd (some e) = []

  -- Twice the command of a message, if it is valid.
  abbrev pub twice : Event F → List (Call F)
  twice (message none s) = []
  twice (message (some cmd) s) = if_valid cmd (validate cmd)
  twice (tick x attempts) = []

  -- The commands of the messages twice each, the latest first.
  abbrev pub all_twice : List (Call F) → List (Event F) → List (Call F)
  all_twice calls [] = calls
  all_twice calls (e ∷ events) = all_twice (twice e ++ calls) events

  pub drop_first : {c : Call F} {xs ys : List (Call F)} → Sublist xs ys → Sublist xs (c ∷ ys)
  drop_first {c} h = Sublist.append (nil-sublist (c ∷ [])) h

  pub keep_first : {c : Call F} {xs ys : List (Call F)} → Sublist xs ys → Sublist (c ∷ xs) (c ∷ ys)
  keep_first {c} h = Sublist.append (Sublist.refl (c ∷ [])) h

  pub call_service-calls :
      (cmd : Command F) (x : Exchange) (c : Client F)
      → Sublist (calls_in (call_service cmd x c).0.sent) (call_of cmd ∷ calls_in c.sent)
  unfolding call_service
  call_service-calls cmd x c = by_connection c.connection
    where
      by_connection :
          (o : Option ℕ)
          → Sublist (calls_in (call_on cmd x c o).0.sent) (call_of cmd ∷ calls_in c.sent)
      by_connection none = drop_first (Sublist.refl (calls_in c.sent))
      by_connection (some n) = elim (Bool-cases x.send_fails) [
        | inl e ↦ rw e (drop_first (Sublist.refl (calls_in c.sent)))
        | inr e ↦ rw e (Sublist.refl (call_of cmd ∷ calls_in c.sent))
      ]

  pub ping-calls : (x : Exchange) (c : Client F) → calls_in (ping x c).0.sent ≡ calls_in c.sent
  unfolding ping
  ping-calls x c = by_connection c.connection
    where
      by_connection : (o : Option ℕ) → calls_in (ping_on x c o).0.sent ≡ calls_in c.sent
      by_connection none = refl
      by_connection (some n) = elim (Bool-cases x.send_fails) [ inl e ↦ rw e | inr e ↦ rw e ]

-- The dialer, both messages of Home Assistant and the message in between work.
abbrev pub Succeeds : Attempt → Type 0
Succeeds a =
    (a.dial_fails ≡ false)
    × (is_kind (codes "auth_required") a.greeting ≡ true)
    × (a.auth_fails ≡ false)
    × (is_kind (codes "auth_ok") a.answer ≡ true)
