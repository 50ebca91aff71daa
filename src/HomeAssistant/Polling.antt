-- ===== src/HomeAssistant/Polling.antt =====
-- services/homeassistant-kafka/service/service.go: which messages a round of pollLoop makes.
use roach.Base.{
  ℕ, ◌≡◌, ◌≢◌, refl, ap, text_beq, Bool, true, false, ◌&&◌, not, List, [], ◌∷◌, Option, none, some,
  if◌then◌else◌, Text, text_beq_iff, text_eq, arith, map, select,
}
use roach.Base.Assoc.{lookup, insert, Distinct, insert-Distinct, Every, Every-lookup}
use roach.HomeAssistant.News.{IsEcobee, IsNews}
use roach.HomeAssistant.{
  HaState, Service, Message, is_ecobee_entity, message_of, is_empty, state_changed, previous_state,
  polled_event, is_news, emit_state_changes, by_entity, poll,
}

state_changed_same : (s : HaState) → state_changed s s ≡ false
unfolding state_changed
state_changed_same s = ground (
  arith,
  text_beq_iff s.state s.state,
  text_beq_iff s.last_changed s.last_changed,
  text_beq_iff s.last_updated s.last_updated,
)

abbrev IsNamed : Text → HaState → Type 0
IsNamed entity_id state = entity_id ≡ state.entity_id

by_entity-Distinct :
    (states : List HaState) (m : List (Text × HaState)) → Distinct m → Distinct (by_entity states m)
unfolding by_entity
by_entity-Distinct [] m d = d
by_entity-Distinct (state ∷ states) m d =
    by_entity-Distinct states (insert state.entity_id state m)
      (insert-Distinct state.entity_id state m d)

neither : (b : Bool) (xs ys : List Message) → ys ≡ [] → (if b && false then xs else ys) ≡ []
neither true xs ys h = h
neither false xs ys h = h

emit_nothing :
    (s : Service) (now : ℕ) (m current : List (Text × HaState))
    → Every (λ k v. lookup k m ≡ some v) current
    → emit_state_changes s now (some m) current ≡ []
unfolding emit_state_changes
emit_nothing s now m [] e = refl
emit_nothing s now m ((k, v) ∷ current) e =
    let same = state_changed_same v in
    rw (e.0, same) (neither (is_ecobee_entity s k) _ _ (emit_nothing s now m current e.1))

-- A poll that answers what the poll before it answered publishes nothing, and keeps what it has.
pub poll_again :
    (s : Service) (now later : ℕ) (states : List HaState)
    (previous : Option (List (Text × HaState)))
    → poll s later (some states) (poll s now (some states) previous).0
      ≡ ((poll s now (some states) previous).0, [])
unfolding poll
poll_again s now later states previous =
    let m = by_entity states [] in
    ap (λ (ms : List Message). (some m, ms))
      (emit_nothing s later m m (Every-lookup m (by_entity-Distinct states [] tt)))

-- What is published of an answer.
abbrev pub is_published : Service → Option (List (Text × HaState)) → Text × HaState → Bool
is_published s previous (entity_id, state) =
    not (is_empty entity_id)
    && (is_ecobee_entity s entity_id && is_news (previous_state previous entity_id) state)

abbrev pub published : ℕ → Option (List (Text × HaState)) → Text × HaState → Message
published now previous (entity_id, state) =
    message_of now (polled_event now entity_id (previous_state previous entity_id) state) entity_id
      state

abbrev pub polled :
    Service
    → ℕ
    → Option (List (Text × HaState))
    → Option (List HaState)
    → Option (List (Text × HaState)) × List Message
polled s now previous none = (previous, [])
polled s now previous (some states) = (
  some (by_entity states []),
  map (published now previous) (select (is_published s previous) (by_entity states [])),
)

-- The last state that an answer has of an entity.
abbrev pub last_state : Text → List HaState → Option HaState
last_state k [] = none
last_state k (state ∷ states) = elim (last_state k states) [
  | some later ↦ some later
  | none ↦ if text_beq state.entity_id k then some state else none
]

abbrev or_before : Option HaState → Option HaState → Option HaState
or_before none before = before
or_before (some state) before = some state

-- The entities that the answer's poll is to publish.
abbrev pub IsToPublish : Service → Option (List (Text × HaState)) → Text → HaState → Type 0
IsToPublish s previous k new =
    (k ≢ [])
    × IsEcobee s.entity_filter s.discovered_entities k
    × IsNews (previous_state previous k) new
