-- ===== src/Domain/Conference.antt =====
-- internal/domain/domain.go: `Conference` and its methods. A method that mutates the receiver
-- returns the new record; on a refusal the caller keeps the old one.
use hoersaal.Base.{
  ℕ, Bool, true, false, ◌||◌, not, Option, none, some, List, [], ◌∷◌, Result, ok, err,
  if◌then◌else◌, ◌==◌, length, ◌>>◌, refuse_if,
}
use hoersaal.Text.{Text, is_empty, text_eq, pair_eq, sort_by}
use hoersaal.Dict.{Dict, lookup, insert, values}
use hoersaal.Domain.Model.{
  Error, empty, unknown, duplicate, elsewhere, own_source, no_layer, ParticipantId, IdentityId,
  ConferenceId, SourceId, Participant, Source, Subscription, outside,
}

-- The pair a subscription is unique in: its subscriber and its source.
abbrev pub Reception : Type 0
Reception = Text × Text

pub record Conference : Type 0 where
  pub id : ConferenceId
  pub participants : Dict ParticipantId Participant
  pub sources : Dict SourceId Source
  pub subscriptions : Dict Reception Subscription

unfoldable pub new_conference : ConferenceId → Result Error Conference
new_conference id =
    if is_empty id
    then err empty
    else ok (record { id = id; participants = []; sources = []; subscriptions = [] })

-- `_, held := m[k]`
abbrev pub is_some {ℓ} : {A : Type ℓ} → Option A → Bool
is_some none = false
is_some (some a) = true

unfoldable pub admit : Conference → Participant → Result Error Conference
admit c p = do
  refuse_if (is_empty p.id) empty
  refuse_if (not (p.conference == c.id)) elsewhere
  refuse_if (is_some (lookup p.id c.participants)) duplicate
  ok (record c { participants = insert p.id p c.participants })

unfoldable pub publish : Conference → Source → Result Error Conference
publish c s = do
  refuse_if (is_empty s.id) empty
  refuse_if (not (is_some (lookup s.publisher c.participants))) unknown
  refuse_if (is_some (lookup s.id c.sources)) duplicate
  ok (record c { sources = insert s.id s c.sources })

-- The checks of `Subscribe` against the source that the conference holds.
unfoldable pub subscribe_held : Conference → Subscription → Option Source → Result Error Conference
subscribe_held c s none = err unknown
subscribe_held c s (some held) = do
  refuse_if (s.subscriber == held.publisher) own_source
  refuse_if (outside s.layer held.layers) no_layer
  ok (record c { subscriptions = insert (s.subscriber, s.source) s c.subscriptions })

unfoldable pub subscribe : Conference → Subscription → Result Error Conference
unfolding subscribe_held
subscribe c s = do
  refuse_if (is_empty s.subscriber || is_empty s.source) empty
  refuse_if (not (is_some (lookup s.subscriber c.participants))) unknown
  subscribe_held c s (lookup s.source c.sources)

unfoldable pub participant : Conference → ParticipantId → Option Participant
participant c id = lookup id c.participants

unfoldable pub source : Conference → SourceId → Option Source
source c id = lookup id c.sources

unfoldable pub participant_count : Conference → ℕ
participant_count c = length c.participants

-- The loop of `IdentityCount` over the participants, with the set `seen`.
unfoldable pub see_identities :
    Dict IdentityId (Unit {0}) → List Participant → Dict IdentityId (Unit {0})
see_identities seen [] = seen
see_identities seen (p ∷ ps) = see_identities (insert p.identity tt seen) ps

unfoldable pub identity_count : Conference → ℕ
unfolding see_identities
identity_count c = length (see_identities [] (values c.participants))

-- The loop of `Reception` over the map, before the sort.
unfoldable pub received_by : ParticipantId → Dict Reception Subscription → List Subscription
received_by subscriber [] = []
received_by subscriber (((who, what), s) ∷ m) =
    if who == subscriber then s ∷ received_by subscriber m else received_by subscriber m

unfoldable pub reception : Conference → ParticipantId → List Subscription
unfolding received_by
reception c subscriber = sort_by (λ s. s.source) (received_by subscriber c.subscriptions)
