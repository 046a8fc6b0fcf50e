-- ===== src/Domain/Operations.antt =====
-- internal/domain/domain.go: exactly when `Admit`, `Publish` and `Subscribe` succeed, and the
-- conference that they then leave.
use hoersaal.Base.{
  ◌≡◌, refl, ◌≢◌, ◌↔◌, true, false, Option, none, some, [], arith, ok, ==_iff, ℤ, pos, ◌≤ℤ◌, ◌<ℤ◌,
}
use hoersaal.Text.{is_empty-false, is_empty_named, text_eq, pair_eq}
use hoersaal.Dict.{lookup, insert}
use hoersaal.Domain.Model.{Participant, Source, Subscription, outside}
use hoersaal.Domain.Conference.{Conference, is_some, admit, publish, subscribe, subscribe_held}

pub record Admitted (c : Conference) (p : Participant) (d : Conference) : Type 0 where
  pub named : p.id ≢ []
  pub at_home : p.conference ≡ c.id
  pub fresh : lookup p.id c.participants ≡ none
  pub result : d ≡ record c { participants = insert p.id p c.participants }

-- Admit succeeds exactly when the participant is named, was made for this conference and its
-- identifier is not held; and then it is filed under its identifier, and nothing else changes.
pub admit_iff :
    (c : Conference) (p : Participant) (d : Conference) → (admit c p ≡ ok d) ↔ Admitted c p d
unfolding admit
admit_iff c p d = (
  λ h. record {
    named = is_empty-false p.id (ground arith);
    at_home = ground (arith, ==_iff p.conference c.id);
    fresh = ground arith;
    result = ground arith;
  },
  λ a. ground (arith, is_empty_named p.id a.named, ==_iff p.conference c.id),
)

pub record Published (c : Conference) (s : Source) (d : Conference) : Type 0 where
  pub named : s.id ≢ []
  pub publisher_held : is_some (lookup s.publisher c.participants) ≡ true
  pub fresh : lookup s.id c.sources ≡ none
  pub result : d ≡ record c { sources = insert s.id s c.sources }

-- Publish succeeds exactly when the source is named, its publisher is held and its identifier is
-- not; and then it is filed under its identifier, and nothing else changes.
pub publish_iff :
    (c : Conference) (s : Source) (d : Conference) → (publish c s ≡ ok d) ↔ Published c s d
unfolding publish
publish_iff c s d = (
  λ h. record {
    named = is_empty-false s.id (ground arith);
    publisher_held = ground arith;
    fresh = ground arith;
    result = ground arith;
  },
  λ a. ground (arith, is_empty_named s.id a.named),
)

pub record Subscribed (c : Conference) (s : Subscription) (d : Conference) : Type 0 where
  pub subscriber_named : s.subscriber ≢ []
  pub source_named : s.source ≢ []
  pub subscriber_held : is_some (lookup s.subscriber c.participants) ≡ true
  pub held : Source
  pub source_held : lookup s.source c.sources ≡ some held
  pub not_own : s.subscriber ≢ held.publisher
  pub layer_low : pos 0 ≤ℤ s.layer
  pub layer_high : s.layer <ℤ held.layers
  pub result : d ≡ record c { subscriptions = insert (s.subscriber, s.source) s c.subscriptions }

outside_iff : (a b : ℤ) → (outside a b ≡ false) ↔ ((pos 0 ≤ℤ a) × (a <ℤ b))
unfolding outside
outside_iff a b = (λ h. ground arith, λ h. ground arith)

module _ (c : Conference) (s : Subscription) (d : Conference) where
  subscribe_held_inv :
      (o : Option Source)
      → lookup s.source c.sources ≡ o
      → s.subscriber ≢ []
      → s.source ≢ []
      → is_some (lookup s.subscriber c.participants) ≡ true
      → subscribe_held c s o ≡ ok d
      → Subscribed c s d
  unfolding subscribe_held
  subscribe_held_inv none e n m i h = cc
  subscribe_held_inv (some held) e n m i h =
      let inside : outside s.layer held.layers ≡ false = ground arith in
      let range : (pos 0 ≤ℤ s.layer) × (s.layer <ℤ held.layers) =
        (outside_iff s.layer held.layers).0 inside in
      record {
        subscriber_named = n;
        source_named = m;
        subscriber_held = i;
        held = held;
        source_held = e;
        not_own = λ q. ground (arith, ==_iff s.subscriber held.publisher);
        layer_low = range.0;
        layer_high = range.1;
        result = ground arith;
      }

  pub subscribe_inv : subscribe c s ≡ ok d → Subscribed c s d
  unfolding subscribe
  subscribe_inv h =
      subscribe_held_inv (lookup s.source c.sources) refl
        (is_empty-false s.subscriber (ground arith)) (is_empty-false s.source (ground arith))
        (ground arith) (ground arith)

  pub subscribe_accepts : Subscribed c s d → subscribe c s ≡ ok d
  unfolding subscribe
  subscribe_accepts a = ground (
    arith,
    is_empty_named s.subscriber a.subscriber_named,
    is_empty_named s.source a.source_named,
    ==_iff s.subscriber a.held.publisher,
    outside_iff s.layer a.held.layers,
  )

-- Subscribe succeeds exactly when subscriber and source are named and held, the held source is not
-- the subscriber's own and offers the layer; and then the subscription is filed under its pair, in
-- place of one that was there, and nothing else changes.
pub subscribe_iff :
    (c : Conference) (s : Subscription) (d : Conference) → (subscribe c s ≡ ok d) ↔ Subscribed c s d
subscribe_iff c s d = (subscribe_inv c s d, subscribe_accepts c s d)
