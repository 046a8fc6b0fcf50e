-- ===== src/Domain/Integrity.antt =====
-- internal/domain/domain.go: what a conference holds refers to what it holds, after any operations.
use hoersaal.Base.{
  ◌≡◌, refl, sym, subst, ◌∙◌, ◌≢◌, inl, inr, true, some, none, [], arith, ok, err, ==_iff,
  Bool-cases, IsDistinct, All, All-imp, pos, ◌≤ℤ◌, ◌<ℤ◌,
}
use hoersaal.Text.{Text, is_empty, text_eq, pair_eq}
use hoersaal.Dict.{Dict, keys, lookup, insert, lookup-insert, insert-IsDistinct, insert-All}
use hoersaal.Domain.Model.{
  Error, ParticipantId, SourceId, ConferenceId, Participant, Source, Subscription,
}
use hoersaal.Domain.Conference.{
  Conference, Reception, new_conference, is_some, admit, publish, subscribe,
}
use hoersaal.Domain.Operations.{
  Admitted, Published, Subscribed, admit_iff, publish_iff, subscribe_iff,
}

pub record ParticipantOk (id : ConferenceId) (e : ParticipantId × Participant) : Type 0 where
  pub keyed : e.0 ≡ e.1.id
  pub at_home : e.1.conference ≡ id
  pub named : e.0 ≢ []

pub record SourceOk (ps : Dict ParticipantId Participant) (e : SourceId × Source) : Type 0 where
  pub keyed : e.0 ≡ e.1.id
  pub publisher_held : is_some (lookup e.1.publisher ps) ≡ true
  pub named : e.0 ≢ []

-- A subscription is filed under its own pair; its subscriber is held; its source is held, is not
-- its subscriber's own, and offers the layer.
pub record SubscriptionOk (ps : Dict ParticipantId Participant) (ss : Dict SourceId Source)
    (e : Reception × Subscription) : Type 0 where
  pub keyed : e.0 ≡ (e.1.subscriber, e.1.source)
  pub subscriber_held : is_some (lookup e.1.subscriber ps) ≡ true
  pub held : Source
  pub source_held : lookup e.1.source ss ≡ some held
  pub not_own : e.1.subscriber ≢ held.publisher
  pub layer_low : pos 0 ≤ℤ e.1.layer
  pub layer_high : e.1.layer <ℤ held.layers

pub record IsValid (c : Conference) : Type 0 where
  pub participants_distinct : IsDistinct (keys c.participants)
  pub sources_distinct : IsDistinct (keys c.sources)
  pub subscriptions_distinct : IsDistinct (keys c.subscriptions)
  pub participants_ok : All (ParticipantOk c.id) c.participants
  pub sources_ok : All (SourceOk c.participants) c.sources
  pub subscriptions_ok : All (SubscriptionOk c.participants c.sources) c.subscriptions

held-insert :
    {A : Type 0} (k j : Text) (a : A) (m : Dict Text A)
    → is_some (lookup j m) ≡ true
    → is_some (lookup j (insert k a m)) ≡ true
held-insert k j a m h = rw (lookup-insert k j a m) (ground arith)

-- A write under a key that is not held leaves what the other keys answer.
lookup-insert_fresh :
    {A : Type 0} (k j : Text) (a b : A) (m : Dict Text A)
    → lookup k m ≡ none
    → lookup j m ≡ some b
    → lookup j (insert k a m) ≡ some b
lookup-insert_fresh k j a b m f h = rw (lookup-insert k j a m) (ground (arith, ==_iff k j))

Admitted-IsValid :
    (c : Conference) (p : Participant)
    → IsValid c
    → {d : Conference} → Admitted c p d
    → IsValid (record c { participants = insert p.id p c.participants })
Admitted-IsValid c p v a = record {
  participants_distinct = insert-IsDistinct p.id p c.participants v.participants_distinct;
  sources_distinct = v.sources_distinct;
  subscriptions_distinct = v.subscriptions_distinct;
  participants_ok =
      insert-All (ParticipantOk c.id) p.id p c.participants
        (record { keyed = refl; at_home = a.at_home; named = a.named }) v.participants_ok;
  sources_ok =
      All-imp (SourceOk c.participants) (SourceOk grown) c.sources
        (λ e o. record {
          keyed = o.keyed;
          publisher_held = held-insert p.id e.1.publisher p c.participants o.publisher_held;
          named = o.named;
        })
        v.sources_ok;
  subscriptions_ok =
      All-imp (SubscriptionOk c.participants c.sources) (SubscriptionOk grown c.sources)
        c.subscriptions
        (λ e o. record {
          keyed = o.keyed;
          subscriber_held = held-insert p.id e.1.subscriber p c.participants o.subscriber_held;
          held = o.held;
          source_held = o.source_held;
          not_own = o.not_own;
          layer_low = o.layer_low;
          layer_high = o.layer_high;
        })
        v.subscriptions_ok;
}
  where
    grown : Dict ParticipantId Participant
    grown = insert p.id p c.participants

Published-IsValid :
    (c : Conference) (s : Source)
    → IsValid c
    → {d : Conference} → Published c s d
    → IsValid (record c { sources = insert s.id s c.sources })
Published-IsValid c s v a = record {
  participants_distinct = v.participants_distinct;
  sources_distinct = insert-IsDistinct s.id s c.sources v.sources_distinct;
  subscriptions_distinct = v.subscriptions_distinct;
  participants_ok = v.participants_ok;
  sources_ok =
      insert-All (SourceOk c.participants) s.id s c.sources
        (record { keyed = refl; publisher_held = a.publisher_held; named = a.named }) v.sources_ok;
  subscriptions_ok =
      All-imp (SubscriptionOk c.participants c.sources) (SubscriptionOk c.participants grown)
        c.subscriptions
        (λ e o. record {
          keyed = o.keyed;
          subscriber_held = o.subscriber_held;
          held = o.held;
          source_held =
              lookup-insert_fresh s.id e.1.source s o.held c.sources a.fresh o.source_held;
          not_own = o.not_own;
          layer_low = o.layer_low;
          layer_high = o.layer_high;
        })
        v.subscriptions_ok;
}
  where
    grown : Dict SourceId Source
    grown = insert s.id s c.sources

Subscribed-IsValid :
    (c : Conference) (s : Subscription)
    → IsValid c
    → {d : Conference} → Subscribed c s d
    → IsValid (record c { subscriptions = insert (s.subscriber, s.source) s c.subscriptions })
Subscribed-IsValid c s v a = record {
  participants_distinct = v.participants_distinct;
  sources_distinct = v.sources_distinct;
  subscriptions_distinct =
      insert-IsDistinct (s.subscriber, s.source) s c.subscriptions v.subscriptions_distinct;
  participants_ok = v.participants_ok;
  sources_ok = v.sources_ok;
  subscriptions_ok =
      insert-All (SubscriptionOk c.participants c.sources) (s.subscriber, s.source) s
        c.subscriptions
        (record {
          keyed = refl;
          subscriber_held = a.subscriber_held;
          held = a.held;
          source_held = a.source_held;
          not_own = a.not_own;
          layer_low = a.layer_low;
          layer_high = a.layer_high;
        })
        v.subscriptions_ok;
}

new_conference-IsValid : (id : ConferenceId) (c : Conference) → new_conference id ≡ ok c → IsValid c
unfolding new_conference
new_conference-IsValid id c h = elim (Bool-cases (is_empty id)) [
  | inl e ↦ absurd (let bad : ok c ≡ err Error.empty = sym h ∙ rw e in cc)
  | inr e ↦
      subst IsValid
        (let good : record { id = id; participants = []; sources = []; subscriptions = [] } ≡ c =
            ground arith in
          good)
        (record {
          participants_distinct = tt;
          sources_distinct = tt;
          subscriptions_distinct = tt;
          participants_ok = tt;
          sources_ok = tt;
          subscriptions_ok = tt;
        })
]

-- One accepted call. A refused one leaves the conference as it was.
pub data Step (c d : Conference) : Type 0 where
  admits : (p : Participant) → admit c p ≡ ok d → Step c d
  publishes : (s : Source) → publish c s ≡ ok d → Step c d
  subscribes : (s : Subscription) → subscribe c s ≡ ok d → Step c d

-- The conferences that calls can make of a new one.
pub data Reachable (id : ConferenceId) : Conference → Type 0 where
  fresh : {c : Conference} → new_conference id ≡ ok c → Reachable id c
  next : {c d : Conference} → Reachable id c → Step c d → Reachable id d

pub Step-IsValid : {c d : Conference} → Step c d → IsValid c → IsValid d
Step-IsValid {c} {d} (admits p h) v =
    let a = (admit_iff c p d).0 h in subst IsValid (sym a.result) (Admitted-IsValid c p v a)
Step-IsValid {c} {d} (publishes s h) v =
    let a = (publish_iff c s d).0 h in subst IsValid (sym a.result) (Published-IsValid c s v a)
Step-IsValid {c} {d} (subscribes s h) v =
    let a = (subscribe_iff c s d).0 h in subst IsValid (sym a.result) (Subscribed-IsValid c s v a)

-- Whatever accepted calls of Admit, Publish and Subscribe follow a new conference, it holds
-- participants of its own under their identifiers, sources whose publisher it holds, and
-- subscriptions whose subscriber and source it holds, never to a source of the subscriber's own and
-- always to a layer that the held source offers; no identifier or pair is held twice.
pub Reachable-IsValid : {id : ConferenceId} {c : Conference} → Reachable id c → IsValid c
Reachable-IsValid {id} {c} (fresh h) = new_conference-IsValid id c h
Reachable-IsValid (next r s) = Step-IsValid s (Reachable-IsValid r)
