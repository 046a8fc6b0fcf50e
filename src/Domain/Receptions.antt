-- ===== src/Domain/Receptions.antt =====
-- internal/domain/domain.go: `Reception`, the whole set one participant receives, in one order.
use hoersaal.Base.{
  ◌≡◌, sym, ap, subst, ◌∙◌, ◌↔◌, inl, inr, some, [], ◌∷◌, map, arith, ◌==◌, ==_iff, Bool-cases, In,
  IsDistinct, All,
}
use hoersaal.Text.{
  text_eq, pair_eq, IsSorted, sort_by, In-sort_by, sort_by-In, sort_by-IsSorted, IsSorted-unique,
}
use hoersaal.Dict.{Dict, keys, lookup, In-keys_of_lookup, lookup_of_In}
use hoersaal.Domain.Model.{ParticipantId, SourceId, Subscription, Participant, Source}
use hoersaal.Domain.Conference.{Conference, Reception, received_by, reception}
use hoersaal.Domain.Integrity.{IsValid, SubscriptionOk}

module _ (p : ParticipantId) where
  In-received_by :
      (s : Subscription) (m : Dict Reception Subscription)
      → In s (received_by p m)
      → (what : SourceId) × In ((p, what), s) m
  unfolding received_by
  In-received_by s [] h = absurd (h tt)
  In-received_by s (((who, what), t) ∷ m) h = elim (Bool-cases (who == p)) [
    | inl q ↦ elim (rw q at h) [
      | inl e ↦ (what, inl (ground (arith, ==_iff who p)))
      | inr i ↦ let (w, j) = In-received_by s m i in (w, inr j)
    ]
    | inr q ↦ let (w, j) = In-received_by s m (rw q at h) in (w, inr j)
  ]

  received_by-In :
      (s : Subscription) (what : SourceId) (m : Dict Reception Subscription)
      → In ((p, what), s) m
      → In s (received_by p m)
  unfolding received_by
  received_by-In s what [] h = absurd (h tt)
  received_by-In s what (((who, w), t) ∷ m) h = elim (Bool-cases (who == p)) [
    | inl q ↦ rw q (elim h [
      | inl e ↦ inl (ap (λ (x : Reception × Subscription). x.1) e)
      | inr i ↦ inr (received_by-In s what m i)
    ])
    | inr q ↦ rw q (elim h [
      | inl e ↦ absurd (ground (arith, ==_iff who p))
      | inr i ↦ received_by-In s what m i
    ])
  ]

  In-sources :
      (ps : Dict ParticipantId Participant) (ss : Dict SourceId Source) (k : SourceId)
      (m : Dict Reception Subscription)
      → All (SubscriptionOk ps ss) m
      → In k (map (λ s. s.source) (received_by p m))
      → In (p, k) (keys m)
  unfolding received_by
  In-sources ps ss k [] a h = h
  In-sources ps ss k (((who, what), t) ∷ m) a h = elim (Bool-cases (who == p)) [
    | inl q ↦ elim (rw q at h) [
      | inl e ↦ inl (ground (arith, ==_iff who p, a.0.keyed))
      | inr i ↦ inr (In-sources ps ss k m a.1 i)
    ]
    | inr q ↦ inr (In-sources ps ss k m a.1 (rw q at h))
  ]

  received_by-IsDistinct :
      (ps : Dict ParticipantId Participant) (ss : Dict SourceId Source)
      (m : Dict Reception Subscription)
      → All (SubscriptionOk ps ss) m
      → IsDistinct (keys m)
      → IsDistinct (map (λ s. s.source) (received_by p m))
  unfolding received_by
  received_by-IsDistinct ps ss [] a d = tt
  received_by-IsDistinct ps ss (((who, what), t) ∷ m) a d = elim (Bool-cases (who == p)) [
    | inl q ↦
        let same : (p, t.source) ≡ (who, what) = ground (arith, ==_iff who p, a.0.keyed) in
        rw q (
          λ i. d.0 (subst (λ k. In k (keys m)) same (In-sources ps ss t.source m a.1 i)),
          received_by-IsDistinct ps ss m a.1 d.1,
        )
    | inr q ↦ rw q (received_by-IsDistinct ps ss m a.1 d.1)
  ]

  sources-IsDistinct :
      (c : Conference)
      → IsValid c
      → IsDistinct (map (λ s. s.source) (received_by p c.subscriptions))
  sources-IsDistinct c v =
      received_by-IsDistinct c.participants c.sources c.subscriptions v.subscriptions_ok
        v.subscriptions_distinct

  keyed_at :
      (ps : Dict ParticipantId Participant) (ss : Dict SourceId Source) (s : Subscription)
      (what : SourceId) (m : Dict Reception Subscription)
      → All (SubscriptionOk ps ss) m
      → In ((p, what), s) m
      → what ≡ s.source
  keyed_at ps ss s what [] a h = absurd (h tt)
  keyed_at ps ss s what (((who, w), t) ∷ m) a (inl e) = ground (arith, a.0.keyed)
  keyed_at ps ss s what (f ∷ m) a (inr i) = keyed_at ps ss s what m a.1 i

-- In a valid conference Reception answers in strictly rising order of source identifier, and a
-- subscription is in the answer exactly when it is the one held for that participant and its
-- source.
pub reception-IsSorted_iff :
    (c : Conference) (p : ParticipantId)
    → IsValid c
    → IsSorted (λ s. s.source) (reception c p)
      × ((s : Subscription)
          → In s (reception c p) ↔ (lookup (p, s.source) c.subscriptions ≡ some s))
unfolding reception
reception-IsSorted_iff c p v = (
  sort_by-IsSorted (λ s. s.source) (received_by p c.subscriptions) (sources-IsDistinct p c v),
  λ s. (into s, out s),
)
  where
    into :
        (s : Subscription)
        → In s (sort_by (λ s. s.source) (received_by p c.subscriptions))
        → lookup (p, s.source) c.subscriptions ≡ some s
    into s i =
        let (what, j) =
          In-received_by p s c.subscriptions
            (In-sort_by (λ s. s.source) s (received_by p c.subscriptions) i) in
        let e : what ≡ s.source =
          keyed_at p c.participants c.sources s what c.subscriptions v.subscriptions_ok j in
        lookup_of_In (p, s.source) s c.subscriptions v.subscriptions_distinct
          (subst (λ w. In ((p, w), s) c.subscriptions) e j)

    out :
        (s : Subscription)
        → lookup (p, s.source) c.subscriptions ≡ some s
        → In s (sort_by (λ s. s.source) (received_by p c.subscriptions))
    out s h =
        sort_by-In (λ s. s.source) s (received_by p c.subscriptions)
          (received_by-In p s s.source c.subscriptions
            (In-keys_of_lookup (p, s.source) s c.subscriptions h))

-- Two valid conferences that hold the same subscriptions, in whatever order their maps are walked,
-- give a participant the same reception.
pub reception_order :
    (c d : Conference) (p : ParticipantId)
    → IsValid c
    → IsValid d
    → ((k : Reception) → lookup k c.subscriptions ≡ lookup k d.subscriptions)
    → reception c p ≡ reception d p
reception_order c d p v w h =
    IsSorted-unique (λ s. s.source) (reception c p) (reception d p) (reception-IsSorted_iff c p v).0
      (reception-IsSorted_iff d p w).0
      λ s. (
        λ i.
            ((reception-IsSorted_iff d p w).1 s).1
              (sym (h (p, s.source)) ∙ ((reception-IsSorted_iff c p v).1 s).0 i),
        λ i.
            ((reception-IsSorted_iff c p v).1 s).1
              (h (p, s.source) ∙ ((reception-IsSorted_iff d p w).1 s).0 i),
      )
