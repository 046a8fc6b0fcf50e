-- ===== src/Dict.antt =====
-- A Go map as an association list whose order stands for the order of a `range` over it.
use hoersaal.Base.{
  ◌+◌, ◌≡◌, refl, ap, sym, ◌∙◌, ◌⊎◌, inl, inr, Option, none, some, List, [], ◌∷◌, ◌++◌, map, arith,
  if◌then◌else◌, Comparable, ◌==◌, ==_iff, ==_refl, Bool-cases, In, IsDistinct, All, length,
}

abbrev pub Dict {ℓ κ} : Type ℓ → Type κ → Type (ℓ ⊔ κ)
Dict K V = List (K × V)

module _ {ℓ κ} {K : Type ℓ} {V : Type κ} where
  abbrev pub keys : Dict K V → List K
  keys = map λ e. e.0

  abbrev pub values : Dict K V → List V
  values = map λ e. e.1

module _ {ℓ κ} {K : Type ℓ} {V : Type κ} ⦃e : Comparable K⦄ where
  -- `v, held := m[k]`
  unfoldable pub lookup : K → Dict K V → Option V
  lookup k [] = none
  lookup k ((i, w) ∷ rest) = if i == k then some w else lookup k rest

  -- `m[k] = v`
  unfoldable pub insert : K → V → Dict K V → Dict K V
  insert k v [] = (k, v) ∷ []
  insert k v ((i, w) ∷ rest) = if i == k then (k, v) ∷ rest else (i, w) ∷ insert k v rest

  -- `delete(m, k)`
  unfoldable pub delete : K → Dict K V → Dict K V
  delete k [] = []
  delete k ((j, w) ∷ m) = if j == k then delete k m else (j, w) ∷ delete k m

  pub lookup-insert :
      (k j : K) (v : V) (m : Dict K V)
      → lookup j (insert k v m) ≡ (if k == j then some v else lookup j m)
  unfolding insert lookup
  lookup-insert k j v [] = refl
  lookup-insert k j v ((i, w) ∷ rest) =
      ground (arith, lookup-insert k j v rest, ==_iff i j, ==_iff i k, ==_iff k j)

  pub lookup-delete :
      (k j : K) (m : Dict K V) → lookup j (delete k m) ≡ (if k == j then none else lookup j m)
  unfolding lookup delete
  lookup-delete k j [] = ground arith
  lookup-delete k j ((i, w) ∷ m) =
      ground (arith, ==_iff k j, ==_iff i k, ==_iff i j, lookup-delete k j m)

  pub lookup-insert_self : (k : K) (v : V) (m : Dict K V) → lookup k (insert k v m) ≡ some v
  lookup-insert_self k v m = rw (lookup-insert k k v m, ==_refl k)

  -- A key is held by the map exactly when it is one of its keys.
  pub In-keys_of_lookup : (k : K) (v : V) (m : Dict K V) → lookup k m ≡ some v → In (k, v) m
  unfolding lookup
  In-keys_of_lookup k v [] h = cc
  In-keys_of_lookup k v ((j, w) ∷ m) h = elim (Bool-cases (j == k)) [
    | inl p ↦ inl (ground (arith, ==_iff j k))
    | inr p ↦ inr (In-keys_of_lookup k v m (ground arith))
  ]

  pub not-In-keys_of_lookup : (k : K) (m : Dict K V) → lookup k m ≡ none → In k (keys m) → ⊥
  unfolding lookup
  not-In-keys_of_lookup k [] h i = i tt
  not-In-keys_of_lookup k ((j, w) ∷ m) h (inl p) = ground (arith, ==_iff j k)
  not-In-keys_of_lookup k ((j, w) ∷ m) h (inr p) = not-In-keys_of_lookup k m (ground arith) p

  pub lookup_of_In :
      (k : K) (v : V) (m : Dict K V) → IsDistinct (keys m) → In (k, v) m → lookup k m ≡ some v
  unfolding lookup
  lookup_of_In k v [] d i = absurd (i tt)
  lookup_of_In k v ((j, w) ∷ m) d (inl p) = ground (arith, ==_iff j k)
  lookup_of_In k v ((j, w) ∷ m) d (inr p) = elim (Bool-cases (j == k)) [
    | inl q ↦ absurd (d.0 (rw ((==_iff j k).0 q) (In-keys k v m p)))
    | inr q ↦ rw q (lookup_of_In k v m d.1 p)
  ]
    where
      In-keys : (k : K) (v : V) (m : Dict K V) → In (k, v) m → In k (keys m)
      In-keys k v [] i = λ _. i tt
      In-keys k v (f ∷ m) (inl p) = inl (ap (λ (t : K × V). t.0) p)
      In-keys k v (f ∷ m) (inr p) = inr (In-keys k v m p)

  pub In-keys-insert :
      (k j : K) (v : V) (m : Dict K V) → In j (keys (insert k v m)) → (j ≡ k) ⊎ In j (keys m)
  unfolding insert
  In-keys-insert k j v [] (inl p) = inl p
  In-keys-insert k j v [] (inr p) = inr p
  In-keys-insert k j v ((i, w) ∷ m) h = elim (Bool-cases (i == k)) [
    | inl q ↦ elim (rw q at h) [ inl p ↦ inl p | inr p ↦ inr (inr p) ]
    | inr q ↦ elim (rw q at h) [
      | inl p ↦ inr (inl p)
      | inr p ↦ elim (In-keys-insert k j v m p) [ inl r ↦ inl r | inr r ↦ inr (inr r) ]
    ]
  ]

  pub insert-In-keys :
      (k j : K) (v : V) (m : Dict K V) → (j ≡ k) ⊎ In j (keys m) → In j (keys (insert k v m))
  unfolding insert
  insert-In-keys k j v [] h = h
  insert-In-keys k j v ((i, w) ∷ m) h = elim (Bool-cases (i == k)) [
    | inl q ↦
        rw q (elim h [
          | inl p ↦ inl p
          | inr (inl p) ↦ inl (p ∙ (==_iff i k).0 q)
          | inr (inr p) ↦ inr p
        ])
    | inr q ↦ rw q (elim h [
      | inl p ↦ inr (insert-In-keys k j v m (inl p))
      | inr (inl p) ↦ inl p
      | inr (inr p) ↦ inr (insert-In-keys k j v m (inr p))
    ])
  ]

  pub insert-IsDistinct :
      (k : K) (v : V) (m : Dict K V) → IsDistinct (keys m) → IsDistinct (keys (insert k v m))
  unfolding insert
  insert-IsDistinct k v [] d = (λ i. i tt, tt)
  insert-IsDistinct k v ((i, w) ∷ m) d = elim (Bool-cases (i == k)) [
    | inl q ↦ rw (q, sym ((==_iff i k).0 q)) (d.0, d.1)
    | inr q ↦ rw q (
      λ p. elim (In-keys-insert k i v m p) [ inl r ↦ ground (arith, ==_iff i k) | inr r ↦ d.0 r ],
      insert-IsDistinct k v m d.1,
    )
  ]

  In-keys-delete : (k j : K) (m : Dict K V) → In j (keys (delete k m)) → In j (keys m)
  unfolding delete
  In-keys-delete k j [] h = h
  In-keys-delete k j ((i, w) ∷ m) h = elim (Bool-cases (i == k)) [
    | inl q ↦ inr (In-keys-delete k j m (rw q at h))
    | inr q ↦ elim (rw q at h) [ inl p ↦ inl p | inr p ↦ inr (In-keys-delete k j m p) ]
  ]

  pub delete-IsDistinct :
      (k : K) (m : Dict K V) → IsDistinct (keys m) → IsDistinct (keys (delete k m))
  unfolding delete
  delete-IsDistinct k [] d = d
  delete-IsDistinct k ((i, w) ∷ m) d = elim (Bool-cases (i == k)) [
    | inl q ↦ rw q (delete-IsDistinct k m d.1)
    | inr q ↦ rw q (λ p. d.0 (In-keys-delete k i m p), delete-IsDistinct k m d.1)
  ]

  -- A new key adds one entry, a held one none.
  pub length-insert :
      (k : K) (v : V) (m : Dict K V)
      → length (insert k v m) ≡ length m + elim (lookup k m) [ none ↦ 1 | some w ↦ 0 ]
  unfolding insert lookup
  length-insert k v [] = omega arith
  length-insert k v ((i, w) ∷ m) = ground (arith, length-insert k v m)

  -- A property of all entries survives a write of an entry that has it, and a deletion.
  pub insert-All {μ} :
      (P : K × V → Type μ) (k : K) (v : V) (m : Dict K V)
      → P (k, v)
      → All P m
      → All P (insert k v m)
  unfolding insert
  insert-All P k v [] p a = (p, tt)
  insert-All P k v ((i, w) ∷ m) p a = elim (Bool-cases (i == k)) [
    | inl q ↦ rw q (p, a.1)
    | inr q ↦ rw q (a.0, insert-All P k v m p a.1)
  ]

  pub delete-All {μ} : (P : K × V → Type μ) (k : K) (m : Dict K V) → All P m → All P (delete k m)
  unfolding delete
  delete-All P k [] a = a
  delete-All P k ((i, w) ∷ m) a = elim (Bool-cases (i == k)) [
    | inl q ↦ rw q (delete-All P k m a.1)
    | inr q ↦ rw q (a.0, delete-All P k m a.1)
  ]

  -- A write under a held key is made in place; a new key goes to the end.
  pub keys-insert_held :
      (k : K) (v w : V) (m : Dict K V) → lookup k m ≡ some w → keys (insert k v m) ≡ keys m
  unfolding insert lookup
  keys-insert_held k v w [] h = cc
  keys-insert_held k v w ((i, x) ∷ m) h = elim (Bool-cases (i == k)) [
    | inl q ↦ rw q (ap (λ j. j ∷ keys m) (sym ((==_iff i k).0 q)))
    | inr q ↦ rw q (ap (λ js. i ∷ js) (keys-insert_held k v w m (rw q at h)))
  ]

  pub insert_fresh :
      (k : K) (v : V) (m : Dict K V) → lookup k m ≡ none → insert k v m ≡ m ++ ((k, v) ∷ [])
  unfolding insert lookup
  insert_fresh k v [] h = refl
  insert_fresh k v ((i, x) ∷ m) h = elim (Bool-cases (i == k)) [
    | inl q ↦ absurd (let bad : some x ≡ none = rw q at h in cc)
    | inr q ↦ rw q (ap (λ n. (i, x) ∷ n) (insert_fresh k v m (rw q at h)))
  ]

pub In-keys {ℓ κ} :
    {K : Type ℓ} {V : Type κ} (k : K) (v : V) (m : Dict K V) → In (k, v) m → In k (keys m)
In-keys k v [] i = λ _. i tt
In-keys {K = K} {V = V} k v (f ∷ m) (inl p) = inl (ap (λ (t : K × V). t.0) p)
In-keys k v (f ∷ m) (inr p) = inr (In-keys k v m p)
