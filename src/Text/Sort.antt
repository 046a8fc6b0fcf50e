-- ===== src/Text/Sort.antt =====
-- `sort.Slice` by a string key, as an insertion sort. Where the keys are distinct there is one sorted
-- order, so the algorithm and the order of the input do not matter.
use mathlib.Core.Path.{ap₂}
use hoersaal.Base.{
  suc, ◌≡◌, refl, sym, ◌∙◌, subst, ◌⊎◌, inl, inr, true, List, [], ◌∷◌, map, arith, if◌then◌else◌,
  Bool-cases, In, IsDistinct, SameMembers, All, All-In, All-imp, length,
}
use hoersaal.Text.Defs.{Text, text_lt, text_lt_irrefl, text_lt_trans, text_lt_total, text_lt_asymm}

module _ {ℓ} {A : Type ℓ} (key : A → Text) where
  unfoldable pub sort_insert : A → List A → List A
  sort_insert x [] = x ∷ []
  sort_insert x (y ∷ ys) = if text_lt (key x) (key y) then x ∷ y ∷ ys else y ∷ sort_insert x ys

  unfoldable pub sort_by : List A → List A
  unfolding sort_insert
  sort_by [] = []
  sort_by (x ∷ xs) = sort_insert x (sort_by xs)

  abbrev Above : A → A → Type 0
  Above x y = text_lt (key x) (key y) ≡ true

  -- The keys ascend strictly.
  abbrev pub IsSorted : List A → Type 0
  IsSorted [] = Unit
  IsSorted (x ∷ xs) = All (Above x) xs × IsSorted xs

  pub In-sort_insert : (x a : A) (ys : List A) → In a (sort_insert x ys) → (a ≡ x) ⊎ In a ys
  unfolding sort_insert
  In-sort_insert x a [] h = h
  In-sort_insert x a (y ∷ ys) h = elim (Bool-cases (text_lt (key x) (key y))) [
    | inl q ↦ rw q at h
    | inr q ↦ elim (rw q at h) [
      | inl p ↦ inr (inl p)
      | inr p ↦ elim (In-sort_insert x a ys p) [ inl r ↦ inl r | inr r ↦ inr (inr r) ]
    ]
  ]

  pub sort_insert-In : (x a : A) (ys : List A) → (a ≡ x) ⊎ In a ys → In a (sort_insert x ys)
  unfolding sort_insert
  sort_insert-In x a [] h = h
  sort_insert-In x a (y ∷ ys) h = elim (Bool-cases (text_lt (key x) (key y))) [
    | inl q ↦ rw q h
    | inr q ↦ rw q (elim h [
      | inl p ↦ inr (sort_insert-In x a ys (inl p))
      | inr (inl p) ↦ inl p
      | inr (inr p) ↦ inr (sort_insert-In x a ys (inr p))
    ])
  ]

  pub In-sort_by : (a : A) (xs : List A) → In a (sort_by xs) → In a xs
  unfolding sort_by
  In-sort_by a [] h = h
  In-sort_by a (x ∷ xs) h = elim (In-sort_insert x a (sort_by xs) h) [
    | inl p ↦ inl p
    | inr p ↦ inr (In-sort_by a xs p)
  ]

  pub sort_by-In : (a : A) (xs : List A) → In a xs → In a (sort_by xs)
  unfolding sort_by
  sort_by-In a [] h = h
  sort_by-In a (x ∷ xs) (inl p) = sort_insert-In x a (sort_by xs) (inl p)
  sort_by-In a (x ∷ xs) (inr p) = sort_insert-In x a (sort_by xs) (inr (sort_by-In a xs p))

  pub length-sort_by : (xs : List A) → length (sort_by xs) ≡ length xs
  unfolding sort_by
  length-sort_by [] = refl
  length-sort_by (x ∷ xs) = ground (arith, length-sort_insert x (sort_by xs), length-sort_by xs)
    where
      length-sort_insert : (x : A) (ys : List A) → length (sort_insert x ys) ≡ suc (length ys)
      length-sort_insert x [] = refl
      length-sort_insert x (y ∷ ys) = ground (arith, length-sort_insert x ys)

  All-sort_insert {κ} :
      (P : A → Type κ) (x : A) (ys : List A) → P x → All P ys → All P (sort_insert x ys)
  unfolding sort_insert
  All-sort_insert P x [] p a = (p, tt)
  All-sort_insert P x (y ∷ ys) p a = elim (Bool-cases (text_lt (key x) (key y))) [
    | inl q ↦ rw q (p, a)
    | inr q ↦ rw q (a.0, All-sort_insert P x ys p a.1)
  ]

  pub All-sort_by {κ} : (P : A → Type κ) (xs : List A) → All P xs → All P (sort_by xs)
  unfolding sort_by
  All-sort_by P [] a = a
  All-sort_by P (x ∷ xs) a = All-sort_insert P x (sort_by xs) a.0 (All-sort_by P xs a.1)

  sort_insert-IsSorted :
      (x : A) (ys : List A)
      → (In (key x) (map key ys) → ⊥)
      → IsSorted ys
      → IsSorted (sort_insert x ys)
  unfolding sort_insert
  sort_insert-IsSorted x [] n s = (tt, tt)
  sort_insert-IsSorted x (y ∷ ys) n s = elim (Bool-cases (text_lt (key x) (key y))) [
    | inl q ↦ rw q (
      (q, All-imp (Above y) (Above x) ys (λ z h. text_lt_trans (key x) (key y) (key z) q h) s.0),
      s,
    )
    | inr q ↦ rw q (
      All-sort_insert (Above y) x ys
          (elim (text_lt_total (key x) (key y)) [
            | inl p ↦ cc
            | inr (inl p) ↦ absurd (n (inl p))
            | inr (inr p) ↦ p
          ])
          s.0,
      sort_insert-IsSorted x ys (λ i. n (inr i)) s.1,
    )
  ]

  In-map-sort_by : (k : Text) (xs : List A) → In k (map key (sort_by xs)) → In k (map key xs)
  unfolding sort_by
  In-map-sort_by k [] h = h
  In-map-sort_by k (x ∷ xs) h = elim (In-map-sort_insert (sort_by xs) h) [
    | inl p ↦ inl p
    | inr p ↦ inr (In-map-sort_by k xs p)
  ]
    where
      In-map-sort_insert :
          (ys : List A) → In k (map key (sort_insert x ys)) → (k ≡ key x) ⊎ In k (map key ys)
      In-map-sort_insert [] h = h
      In-map-sort_insert (y ∷ ys) h = elim (Bool-cases (text_lt (key x) (key y))) [
        | inl q ↦ rw q at h
        | inr q ↦ elim (rw q at h) [
          | inl p ↦ inr (inl p)
          | inr p ↦ elim (In-map-sort_insert ys p) [ inl r ↦ inl r | inr r ↦ inr (inr r) ]
        ]
      ]

  pub sort_by-IsSorted : (xs : List A) → IsDistinct (map key xs) → IsSorted (sort_by xs)
  unfolding sort_by
  sort_by-IsSorted [] d = tt
  sort_by-IsSorted (x ∷ xs) d =
      sort_insert-IsSorted x (sort_by xs) (λ i. d.0 (In-map-sort_by (key x) xs i))
        (sort_by-IsSorted xs d.1)

  not-In-Above : (x : A) (xs : List A) → All (Above x) xs → In x xs → ⊥
  not-In-Above x xs a i =
      let h : Above x x = All-In (Above x) xs x a i in ground (arith, text_lt_irrefl (key x))

  same_heads :
      (x y : A) (xs ys : List A)
      → All (Above x) xs
      → All (Above y) ys
      → (x ≡ y) ⊎ In x ys
      → (y ≡ x) ⊎ In y xs
      → x ≡ y
  same_heads x y xs ys a b (inl p) h = p
  same_heads x y xs ys a b (inr p) (inl q) = sym q
  same_heads x y xs ys a b (inr p) (inr q) =
      absurd (text_lt_asymm (key x) (key y) (All-In (Above x) xs y a q) (All-In (Above y) ys x b p))

  tail_member :
      (x y a : A) (xs ys : List A)
      → All (Above x) xs
      → x ≡ y
      → In a xs
      → (a ≡ y) ⊎ In a ys
      → In a ys
  tail_member x y a xs ys b e i (inl p) =
      absurd (not-In-Above x xs b (subst (λ c. In c xs) (p ∙ sym e) i))
  tail_member x y a xs ys b e i (inr p) = p

  -- A strictly sorted list is determined by its members.
  pub IsSorted-unique : (xs ys : List A) → IsSorted xs → IsSorted ys → SameMembers xs ys → xs ≡ ys
  IsSorted-unique [] [] s t same = refl
  IsSorted-unique [] (y ∷ ys) s t same = absurd ((same y).1 (inl refl) tt)
  IsSorted-unique (x ∷ xs) [] s t same = absurd ((same x).0 (inl refl) tt)
  IsSorted-unique (x ∷ xs) (y ∷ ys) s t same =
      let e : x ≡ y =
        same_heads x y xs ys s.0 t.0 ((same x).0 (inl refl)) ((same y).1 (inl refl)) in
      let rest : xs ≡ ys = IsSorted-unique xs ys s.1 t.1 (λ a. (
        λ i. tail_member x y a xs ys s.0 e i ((same a).0 (inr i)),
        λ i. tail_member y x a ys xs t.0 (sym e) i ((same a).1 (inr i)),
      )) in
      ap₂ ◌∷◌ e rest

  -- The sorted order depends on the members alone.
  pub sort_by_unique :
      (xs ys : List A)
      → IsDistinct (map key xs)
      → IsDistinct (map key ys)
      → SameMembers xs ys
      → sort_by xs ≡ sort_by ys
  sort_by_unique xs ys d e same =
      IsSorted-unique (sort_by xs) (sort_by ys) (sort_by-IsSorted xs d) (sort_by-IsSorted ys e)
        (λ a. (
          λ i. sort_by-In a ys ((same a).0 (In-sort_by a xs i)),
          λ i. sort_by-In a xs ((same a).1 (In-sort_by a ys i)),
        ))
