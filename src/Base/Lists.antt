-- ===== src/Base/Lists.antt =====
-- Lists over the native numbers: length, predicates on all members, membership as data.
use Prim.Native.Nat.{ℕ, suc, ◌+◌}
use mathlib.Core.Path.{◌≡◌, refl, sym, ap, subst}
use mathlib.Core.Logic.{◌⊎◌, inl, inr}
use mathlib.Core.List.{List, [], ◌∷◌, ◌++◌, map}
use native.Mathlib.Omega.{arith}

module _ {ℓ} {A : Type ℓ} where
  abbrev pub length : List A → ℕ
  length [] = 0
  length (x ∷ xs) = suc (length xs)

  pub length-append : (xs ys : List A) → length (xs ++ ys) ≡ length xs + length ys
  length-append [] ys = omega arith
  length-append (x ∷ xs) ys = omega (arith, length-append xs ys)

  abbrev pub All {κ} : (A → Type κ) → List A → Type κ
  All P [] = Unit
  All P (x ∷ xs) = P x × All P xs

  -- Membership with the place kept.
  abbrev pub In : A → List A → Type ℓ
  In a [] = Unit → ⊥
  In a (x ∷ xs) = (a ≡ x) ⊎ In a xs

  pub All-In {κ} : (P : A → Type κ) (xs : List A) (a : A) → All P xs → In a xs → P a
  All-In P [] a h m = absurd (m tt)
  All-In P (x ∷ xs) a h (inl e) = subst P (sym e) h.0
  All-In P (x ∷ xs) a h (inr m) = All-In P xs a h.1 m

  pub All-of_In {κ} : (P : A → Type κ) (xs : List A) → ((a : A) → In a xs → P a) → All P xs
  All-of_In P [] h = tt
  All-of_In P (x ∷ xs) h = (h x (inl refl), All-of_In P xs (λ a m. h a (inr m)))

  pub All-imp {κ μ} :
      (P : A → Type κ) (Q : A → Type μ) (xs : List A) → ((a : A) → P a → Q a) → All P xs → All Q xs
  All-imp P Q [] h p = tt
  All-imp P Q (x ∷ xs) h p = (h x p.0, All-imp P Q xs h p.1)

  pub All-append {κ} : (P : A → Type κ) (xs ys : List A) → All P xs → All P ys → All P (xs ++ ys)
  All-append P [] ys p q = q
  All-append P (x ∷ xs) ys p q = (p.0, All-append P xs ys p.1 q)

  -- No member stands twice.
  abbrev pub IsDistinct : List A → Type ℓ
  IsDistinct [] = Unit
  IsDistinct (x ∷ xs) = (In x xs → ⊥) × IsDistinct xs

  -- The same members.
  abbrev pub SameMembers : List A → List A → Type ℓ
  SameMembers xs ys = (a : A) → (In a xs → In a ys) × (In a ys → In a xs)

  pub IsDistinct-snoc :
      (ids : List A) (id : A) → IsDistinct ids → (In id ids → ⊥) → IsDistinct (ids ++ (id ∷ []))
  IsDistinct-snoc [] id d n = (λ i. i tt, tt)
  IsDistinct-snoc (x ∷ ids) id d n =
      (λ i. last ids i d.0, IsDistinct-snoc ids id d.1 (λ i. n (inr i)))
    where
      last : (ys : List A) → In x (ys ++ (id ∷ [])) → (In x ys → ⊥) → ⊥
      last [] (inl e) m = n (inl (sym e))
      last [] (inr i) m = i tt
      last (y ∷ ys) (inl e) m = m (inl e)
      last (y ∷ ys) (inr i) m = last ys i (λ j. m (inr j))

pub In-map {ℓ κ} :
    {A : Type ℓ} {B : Type κ} (f : A → B) (xs : List A) (a : A) → In a xs → In (f a) (map f xs)
In-map f [] a m = λ _. m tt
In-map f (x ∷ xs) a (inl e) = inl (ap f e)
In-map f (x ∷ xs) a (inr m) = inr (In-map f xs a m)

pub In-map_inv {ℓ κ} :
    {A : Type ℓ} {B : Type κ} (f : A → B) (xs : List A) (b : B)
    → In b (map f xs)
    → (a : A) × In a xs × (b ≡ f a)
In-map_inv f [] b h = absurd (h tt)
In-map_inv f (x ∷ xs) b (inl e) = (x, inl refl, e)
In-map_inv f (x ∷ xs) b (inr i) = let (a, j, e) = In-map_inv f xs b i in (a, inr j, e)
