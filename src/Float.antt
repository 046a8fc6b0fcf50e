-- ===== src/Float.antt =====
-- Go's `float64`, as an interface: the constants and the operations that the code uses, and the laws
-- of IEEE 754 comparisons and sums that the proofs use. `Hundredths` is a type that meets the laws.
use hoersaal.Base.{
  ℕ, ◌+◌, ◌≡◌, refl, ◌⊎◌, ◌↔◌, Bool, true, false, ◌||◌, Option, none, some, arith, ltb, nat_eq,
}

-- `ceiling` is the constant 0.90.
pub record Float64 {ℓ} (W : Type ℓ) : Type ℓ where
  pub nought : W
  pub ceiling : W
  pub plus : W → W → W
  pub is_nan : W → Bool
  pub lt : W → W → Bool
  pub feq : W → W → Bool

-- `math.IsNaN(x) || x < 0`
unfoldable pub not_a_load {ℓ} : {W : Type ℓ} ⦃f : Float64 W⦄ → W → Bool
not_a_load ⦃f⦄ x = f.is_nan x || f.lt x f.nought

-- A number that is no NaN and is not below zero.
pub record IsLoad {ℓ} {W : Type ℓ} ⦃f : Float64 W⦄ (x : W) : Type 0 where
  pub is_number : f.is_nan x ≡ false
  pub not_negative : f.lt x f.nought ≡ false

-- Every comparison with a NaN is false; on numbers `<` is a strict order in which neither of two
-- is the smaller exactly when `==` holds; and a sum of two numbers that are not negative is one.
pub record IsIeee {ℓ} (W : Type ℓ) ⦃f : Float64 W⦄ : Type ℓ where
  pub lt_numbers : (a b : W) → f.lt a b ≡ true → (f.is_nan a ≡ false) × (f.is_nan b ≡ false)
  pub lt_irrefl : (a : W) → f.lt a a ≡ false
  pub lt_trans : (a b c : W) → f.lt a b ≡ true → f.lt b c ≡ true → f.lt a c ≡ true
  pub lt_split :
      (a b c : W) → f.is_nan b ≡ false → f.lt a c ≡ true → (f.lt a b ≡ true) ⊎ (f.lt b c ≡ true)
  pub feq_iff :
      (a b : W)
      → f.is_nan a ≡ false
      → f.is_nan b ≡ false
      → (f.feq a b ≡ true) ↔ ((f.lt a b ≡ false) × (f.lt b a ≡ false))
  pub nought_load : IsLoad f.nought
  pub plus_load : (a b : W) → IsLoad a → IsLoad b → IsLoad (f.plus a b)

pub not_a_load_iff {ℓ} : {W : Type ℓ} ⦃f : Float64 W⦄ (x : W) → (not_a_load x ≡ false) ↔ IsLoad x
unfolding not_a_load
not_a_load_iff ⦃f⦄ x =
    (λ h. record { is_number = ground arith; not_negative = ground arith }, λ l. ground arith)

-- Numbers in steps of 0.01, and `none` for NaN.
abbrev pub Hundredths : Type 0
Hundredths = Option ℕ

hundredths_plus : Hundredths → Hundredths → Hundredths
hundredths_plus (some a) (some b) = some (a + b)
hundredths_plus _ _ = none

hundredths_nan : Hundredths → Bool
hundredths_nan none = true
hundredths_nan (some a) = false

hundredths_lt : Hundredths → Hundredths → Bool
hundredths_lt (some a) (some b) = ltb a b
hundredths_lt _ _ = false

hundredths_eq : Hundredths → Hundredths → Bool
hundredths_eq (some a) (some b) = nat_eq a b
hundredths_eq _ _ = false

instance unfoldable pub hundredths : Float64 Hundredths
unfolding hundredths_plus hundredths_nan hundredths_lt hundredths_eq
hundredths = record {
  nought = some 0;
  ceiling = some 90;
  plus = hundredths_plus;
  is_nan = hundredths_nan;
  lt = hundredths_lt;
  feq = hundredths_eq;
}

abbrev IsTransAt : (a b c : Hundredths) → Type 0
unfolding hundredths
IsTransAt a b c = hundredths.lt a b ≡ true → hundredths.lt b c ≡ true → hundredths.lt a c ≡ true

hundredths_trans : (a b c : Hundredths) → IsTransAt a b c
unfolding hundredths
hundredths_trans (some a) (some b) (some c) h k = ground arith
hundredths_trans (some a) (some b) none h k = k
hundredths_trans (some a) none c h k = cc
hundredths_trans none b c h k = cc

pub hundredths-IsIeee : IsIeee Hundredths
unfolding hundredths
hundredths-IsIeee = record {
  lt_numbers = λ a b h. (ground arith, ground arith);
  lt_irrefl = λ a. ground arith;
  lt_trans = hundredths_trans;
  lt_split = λ a b c n h. ground arith;
  feq_iff = λ a b n m. (λ h. ground arith, λ h. ground arith);
  nought_load = record { is_number = refl; not_negative = refl };
  plus_load = λ a b l m. record {
    is_number = ground (arith, l.is_number, m.is_number);
    not_negative = ground (arith, l.is_number, m.is_number);
  };
}
