-- ===== src/Text/Defs.antt =====
-- Go strings: sequences of bytes, with the tests `==` and `<`, and the identifiers made of them. An
-- identifier type of the source is a struct around one string; here it is the string.
use Prim.Native.Char.{code}
use Prim.Native.String.{String}
use hoersaal.Base.{
  ℕ, ◌≡◌, refl, ◌≢◌, ◌⊎◌, inl, inr, ◌↔◌, Bool, true, false, ◌&&◌, List, [], ◌∷◌, arith, ltb, nat_eq,
  if◌then◌else◌, Comparable,
}

abbrev pub Text : Type 0
Text = List ℕ

abbrev pub codes : String → Text
codes String.[] = []
codes (String.◌∷◌ c s) = code c ∷ codes s

unfoldable pub is_empty : Text → Bool
is_empty [] = true
is_empty (b ∷ s) = false

pub is_empty-false : (s : Text) → is_empty s ≡ false → s ≢ []
unfolding is_empty
is_empty-false [] h e = cc
is_empty-false (b ∷ s) h e = cc

pub is_empty_named : (s : Text) → s ≢ [] → is_empty s ≡ false
unfolding is_empty
is_empty_named [] h = absurd (h refl)
is_empty_named (b ∷ s) h = refl

unfoldable pub text_beq : Text → Text → Bool
text_beq [] [] = true
text_beq [] (b ∷ t) = false
text_beq (a ∷ s) [] = false
text_beq (a ∷ s) (b ∷ t) = nat_eq a b && text_beq s t

pub text_beq_iff : (s t : Text) → (text_beq s t ≡ true) ↔ (s ≡ t)
unfolding text_beq
text_beq_iff [] [] = (λ _. refl, λ _. refl)
text_beq_iff [] (b ∷ t) = (λ h. cc, λ h. cc)
text_beq_iff (a ∷ s) [] = (λ h. cc, λ h. cc)
text_beq_iff (a ∷ s) (b ∷ t) =
    (λ h. ground (arith, text_beq_iff s t), λ h. ground (arith, text_beq_iff s t))

instance abbrev pub text_eq : Comparable Text
text_eq = record { same = text_beq; same_iff = text_beq_iff }

-- Two identifiers as one key.
unfoldable pub pair_beq : Text × Text → Text × Text → Bool
unfolding text_beq
pair_beq (a, b) (c, d) = text_beq a c && text_beq b d

pub pair_beq_iff : (s t : Text × Text) → (pair_beq s t ≡ true) ↔ (s ≡ t)
unfolding pair_beq
pair_beq_iff (a, b) (c, d) = (
  λ h. ground (arith, text_beq_iff a c, text_beq_iff b d),
  λ h. ground (arith, text_beq_iff a c, text_beq_iff b d),
)

instance abbrev pub pair_eq : Comparable (Text × Text)
pair_eq = record { same = pair_beq; same_iff = pair_beq_iff }

-- `s < t`: the first byte that differs decides, and a proper prefix comes first.
unfoldable pub text_lt : Text → Text → Bool
text_lt [] [] = false
text_lt [] (b ∷ t) = true
text_lt (a ∷ s) [] = false
text_lt (a ∷ s) (b ∷ t) = if ltb a b then true else if nat_eq a b then text_lt s t else false

pub text_lt_irrefl : (s : Text) → text_lt s s ≡ false
unfolding text_lt
text_lt_irrefl [] = refl
text_lt_irrefl (a ∷ s) = ground (arith, text_lt_irrefl s)

pub text_lt_trans : (s t u : Text) → text_lt s t ≡ true → text_lt t u ≡ true → text_lt s u ≡ true
unfolding text_lt
text_lt_trans [] [] u h k = cc
text_lt_trans [] (b ∷ t) [] h k = cc
text_lt_trans [] (b ∷ t) (c ∷ u) h k = refl
text_lt_trans (a ∷ s) [] u h k = cc
text_lt_trans (a ∷ s) (b ∷ t) [] h k = cc
text_lt_trans (a ∷ s) (b ∷ t) (c ∷ u) h k = ground (arith, text_lt_trans s t u)

pub text_lt_total : (s t : Text) → (text_lt s t ≡ true) ⊎ ((s ≡ t) ⊎ (text_lt t s ≡ true))
unfolding text_lt
text_lt_total [] [] = inr (inl refl)
text_lt_total [] (b ∷ t) = inl refl
text_lt_total (a ∷ s) [] = inr (inr refl)
text_lt_total (a ∷ s) (b ∷ t) = ground (arith, text_lt_total s t)

pub text_lt_asymm : (s t : Text) → text_lt s t ≡ true → text_lt t s ≡ true → ⊥
text_lt_asymm s t h k = ground (arith, text_lt_trans s t s h k, text_lt_irrefl s)
