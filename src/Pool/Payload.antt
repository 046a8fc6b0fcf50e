-- ===== src/Pool/Payload.antt =====
-- internal/pool/pool.go: the bytes that a registration proof covers determine the unit and the second.
use hoersaal.Base.{
  ℕ, zero, suc, ◌/◌, ◌^◌, ◌<◌, ◌≡◌, refl, sym, ap, ◌∙◌, List, [], ◌∷◌, ◌++◌, arith, length,
}
use hoersaal.Placement.Records.{UnitId}
use hoersaal.Time.{Time, second, unix_seconds}
use hoersaal.Pool.Proof.{big_endian, payload}

length-big_endian : (k n : ℕ) → length (big_endian k n) ≡ k
unfolding big_endian
length-big_endian zero n = refl
length-big_endian (suc k) n = ap suc (length-big_endian k n)

-- Equal lists whose front parts have one length have equal parts.
append_split :
    {A : Type 0} (xs ys us vs : List A)
    → length xs ≡ length us
    → xs ++ ys ≡ us ++ vs
    → (xs ≡ us) × (ys ≡ vs)
append_split [] ys [] vs n e = (refl, e)
append_split [] ys (u ∷ us) vs n e = absurd (omega arith)
append_split (x ∷ xs) ys [] vs n e = absurd (omega arith)
append_split (x ∷ xs) ys (u ∷ us) vs n e =
    let (h, t) = append_split xs ys us vs (omega arith) (cc) in (ground (arith, h), t)

big_endian_2-injective :
    (a b : ℕ) → a < 2 ^ 16 → b < 2 ^ 16 → big_endian 2 a ≡ big_endian 2 b → a ≡ b
unfolding big_endian
big_endian_2-injective a b h k e = ground arith

big_endian_8-injective :
    (a b : ℕ) → a < 2 ^ 64 → b < 2 ^ 64 → big_endian 8 a ≡ big_endian 8 b → a ≡ b
unfolding big_endian
big_endian_8-injective a b h k e = ground arith

unix_seconds-lt : (t : Time) → unix_seconds t < 2 ^ 64
unfolding unix_seconds
unix_seconds-lt t = omega arith

-- Two payloads of units whose names are shorter than 2^16 bytes, at moments of less than 2^64
-- seconds after the zero time, are equal only for the same unit and the same whole second.
pub payload-injective :
    (u v : UnitId) (s t : Time)
    → length u < 2 ^ 16
    → length v < 2 ^ 16
    → s / second < 2 ^ 64
    → t / second < 2 ^ 64
    → payload u s ≡ payload v t
    → (u ≡ v) × (s / second ≡ t / second)
unfolding payload unix_seconds
payload-injective u v s t lu lv ls lt e =
    let (sizes, rest) =
      append_split (big_endian 2 (length u)) (u ++ big_endian 8 (unix_seconds s))
        (big_endian 2 (length v)) (v ++ big_endian 8 (unix_seconds t))
        (length-big_endian 2 (length u) ∙ sym (length-big_endian 2 (length v))) (cc) in
    let same_length : length u ≡ length v =
      big_endian_2-injective (length u) (length v) lu lv sizes in
    let (names, moments) =
      append_split u (big_endian 8 (unix_seconds s)) v (big_endian 8 (unix_seconds t)) same_length
        rest in
    let same_seconds : unix_seconds s ≡ unix_seconds t =
      big_endian_8-injective (unix_seconds s) (unix_seconds t) (unix_seconds-lt s)
        (unix_seconds-lt t) moments in
    (names, omega arith)
