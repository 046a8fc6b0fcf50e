-- ===== src/RoomCred/Numbers.antt =====
-- internal/roomcred/roomcred.go: numbers and moments as the bytes of a credential, and back.
use hoersaal.Base.{
  ℕ, suc, ◌+◌, ◌*◌, ◌-◌, ◌%◌, ◌^◌, ◌<◌, ◌≡◌, refl, [], ◌∷◌, arith, ℤ, pos, negsuc, pos_part,
  neg_part, ◌≤ℤ◌, All, length,
}
use hoersaal.Text.{Text}
use hoersaal.Time.{Instant, second, wrap, seconds_of, unix_bits, of_unix}
use hoersaal.Pool.Proof.{big_endian}
use hoersaal.RoomCred.Layout.{of_big_endian}

abbrev pub AreBytes : Text → Type 0
AreBytes s = All (λ b. b < 256) s

pub of_big_endian_2 : (n : ℕ) → n < 2 ^ 16 → of_big_endian (big_endian 2 n) ≡ n
unfolding big_endian of_big_endian
of_big_endian_2 n h = omega arith

pub big_endian_2_of :
    (a b : ℕ) → a < 256 → b < 256 → big_endian 2 (of_big_endian (a ∷ b ∷ [])) ≡ a ∷ b ∷ []
unfolding big_endian of_big_endian
big_endian_2_of a b h k = ground arith

pub of_big_endian_8 : (n : ℕ) → n < 2 ^ 64 → of_big_endian (big_endian 8 n) ≡ n
unfolding big_endian of_big_endian
of_big_endian_8 n h = omega arith

pub of_big_endian-lt : (s : Text) → AreBytes s → length s ≡ 8 → of_big_endian s < 2 ^ 64
unfolding of_big_endian
of_big_endian-lt (a ∷ b ∷ c ∷ d ∷ e ∷ f ∷ g ∷ i ∷ []) h k = omega arith
of_big_endian-lt s h k = absurd (omega arith)

pub big_endian_8_of : (s : Text) → AreBytes s → length s ≡ 8 → big_endian 8 (of_big_endian s) ≡ s
unfolding of_big_endian big_endian
big_endian_8_of (a ∷ b ∷ c ∷ d ∷ e ∷ f ∷ g ∷ i ∷ []) h k = ground arith
big_endian_8_of s h k = absurd (omega arith)

-- The whole seconds of an instant.
unfoldable pub whole : Instant → Instant
unfolding seconds_of
whole i = elim (seconds_of i) [ pos s ↦ pos (s * second) | negsuc s ↦ negsuc (suc s * second - 1) ]

-- The instants that a `time.Time` can hold: its seconds are an int64.
abbrev pub IsTime : Instant → Type 0
IsTime i = (negsuc (2 ^ 63 - 1) ≤ℤ seconds_of i) × (seconds_of i ≤ℤ pos (2 ^ 63 - 1))

pub unix_bits-lt : (i : Instant) → unix_bits i < 2 ^ 64
unfolding unix_bits
unix_bits-lt i = omega arith

wrap_bits :
    (s : ℤ)
    → negsuc (2 ^ 63 - 1) ≤ℤ s
    → s ≤ℤ pos (2 ^ 63 - 1)
    → wrap (
        (pos_part s + 2 ^ 64 - neg_part s % 2 ^ 64 + 2 ^ 64 - 62_135_596_800) % 2 ^ 64
        + 62_135_596_800)
      ≡ s
unfolding wrap
wrap_bits (pos n) h k = ground arith
wrap_bits (negsuc n) h k = ground arith

pub of_unix-unix_bits : (i : Instant) → IsTime i → of_unix (unix_bits i) ≡ whole i
unfolding of_unix unix_bits whole
of_unix-unix_bits i h = rw (wrap_bits (seconds_of i) h.0 h.1, of_unix) refl

pub unix_bits-of_unix : (n : ℕ) → n < 2 ^ 64 → unix_bits (of_unix n) ≡ n
unfolding of_unix unix_bits wrap seconds_of
unix_bits-of_unix n h = ground arith

pub of_unix-whole : (n : ℕ) → n < 2 ^ 64 → (whole (of_unix n) ≡ of_unix n) × IsTime (of_unix n)
unfolding of_unix wrap seconds_of whole
of_unix-whole n h = ground arith
