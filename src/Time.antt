-- ===== src/Time.antt =====
-- Go's `time.Time` and `time.Duration`. A time is the number of nanoseconds since Go's zero time; a
-- duration is a signed number of nanoseconds of 64 bits.
use hoersaal.Base.{
  ℕ, suc, ◌+◌, ◌-◌, ◌*◌, ◌/◌, ◌%◌, ◌^◌, ℤ, pos, negsuc, pos_part, neg_part, sub_ℕ, ltb, leb, Bool,
  if◌then◌else◌,
}

abbrev pub Time : Type 0
Time = ℕ

abbrev pub Duration : Type 0
Duration = ℤ

abbrev pub second : ℕ
second = 1_000_000_000

-- The ends of `int64`.
abbrev pub max_duration : Duration
max_duration = pos (2 ^ 63 - 1)

abbrev pub min_duration : Duration
min_duration = negsuc (2 ^ 63 - 1)

-- `t.Sub(u)`: a difference that a duration cannot hold is held to the nearest end.
unfoldable pub sub : Time → Time → Duration
sub t u =
    if leb u t
    then (if leb (2 ^ 63) (t - u) then max_duration else pos (t - u))
    else if leb (2 ^ 63) (u - t)
    then min_duration
    else sub_ℕ t u

-- `-d`, which wraps: the least duration is its own negation.
unfoldable pub neg : Duration → Duration
neg (pos n) = sub_ℕ 0 n
neg (negsuc n) = if leb (2 ^ 63) (suc n) then min_duration else pos (suc n)

-- `t.Before(u)`
abbrev pub before : Time → Time → Bool
before t u = ltb t u

-- The seconds of `t.UTC().Unix()` as a `uint64`, which wraps before 1970.
unfoldable pub unix_seconds : Time → ℕ
unix_seconds t = (t / second + 2 ^ 64 - 62_135_596_800) % 2 ^ 64

-- An integer as `int64` holds it, which wraps.
unfoldable pub wrap : ℕ → Duration
wrap n = let m = n % 2 ^ 64 in if ltb m (2 ^ 63) then pos m else negsuc (2 ^ 64 - m - 1)

-- `d - e`
unfoldable pub minus : Duration → Duration → Duration
unfolding wrap
minus d e = wrap (pos_part d + neg_part e + 2 ^ 65 - pos_part e - neg_part d)

-- An instant that may lie before the zero time: signed nanoseconds since then.
abbrev pub Instant : Type 0
Instant = ℤ

-- The whole seconds since the zero time, rounded down.
unfoldable pub seconds_of : Instant → ℤ
seconds_of (pos n) = pos (n / second)
seconds_of (negsuc n) = negsuc (n / second)

-- `i.Unix()` as a `uint64`: the seconds since 1970, as 64 bits.
unfoldable pub unix_bits : Instant → ℕ
unfolding seconds_of
unix_bits i =
    (pos_part (seconds_of i) + 2 ^ 64 - neg_part (seconds_of i) % 2 ^ 64 + 2 ^ 64 - 62_135_596_800)
    % 2 ^ 64

-- `time.Unix(int64(n), 0)`, of the 64 bits `n`: the sum that counts from the zero time wraps.
unfoldable pub of_unix : ℕ → Instant
unfolding wrap
of_unix n = elim (wrap (n + 62_135_596_800)) [
  | pos s ↦ pos (s * second)
  | negsuc s ↦ negsuc (suc s * second - 1)
]

-- `i.Sub(j)` of two instants.
unfoldable pub gap : Instant → Instant → Duration
gap i j =
    let more = pos_part i + neg_part j in
    let less = pos_part j + neg_part i in
    if leb less more
    then (if leb (2 ^ 63) (more - less) then max_duration else pos (more - less))
    else if leb (2 ^ 63) (less - more)
    then min_duration
    else sub_ℕ more less
