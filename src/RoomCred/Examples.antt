-- ===== src/RoomCred/Examples.antt =====
-- internal/roomcred/roomcred.go: a credential of an hour for a lecture.
use hoersaal.Base.{
  ℕ, ◌+◌, ◌*◌, ◌≡◌, refl, ◌&&◌, Bool, true, none, some, [], ◌∷◌, ◌++◌, arith, ok, ltb,
  if◌then◌else◌, pos, length, Bool-cases, inl, inr,
}
use hoersaal.Text.{Text, codes, is_empty, text_beq}
use hoersaal.Time.{Time, second, seconds_of, unix_bits, of_unix, gap, wrap}
use hoersaal.Pool.Proof.{big_endian}
use hoersaal.RoomCred.Layout.{Claims, field_bytes, encode_claims, decode_claims, of_big_endian}
use hoersaal.RoomCred.Methods.{Base64, issue, verify}
use hoersaal.RoomCred.Numbers.{AreBytes, whole}
use hoersaal.RoomCred.Verifying.{signed}

-- Everything that a run of the model computes with.
program : Unit {0}
unfolding is_empty text_beq seconds_of unix_bits of_unix gap wrap big_endian field_bytes
    encode_claims decode_claims of_big_endian issue verify whole signed
program = tt

-- A digest of 32 bytes, of no strength.
abbrev pub digest : Text → Text → Text
digest key m = (length m + length key) ∷ codes "0123456789012345678901234567890"

-- Encodings that change nothing, one of which reads bytes alone.
abbrev pub plain : Base64
plain = record { encode = λ b. b; decode = λ s. some s }

abbrev pub all_bytes : Text → Bool
all_bytes [] = true
all_bytes (b ∷ s) = ltb b 256 && all_bytes s

abbrev pub guarded : Base64
guarded = record { encode = λ b. b; decode = λ s. if all_bytes s then some s else none }

pub guarded_bytes : (s b : Text) → guarded.decode s ≡ some b → AreBytes b
guarded_bytes s b h = elim (Bool-cases (all_bytes s)) [
  | inl q ↦ let same : s ≡ b = ground arith in rw⁻¹ same (bytes s q)
  | inr q ↦ absurd (ground arith)
]
  where
    bytes : (s : Text) → all_bytes s ≡ true → AreBytes s
    bytes [] h = tt
    bytes (b ∷ s) h = (ground arith, bytes s (ground arith))

abbrev pub start : ℕ
start = 62_200_000_000

abbrev pub ticket : Claims
ticket = record {
  conference = codes "c1";
  subject = codes "ada";
  role = codes "host";
  not_before = pos (start * second + 7);
  expires = pos ((start + 3_600) * second + 7);
}

abbrev pub key : Text
key = codes "a key of thirty-two bytes or more"

abbrev pub token : Text
token = encode_claims ticket ++ digest key (encode_claims ticket)

pub minted : issue digest plain key ticket ≡ ok token
unfolding program
minted = refl

abbrev pub noon : Time
noon = (start + 60) * second
