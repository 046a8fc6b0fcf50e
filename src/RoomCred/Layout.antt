-- ===== src/RoomCred/Layout.antt =====
-- internal/roomcred/roomcred.go: what a credential says, and the bytes that it is signed over.
use hoersaal.Base.{
  ℕ, zero, suc, ◌+◌, ◌*◌, ◌^◌, not, [], ◌∷◌, ◌++◌, Result, ok, err, ltb, nat_eq, length, ◌>>=◌,
  ◌>>◌, refuse_if,
}
use hoersaal.Text.{Text}
use hoersaal.Time.{Instant, unix_bits, of_unix}
use hoersaal.Pool.Proof.{big_endian}

pub data Error : Type 0 where
  key_too_short claims_refused malformed unknown_version bad_signature wrong_conference : Error
  not_yet_valid expired no_clock : Error

abbrev pub version : ℕ
version = 1

abbrev pub max_field_bytes : ℕ
max_field_bytes = 128

pub record Claims : Type 0 where
  pub conference : Text
  pub subject : Text
  pub role : Text
  pub not_before : Instant
  pub expires : Instant

-- A text field with its length in front.
unfoldable pub field_bytes : Text → Text
unfolding big_endian
field_bytes s = big_endian 2 (length s) ++ s

unfoldable pub encode_claims : Claims → Text
unfolding field_bytes
encode_claims c =
    version
    ∷ (field_bytes c.conference
        ++ (field_bytes c.subject
            ++ (field_bytes c.role
                ++ (big_endian 8 (unix_bits c.not_before) ++ big_endian 8 (unix_bits c.expires)))))

-- The slices `b[:n]` and `b[n:]`.
abbrev pub take : ℕ → Text → Text
take zero s = []
take (suc n) [] = []
take (suc n) (b ∷ s) = b ∷ take n s

abbrev pub drop : ℕ → Text → Text
drop zero s = s
drop (suc n) [] = []
drop (suc n) (b ∷ s) = drop n s

-- `binary.BigEndian.Uint16` and `Uint64`: the number that bytes stand for.
unfoldable pub of_big_endian : Text → ℕ
of_big_endian [] = 0
of_big_endian (b ∷ s) = b * 256 ^ length s + of_big_endian s

-- One round of the loop of `decode`: a field, and the bytes that follow it.
unfoldable pub read_field : Text → Result Error (Text × Text)
unfolding of_big_endian
read_field rest = do
  refuse_if (ltb (length rest) 2) malformed
  refuse_if (ltb max_field_bytes (of_big_endian (take 2 rest))) malformed
  refuse_if (ltb (length (drop 2 rest)) (of_big_endian (take 2 rest))) malformed
  ok (
    take (of_big_endian (take 2 rest)) (drop 2 rest),
    drop (of_big_endian (take 2 rest)) (drop 2 rest),
  )

-- The claims, with the window from the bytes that are left.
unfoldable pub with_window : Text → Text → Text → Text → Result Error Claims
unfolding of_big_endian
with_window conference subject role window = do
  refuse_if (not (nat_eq (length window) 16)) malformed
  ok (record {
    conference = conference;
    subject = subject;
    role = role;
    not_before = of_unix (of_big_endian (take 8 window));
    expires = of_unix (of_big_endian (drop 8 window));
  })

-- What `decode` does after the version.
unfoldable pub decode_fields : Text → Result Error Claims
unfolding read_field with_window
decode_fields rest = do
  (conference, rest₁) ← read_field rest
  (subject, rest₂) ← read_field rest₁
  (role, window) ← read_field rest₂
  with_window conference subject role window

unfoldable pub decode_claims : Text → Result Error Claims
unfolding decode_fields
decode_claims [] = err malformed
decode_claims (v ∷ rest) = do refuse_if (not (nat_eq v version)) unknown_version; decode_fields rest
