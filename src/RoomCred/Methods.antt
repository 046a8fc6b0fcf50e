-- ===== src/RoomCred/Methods.antt =====
-- internal/roomcred/roomcred.go: the issuer and the verifier. HMAC with SHA-256 is the argument `mac`, of
-- a key and a message; `Base64` is the unpadded URL encoding of `encoding/base64`.
use hoersaal.Base.{
  ℕ, ◌*◌, ◌-◌, Bool, not, ◌||◌, Option, none, some, ◌++◌, Result, ok, err, if◌then◌else◌, ◌==◌, ltb,
  leb, false, nat_eq, pos, negsuc, ltb_ℤ, length, ◌>>=◌, ◌>>◌, refuse_if,
}
use hoersaal.Text.{Text, is_empty, text_eq}
use hoersaal.Time.{Time, Instant, Duration, second, gap}
use hoersaal.RoomCred.Layout.{
  Error, key_too_short, claims_refused, malformed, bad_signature, wrong_conference, not_yet_valid,
  expired, no_clock, Claims, max_field_bytes, encode_claims, decode_claims, take, drop,
}

abbrev pub min_key_bytes : ℕ
min_key_bytes = 32

abbrev pub max_token_bytes : ℕ
max_token_bytes = 1024

abbrev pub max_lifetime : Duration
max_lifetime = pos (12 * 3600 * second)

-- `sha256.Size`
abbrev pub mac_bytes : ℕ
mac_bytes = 32

pub record Base64 : Type 0 where
  pub encode : Text → Text
  pub decode : Text → Option Text

unfoldable pub is_zero : Instant → Bool
is_zero (pos n) = nat_eq n 0
is_zero (negsuc n) = false

unfoldable pub lifetime : Claims → Duration
lifetime c = gap c.expires c.not_before

-- An issuer is its key.
unfoldable pub new_issuer : Text → Result Error Text
new_issuer key = if ltb (length key) min_key_bytes then err key_too_short else ok key

-- The checks of `Issue`.
unfoldable pub check_claims : Claims → Result Error (Unit {0})
unfolding is_zero lifetime
check_claims c = do
  refuse_if (is_empty c.conference) claims_refused
  refuse_if (is_empty c.role) claims_refused
  refuse_if (ltb max_field_bytes (length c.conference)) claims_refused
  refuse_if (ltb max_field_bytes (length c.subject)) claims_refused
  refuse_if (ltb max_field_bytes (length c.role)) claims_refused
  refuse_if (is_zero c.not_before || is_zero c.expires) claims_refused
  refuse_if (not (ltb_ℤ c.not_before c.expires)) claims_refused
  refuse_if (ltb_ℤ max_lifetime (lifetime c)) claims_refused

module _ (mac : Text → Text → Text) (base64 : Base64) where
  unfoldable pub issue : Text → Claims → Result Error Text
  unfolding check_claims
  issue key c = do check_claims c; ok (base64.encode (encode_claims c ++ mac key (encode_claims c)))

  -- A verifier is its key; `has_clock` is whether a clock was handed over.
  unfoldable pub new_verifier : Text → Bool → Result Error Text
  new_verifier key has_clock =
      if ltb (length key) min_key_bytes
      then err key_too_short
      else if not has_clock
      then err no_clock
      else ok key

  -- What `Verify` does with the bytes of a token.
  unfoldable pub verify_raw : Text → Text → Text → Time → Result Error Claims
  verify_raw key raw conference now = do
    refuse_if (leb (length raw) mac_bytes) malformed
    refuse_if
        (not (drop (length raw - mac_bytes) raw == mac key (take (length raw - mac_bytes) raw)))
        bad_signature
    c ← decode_claims (take (length raw - mac_bytes) raw)
    refuse_if (not (c.conference == conference)) wrong_conference
    refuse_if (ltb_ℤ (pos now) c.not_before) not_yet_valid
    refuse_if (ltb_ℤ c.expires (pos now)) expired
    ok c

  unfoldable pub verify : Text → Text → Text → Time → Result Error Claims
  unfolding verify_raw
  verify key token conference now = do
    refuse_if (is_empty conference) claims_refused
    refuse_if (ltb max_token_bytes (length token)) malformed
    elim (base64.decode token) [
      | none ↦ err malformed
      | some raw ↦ verify_raw key raw conference now
    ]
