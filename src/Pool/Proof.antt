-- ===== src/Pool/Proof.antt =====
-- internal/pool/pool.go: the registration proof and the bytes that it covers. The keyed digest
-- (HMAC with SHA-256) is the argument `mac`, of a key and a message.
use hoersaal.Base.{
  ℕ, zero, suc, ◌/◌, ◌%◌, ◌^◌, List, [], ◌∷◌, ◌++◌, Result, ok, err, if◌then◌else◌, length, ltb,
}
use hoersaal.Text.{Text, is_empty}
use hoersaal.Placement.Records.{UnitId}
use hoersaal.Time.{Time, unix_seconds}
use hoersaal.Pool.Rows.{Error, empty, key_too_short}

abbrev pub min_key_bytes : ℕ
min_key_bytes = 32

abbrev pub proof_version : ℕ
proof_version = 1

-- `binary.BigEndian.AppendUint16` and `AppendUint64` append the lowest bytes of the number, the
-- highest of them first.
unfoldable pub big_endian : ℕ → ℕ → List ℕ
big_endian zero n = []
big_endian (suc k) n = (n / 256 ^ k % 256) ∷ big_endian k n

unfoldable pub payload : UnitId → Time → Text
unfolding big_endian
payload unit issued_at =
    proof_version ∷ (big_endian 2 (length unit) ++ (unit ++ big_endian 8 (unix_seconds issued_at)))

pub record Registration : Type 0 where
  pub unit : UnitId
  pub issued_at : Time
  pub proof : Text

module _ (mac : Text → Text → Text) where
  unfoldable pub proof_of : Text → UnitId → Time → Text
  proof_of key unit issued_at = mac key (payload unit issued_at)

  unfoldable pub prove : Text → UnitId → Time → Result Error Text
  unfolding proof_of
  prove key unit issued_at =
      if ltb (length key) min_key_bytes
      then err key_too_short
      else if is_empty unit
      then err empty
      else ok (proof_of key unit issued_at)
