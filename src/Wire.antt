-- ===== src/Wire.antt =====
-- internal/wire/wire.go: the envelope and `Encode`. The encoder and the validity test of Go's
-- `encoding/json` are parameters.
use hoersaal.Base.{
  ℕ, ◌*◌, Bool, false, not, Option, none, some, [], ◌∷◌, Result, ok, err, if◌then◌else◌, ltb,
  nat_eq, length, ◌>>◌, refuse_if,
}
use hoersaal.Text.{Text, is_empty}

pub data Error : Type 0 where
  too_large not_json envelope_fault : Error

abbrev pub max_message_bytes : ℕ
max_message_bytes = 64 * 1024

abbrev pub max_type_bytes : ℕ
max_type_bytes = 64

-- A payload is nil or bytes.
pub record Message : Type 0 where
  pub type : Text
  pub payload : Option Text

-- What the code takes from `encoding/json`: the validity test, and the encoder with the escaping of
-- HTML off, which ends its output with a line feed.
pub record Json : Type 0 where
  pub is_valid : Text → Bool
  pub encode_envelope : Text → Option Text → Option Text

-- `bytes.TrimSuffix(b, []byte("\n"))`
unfoldable pub trim_line_feed : Text → Text
trim_line_feed [] = []
trim_line_feed (b ∷ []) = if nat_eq b 10 then [] else b ∷ []
trim_line_feed (b ∷ c ∷ bs) = b ∷ trim_line_feed (c ∷ bs)

unfoldable pub invalid_payload : Json → Option Text → Bool
invalid_payload json none = false
invalid_payload json (some b) = not (json.is_valid b)

unfoldable pub encode : Json → Message → Result Error Text
unfolding invalid_payload trim_line_feed
encode json m = do
  refuse_if (is_empty m.type) envelope_fault
  refuse_if (ltb max_type_bytes (length m.type)) envelope_fault
  refuse_if (invalid_payload json m.payload) not_json
  elim (json.encode_envelope m.type m.payload) [
    | none ↦ err not_json
    | some line ↦ do
      refuse_if (ltb max_message_bytes (length (trim_line_feed line))) too_large
      ok (trim_line_feed line)
  ]
