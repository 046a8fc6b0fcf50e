-- ===== src/Presence/Records.antt =====
-- internal/presence/presence.go: entries, the roll, its summary, and the shapes that both are sent in.
use hoersaal.Base.{
  ℕ, Option, none, some, List, [], ◌∷◌, ◌++◌, map, Result, ok, err, if◌then◌else◌, ltb, ℤ, pos,
  length, ◌>>=◌,
}
use hoersaal.Text.{Text, codes, is_empty, text_eq, sort_by}
use hoersaal.Dict.{Dict, lookup, insert}
use hoersaal.Domain.Model.{ParticipantId, IdentityId, Role}
use hoersaal.Domain.Conference.{is_some}
use hoersaal.Wire.{Message}

abbrev pub type_summary : Text
type_summary = codes "presence.summary"

abbrev pub type_page : Text
type_page = codes "presence.page"

abbrev pub max_attending : ℕ
max_attending = 8

abbrev pub max_page : ℤ
max_page = pos 100

-- `too_large` is the wire's refusal, passed on by `Page`; `unencodable` an error of the encoder.
pub data Error : Type 0 where
  empty duplicate unknown page_size bad_window too_large unencodable : Error

pub record Entry : Type 0 where
  pub id : ParticipantId
  pub identity : IdentityId
  pub role : Role

unfoldable pub new_entry : ParticipantId → IdentityId → Role → Result Error Entry
new_entry id identity role =
    if is_empty id
    then err empty
    else if is_empty identity
    then err empty
    else if is_empty role
    then err empty
    else ok (record { id = id; identity = identity; role = role })

pub record EntryJson : Type 0 where
  pub participant : Text
  pub identity : Text
  pub role : Text

unfoldable pub wire_form : Entry → EntryJson
wire_form e = record { participant = e.id; identity = e.identity; role = e.role }

pub record Roll : Type 0 where
  pub entries : List Entry
  pub attending : List Entry
  pub attending_total : ℕ
  pub identities : ℕ

-- What the first loop of `NewRoll` fills: its two maps.
pub record Gathered : Type 0 where
  pub held : Dict ParticipantId Entry
  pub identities : Dict IdentityId (Unit {0})

-- The first loop of `NewRoll`. The slice that it appends to holds the entries of its argument, in
-- their order, when it ends.
unfoldable pub gather : Gathered → List Entry → Result Error Gathered
gather g [] = ok g
gather g (e ∷ es) =
    let rest =
      gather
        (record { held = insert e.id e g.held; identities = insert e.identity tt g.identities })
        es in
    if is_empty e.id
    then err empty
    else if is_some (lookup e.id g.held)
    then err duplicate
    else rest

-- The second loop of `NewRoll`, with the identifiers and the entries that it has so far.
unfoldable pub choose :
    Dict ParticipantId Entry
    → Dict ParticipantId (Unit {0})
    → List Entry
    → List ParticipantId
    → Result Error (List Entry)
choose held named front [] = ok front
choose held named front (id ∷ ids) = elim (lookup id held) [
  | none ↦ err unknown
  | some e ↦
      let rest =
        choose held (insert id tt named)
          (if ltb (length front) max_attending then front ++ (e ∷ []) else front) ids in
      if is_some (lookup id named) then err duplicate else rest
]

unfoldable pub new_roll : List Entry → List ParticipantId → Result Error Roll
unfolding gather choose
new_roll entries attending = do
  g ← gather (record { held = []; identities = [] }) entries
  front ← choose g.held [] [] attending
  ok (record {
    entries = sort_by (λ e. e.id) entries;
    attending = front;
    attending_total = length attending;
    identities = length g.identities;
  })

unfoldable pub participant_count : Roll → ℕ
participant_count r = length r.entries

unfoldable pub identity_count : Roll → ℕ
identity_count r = r.identities

pub record Summary : Type 0 where
  pub revision : ℕ
  pub participants : ℕ
  pub identities : ℕ
  pub attending : List Entry
  pub attending_total : ℕ

unfoldable pub summary : Roll → ℕ → Summary
summary r revision = record {
  revision = revision;
  participants = length r.entries;
  identities = r.identities;
  attending = r.attending;
  attending_total = r.attending_total;
}

pub record SummaryJson : Type 0 where
  pub revision : ℕ
  pub participants : ℕ
  pub identities : ℕ
  pub attending : List EntryJson
  pub attending_total : ℕ

-- `Summary.Message`; `marshal` is `json.Marshal` at this shape.
unfoldable pub summary_message : (SummaryJson → Option Text) → Summary → Result Error Message
unfolding wire_form
summary_message marshal s =
    elim (marshal (record {
      revision = s.revision;
      participants = s.participants;
      identities = s.identities;
      attending = map wire_form s.attending;
      attending_total = s.attending_total;
    })) [
      | none ↦ err unencodable
      | some payload ↦ ok (record { type = type_summary; payload = some payload })
    ]
