-- ===== src/Admission/Records.antt =====
-- internal/admission/admission.go: requests, grants, refusals, and the desk with the seams it is built
-- with. A seam is an argument of the model: it answers what it would answer during the call.
use hoersaal.Base.{
  ℕ, ◌*◌, Bool, Option, List, [], Result, ok, err, if◌then◌else◌, ℤ, pos, ltb_ℤ, pos_part, nat_eq,
}
use hoersaal.Text.{Text, codes}
use hoersaal.Dict.{Dict}
use hoersaal.Time.{Time, Duration, second}
use hoersaal.Wire.{Message}
use hoersaal.Domain.Model.{ConferenceId, ParticipantId, IdentityId, Role, Source}
use hoersaal.Placement.Records.{UnitId, Arrival}
use hoersaal.Placement.Records
use hoersaal.Placement.Naive.{Answer}
use hoersaal.RoomCred.Layout.{Claims}
use hoersaal.RoomCred.Layout
use hoersaal.MediaPort.{PortError, Transport}

abbrev pub type_request : Text
type_request = codes "admission.request"

abbrev pub type_granted : Text
type_granted = codes "admission.granted"

abbrev pub type_refused : Text
type_refused = codes "admission.refused"

abbrev pub default_window : ℕ
default_window = 120 * second

pub data Reason : Type 0 where
  malformed_request credential_refused not_permitted conference_not_open no_capacity : Reason
  room_full conference_at_its_unit_ceiling unit_refused unit_unavailable : Reason

-- `unencodable` is an error of the JSON encoder, which the code passes on.
pub data Error : Type 0 where
  no_seam bad_room no_name unencodable : Error

pub record Offer : Type 0 where
  pub kind : Text
  pub layers : ℤ

pub record Request : Type 0 where
  pub conference : Text
  pub credential : Text
  pub publishing : Bool
  pub offers : List Offer

pub record GrantedJson : Type 0 where
  pub conference : Text
  pub participant : Text
  pub role : Text
  pub publishing : Bool
  pub transport : Text

pub record Room (W : Type 0) : Type 0 where
  pub id : ConferenceId
  pub is_open : Bool
  pub pool : Records.Pool W
  pub placement : Records.Conference W

pub record Grant : Type 0 where
  pub conference : ConferenceId
  pub participant : ParticipantId
  pub identity : IdentityId
  pub role : Role
  pub unit : UnitId
  pub publishing : Bool
  pub sources : List Source
  pub transport : Transport
  pub granted_at : Time
  pub deadline : Time

-- The message is what the client is sent.
pub data Outcome : Type 0 where
  granted : Grant → Message → Outcome
  refused : Reason → Message → Outcome

pub record Abandoned : Type 0 where
  pub conference : ConferenceId
  pub participant : ParticipantId
  pub unit : UnitId
  pub granted_at : Time
  pub deadline : Time

-- What a unit is told: the handle, the conference and the participant, and what it publishes.
pub data Call (U : Type 0) : Type 0 where
  admit_publisher : U → ConferenceId → ParticipantId → List Source → Call U
  admit_subscriber : U → ConferenceId → ParticipantId → Call U

-- `name n` is the answer of `Names.New` to the n-th call of one admission, from 0; `read` is the strict
-- decoder of `encoding/json` with what its `More` answers then; `now` is the clock at the grant.
pub record Seams (W U : Type 0) : Type 0 where
  pub verify : Text → Text → Result Layout.Error Claims
  pub may_publish : Role → Bool
  pub place : Records.Pool W → Records.Conference W → Arrival → Answer
  pub unit : UnitId → Option U
  pub tell : Call U → Result PortError Transport
  pub name : ℕ → Option Text
  pub now : Time
  pub read : Text → Option (Request × Bool)
  pub write_granted : GrantedJson → Option Text
  pub write_refused : Text → Option Text

-- The window, and the admissions that were granted and neither completed nor swept.
pub record Desk : Type 0 where
  pub window : ℕ
  pub outstanding : Dict ParticipantId Abandoned

-- `has_seams` is whether every seam was handed over.
unfoldable pub new_desk : Bool → Duration → Result Error Desk
new_desk has_seams window =
    if has_seams
    then (if ltb_ℤ window (pos 0)
        then err no_seam
        else ok (record {
          window = if nat_eq (pos_part window) 0 then default_window else pos_part window;
          outstanding = [];
        }))
    else err no_seam
