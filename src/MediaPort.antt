-- ===== src/MediaPort.antt =====
-- internal/mediaport/mediaport.go: the values that the port of a media unit is spoken to with, and the
-- errors that it answers. A transport or a reference is its bytes.
use hoersaal.Base.{◌||◌, Result, ok, err, if◌then◌else◌, ℤ, pos, ltb_ℤ}
use hoersaal.Text.{Text, is_empty, text_eq}
use hoersaal.Domain.Model.{ConferenceId, ParticipantId}

-- `another` stands for an error that is none of the port's.
pub data PortError : Type 0 where
  invalid unknown conflict refused unavailable lost another : PortError

pub data Error : Type 0 where
  empty no_layer not_a_fault : Error

pub record Profile : Type 0 where
  pub codecs : Text
  pub layers : ℤ

unfoldable pub new_profile : Text → ℤ → Result Error Profile
new_profile codecs layers =
    if is_empty codecs
    then err empty
    else if ltb_ℤ layers (pos 1)
    then err no_layer
    else ok (record { codecs = codecs; layers = layers })

abbrev pub Transport : Type 0
Transport = Text

abbrev pub Reference : Type 0
Reference = Text

abbrev pub LinkId : Type 0
LinkId = Text

unfoldable pub new_link_id : Text → Result Error LinkId
new_link_id v = if is_empty v then err empty else ok v

-- A fault names the thing that was lost.
pub data Fault : Type 0 where
  unit_gone : Fault
  conference_gone : ConferenceId → Fault
  participant_gone : ConferenceId → ParticipantId → Fault
  link_gone : ConferenceId → LinkId → Fault

unfoldable pub unit_fault : Fault
unit_fault = unit_gone

unfoldable pub conference_fault : ConferenceId → Result Error Fault
conference_fault c = if is_empty c then err not_a_fault else ok (conference_gone c)

unfoldable pub participant_fault : ConferenceId → ParticipantId → Result Error Fault
participant_fault c p =
    if is_empty c || is_empty p then err not_a_fault else ok (participant_gone c p)

unfoldable pub link_fault : ConferenceId → LinkId → Result Error Fault
link_fault c l = if is_empty c || is_empty l then err not_a_fault else ok (link_gone c l)
