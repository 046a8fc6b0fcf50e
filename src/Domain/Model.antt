-- ===== src/Domain/Model.antt =====
-- internal/domain/domain.go: identifiers, kinds, roles, participants, sources and subscriptions,
-- each with the constructor that refuses what the value may not hold.
use hoersaal.Base.{Bool, ◌||◌, not, Result, ok, err, if◌then◌else◌, ◌==◌, ℤ, pos, ltb_ℤ, leb_ℤ}
use hoersaal.Text.{Text, codes, is_empty, text_eq}

pub data Error : Type 0 where
  empty unknown duplicate elsewhere own_source no_layer not_a_kind : Error

abbrev pub IdentityId : Type 0
IdentityId = Text

abbrev pub ParticipantId : Type 0
ParticipantId = Text

abbrev pub ConferenceId : Type 0
ConferenceId = Text

abbrev pub SourceId : Type 0
SourceId = Text

abbrev pub Role : Type 0
Role = Text

abbrev pub Kind : Type 0
Kind = Text

unfoldable pub new_identity_id : Text → Result Error IdentityId
new_identity_id v = if is_empty v then err empty else ok v

unfoldable pub new_participant_id : Text → Result Error ParticipantId
new_participant_id v = if is_empty v then err empty else ok v

unfoldable pub new_conference_id : Text → Result Error ConferenceId
new_conference_id v = if is_empty v then err empty else ok v

unfoldable pub new_source_id : Text → Result Error SourceId
new_source_id v = if is_empty v then err empty else ok v

unfoldable pub new_role : Text → Result Error Role
new_role name = if is_empty name then err empty else ok name

abbrev pub audio : Kind
audio = codes "audio"

abbrev pub video : Kind
video = codes "video"

unfoldable pub known : Kind → Bool
known k = k == audio || k == video

pub record Participant : Type 0 where
  pub id : ParticipantId
  pub identity : IdentityId
  pub conference : ConferenceId
  pub role : Role

unfoldable pub new_participant :
    ParticipantId → IdentityId → ConferenceId → Role → Result Error Participant
new_participant id identity conference role =
    if is_empty id
    then err empty
    else if is_empty identity
    then err empty
    else if is_empty conference
    then err empty
    else if is_empty role
    then err empty
    else ok (record { id = id; identity = identity; conference = conference; role = role })

-- `layers` is how many encodings the publisher sends.
pub record Source : Type 0 where
  pub id : SourceId
  pub publisher : ParticipantId
  pub kind : Kind
  pub layers : ℤ

unfoldable pub new_source : SourceId → ParticipantId → Kind → ℤ → Result Error Source
new_source id publisher kind layers =
    if is_empty id
    then err empty
    else if is_empty publisher
    then err empty
    else if not (known kind)
    then err not_a_kind
    else if ltb_ℤ layers (pos 1)
    then err no_layer
    else ok (record { id = id; publisher = publisher; kind = kind; layers = layers })

pub record Subscription : Type 0 where
  pub subscriber : ParticipantId
  pub source : SourceId
  pub layer : ℤ

-- `layer < 0 || layer >= layers`
unfoldable pub outside : ℤ → ℤ → Bool
outside layer layers = ltb_ℤ layer (pos 0) || leb_ℤ layers layer

unfoldable pub new_subscription : ParticipantId → Source → ℤ → Result Error Subscription
new_subscription subscriber source layer =
    if is_empty subscriber
    then err empty
    else if is_empty source.id
    then err empty
    else if subscriber == source.publisher
    then err own_source
    else if outside layer source.layers
    then err no_layer
    else ok (record { subscriber = subscriber; source = source.id; layer = layer })
