-- ===== src/Admission/Desk.antt =====
-- internal/admission/admission.go: the exchange. The steps of `Admit` before a unit is told are
-- `prepare`, which stops with a fault of this process or with a reason for the client; `admit` answers
-- the outcome, the desk afterwards, and what units were told.
use hoersaal.Base.{
  ℕ, suc, ◌+◌, Bool, not, ◌&&◌, ◌||◌, Option, none, some, List, [], ◌∷◌, Result, ok, err,
  if◌then◌else◌, ◌==◌, ltb, nat_eq, length, ◌>>=◌, ◌>>◌, refuse_if,
}
use hoersaal.Text.{Text, codes, is_empty, text_eq, sort_by}
use hoersaal.Dict.{Dict, lookup, insert, delete}
use hoersaal.Time.{Time, before}
use hoersaal.Wire.{Message}
use hoersaal.Domain.Conference.{is_some}
use hoersaal.Domain.Model.{
  ParticipantId, IdentityId, Role, Kind, audio, video, Source, new_participant_id, new_identity_id,
  new_role, new_source_id, new_source,
}
use hoersaal.Placement.Records.{UnitId, new_arrival}
use hoersaal.Placement.Naive
use hoersaal.Placement.Naive.{Answer, place, refuse}
use hoersaal.RoomCred.Layout.{Claims}
use hoersaal.MediaPort
use hoersaal.MediaPort.{PortError, Transport}
use hoersaal.Admission.Records.{
  type_request, type_granted, type_refused, Reason, malformed_request, credential_refused,
  not_permitted, conference_not_open, no_capacity, room_full, conference_at_its_unit_ceiling,
  unit_refused, unit_unavailable, Error, bad_room, no_name, unencodable, Offer, Request, Room,
  Grant, Outcome, granted, refused, Abandoned, Call, admit_publisher, admit_subscriber, Seams, Desk,
}

-- `Reason.String`
unfoldable pub reason_text : Reason → Text
reason_text malformed_request = codes "malformed-request"
reason_text credential_refused = codes "credential-refused"
reason_text not_permitted = codes "not-permitted"
reason_text conference_not_open = codes "conference-not-open"
reason_text no_capacity = codes "no-capacity"
reason_text room_full = codes "room-full"
reason_text conference_at_its_unit_ceiling = codes "conference-at-its-unit-ceiling"
reason_text unit_refused = codes "unit-refused"
reason_text unit_unavailable = codes "unit-unavailable"

unfoldable pub placement_reason : Naive.Reason → Reason
placement_reason Naive.no_units = no_capacity
placement_reason Naive.reached_unit_ceiling = conference_at_its_unit_ceiling
placement_reason Naive.no_eligible_unit = room_full

unfoldable pub unit_reason : PortError → Reason
unit_reason MediaPort.refused = unit_refused
unit_reason MediaPort.unavailable = unit_unavailable
unit_reason MediaPort.lost = unit_unavailable
unit_reason MediaPort.unknown = unit_unavailable
unit_reason MediaPort.conflict = unit_unavailable
unit_reason MediaPort.invalid = malformed_request
unit_reason MediaPort.another = unit_unavailable

unfoldable pub identity_of : Claims → IdentityId
identity_of c = elim (new_identity_id c.subject) [ ok id ↦ id | err e ↦ [] ]

unfoldable pub kind_of : Text → Option Kind
kind_of s = if s == audio then some audio else if s == video then some video else none

-- Why an admission stops before a unit is told.
pub data Stop : Type 0 where
  fault : Error → Stop
  no : Reason → Stop

-- What a unit is to be told, and of whom.
pub record Ready (U : Type 0) : Type 0 where
  pub request : Request
  pub claims : Claims
  pub role : Role
  pub participant : ParticipantId
  pub sources : List Source
  pub unit_id : UnitId
  pub unit : U

-- A value, or a stop for the want of it.
unfoldable pub need {ℓ} : {A : Type ℓ} → Stop → Option A → Result Stop A
need why none = err why
need why (some a) = ok a

unfoldable pub need_ok {ℓ κ} : {E : Type ℓ} {A : Type κ} → Stop → Result E A → Result Stop A
need_ok why (err e) = err why
need_ok why (ok a) = ok a

unfoldable pub placed : Answer → Result Stop UnitId
unfolding placement_reason
placed (place id) = ok id
placed (refuse r) = err (no (placement_reason r))

module _ {W U : Type 0} (seams : Seams W U) where
  -- The tests of `readRequest` on what the decoder read.
  unfoldable pub usable : Request × Bool → Option Request
  usable (req, more) =
      if more
      then none
      else if is_empty req.conference || is_empty req.credential
      then none
      else if not req.publishing && ltb 0 (length req.offers)
      then none
      else if req.publishing && nat_eq (length req.offers) 0
      then none
      else some req

  unfoldable pub read_request : Message → Option Request
  unfolding usable
  read_request m = if not (m.type == type_request) then none else elim m.payload [
    | none ↦ none
    | some [] ↦ none
    | some (b ∷ bs) ↦ elim (seams.read (b ∷ bs)) [ none ↦ none | some r ↦ usable r ]
  ]

  -- The loop of `mint`, from the n-th name on. It ends early at an offer that the model refuses.
  unfoldable pub mint_sources : ℕ → ParticipantId → List Offer → Result Stop (List Source)
  unfolding need_ok
  mint_sources n publisher [] = ok []
  mint_sources n publisher (o ∷ os) =
      let rest = mint_sources (suc n) publisher os in
      elim (kind_of o.kind) [
        | none ↦ ok []
        | some kind ↦ do
          name ← need (fault no_name) (seams.name n)
          id ← need_ok (fault no_name) (new_source_id name)
          elim (new_source id publisher kind o.layers) [
            | err e ↦ ok []
            | ok s ↦ do more ← rest; ok (s ∷ more)
          ]
      ]

  unfoldable pub mint : Request → Result Stop (ParticipantId × List Source)
  unfolding mint_sources
  mint req = do
    name ← need (fault no_name) (seams.name 0)
    participant ← need_ok (fault no_name) (new_participant_id name)
    sources ← if not req.publishing then ok [] else mint_sources 1 participant req.offers
    ok (participant, sources)

  unfoldable pub prepare : Room W → Message → Result Stop (Ready U)
  unfolding need need_ok placed read_request mint
  prepare room m = do
    refuse_if (is_empty room.id) (fault bad_room)
    refuse_if (not (room.placement.id == room.id)) (fault bad_room)
    req ← need (no malformed_request) (read_request m)
    refuse_if (not (req.conference == room.id)) (no malformed_request)
    claims ← need_ok (no credential_refused) (seams.verify req.credential room.id)
    role ← need_ok (no credential_refused) (new_role claims.role)
    refuse_if (req.publishing && not (seams.may_publish role)) (no not_permitted)
    refuse_if (not room.is_open) (no conference_not_open)
    (participant, sources) ← mint req
    refuse_if (req.publishing && not (nat_eq (length sources) (length req.offers)))
        (no malformed_request)
    arrival ← need_ok (no malformed_request) (new_arrival req.publishing sources)
    unit_id ← placed (seams.place room.pool room.placement arrival)
    unit ← need (no unit_unavailable) (seams.unit unit_id)
    ok (record {
      request = req;
      claims = claims;
      role = role;
      participant = participant;
      sources = sources;
      unit_id = unit_id;
      unit = unit;
    })

  -- `Desk.refuse`
  unfoldable pub refusal : Reason → Result Error Outcome
  unfolding reason_text
  refusal r = elim (seams.write_refused (reason_text r)) [
    | none ↦ err unencodable
    | some payload ↦ ok (refused r (record { type = type_refused; payload = some payload }))
  ]

  -- What the unit is told.
  unfoldable pub call_of : Room W → Ready U → Call U
  call_of room r =
      if r.request.publishing
      then admit_publisher r.unit room.id r.participant r.sources
      else admit_subscriber r.unit room.id r.participant

  unfoldable pub grant_of : Desk → Room W → Ready U → Transport → Grant
  unfolding identity_of
  grant_of d room r transport = record {
    conference = room.id;
    participant = r.participant;
    identity = identity_of r.claims;
    role = r.role;
    unit = r.unit_id;
    publishing = r.request.publishing;
    sources = r.sources;
    transport = transport;
    granted_at = seams.now;
    deadline = seams.now + d.window;
  }

  unfoldable pub outstanding_of : Grant → Abandoned
  outstanding_of g = record {
    conference = g.conference;
    participant = g.participant;
    unit = g.unit;
    granted_at = g.granted_at;
    deadline = g.deadline;
  }

  -- From the unit's answer on.
  unfoldable pub settle :
      Desk → Room W → Ready U → Result PortError Transport → Result Error Outcome × Desk
  unfolding grant_of outstanding_of refusal unit_reason
  settle d room r (err e) = (refusal (unit_reason e), d)
  settle d room r (ok transport) =
      let g = grant_of d room r transport in
      elim (seams.write_granted (record {
        conference = room.id;
        participant = r.participant;
        role = r.role;
        publishing = r.request.publishing;
        transport = transport;
      })) [
        | none ↦ (err unencodable, d)
        | some payload ↦ (
          ok (granted g (record { type = type_granted; payload = some payload })),
          record d { outstanding = insert g.participant (outstanding_of g) d.outstanding },
        )
      ]

  unfoldable pub admit : Desk → Room W → Message → Result Error Outcome × Desk × List (Call U)
  unfolding prepare settle call_of refusal
  admit d room m = elim (prepare room m) [
    | err (fault e) ↦ (err e, d, [])
    | err (no r) ↦ (refusal r, d, [])
    | ok r ↦
        let (outcome, after) = settle d room r (seams.tell (call_of room r)) in
        (outcome, after, call_of room r ∷ [])
  ]

unfoldable pub arrived : Desk → ParticipantId → Desk × Bool
arrived d p = (record d { outstanding = delete p d.outstanding }, is_some (lookup p d.outstanding))

-- The loop of `Sweep`, over what the map holds: what is left of it, and what is swept.
unfoldable pub sweep_from :
    Time → Dict ParticipantId Abandoned → Dict ParticipantId Abandoned × List Abandoned
sweep_from now [] = ([], [])
sweep_from now ((p, a) ∷ rest) =
    let (left, swept) = sweep_from now rest in
    if before now a.deadline then ((p, a) ∷ left, swept) else (left, a ∷ swept)

-- Earlier grants come first, and of one moment the smaller identifier: the order of the moment
-- followed by the identifier's bytes.
unfoldable pub sweep : Desk → Time → Desk × List Abandoned
unfolding sweep_from
sweep d now =
    let (left, swept) = sweep_from now d.outstanding in
    (record d { outstanding = left }, sort_by (λ a. a.granted_at ∷ a.participant) swept)

unfoldable pub outstanding : Desk → ℕ
outstanding d = length d.outstanding
