-- ===== src/Admission/Told.antt =====
-- internal/admission/admission.go: what an admission tells a unit, and what it leaves on the desk.
use hoersaal.Base.{
  ◌≡◌, refl, ◌⊎◌, inl, inr, some, [], ◌∷◌, Result, ok, err, Option-cases, Result-cases,
}
use hoersaal.Text.{Text, text_eq}
use hoersaal.Dict.{insert}
use hoersaal.Wire.{Message}
use hoersaal.MediaPort.{Transport}
use hoersaal.Admission.Records.{
  type_granted, type_refused, Error, unencodable, Reason, Room, Grant, GrantedJson, Outcome,
  granted, refused, Seams, Desk,
}
use hoersaal.Admission.Desk.{
  fault, no, unit_reason, Ready, prepare, reason_text, refusal, call_of, grant_of, outstanding_of,
  settle, admit,
}
use hoersaal.Admission.Cleared.{Cleared, prepare-Cleared}

module _ {W U : Type 0} (seams : Seams W U) where
  -- What a granted client is sent, member by member.
  abbrev pub sent_of : Grant → GrantedJson
  sent_of g = record {
    conference = g.conference;
    participant = g.participant;
    role = g.role;
    publishing = g.publishing;
    transport = g.transport;
  }

  -- A grant: the unit was told after the checks, and answered; what it answered is in the message,
  -- and the desk waits for the participant.
  pub record Grants (d : Desk) (room : Room W) (m : Message) (after : Desk) (g : Grant)
      (sent : Message) : Type 0 where
    pub ready : Ready U
    pub cleared : Cleared seams room m ready
    pub transport : Transport
    pub told : seams.tell (call_of seams room ready) ≡ ok transport
    pub grant : g ≡ grant_of seams d room ready transport
    pub payload : Text
    pub written : seams.write_granted (sent_of g) ≡ some payload
    pub answered : sent ≡ record { type = type_granted; payload = some payload }
    pub waiting :
        after
        ≡ record d { outstanding = insert g.participant (outstanding_of seams g) d.outstanding }

  -- A unit is told at most one thing, and only after every check of the admission.
  pub admit-Cleared :
      (d : Desk) (room : Room W) (m : Message)
      → ((admit seams d room m).2 ≡ [])
        ⊎ ((r : Ready U) × Cleared seams room m r
            × ((admit seams d room m).2 ≡ (call_of seams room r ∷ [])))
  unfolding admit
  admit-Cleared d room m = elim (Result-cases (prepare seams room m)) [
    | inl (fault e, q) ↦ inl (rw (q, admit) refl)
    | inl (no why, q) ↦ inl (rw (q, admit) refl)
    | inr (r, q) ↦ inr (r, prepare-Cleared seams room m r q, rw (q, admit) refl)
  ]

  -- A refusal has the reason's text in its message.
  pub record Refuses (why : Reason) (sent : Message) : Type 0 where
    pub payload : Text
    pub written : seams.write_refused (reason_text why) ≡ some payload
    pub answered : sent ≡ record { type = type_refused; payload = some payload }

  -- What one admission may do: grant, with the participant waited for, or refuse or fail, with the
  -- desk as it was.
  pub data Effect (d : Desk) (room : Room W) (m : Message)
      : Result Error Outcome → Desk → Type 0 where
    grants :
        {g : Grant} {sent : Message} {after : Desk}
        → Grants d room m after g sent
        → Effect d room m (ok (granted g sent)) after
    refuses :
        {why : Reason} {sent : Message}
        → Refuses why sent
        → Effect d room m (ok (refused why sent)) d
    fails : (e : Error) → Effect d room m (err e) d

  refusal-Effect :
      (d : Desk) (room : Room W) (m : Message) (why : Reason)
      → Effect d room m (refusal seams why) d
  unfolding refusal
  refusal-Effect d room m why = elim (Option-cases (seams.write_refused (reason_text why))) [
    | inl e ↦ rw (e, refusal) (fails unencodable)
    | inr (payload, e) ↦
        rw (e, refusal) (refuses (record { payload = payload; written = e; answered = refl }))
  ]

  settle-Effect :
      (d : Desk) (room : Room W) (m : Message) (r : Ready U)
      → Cleared seams room m r
      → let done = settle seams d room r (seams.tell (call_of seams room r)) in
        Effect d room m done.0 done.1
  unfolding settle
  settle-Effect d room m r k = elim (Result-cases (seams.tell (call_of seams room r))) [
    | inl (e, q) ↦ rw (settle, q) (refusal-Effect d room m (unit_reason e))
    | inr (transport, q) ↦
        let g : Grant = grant_of seams d room r transport in
        elim (Option-cases (seams.write_granted (sent_of g))) [
          | inl w ↦ rw (settle, q, w) (fails unencodable)
          | inr (payload, w) ↦
              rw (settle, q, w)
                (grants (record {
                  ready = r;
                  cleared = k;
                  transport = transport;
                  told = q;
                  grant = refl;
                  payload = payload;
                  written = w;
                  answered = refl;
                  waiting = refl;
                }))
        ]
  ]

  -- An admission grants, refuses or fails. It grants only what the unit answered after the checks:
  -- the grant, what the client is sent and what the desk then waits for are made of that answer,
  -- the claims, the minted names and the clock. A refusal carries the text of its reason, and a
  -- refusal or a failure leaves the desk as it was.
  pub admit-Effect :
      (d : Desk) (room : Room W) (m : Message)
      → Effect d room m (admit seams d room m).0 (admit seams d room m).1
  unfolding admit
  admit-Effect d room m = elim (Result-cases (prepare seams room m)) [
    | inl (fault e, q) ↦ rw (admit, q) (fails e)
    | inl (no why, q) ↦ rw (admit, q) (refusal-Effect d room m why)
    | inr (r, q) ↦ rw (admit, q) (settle-Effect d room m r (prepare-Cleared seams room m r q))
  ]
