-- ===== src/Admission/Histories.antt =====
-- internal/admission/admission.go: what a desk is over any history of calls. A history is a desk made by
-- `NewDesk`, then any `Admit`, `Arrived` and `Sweep`, each under the desk's lock where it needs it.
use hoersaal.Base.{
  ◌≡◌, refl, ◌⊎◌, inl, inr, true, some, Result, All-In, subst, ok, In, ◌==◌, ==_iff, Bool-cases,
  Bool, arith, ltb,
}
use hoersaal.Text.{text_eq}
use hoersaal.Dict.{lookup, In-keys_of_lookup, lookup-insert, lookup-delete}
use hoersaal.Time.{Time, Duration}
use hoersaal.Wire.{Message}
use hoersaal.Domain.Model.{ParticipantId}
use hoersaal.Admission.Records.{
  Error, Room, Grant, Outcome, granted, Abandoned, Seams, Desk, new_desk,
}
use hoersaal.Admission.Desk.{admit, arrived, sweep, outstanding_of}
use hoersaal.Admission.Told.{Effect, grants, refuses, fails, admit-Effect}
use hoersaal.Admission.Outstanding.{DeskOk, EntryOk, new_desk-DeskOk, arrived-DeskOk, admit-DeskOk}
use hoersaal.Admission.Sweeping.{Sweeps, sweep-DeskOk, sweep-Sweeps}

module _ (W U : Type 0) where
  -- One call on a desk.
  pub data Step : Desk → Desk → Type 0 where
    admission :
        {d : Desk} (seams : Seams W U) (room : Room W) (m : Message)
        → Step d (admit seams d room m).1
    arrival : {d : Desk} (p : ParticipantId) → Step d (arrived d p).0
    sweeping : {d : Desk} (now : Time) → Step d (sweep d now).0

  -- A desk that some history of calls leads to.
  pub data Reached : Desk → Type 0 where
    made :
        {d : Desk} (has_seams : Bool) (window : Duration)
        → new_desk has_seams window ≡ ok d
        → Reached d
    next : {d after : Desk} → Reached d → Step d after → Reached after

  pub Step-DeskOk : {d after : Desk} → Step d after → DeskOk d → DeskOk after
  Step-DeskOk {d = d} (admission seams room m) k = admit-DeskOk seams d room m k
  Step-DeskOk {d = d} (arrival p) k = arrived-DeskOk d p k
  Step-DeskOk {d = d} (sweeping now) k = sweep-DeskOk d now k

  -- After any history of admissions, arrivals and sweeps on a new desk, under whatever seams each
  -- admission had, the desk waits for each participant once, under its own name, which is not
  -- empty, until the moment of the grant plus the window.
  pub Reached-DeskOk : {d : Desk} → Reached d → DeskOk d
  Reached-DeskOk {d = d} (made has_seams window h) = new_desk-DeskOk has_seams window d h
  Reached-DeskOk (next r s) = Step-DeskOk s (Reached-DeskOk r)

  -- The ways in which a call ends the wait for a participant: the arrival of it, a sweep that reports
  -- it, and a grant that a name minted twice makes under the same participant.
  pub Ends : {d after : Desk} → Step d after → ParticipantId → Abandoned → Type 0
  Ends {d = d} (admission seams room m) p a =
      (g : Grant) × (sent : Message) × ((admit seams d room m).0 ≡ ok (granted g sent))
      × (g.participant ≡ p)
  Ends {d = d} (arrival q) p a = (q ≡ p) × ((arrived d q).1 ≡ true)
  Ends {d = d} (sweeping now) p a = In a (sweep d now).1

  Effect-keeps :
      {seams : Seams W U} {d : Desk} {room : Room W} {m : Message} {r : Result Error Outcome}
      {after : Desk} (p : ParticipantId) (a : Abandoned)
      → lookup p d.outstanding ≡ some a
      → Effect seams d room m r after
      → (lookup p after.outstanding ≡ some a)
        ⊎ ((g : Grant) × (sent : Message) × (r ≡ ok (granted g sent)) × (g.participant ≡ p))
  Effect-keeps {seams = seams} {d = d} p a l (grants {g = g} {sent = sent} {after = after} h) =
      elim (Bool-cases (g.participant == p)) [
        | inl q ↦ inr (g, sent, refl, (==_iff g.participant p).0 q)
        | inr q ↦ inl (
            rw (h.waiting, lookup-insert g.participant p (outstanding_of seams g) d.outstanding, q)
              l)
      ]
  Effect-keeps p a l (refuses h) = inl l
  Effect-keeps p a l (fails e) = inl l

  -- An admission that is waited for is never lost: a call leaves it waited for or ends the wait.
  pub Step-keeps :
      {d after : Desk} (p : ParticipantId) (a : Abandoned) (s : Step d after)
      → DeskOk d
      → lookup p d.outstanding ≡ some a
      → (lookup p after.outstanding ≡ some a) ⊎ Ends s p a
  unfolding arrived Ends
  Step-keeps {d = d} p a (admission seams room m) k l =
      Effect-keeps p a l (admit-Effect seams d room m)
  Step-keeps {d = d} p a (arrival q) k l = elim (Bool-cases (q == p)) [
    | inl e ↦
        let same : q ≡ p = (==_iff q p).0 e in
        let held : lookup q d.outstanding ≡ some a = rw same l in inr (same, rw held refl)
    | inr e ↦ inl (rw (lookup-delete q p d.outstanding, e) l)
  ]
  Step-keeps {d = d} p a (sweeping now) k l =
      let filed : p ≡ a.participant =
        (All-In (EntryOk d) d.outstanding (p, a) k.entries
          (In-keys_of_lookup p a d.outstanding l)).0 in
      let spec : Sweeps d now (sweep d now).0 (sweep d now).1 = sweep-Sweeps d now k in
      elim (Bool-cases (ltb now a.deadline)) [
        | inl q ↦ inl ((spec.left p a).1 (l, ground arith))
        | inr q ↦ inr (
            (spec.reported a).1 (
              subst (λ (x : ParticipantId). lookup x d.outstanding ≡ some a) filed l,
              ground arith,
            ))
      ]

  -- On a desk that a history of calls leads to, an admission that is waited for is not lost in the
  -- next call: it is waited for still, with the same record, or the call is the arrival of the
  -- participant, which is answered as held, or a sweep that reports it, or an admission that is
  -- granted under the same minted name.
  pub Reached-keeps :
      {d after : Desk} (p : ParticipantId) (a : Abandoned) (s : Step d after)
      → Reached d
      → lookup p d.outstanding ≡ some a
      → (lookup p after.outstanding ≡ some a) ⊎ Ends s p a
  Reached-keeps p a s r l = Step-keeps p a s (Reached-DeskOk r) l
