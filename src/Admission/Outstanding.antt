-- ===== src/Admission/Outstanding.antt =====
-- internal/admission/admission.go: the admissions that a desk waits for, and what they all satisfy.
use hoersaal.Base.{
  ℕ, ltb_ℤ, pos, pos_part, nat_eq, if◌then◌else◌, ◌≡◌, ◌≢◌, refl, subst, inl, inr, ◌+◌, Bool, [],
  Result, ok, err, All, IsDistinct, Bool-cases,
}
use hoersaal.Text.{text_eq}
use hoersaal.Dict.{insert, keys, insert-IsDistinct, delete-IsDistinct, insert-All, delete-All}
use hoersaal.Time.{Duration}
use hoersaal.Wire.{Message}
use hoersaal.Domain.Model.{ParticipantId}
use hoersaal.Admission.Records.{
  Error, Room, Grant, Outcome, Abandoned, Seams, Desk, new_desk, default_window,
}
use hoersaal.Admission.Records
use hoersaal.Admission.Desk.{admit, arrived, outstanding_of, grant_of}
use hoersaal.Admission.Told.{Grants, Effect, grants, refuses, fails, admit-Effect}

-- An entry is filed under its participant, and is waited for until the window has passed.
abbrev pub EntryOk : Desk → ParticipantId × Abandoned → Type 0
EntryOk d (p, a) = (p ≡ a.participant) × (p ≢ []) × (a.deadline ≡ a.granted_at + d.window)

pub record DeskOk (d : Desk) : Type 0 where
  pub distinct : IsDistinct (keys d.outstanding)
  pub entries : All (EntryOk d) d.outstanding

pub new_desk-DeskOk :
    (has_seams : Bool) (window : Duration) (d : Desk) → new_desk has_seams window ≡ ok d → DeskOk d
unfolding new_desk
new_desk-DeskOk has_seams window d h = elim (Bool-cases has_seams) [
  | inr q ↦ absurd (let bad : err Records.no_seam ≡ ok d = rw (q, new_desk) at h in cc)
  | inl q ↦ elim (Bool-cases (ltb_ℤ window (pos 0))) [
    | inl w ↦ absurd (let bad : err Records.no_seam ≡ ok d = rw (q, w, new_desk) at h in cc)
    | inr w ↦
        let made : empty_desk
              (if nat_eq (pos_part window) 0 then default_window else pos_part window)
            ≡ ok d =
          rw (q, w, new_desk) at h in
        let same : record {
          window = if nat_eq (pos_part window) 0 then default_window else pos_part window;
          outstanding = [];
        }
            ≡ d =
          cc in
        subst DeskOk same (record { distinct = tt; entries = tt })
  ]
]
  where
    empty_desk : ℕ → Result Error Desk
    empty_desk n = ok (record { window = n; outstanding = [] })

pub arrived-DeskOk : (d : Desk) (p : ParticipantId) → DeskOk d → DeskOk (arrived d p).0
unfolding arrived
arrived-DeskOk d p k = record {
  distinct = delete-IsDistinct p d.outstanding k.distinct;
  entries = delete-All (EntryOk d) p d.outstanding k.entries;
}

module _ {W U : Type 0} {seams : Seams W U} {d : Desk} {room : Room W} {m : Message} {after : Desk}
    {g : Grant} {sent : Message} (h : Grants seams d room m after g sent) where
  pub grant_named : g.participant ≢ []
  unfolding grant_of
  grant_named = rw h.grant h.cleared.participant_named

  pub grant_window : g.deadline ≡ g.granted_at + d.window
  unfolding grant_of
  grant_window = rw h.grant refl

waiting-DeskOk :
    {W U : Type 0} (seams : Seams W U) (d : Desk) (g : Grant)
    → DeskOk d
    → g.participant ≢ []
    → g.deadline ≡ g.granted_at + d.window
    → DeskOk
        (record d { outstanding = insert g.participant (outstanding_of seams g) d.outstanding })
unfolding outstanding_of
waiting-DeskOk seams d g k named window = record {
  distinct = insert-IsDistinct g.participant (outstanding_of seams g) d.outstanding k.distinct;
  entries =
      insert-All (EntryOk d) g.participant (outstanding_of seams g) d.outstanding
        (refl, named, window) k.entries;
}

pub admit-DeskOk :
    {W U : Type 0} (seams : Seams W U) (d : Desk) (room : Room W) (m : Message)
    → DeskOk d
    → DeskOk (admit seams d room m).1
admit-DeskOk seams d room m k = Effect-DeskOk (admit-Effect seams d room m)
  where
    Effect-DeskOk :
        {r : Result Error Outcome} {after : Desk} → Effect seams d room m r after → DeskOk after
    Effect-DeskOk (grants {g = g} h) =
        rw h.waiting (waiting-DeskOk seams d g k (grant_named h) (grant_window h))
    Effect-DeskOk (refuses h) = k
    Effect-DeskOk (fails e) = k
