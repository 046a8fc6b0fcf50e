-- ===== src/Admission/Sweeping.antt =====
-- internal/admission/admission.go: what a sweep reports and what it leaves.
use hoersaal.Base.{
  ◌≡◌, ap, subst, inl, inr, ◌↔◌, ◌≤◌, ◌<◌, arith, some, List, [], ◌∷◌, map, All, All-In, All-imp,
  All-of_In, In, IsDistinct, Bool-cases,
}
use hoersaal.Text.{Text, text_eq, IsSorted, In-sort_by, sort_by-In, sort_by-IsSorted}
use hoersaal.Dict.{Dict, lookup, keys, In-keys, In-keys_of_lookup, lookup_of_In}
use hoersaal.Time.{Time, before}
use hoersaal.Domain.Model.{ParticipantId}
use hoersaal.Admission.Records.{Abandoned, Desk}
use hoersaal.Admission.Desk.{sweep_from, sweep}
use hoersaal.Base.{In-map, In-map_inv}
use hoersaal.Admission.Outstanding.{DeskOk, EntryOk}

-- The moment of a grant, then the participant.
abbrev pub grant_key : Abandoned → Text
grant_key a = a.granted_at ∷ a.participant

abbrev Filed : ParticipantId × Abandoned → Type 0
Filed e = e.0 ≡ e.1.participant

module _ (now : Time) where
  -- What a sweep leaves is what it held and may still be waited for.
  pub In-left :
      (m : Dict ParticipantId Abandoned) (e : ParticipantId × Abandoned)
      → In e (sweep_from now m).0 ↔ (In e m × (now < e.1.deadline))
  unfolding sweep_from
  In-left [] e = (λ h. absurd (h tt), λ h. h.0)
  In-left ((p, a) ∷ m) e = elim (Bool-cases (before now a.deadline)) [
    | inl q ↦
        let still : now < a.deadline = ground arith in
        rw q (
          λ i. elim i [
            | inl x ↦ (
              inl x,
              omega (arith, still, ap (λ (y : ParticipantId × Abandoned). y.1.deadline) x),
            )
            | inr x ↦ let (j, o) = (In-left m e).0 x in (inr j, o)
          ],
          λ (j, o). elim j [ inl x ↦ inl x | inr x ↦ inr ((In-left m e).1 (x, o)) ],
        )
    | inr q ↦
        let over : a.deadline ≤ now = ground arith in
        rw q (
          λ i. let (j, o) = (In-left m e).0 i in (inr j, o),
          λ (j, o). elim j [
            | inl x ↦
                absurd
                  (omega (arith, over, o, ap (λ (y : ParticipantId × Abandoned). y.1.deadline) x))
            | inr x ↦ (In-left m e).1 (x, o)
          ],
        )
  ]

  pub In-swept :
      (m : Dict ParticipantId Abandoned) (a : Abandoned)
      → In a (sweep_from now m).1 ↔ ((p : ParticipantId) × In (p, a) m × (a.deadline ≤ now))
  unfolding sweep_from
  In-swept [] a = (λ h. absurd (h tt), λ h. h.1)
  In-swept ((p, b) ∷ m) a = elim (Bool-cases (before now b.deadline)) [
    | inl q ↦
        let still : now < b.deadline = ground arith in
        rw q (
          λ i. let (r, j, o) = (In-swept m a).0 i in (r, inr j, o),
          λ (r, j, o). elim j [
            | inl x ↦
                absurd
                  (omega (arith, still, o, ap (λ (y : ParticipantId × Abandoned). y.1.deadline) x))
            | inr x ↦ (In-swept m a).1 (r, x, o)
          ],
        )
    | inr q ↦
        let over : b.deadline ≤ now = ground arith in
        rw q (
          λ i. elim i [
            | inl x ↦ (p, inl (ap (λ (y : Abandoned). (p, y)) x), rw x over)
            | inr x ↦ let (r, j, o) = (In-swept m a).0 x in (r, inr j, o)
          ],
          λ (r, j, o). elim j [
            | inl x ↦ inl (ap (λ (y : ParticipantId × Abandoned). y.1) x)
            | inr x ↦ inr ((In-swept m a).1 (r, x, o))
          ],
        )
  ]

  pub left-IsDistinct :
      (m : Dict ParticipantId Abandoned)
      → IsDistinct (keys m)
      → IsDistinct (keys (sweep_from now m).0)
  unfolding sweep_from
  left-IsDistinct [] d = tt
  left-IsDistinct ((p, a) ∷ m) d = elim (Bool-cases (before now a.deadline)) [
    | inl q ↦ rw q (λ i. d.0 (In-keys-left m p i), left-IsDistinct m d.1)
    | inr q ↦ rw q (left-IsDistinct m d.1)
  ]
    where
      In-keys-left :
          (m : Dict ParticipantId Abandoned) (p : ParticipantId)
          → In p (keys (sweep_from now m).0)
          → In p (keys m)
      In-keys-left m p i =
          let (e, j, same) =
            In-map_inv (λ (x : ParticipantId × Abandoned). x.0) (sweep_from now m).0 p i in
          rw same (In-map (λ (x : ParticipantId × Abandoned). x.0) m e ((In-left m e).0 j).0)

  pub swept-IsDistinct :
      (m : Dict ParticipantId Abandoned)
      → IsDistinct (keys m)
      → All Filed m
      → IsDistinct (map grant_key (sweep_from now m).1)
  unfolding sweep_from
  swept-IsDistinct [] d f = tt
  swept-IsDistinct ((p, a) ∷ m) d f = elim (Bool-cases (before now a.deadline)) [
    | inl q ↦ rw q (swept-IsDistinct m d.1 f.1)
    | inr q ↦ rw q (λ i. d.0 (rw f.0 (held m f.1 a i)), swept-IsDistinct m d.1 f.1)
  ]
    where
      held :
          (m : Dict ParticipantId Abandoned)
          → All Filed m
          → (a : Abandoned) → In (grant_key a) (map grant_key (sweep_from now m).1)
          → In a.participant (keys m)
      held m f a i =
          let (b, j, same) = In-map_inv grant_key (sweep_from now m).1 (grant_key a) i in
          let (p, x, _) = (In-swept m b).0 j in
          let filed : p ≡ b.participant = All-In Filed m (p, b) f x in
          let one : p ≡ a.participant = cc in
          subst (λ (t : ParticipantId). In t (keys m)) one (In-keys p b m x)

-- A sweep of a desk keeps what the desk satisfies.
pub sweep-DeskOk : (d : Desk) (now : Time) → DeskOk d → DeskOk (sweep d now).0
unfolding sweep
sweep-DeskOk d now k = record {
  distinct = left-IsDistinct now d.outstanding k.distinct;
  entries =
      All-of_In (EntryOk d) (sweep_from now d.outstanding).0
        (λ e i. All-In (EntryOk d) d.outstanding e k.entries ((In-left now d.outstanding e).0 i).0);
}

-- The report of a sweep: in the order of the grants, each admission whose deadline has come, and none
-- other; what stays is each whose deadline has not.
pub record Sweeps (d : Desk) (now : Time) (after : Desk) (swept : List Abandoned) : Type 0 where
  pub in_order : IsSorted grant_key swept
  pub reported :
      (a : Abandoned)
      → In a swept ↔ ((lookup a.participant d.outstanding ≡ some a) × (a.deadline ≤ now))
  pub left :
      (p : ParticipantId) (a : Abandoned)
      → (lookup p after.outstanding ≡ some a)
        ↔ ((lookup p d.outstanding ≡ some a) × (now < a.deadline))

-- Of a desk that satisfies the invariant, Sweep reports exactly those waited for whose deadline is
-- now or before, in the order of the grants and, of one moment, of the participants, and goes on
-- waiting for exactly the others.
pub sweep-Sweeps : (d : Desk) (now : Time) → DeskOk d → Sweeps d now (sweep d now).0 (sweep d now).1
unfolding sweep
sweep-Sweeps d now k =
    let m : Dict ParticipantId Abandoned = d.outstanding in
    let filed : All Filed m = All-imp (EntryOk d) Filed m (λ e o. o.0) k.entries in
    let swept : List Abandoned = (sweep_from now m).1 in
    let rest : Dict ParticipantId Abandoned = (sweep_from now m).0 in
    record {
      in_order = sort_by-IsSorted grant_key swept (swept-IsDistinct now m k.distinct filed);
      reported = λ a. (
        λ i.
            let (p, j, over) = (In-swept now m a).0 (In-sort_by grant_key a swept i) in
            let same : p ≡ a.participant = All-In Filed m (p, a) filed j in
            (
              subst (λ (x : ParticipantId). lookup x m ≡ some a) same
                  (lookup_of_In p a m k.distinct j),
              over,
            ),
        λ (l, over).
            sort_by-In grant_key a swept
              ((In-swept now m a).1 (a.participant, In-keys_of_lookup a.participant a m l, over)),
      );
      left = λ p a. (
        λ l.
            let (j, still) = (In-left now m (p, a)).0 (In-keys_of_lookup p a rest l) in
            (lookup_of_In p a m k.distinct j, still),
        λ (l, still).
            lookup_of_In p a rest (left-IsDistinct now m k.distinct)
              ((In-left now m (p, a)).1 (In-keys_of_lookup p a m l, still)),
      );
    }
