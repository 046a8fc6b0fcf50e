-- ===== src/Placement/Participants.antt =====
-- internal/placement/placement.go: `Naive.PlaceParticipant`.
use hoersaal.Base.{
  ◌≡◌, refl, ◌≢◌, ◌⊎◌, inl, inr, Bool, true, false, not, Option, none, some, List, [], ◌∷◌, arith,
  In, SameMembers, if◌then◌else◌, Bool-cases, pos, leb_ℤ, length, ◌==◌, ==_iff, ◌≤ℤ◌, ◌<ℤ◌,
}
use hoersaal.Text.{text_eq}
use hoersaal.Float.{Float64, IsIeee}
use hoersaal.Placement.Records.{UnitRow, Pool, Conference, Carrying, Arrival, carrying_ids}
use hoersaal.Placement.Naive.{
  Answer, place, refuse, no_units, no_eligible_unit, reached_unit_ceiling, eligible, lowest,
  is_carrying, place_found, place_participant,
}
use hoersaal.Placement.Lowest.{IsLeast, Finds, lowest-Finds}
use hoersaal.Placement.Conferences.{place_found_unique}

-- The set that the code builds holds the units that carry the conference.
pub is_carrying_iff :
    {W : Type 0} (cs : List (Carrying W)) (u : UnitRow W)
    → ((is_carrying cs u ≡ true) → In u.id (carrying_ids cs))
      × (In u.id (carrying_ids cs) → is_carrying cs u ≡ true)
unfolding is_carrying carrying_ids
is_carrying_iff [] u = (λ h. cc, λ i. absurd (i tt))
is_carrying_iff (c ∷ cs) u = elim (Bool-cases (c.unit == u.id)) [
  | inl e ↦ (λ h. inl (ground (arith, ==_iff c.unit u.id)), λ i. rw e)
  | inr e ↦ (
    λ h. inr ((is_carrying_iff cs u).0 (ground arith)),
    λ i. elim i [
      | inl j ↦ ground (arith, ==_iff c.unit u.id)
      | inr j ↦ ground (arith, (is_carrying_iff cs u).1 j)
    ],
  )
]

module _ {W : Type 0} ⦃f : Float64 W⦄ (laws : IsIeee W) where
  abbrev Rows : Pool W → UnitRow W → Type 0
  Rows pool u = In u pool.units

  abbrev carries : Conference W → UnitRow W → Bool
  carries c = is_carrying c.carrying

  abbrev elsewhere : Conference W → UnitRow W → Bool
  elsewhere c u = not (is_carrying c.carrying u)

  -- No unit that carries the conference can take more.
  abbrev pub CarryingFull : Pool W → Conference W → Type 0
  CarryingFull pool c =
      (u : UnitRow W) → In u pool.units → In u.id (carrying_ids c.carrying) → eligible u ≡ false

  -- The conference occupies fewer units than it may.
  abbrev pub BelowCeiling : Conference W → Type 0
  BelowCeiling c = pos (length c.carrying) <ℤ c.unit_ceiling

  -- What an answer says of the pool and the conference.
  abbrev pub ParticipantAnswer : Pool W → Conference W → Answer → Type 0
  ParticipantAnswer pool c (place id) =
      (u : UnitRow W) × (u.id ≡ id)
      × (((In id (carrying_ids c.carrying)) × IsLeast laws (carries c) (Rows pool) u)
          ⊎ (CarryingFull pool c
              × BelowCeiling c
              × (In id (carrying_ids c.carrying) → ⊥)
              × IsLeast laws (elsewhere c) (Rows pool) u))
  ParticipantAnswer pool c (refuse no_units) = pool.units ≡ []
  ParticipantAnswer pool c (refuse reached_unit_ceiling) =
      (pool.units ≢ []) × CarryingFull pool c × (c.unit_ceiling ≤ℤ pos (length c.carrying))
  ParticipantAnswer pool c (refuse no_eligible_unit) =
      (pool.units ≢ []) × BelowCeiling c × ((u : UnitRow W) → In u pool.units → eligible u ≡ false)

  carrying_full :
      (pool : Pool W) (c : Conference W)
      → Finds laws (carries c) (Rows pool) none
      → CarryingFull pool c
  carrying_full pool c h u i j = elim (Bool-cases (eligible u)) [
    | inl e ↦ absurd (h u i (e, (is_carrying_iff c.carrying u).1 j))
    | inr e ↦ e
  ]

  nowhere :
      (pool : Pool W) (c : Conference W)
      → Finds laws (carries c) (Rows pool) none
      → Finds laws (elsewhere c) (Rows pool) none
      → (u : UnitRow W) → In u pool.units
      → eligible u ≡ false
  nowhere pool c h k u i = elim (Bool-cases (eligible u)) [
    | inl e ↦ elim (Bool-cases (is_carrying c.carrying u)) [
      | inl q ↦ absurd (h u i (e, q))
      | inr q ↦ absurd (k u i (e, rw q refl))
    ]
    | inr e ↦ e
  ]

  elsewhere_answer :
      (pool : Pool W) (c : Conference W) (best : Option (UnitRow W))
      → pool.units ≢ []
      → Finds laws (carries c) (Rows pool) none
      → BelowCeiling c
      → Finds laws (elsewhere c) (Rows pool) best
      → ParticipantAnswer pool c (place_found best (refuse no_eligible_unit))
  unfolding place_found
  elsewhere_answer pool c none n h b k = (n, b, nowhere pool c h k)
  elsewhere_answer pool c (some u) n h b k = (
    u,
    refl,
    inr (
      carrying_full pool c h,
      b,
      λ i.
          let q : is_carrying c.carrying u ≡ true = (is_carrying_iff c.carrying u).1 i in
          ground (arith, k.candidate.1),
      k,
    ),
  )

  carrying_answer :
      (pool : Pool W) (c : Conference W) (best : Option (UnitRow W))
      → pool.units ≢ []
      → Finds laws (carries c) (Rows pool) best
      → ParticipantAnswer pool c (
          place_found best (
            if leb_ℤ c.unit_ceiling (pos (length c.carrying))
            then refuse reached_unit_ceiling
            else place_found (lowest pool (elsewhere c)) (refuse no_eligible_unit)))
  unfolding place_found
  carrying_answer pool c none n h =
      elim (Bool-cases (leb_ℤ c.unit_ceiling (pos (length c.carrying)))) [
        | inl q ↦ rw q (n, carrying_full pool c h, ground arith)
        | inr q ↦ rw q (
            elsewhere_answer pool c (lowest pool (elsewhere c)) n h (ground arith)
              (lowest-Finds laws pool (elsewhere c)))
      ]
  carrying_answer pool c (some u) n h =
      (u, refl, inl ((is_carrying_iff c.carrying u).0 h.candidate.1, h))

  place_participant_rows :
      (us : List (UnitRow W)) (c : Conference W) (a : Arrival)
      → ParticipantAnswer (record { units = us }) c (place_participant (record { units = us }) c a)
  unfolding place_participant
  place_participant_rows [] c a = refl
  place_participant_rows (u ∷ us) c a =
      let pool : Pool W = record { units = u ∷ us } in
      carrying_answer pool c (lowest pool (carries c)) (λ n. cc)
        (lowest-Finds laws pool (carries c))

  -- A participant goes to the preferred eligible unit among those that carry the conference; only
  -- where none of them is eligible and the conference is below its unit ceiling, to the preferred
  -- eligible unit among the others. The ceiling is given as the reason only where it is reached and
  -- no carrying unit is eligible, the want of an eligible unit only below the ceiling and where no
  -- unit of the pool is eligible, and the want of units only for a pool without any.
  pub place_participant-ParticipantAnswer :
      (pool : Pool W) (c : Conference W) (a : Arrival)
      → ParticipantAnswer pool c (place_participant pool c a)
  place_participant-ParticipantAnswer pool c a = place_participant_rows pool.units c a

  place_participant_same :
      (us vs : List (UnitRow W)) (c : Conference W) (a b : Arrival)
      → SameMembers us vs
      → place_participant (record { units = us }) c a
        ≡ place_participant (record { units = vs }) c b
  unfolding place_participant
  place_participant_same [] [] c a b same = refl
  place_participant_same [] (v ∷ vs) c a b same = absurd ((same v).1 (inl refl) tt)
  place_participant_same (u ∷ us) [] c a b same = absurd ((same u).0 (inl refl) tt)
  place_participant_same (u ∷ us) (v ∷ vs) c a b same =
      let p : Pool W = record { units = u ∷ us } in
      let q : Pool W = record { units = v ∷ vs } in
      let found = λ (consider : UnitRow W → Bool) (o : Answer).
        place_found_unique laws consider (Rows p) (Rows q) (lowest p consider) (lowest q consider) o
          (λ w. (same w).0) (λ w. (same w).1) (lowest-Finds laws p consider)
          (lowest-Finds laws q consider) in
      rw (found (elsewhere c) (refuse no_eligible_unit)) (found (carries c) _)

  -- Two pools with the same rows, in whatever order and however often, give the participants of a
  -- conference the same answer, whatever they publish.
  pub place_participant_order :
      (p q : Pool W) (c : Conference W) (a b : Arrival)
      → SameMembers p.units q.units
      → place_participant p c a ≡ place_participant q c b
  place_participant_order p q c a b same = place_participant_same p.units q.units c a b same
