-- ===== src/Placement/Conferences.antt =====
-- internal/placement/placement.go: `Naive.PlaceConference`.
use hoersaal.Base.{
  ◌≡◌, refl, ap, ◌≢◌, inl, inr, Bool, false, Option, none, some, List, [], ◌∷◌, In, SameMembers,
  Bool-cases,
}
use hoersaal.Float.{Float64, IsIeee}
use hoersaal.Domain.Model.{ConferenceId}
use hoersaal.Placement.Records.{UnitRow, Pool}
use hoersaal.Placement.Naive.{
  Answer, place, refuse, no_units, no_eligible_unit, reached_unit_ceiling, eligible, lowest,
  any_unit, place_found, place_conference,
}
use hoersaal.Placement.Lowest.{IsLeast, Finds, prefer_total, eligible-IsNumber, lowest-Finds}

module _ {W : Type 0} ⦃f : Float64 W⦄ (laws : IsIeee W) where
  abbrev Rows : Pool W → UnitRow W → Type 0
  Rows pool u = In u pool.units

  -- Two searches through the same rows find one unit.
  pub place_found_unique :
      (consider : UnitRow W → Bool) (S T : UnitRow W → Type 0) (a b : Option (UnitRow W))
      (otherwise : Answer)
      → ((u : UnitRow W) → S u → T u)
      → ((u : UnitRow W) → T u → S u)
      → Finds laws consider S a
      → Finds laws consider T b
      → place_found a otherwise ≡ place_found b otherwise
  unfolding place_found
  place_found_unique consider S T none none o to from h k = refl
  place_found_unique consider S T none (some v) o to from h k =
      absurd (h v (from v k.listed) k.candidate)
  place_found_unique consider S T (some u) none o to from h k =
      absurd (k u (to u h.listed) h.candidate)
  place_found_unique consider S T (some u) (some v) o to from h k = ap place (
      prefer_total laws u v (eligible-IsNumber laws u h.candidate.0)
        (eligible-IsNumber laws v k.candidate.0) (k.least u (to u h.listed) h.candidate)
        (h.least v (from v k.listed) k.candidate))

  -- What an answer says of the pool.
  abbrev pub ConferenceAnswer : Pool W → Answer → Type 0
  ConferenceAnswer pool (place id) =
      (u : UnitRow W) × (u.id ≡ id) × IsLeast laws any_unit (Rows pool) u
  ConferenceAnswer pool (refuse no_units) = pool.units ≡ []
  ConferenceAnswer pool (refuse no_eligible_unit) =
      (pool.units ≢ []) × ((u : UnitRow W) → In u pool.units → eligible u ≡ false)
  ConferenceAnswer pool (refuse reached_unit_ceiling) = ⊥

  none-eligible :
      (pool : Pool W)
      → Finds laws any_unit (Rows pool) none
      → (u : UnitRow W) → In u pool.units
      → eligible u ≡ false
  unfolding any_unit
  none-eligible pool h u i = elim (Bool-cases (eligible u)) [
    | inl e ↦ absurd (h u i (e, refl))
    | inr e ↦ e
  ]

  place_found-ConferenceAnswer :
      (pool : Pool W) (best : Option (UnitRow W))
      → pool.units ≢ []
      → Finds laws any_unit (Rows pool) best
      → ConferenceAnswer pool (place_found best (refuse no_eligible_unit))
  unfolding place_found
  place_found-ConferenceAnswer pool none n h = (n, none-eligible pool h)
  place_found-ConferenceAnswer pool (some u) n h = (u, refl, h)

  place_conference_rows :
      (us : List (UnitRow W)) (c : ConferenceId)
      → ConferenceAnswer (record { units = us }) (place_conference (record { units = us }) c)
  unfolding place_conference
  place_conference_rows [] c = refl
  place_conference_rows (u ∷ us) c =
      let pool : Pool W = record { units = u ∷ us } in
      place_found-ConferenceAnswer pool (lowest pool any_unit) (λ n. cc)
        (lowest-Finds laws pool any_unit)

  -- A conference is placed on an eligible unit of the pool to which no eligible unit of the pool is
  -- preferred; it is refused for want of units only where the pool has none, and for want of an
  -- eligible unit only where the pool has units and none is eligible; no other refusal is given.
  pub place_conference-ConferenceAnswer :
      (pool : Pool W) (c : ConferenceId) → ConferenceAnswer pool (place_conference pool c)
  place_conference-ConferenceAnswer pool c = place_conference_rows pool.units c

  place_conference_same :
      (us vs : List (UnitRow W)) (c : ConferenceId)
      → SameMembers us vs
      → place_conference (record { units = us }) c ≡ place_conference (record { units = vs }) c
  unfolding place_conference
  place_conference_same [] [] c same = refl
  place_conference_same [] (v ∷ vs) c same = absurd ((same v).1 (inl refl) tt)
  place_conference_same (u ∷ us) [] c same = absurd ((same u).0 (inl refl) tt)
  place_conference_same (u ∷ us) (v ∷ vs) c same =
      let p : Pool W = record { units = u ∷ us } in
      let q : Pool W = record { units = v ∷ vs } in
      place_found_unique any_unit (Rows p) (Rows q) (lowest p any_unit) (lowest q any_unit)
        (refuse no_eligible_unit) (λ w. (same w).0) (λ w. (same w).1) (lowest-Finds laws p any_unit)
        (lowest-Finds laws q any_unit)

  -- Two pools with the same rows, in whatever order and however often, give a conference the same
  -- answer, whichever conference it is.
  pub place_conference_order :
      (p q : Pool W) (c d : ConferenceId)
      → SameMembers p.units q.units
      → place_conference p c ≡ place_conference q d
  unfolding place_conference
  place_conference_order p q c d same = place_conference_same p.units q.units c same
