-- ===== src/Placement/Naive.antt =====
-- internal/placement/placement.go: the naive placer, for a conference on no unit and for a
-- participant of a conference that is running.
use hoersaal.Base.{
  Bool, true, false, ◌&&◌, ◌||◌, not, Option, none, some, List, [], ◌∷◌, if◌then◌else◌, ◌==◌, pos,
  leb_ℤ, length,
}
use hoersaal.Text.{text_lt, text_eq}
use hoersaal.Float.{Float64}
use hoersaal.Domain.Model.{ConferenceId}
use hoersaal.Placement.Records.{UnitId, UnitRow, Pool, Carrying, Conference, Arrival, is_admitting}

pub data Reason : Type 0 where
  no_units no_eligible_unit reached_unit_ceiling : Reason

-- An answer is a unit, or a refusal with its reason.
pub data Answer : Type 0 where
  place : UnitId → Answer
  refuse : Reason → Answer

module _ {W : Type 0} where
  -- The membership test in the set that `PlaceParticipant` builds of the carrying rows.
  unfoldable pub is_carrying : List (Carrying W) → UnitRow W → Bool
  is_carrying [] u = false
  is_carrying (c ∷ cs) u = c.unit == u.id || is_carrying cs u

  unfoldable pub any_unit : UnitRow W → Bool
  any_unit u = true

module _ {W : Type 0} ⦃f : Float64 W⦄ where
  unfoldable pub eligible : UnitRow W → Bool
  eligible u = is_admitting u.state && f.lt u.effective_load f.ceiling

  unfoldable pub prefer : UnitRow W → UnitRow W → Bool
  prefer a b =
      if not (f.feq a.effective_load b.effective_load)
      then f.lt a.effective_load b.effective_load
      else text_lt a.id b.id

  -- `!found || prefer(u, best)`
  unfoldable pub better : UnitRow W → Option (UnitRow W) → Bool
  better u none = true
  better u (some best) = prefer u best

  -- The loop of `lowest`, with what it has found so far.
  unfoldable pub lowest_from :
      (UnitRow W → Bool) → Option (UnitRow W) → List (UnitRow W) → Option (UnitRow W)
  unfolding better
  lowest_from consider best [] = best
  lowest_from consider best (u ∷ us) =
      lowest_from consider
        (if not (eligible u) || not (consider u)
          then best
          else if better u best
          then some u
          else best)
        us

  unfoldable pub lowest : Pool W → (UnitRow W → Bool) → Option (UnitRow W)
  unfolding lowest_from
  lowest pool consider = lowest_from consider none pool.units

  unfoldable pub place_found : Option (UnitRow W) → Answer → Answer
  place_found none otherwise = otherwise
  place_found (some best) otherwise = place best.id

  unfoldable pub place_conference : Pool W → ConferenceId → Answer
  unfolding place_found
  place_conference pool conference = elim pool.units [
    | [] ↦ refuse no_units
    | u ∷ us ↦ place_found (lowest pool any_unit) (refuse no_eligible_unit)
  ]

  unfoldable pub place_participant : Pool W → Conference W → Arrival → Answer
  unfolding place_found
  place_participant pool conference arriving = elim pool.units [
    | [] ↦ refuse no_units
    | u ∷ us ↦ place_found (lowest pool (is_carrying conference.carrying)) (
        if leb_ℤ conference.unit_ceiling (pos (length conference.carrying))
        then refuse reached_unit_ceiling
        else place_found (lowest pool (λ v. not (is_carrying conference.carrying v)))
            (refuse no_eligible_unit))
  ]
