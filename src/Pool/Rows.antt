-- ===== src/Pool/Rows.antt =====
-- internal/pool/pool.go: states, causes and the row of one unit.
use hoersaal.Base.{◌≡◌, ◌↔◌, Bool, true, false, Option, arith}
use hoersaal.Float.{Float64}
use hoersaal.Placement.Records.{UnitId}
use hoersaal.Placement.Records
use hoersaal.Time.{Time}

-- `panics` stands for the run-time panic of reading through a nil row; `placement_error` wraps what
-- the placer's constructors answer.
pub data Error : Type 0 where
  empty key_too_short no_clock duplicate unknown_unit illegal_transition bad_proof no_port : Error
  not_a_load_error not_an_age panics : Error
  placement_error : Records.Error → Error

pub data State : Type 0 where
  requested starting admitting draining gone : State

unfoldable pub is_state : State → State → Bool
is_state requested requested = true
is_state starting starting = true
is_state admitting admitting = true
is_state draining draining = true
is_state gone gone = true
is_state _ _ = false

pub is_state_iff : (s t : State) → (is_state s t ≡ true) ↔ (s ≡ t)
unfolding is_state
is_state_iff s t = (λ h. ground arith, λ h. ground arith)

-- `unset` is the zero value: a unit that has left no state.
pub data Cause : Type 0 where
  unset the_operator_asked the_scale_in_condition_held health_failed reachability_failed : Cause
  the_signal_went_stale the_unit_restarted the_drain_finished : Cause

-- `port` is the handle to the unit, if it has registered.
pub record Row (W P : Type 0) : Type 0 where
  pub id : UnitId
  pub state : State
  pub cause : Cause
  pub reachable : Bool
  pub healthy : Bool
  pub reported : W
  pub reported_at : Time
  pub ever_reported : Bool
  pub committed : W
  pub port : Option P

unfoldable pub effective_load : {W P : Type 0} ⦃f : Float64 W⦄ → Row W P → W
effective_load ⦃f⦄ u = f.plus u.reported u.committed
