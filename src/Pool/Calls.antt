-- ===== src/Pool/Calls.antt =====
-- internal/pool/pool.go: the calls on a pool as one step function, and histories of them.
use hoersaal.Base.{Bool, Option, List, [], ◌∷◌, Result, ok, err}
use hoersaal.Text.{Text, text_eq}
use hoersaal.Float.{Float64}
use hoersaal.Placement.Records.{UnitId}
use hoersaal.Time.{Time, Duration}
use hoersaal.Pool.Rows.{Error, Cause}
use hoersaal.Pool.Proof.{Registration}
use hoersaal.Pool.Methods.{
  Pool, started, reachable, healthy, drain, retire, register, sweep, request, listed, report,
  commit, collect,
}

pub data Call (W P : Type 0) : Type 0 where
  requests lists starts : UnitId → Call W P
  reaches heals : UnitId → Bool → Call W P
  registers : Registration → Option P → Time → Call W P
  drains retires : UnitId → Cause → Call W P
  reports : UnitId → W → Time → Call W P
  commits : UnitId → W → Call W P
  collects : (P → Option (W × Time)) → Call W P
  sweeps : Time → Duration → Call W P

-- A refused call leaves the pool as it was.
abbrev pub after : {W P : Type 0} → Pool W P → Result Error (Pool W P) → Pool W P
after p (ok q) = q
after p (err e) = p

abbrev pub after_pair : {W P : Type 0} → Pool W P → Result Error (Pool W P × List UnitId) → Pool W P
after_pair p (ok (q, ids)) = q
after_pair p (err e) = p

module _ {W P : Type 0} ⦃f : Float64 W⦄ (mac : Text → Text → Text) where
  unfoldable pub step : Pool W P → Call W P → Pool W P
  step p (requests id) = after p (request p id)
  step p (lists id) = after p (listed p id)
  step p (starts id) = after p (started p id)
  step p (reaches id answers) = after p (reachable p id answers)
  step p (heals id answers) = after p (healthy p id answers)
  step p (registers r port now) = after p (register mac p r port now)
  step p (drains id why) = after p (drain p id why)
  step p (retires id why) = after p (retire p id why)
  step p (reports id load now) = after p (report p id load now)
  step p (commits id load) = after p (commit p id load)
  step p (collects answers) = after_pair p (collect answers p)
  step p (sweeps now older_than) = after_pair p (sweep p now older_than)

  unfoldable pub run : Pool W P → List (Call W P) → Pool W P
  unfolding step
  run p [] = p
  run p (c ∷ cs) = run (step p c) cs
