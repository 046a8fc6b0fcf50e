-- ===== src/Pool/Methods/Marks.antt =====
-- internal/pool/pool.go: the pool, the methods that mark one row, and the registration of a unit.
use hoersaal.Base.{
  ◌*◌, Bool, ◌&&◌, not, Option, none, some, List, [], Result, ok, err, if◌then◌else◌, ◌==◌, pos,
  ltb_ℤ, ltb, length, ◌>>=◌, ◌>>◌, refuse_if,
}
use hoersaal.Text.{Text, is_empty, text_eq}
use hoersaal.Dict.{Dict, lookup, insert}
use hoersaal.Placement.Records.{UnitId}
use hoersaal.Placement.Records
use hoersaal.Time.{Time, Duration, sub, neg, second}
use hoersaal.Pool.Rows.{
  Error, empty, key_too_short, no_clock, unknown_unit, illegal_transition, bad_proof, no_port,
  placement_error, State, requested, starting, admitting, draining, gone, is_state, Cause, unset,
  health_failed, reachability_failed, Row,
}
use hoersaal.Pool.Proof.{min_key_bytes, Registration, proof_of}

abbrev pub max_proof_age : Duration
max_proof_age = pos (300 * second)

pub record Pool (W P : Type 0) : Type 0 where
  pub key : Text
  pub units : Dict UnitId (Row W P)
  pub order : List UnitId

-- How far the stated moment lies from now, and whether that is more than the window.
unfoldable pub proof_age : Time → Time → Duration
proof_age now issued_at = let age = sub now issued_at in if ltb_ℤ age (pos 0) then neg age else age

unfoldable pub too_old : Time → Time → Bool
unfolding proof_age
too_old now issued_at = ltb_ℤ max_proof_age (proof_age now issued_at)

-- The checks of a registration against the key and the clock.
unfoldable pub check_proof :
    (Text → Text → Text) → Text → Registration → Time → Result Error (Unit {0})
check_proof mac key r now = do
  refuse_if (not (proof_of mac key r.unit r.issued_at == r.proof)) bad_proof
  refuse_if (too_old now r.issued_at) bad_proof

-- The state that the seam has a word for, if it has one.
unfoldable pub seam_state : State → Option Records.State
seam_state requested = none
seam_state starting = none
seam_state admitting = some Records.admitting
seam_state draining = some Records.draining
seam_state gone = some Records.gone

unfoldable pub placement_result : {A : Type 0} → Result Records.Error A → Result Error A
placement_result (ok a) = ok a
placement_result (err e) = err (placement_error e)

module _ {W P : Type 0} where
  -- `has_clock` is whether a clock was handed over.
  unfoldable pub new : Text → Bool → Result Error (Pool W P)
  new key has_clock =
      if ltb (length key) min_key_bytes
      then err key_too_short
      else if not has_clock
      then err no_clock
      else ok (record { key = key; units = []; order = [] })

  -- The row under an identifier.
  unfoldable pub held : Pool W P → UnitId → Result Error (Row W P)
  held p id = do
    refuse_if (is_empty id) empty
    elim (lookup id p.units) [ none ↦ err unknown_unit | some u ↦ ok u ]

  -- A write through the pointer that the map holds.
  unfoldable pub put : Pool W P → UnitId → Row W P → Pool W P
  put p id u = record p { units = insert id u p.units }

  unfoldable pub started : Pool W P → UnitId → Result Error (Pool W P)
  unfolding held put
  started p id = do
    u ← held p id
    refuse_if (not (is_state u.state requested)) illegal_transition
    ok (put p id (record u { state = starting }))

  unfoldable pub reach_row : Row W P → Bool → Row W P
  reach_row u answers =
      if not answers && is_state u.state admitting
      then record u { reachable = answers; state = draining; cause = reachability_failed }
      else record u { reachable = answers }

  unfoldable pub reachable : Pool W P → UnitId → Bool → Result Error (Pool W P)
  unfolding held put
  reachable p id answers = do u ← held p id; ok (put p id (reach_row u answers))

  unfoldable pub health_row : Row W P → Bool → Row W P
  health_row u answers =
      if not answers && not (is_state u.state gone)
      then record u { healthy = answers; state = gone; cause = health_failed }
      else record u { healthy = answers }

  unfoldable pub healthy : Pool W P → UnitId → Bool → Result Error (Pool W P)
  unfolding held put
  healthy p id answers = do u ← held p id; ok (put p id (health_row u answers))

  unfoldable pub drain : Pool W P → UnitId → Cause → Result Error (Pool W P)
  unfolding held put
  drain p id why = do
    u ← held p id
    refuse_if (not (is_state u.state admitting)) illegal_transition
    ok (put p id (record u { state = draining; cause = why }))

  unfoldable pub retire : Pool W P → UnitId → Cause → Result Error (Pool W P)
  unfolding held put
  retire p id why = do
    u ← held p id
    refuse_if (is_state u.state gone) illegal_transition
    ok (put p id (record u { state = gone; cause = why }))

  -- The part of `Register` that reads the row.
  unfoldable pub admit_row : Pool W P → UnitId → P → Result Error (Pool W P)
  unfolding held put
  admit_row p id port = do
    u ← held p id
    refuse_if (not (is_state u.state starting)) illegal_transition
    refuse_if (not u.reachable) illegal_transition
    ok (put p id (record u { state = admitting; cause = unset; port = some port }))

  unfoldable pub register :
      (Text → Text → Text) → Pool W P → Registration → Option P → Time → Result Error (Pool W P)
  unfolding check_proof admit_row
  register mac p r port now = do
    refuse_if (is_empty r.unit) empty
    elim port [ none ↦ err no_port | some h ↦ check_proof mac p.key r now >> admit_row p r.unit h ]
