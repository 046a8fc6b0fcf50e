-- ===== src/Pool/Methods/Loads.antt =====
-- internal/pool/pool.go: new units, what they report and are committed to, and the methods that walk
-- over all units: `Collect`, `Sweep`, `Units` and `View`.
use hoersaal.Base.{
  Bool, true, false, ◌&&◌, ◌||◌, not, Option, none, some, List, [], ◌∷◌, ◌++◌, Result, ok, err,
  if◌then◌else◌, pos, leb_ℤ, ◌>>=◌, ◌>>◌, refuse_if,
}
use hoersaal.Text.{is_empty, text_eq, sort_by}
use hoersaal.Dict.{Dict, lookup, insert}
use hoersaal.Float.{Float64, not_a_load}
use hoersaal.Domain.Conference.{is_some}
use hoersaal.Placement.Records.{UnitId}
use hoersaal.Placement.Records
use hoersaal.Time.{Time, Duration, sub}
use hoersaal.Pool.Rows.{
  Error, empty, duplicate, illegal_transition, not_a_load_error, not_an_age, panics, State,
  requested, starting, admitting, draining, gone, is_state, unset, the_signal_went_stale, Row,
  effective_load,
}
use hoersaal.Pool.Methods.Marks.{Pool, held, put, seam_state, placement_result}

module _ {W P : Type 0} where
  -- The units that `Collect` asks, with their handles.
  unfoldable pub asked : Pool W P → List UnitId → Result Error (List (UnitId × P))
  asked p [] = ok []
  asked p (id ∷ ids) = do
    rest ← asked p ids
    elim (lookup id p.units) [
      | none ↦ err panics
      | some u ↦ elim u.port [
        | none ↦ ok rest
        | some h ↦ ok (
            if is_state u.state admitting || is_state u.state draining
            then (id, h) ∷ rest
            else rest)
      ]
    ]

  unfoldable pub is_fresh : Row W P → Time → Duration → Bool
  is_fresh u now older_than = u.ever_reported && leb_ℤ (sub now u.reported_at) older_than

  -- The tests by which the loop of `Sweep` goes on to the next unit.
  unfoldable pub spared : Row W P → Time → Duration → Bool
  unfolding is_fresh
  spared u now older_than =
      (not (is_state u.state admitting) && not (is_state u.state draining))
      || (is_fresh u now older_than || (not u.ever_reported && not (is_some u.port)))

  unfoldable pub sweep_from :
      Time → Duration → Pool W P → List UnitId → Result Error (Pool W P × List UnitId)
  unfolding put
  sweep_from now older_than p [] = ok (p, [])
  sweep_from now older_than p (id ∷ ids) = elim (lookup id p.units) [
    | none ↦ err panics
    | some u ↦ elim (spared u now older_than) [
      | true ↦ sweep_from now older_than p ids
      | false ↦ do
        (q, retired) ←
            sweep_from now older_than
              (put p id (record u { state = gone; cause = the_signal_went_stale })) ids
        ok (q, id ∷ retired)
    ]
  ]

  unfoldable pub sweep : Pool W P → Time → Duration → Result Error (Pool W P × List UnitId)
  unfolding sweep_from
  sweep p now older_than = do
    refuse_if (leb_ℤ older_than (pos 0)) not_an_age
    sweep_from now older_than p p.order

  unfoldable pub rows_of : Dict UnitId (Row W P) → List UnitId → Result Error (List (Row W P))
  rows_of units [] = ok []
  rows_of units (id ∷ ids) = do
    rest ← rows_of units ids
    elim (lookup id units) [ none ↦ err panics | some u ↦ ok (u ∷ rest) ]

  unfoldable pub units_sorted : Pool W P → Result Error (List (Row W P))
  unfolding rows_of
  units_sorted p = do rows ← rows_of p.units p.order; ok (sort_by (λ u. u.id) rows)

  unfoldable pub unit : Pool W P → UnitId → Option (Row W P)
  unit p id = lookup id p.units

module _ {W P : Type 0} ⦃f : Float64 W⦄ where
  unfoldable pub enter : Pool W P → UnitId → State → Result Error (Pool W P)
  enter p id at = do
    refuse_if (is_empty id) empty
    refuse_if (is_some (lookup id p.units)) duplicate
    ok (record p { units = insert id row p.units; order = p.order ++ (id ∷ []) })
    where
      row : Row W P
      row = record {
        id = id;
        state = at;
        cause = unset;
        reachable = false;
        healthy = true;
        reported = f.nought;
        reported_at = 0;
        ever_reported = false;
        committed = f.nought;
        port = none;
      }

  unfoldable pub request : Pool W P → UnitId → Result Error (Pool W P)
  unfolding enter
  request p id = enter p id requested

  unfoldable pub listed : Pool W P → UnitId → Result Error (Pool W P)
  unfolding enter
  listed p id = enter p id starting

  unfoldable pub report : Pool W P → UnitId → W → Time → Result Error (Pool W P)
  unfolding held put
  report p id load now = do
    refuse_if (not_a_load load) not_a_load_error
    u ← held p id
    ok (
        put p id (record u {
          reported = load;
          reported_at = now;
          ever_reported = true;
          committed = f.nought;
        }))

  unfoldable pub commit : Pool W P → UnitId → W → Result Error (Pool W P)
  unfolding held put
  commit p id load = do
    refuse_if (not_a_load load) not_a_load_error
    u ← held p id
    refuse_if (not (is_state u.state admitting)) illegal_transition
    ok (put p id (record u { committed = f.plus u.committed load }))

  -- The second loop of `Collect`. `answers` is what a handle answers to `ReportCapacity`, with the
  -- pool's clock when that is recorded; `none` is an error.
  unfoldable pub collect_from :
      (P → Option (W × Time)) → Pool W P → List (UnitId × P) → Pool W P × List UnitId
  collect_from answers p [] = (p, [])
  collect_from answers p ((id, h) ∷ rest) = elim (answers h) [
    | none ↦ collect_from answers p rest
    | some (load, now) ↦ elim (report p id load now) [
      | err e ↦ collect_from answers p rest
      | ok q ↦ let (r, ids) = collect_from answers q rest in (r, id ∷ ids)
    ]
  ]

  unfoldable pub collect :
      (P → Option (W × Time)) → Pool W P → Result Error (Pool W P × List UnitId)
  unfolding collect_from asked
  collect answers p = do ask ← asked p p.order; ok (collect_from answers p ask)

  unfoldable pub view_rows : List (Row W P) → Result Error (List (Records.UnitRow W))
  unfolding seam_state placement_result
  view_rows [] = ok []
  view_rows (r ∷ rows) =
      let rest = view_rows rows in
      elim (seam_state r.state) [
        | none ↦ rest
        | some s ↦ do
          u ← placement_result (Records.new_unit r.id (effective_load r) r.reported_at s)
          us ← rest
          ok (u ∷ us)
      ]

  unfoldable pub view : Pool W P → Result Error (Records.Pool W)
  unfolding units_sorted view_rows
  view p = do
    rows ← units_sorted p
    units ← view_rows rows
    placement_result (Records.new_pool units)
