-- ===== src/Pool/Histories.antt =====
-- internal/pool/pool.go: the loops of `Collect` and `Sweep`, and whole histories of calls:
-- rows only move along the state machine, and new units are entered.
use hoersaal.Base.{
  ◌≡◌, refl, subst, ◌≢◌, inl, inr, false, Option, List, [], ◌∷◌, arith, Bool-cases, Option-cases,
  Result, ok, err, Result-cases, leb_ℤ, pos, >>=-eq-ok, refuse_if-eq-ok,
}
use hoersaal.Text.{Text, text_eq}
use hoersaal.Dict.{lookup}
use hoersaal.Float.{Float64}
use hoersaal.Placement.Records.{UnitId}
use hoersaal.Time.{Time, Duration}
use hoersaal.Pool.Rows.{Error, requested, starting, gone, is_state, Row, the_signal_went_stale}
use hoersaal.Pool.Methods.{
  Pool, put, spared, sweep_from, sweep, request, listed, report, collect_from, asked, collect,
}
use hoersaal.Pool.Moves
use hoersaal.Pool.Moves.{RowMove}
use hoersaal.Pool.Evolution.{Evolves, same, moves, enters}
use hoersaal.Pool.Calls.{
  Call, requests, lists, starts, reaches, heals, registers, drains, retires, reports, commits,
  collects, sweeps, after, after_pair, step, run,
}
use hoersaal.Pool.Steps.{
  started-Evolves, reachable-Evolves, healthy-Evolves, drain-Evolves, retire-Evolves,
  register-Evolves, report-Evolves, commit-Evolves, enter-Evolves,
}

module _ {W P : Type 0} ⦃f : Float64 W⦄ where
  pub Evolves-trans : {p q r : Pool W P} → Evolves p q → Evolves q r → Evolves p r
  Evolves-trans a same = a
  Evolves-trans a (moves id u v b h m) = moves id u v (Evolves-trans a b) h m
  Evolves-trans a (enters id at b n s h) = enters id at (Evolves-trans a b) n s h

  collect_from-Evolves :
      (answers : P → Option (W × Time)) (p : Pool W P) (ask : List (UnitId × P))
      → Evolves p (collect_from answers p ask).0
  unfolding collect_from
  collect_from-Evolves answers p [] = same
  collect_from-Evolves answers p ((id, h) ∷ rest) = elim (Option-cases (answers h)) [
    | inl n ↦ rw (n, collect_from) (collect_from-Evolves answers p rest)
    | inr ((load, now), n) ↦ elim (Result-cases (report p id load now)) [
      | inl (e, m) ↦ rw (n, m, collect_from) (collect_from-Evolves answers p rest)
      | inr (q, m) ↦
          rw (n, m, collect_from)
            (Evolves-trans (report-Evolves p id load now q m) (collect_from-Evolves answers q rest))
    ]
  ]

  collect-Evolves :
      (answers : P → Option (W × Time)) (p q : Pool W P) (ids : List UnitId)
      → collect answers p ≡ ok (q, ids)
      → Evolves p q
  unfolding collect
  collect-Evolves answers p q ids h =
      let (ask, e, k) = >>=-eq-ok (asked p p.order) _ h in
      let same_pool : (collect_from answers p ask).0 ≡ q = cc in
      subst (Evolves p) same_pool (collect_from-Evolves answers p ask)

  spared_not_gone :
      (u : Row W P) (now : Time) (older_than : Duration)
      → spared u now older_than ≡ false
      → u.state ≢ gone
  unfolding spared is_state
  spared_not_gone u now older_than h e = ground arith

  sweep_from-Evolves :
      (now : Time) (older_than : Duration) (p : Pool W P) (ids : List UnitId) (q : Pool W P)
      (swept : List UnitId)
      → sweep_from now older_than p ids ≡ ok (q, swept)
      → Evolves p q
  unfolding sweep_from
  sweep_from-Evolves now older_than p [] q swept h =
      let same_pool : p ≡ q = cc in subst (Evolves p) same_pool same
  sweep_from-Evolves now older_than p (id ∷ ids) q swept h =
      elim (Option-cases (lookup id p.units)) [
        | inl n ↦ absurd (let bad : err Error.panics ≡ ok _ = rw (n, sweep_from) at h in cc)
        | inr (u, n) ↦ elim (Bool-cases (spared u now older_than)) [
          | inl b ↦ sweep_from-Evolves now older_than p ids q swept (rw (n, b, sweep_from) at h)
          | inr b ↦
              let rest : Pool W P =
                put p id (record u { state = gone; cause = the_signal_went_stale }) in
              let ((r, more), e, k) =
                >>=-eq-ok (sweep_from now older_than rest ids)
                  (λ (x : Pool W P × List UnitId). ok (x.0, id ∷ x.1))
                  (rw (n, b, sweep_from) at h) in
              let same_pool : r ≡ q = cc in
              subst (Evolves p) same_pool (
                Evolves-trans
                  (moves id u _ same n
                    (Moves.retires the_signal_went_stale (spared_not_gone u now older_than b)))
                  (sweep_from-Evolves now older_than rest ids r more e))
        ]
      ]

  sweep-Evolves :
      (p : Pool W P) (now : Time) (older_than : Duration) (q : Pool W P) (swept : List UnitId)
      → sweep p now older_than ≡ ok (q, swept)
      → Evolves p q
  unfolding sweep
  sweep-Evolves p now older_than q swept h =
      let (b, l) = refuse_if-eq-ok (leb_ℤ older_than (pos 0)) _ _ h in
      sweep_from-Evolves now older_than p p.order q swept l

  after-Evolves :
      (p : Pool W P) (r : Result Error (Pool W P))
      → ((q : Pool W P) → r ≡ ok q → Evolves p q)
      → Evolves p (after p r)
  after-Evolves p (ok q) h = h q refl
  after-Evolves p (err e) h = same

  after_pair-Evolves :
      (p : Pool W P) (r : Result Error (Pool W P × List UnitId))
      → ((q : Pool W P) (ids : List UnitId) → r ≡ ok (q, ids) → Evolves p q)
      → Evolves p (after_pair p r)
  after_pair-Evolves p (ok (q, ids)) h = h q ids refl
  after_pair-Evolves p (err e) h = same

  -- Every call only moves rows along the state machine and enters new units.
  pub step-Evolves :
      (mac : Text → Text → Text) (p : Pool W P) (c : Call W P) → Evolves p (step mac p c)
  unfolding step request listed
  step-Evolves mac p (requests id) =
      after-Evolves p _ (λ q. enter-Evolves p id requested q (inl refl))
  step-Evolves mac p (lists id) = after-Evolves p _ (λ q. enter-Evolves p id starting q (inr refl))
  step-Evolves mac p (starts id) = after-Evolves p _ (started-Evolves p id)
  step-Evolves mac p (reaches id answers) = after-Evolves p _ (reachable-Evolves p id answers)
  step-Evolves mac p (heals id answers) = after-Evolves p _ (healthy-Evolves p id answers)
  step-Evolves mac p (registers r port now) = after-Evolves p _ (register-Evolves mac p r port now)
  step-Evolves mac p (drains id why) = after-Evolves p _ (drain-Evolves p id why)
  step-Evolves mac p (retires id why) = after-Evolves p _ (retire-Evolves p id why)
  step-Evolves mac p (reports id load now) = after-Evolves p _ (report-Evolves p id load now)
  step-Evolves mac p (commits id load) = after-Evolves p _ (commit-Evolves p id load)
  step-Evolves mac p (collects answers) = after_pair-Evolves p _ (collect-Evolves answers p)
  step-Evolves mac p (sweeps now older_than) =
      after_pair-Evolves p _ (sweep-Evolves p now older_than)

  pub run-Evolves :
      (mac : Text → Text → Text) (p : Pool W P) (cs : List (Call W P)) → Evolves p (run mac p cs)
  unfolding run
  run-Evolves mac p [] = same
  run-Evolves mac p (c ∷ cs) =
      Evolves-trans (step-Evolves mac p c) (run-Evolves mac (step mac p c) cs)
