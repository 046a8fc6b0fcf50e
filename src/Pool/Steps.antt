-- ===== src/Pool/Steps.antt =====
-- internal/pool/pool.go: each method that writes one row moves it along the state machine.
-- `enter` adds a new one.
use hoersaal.Base.{
  ◌≡◌, subst, ◌⊎◌, inl, inr, Bool, true, false, not, Option, some, none, [], ◌∷◌, ◌++◌, arith,
  Bool-cases, Option-cases, Result, ok, err, ◌>>=◌, >>=-eq-ok, refuse_if-eq-ok,
}
use hoersaal.Text.{Text, is_empty, text_eq, is_empty-false}
use hoersaal.Dict.{lookup, insert}
use hoersaal.Float.{Float64, not_a_load, not_a_load_iff}
use hoersaal.Placement.Records.{UnitId}
use hoersaal.Domain.Conference.{is_some}
use hoersaal.Time.{Time}
use hoersaal.Pool.Rows.{
  Error, State, requested, starting, admitting, gone, is_state, is_state_iff, Cause, Row,
}
use hoersaal.Pool.Proof.{Registration}
use hoersaal.Pool.Methods.{
  Pool, held, put, started, reach_row, reachable, health_row, healthy, drain, retire, check_proof,
  admit_row, register, enter, report, commit,
}
use hoersaal.Pool.Moves
use hoersaal.Pool.Moves.{RowMove}
use hoersaal.Pool.Evolution.{Evolves, same, moves, enters, entry}

module _ {W P : Type 0} where
  -- A call that begins by reading a row has read one that the map holds.
  pub held-eq-ok :
      {A : Type 0} (p : Pool W P) (id : UnitId) (k : Row W P → Result Error A) {a : A}
      → (held p id >>= k) ≡ ok a
      → (u : Row W P) × (lookup id p.units ≡ some u) × (k u ≡ ok a)
  unfolding held
  held-eq-ok p id k h = elim (Bool-cases (is_empty id)) [
    | inl e ↦ absurd (let bad : err Error.empty ≡ ok _ = rw e at h in cc)
    | inr e ↦ elim (Option-cases (lookup id p.units)) [
      | inl n ↦ absurd (let bad : err Error.unknown_unit ≡ ok _ = rw (e, n) at h in cc)
      | inr (u, n) ↦ (u, n, rw (e, n) at h)
    ]
  ]

module _ {W P : Type 0} ⦃f : Float64 W⦄ where
  moves_once :
      (p : Pool W P) (id : UnitId) (u v : Row W P) (q : Pool W P)
      → lookup id p.units ≡ some u
      → RowMove u v
      → ◌≡◌ {A = Result Error (Pool W P)} (ok (put p id v)) (ok q)
      → Evolves p q
  moves_once p id u v q h m e =
      let same_pool : put p id v ≡ q = cc in subst (Evolves p) same_pool (moves id u v same h m)

  pub started-Evolves :
      (p : Pool W P) (id : UnitId) (q : Pool W P) → started p id ≡ ok q → Evolves p q
  unfolding started
  started-Evolves p id q h =
      let (u, n, k) = held-eq-ok p id _ h in
      let (t, l) = refuse_if-eq-ok (not (is_state u.state requested)) _ _ k in
      moves_once p id u _ q n (Moves.starts (ground (arith, is_state_iff u.state requested))) l

  reach_row-RowMove : (u : Row W P) (answers : Bool) → RowMove u (reach_row u answers)
  unfolding reach_row
  reach_row-RowMove u true = Moves.reaches
  reach_row-RowMove u false = elim (Bool-cases (is_state u.state admitting)) [
    | inl e ↦ rw e (Moves.loses_reach ((is_state_iff u.state admitting).0 e))
    | inr e ↦ rw e (Moves.unreached (λ a. ground (arith, is_state_iff u.state admitting)))
  ]

  pub reachable-Evolves :
      (p : Pool W P) (id : UnitId) (answers : Bool) (q : Pool W P)
      → reachable p id answers ≡ ok q
      → Evolves p q
  unfolding reachable
  reachable-Evolves p id answers q h =
      let (u, n, k) = held-eq-ok p id _ h in moves_once p id u _ q n (reach_row-RowMove u answers) k

  health_row-RowMove : (u : Row W P) (answers : Bool) → RowMove u (health_row u answers)
  unfolding health_row
  health_row-RowMove u true = Moves.answers
  health_row-RowMove u false = elim (Bool-cases (is_state u.state gone)) [
    | inl e ↦ rw e (Moves.stays_gone ((is_state_iff u.state gone).0 e))
    | inr e ↦ rw e (Moves.dies (λ a. ground (arith, is_state_iff u.state gone)))
  ]

  pub healthy-Evolves :
      (p : Pool W P) (id : UnitId) (answers : Bool) (q : Pool W P)
      → healthy p id answers ≡ ok q
      → Evolves p q
  unfolding healthy
  healthy-Evolves p id answers q h =
      let (u, n, k) = held-eq-ok p id _ h in
      moves_once p id u _ q n (health_row-RowMove u answers) k

  pub drain-Evolves :
      (p : Pool W P) (id : UnitId) (why : Cause) (q : Pool W P)
      → drain p id why ≡ ok q
      → Evolves p q
  unfolding drain
  drain-Evolves p id why q h =
      let (u, n, k) = held-eq-ok p id _ h in
      let (t, l) = refuse_if-eq-ok (not (is_state u.state admitting)) _ _ k in
      moves_once p id u _ q n (Moves.drains why (ground (arith, is_state_iff u.state admitting))) l

  pub retire-Evolves :
      (p : Pool W P) (id : UnitId) (why : Cause) (q : Pool W P)
      → retire p id why ≡ ok q
      → Evolves p q
  unfolding retire
  retire-Evolves p id why q h =
      let (u, n, k) = held-eq-ok p id _ h in
      let (t, l) = refuse_if-eq-ok (is_state u.state gone) _ _ k in
      moves_once p id u _ q n (Moves.retires why (λ a. ground (arith, is_state_iff u.state gone))) l

  admit_row-Evolves :
      (p : Pool W P) (id : UnitId) (port : P) (q : Pool W P)
      → admit_row p id port ≡ ok q
      → Evolves p q
  unfolding admit_row
  admit_row-Evolves p id port q h =
      let (u, n, k) = held-eq-ok p id _ h in
      let (t, l) = refuse_if-eq-ok (not (is_state u.state starting)) _ _ k in
      let (r, m) = refuse_if-eq-ok (not u.reachable) _ _ l in
      moves_once p id u _ q n
        (Moves.registers port (ground (arith, is_state_iff u.state starting)) (ground arith)) m

  pub register-Evolves :
      (mac : Text → Text → Text) (p : Pool W P) (r : Registration) (port : Option P) (now : Time)
      (q : Pool W P)
      → register mac p r port now ≡ ok q
      → Evolves p q
  unfolding register
  register-Evolves mac p r none now q h =
      let (e, l) = refuse_if-eq-ok (is_empty r.unit) _ _ h in absurd (ground arith)
  register-Evolves mac p r (some port) now q h =
      let (e, l) = refuse_if-eq-ok (is_empty r.unit) _ _ h in
      let (x, c, m) = >>=-eq-ok (check_proof mac p.key r now) _ l in
      admit_row-Evolves p r.unit port q m

  pub report-Evolves :
      (p : Pool W P) (id : UnitId) (load : W) (now : Time) (q : Pool W P)
      → report p id load now ≡ ok q
      → Evolves p q
  unfolding report
  report-Evolves p id load now q h =
      let (b, l) = refuse_if-eq-ok (not_a_load load) _ _ h in
      let (u, n, k) = held-eq-ok p id _ l in
      moves_once p id u _ q n (Moves.reports load now ((not_a_load_iff load).0 b)) k

  pub commit-Evolves :
      (p : Pool W P) (id : UnitId) (load : W) (q : Pool W P) → commit p id load ≡ ok q → Evolves p q
  unfolding commit
  commit-Evolves p id load q h =
      let (b, l) = refuse_if-eq-ok (not_a_load load) _ _ h in
      let (u, n, k) = held-eq-ok p id _ l in
      let (t, m) = refuse_if-eq-ok (not (is_state u.state admitting)) _ _ k in
      moves_once p id u _ q n
        (Moves.commits load (ground (arith, is_state_iff u.state admitting))
          ((not_a_load_iff load).0 b))
        m

  pub enter-Evolves :
      (p : Pool W P) (id : UnitId) (at : State) (q : Pool W P)
      → (at ≡ requested) ⊎ (at ≡ starting)
      → enter p id at ≡ ok q
      → Evolves p q
  unfolding enter
  enter-Evolves p id at q s h =
      let (e, l) = refuse_if-eq-ok (is_empty id) _ _ h in
      let (t, m) = refuse_if-eq-ok (is_some (lookup id p.units)) _ _ l in
      let fresh : lookup id p.units ≡ none = ground arith in
      let grown : Pool W P = record p {
        units = insert id (entry id at) p.units;
        order = p.order ++ (id ∷ []);
      } in
      let same_pool : grown ≡ q = cc in
      subst (Evolves p) same_pool (enters id at same (is_empty-false id e) s fresh)
