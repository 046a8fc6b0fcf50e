-- ===== src/Pool/Moves.antt =====
-- internal/pool/pool.go: the moves of the unit state machine, as a relation on rows, and what every
-- move keeps.
use hoersaal.Base.{◌≡◌, refl, sym, subst, ◌∙◌, ◌≢◌, [], Bool, true, false, some}
use hoersaal.Float.{Float64, IsIeee, IsLoad}
use hoersaal.Domain.Conference.{is_some}
use hoersaal.Placement.Records.{UnitId}
use hoersaal.Time.{Time}
use hoersaal.Pool.Rows.{
  State, requested, starting, admitting, draining, gone, Cause, unset, health_failed,
  reachability_failed, Row,
}

-- The transitions that the state machine has.
infix 40 ◌⟶◌
pub data ◌⟶◌ : State → State → Type 0 where
  stay : {s : State} → s ⟶ s
  provision : requested ⟶ starting
  join : starting ⟶ admitting
  drain : admitting ⟶ draining
  leave : {s : State} → s ⟶ gone

-- What a state says of the reachability input, the health input and whether there is a handle: a unit
-- that has not registered has no handle, one that admits or drains has one, one that admits is
-- reachable, and one that does not answer is gone.
abbrev pub StateOk : State → Bool → Bool → Bool → Type 0
StateOk requested r h p = (h ≡ true) × (p ≡ false)
StateOk starting r h p = (h ≡ true) × (p ≡ false)
StateOk admitting r h p = (r ≡ true) × (h ≡ true) × (p ≡ true)
StateOk draining r h p = (h ≡ true) × (p ≡ true)
StateOk gone r h p = Unit

StateOk-reached : (s : State) (r h p : Bool) → StateOk s r h p → StateOk s true h p
StateOk-reached admitting r h p k = (refl, k.1, k.2)
StateOk-reached requested r h p k = k
StateOk-reached starting r h p k = k
StateOk-reached draining r h p k = k
StateOk-reached gone r h p k = k

StateOk-unreached : (s : State) (r h p q : Bool) → s ≢ admitting → StateOk s r h p → StateOk s q h p
StateOk-unreached admitting r h p q n k = absurd (n refl)
StateOk-unreached requested r h p q n k = k
StateOk-unreached starting r h p q n k = k
StateOk-unreached draining r h p q n k = k
StateOk-unreached gone r h p q n k = k

StateOk-answers : (s : State) (r h p : Bool) → StateOk s r h p → StateOk s r true p
StateOk-answers admitting r h p k = (k.0, refl, k.2)
StateOk-answers requested r h p k = (refl, k.1)
StateOk-answers starting r h p k = (refl, k.1)
StateOk-answers draining r h p k = (refl, k.1)
StateOk-answers gone r h p k = k

module _ {W P : Type 0} ⦃f : Float64 W⦄ where
  -- What one call may do to one row.
  pub data RowMove (u : Row W P) : Row W P → Type 0 where
    starts : u.state ≡ requested → RowMove u (record u { state = starting })
    reaches : RowMove u (record u { reachable = true })
    unreached : u.state ≢ admitting → RowMove u (record u { reachable = false })
    loses_reach :
        u.state ≡ admitting
        → RowMove u (record u { reachable = false; state = draining; cause = reachability_failed })
    answers : RowMove u (record u { healthy = true })
    stays_gone : u.state ≡ gone → RowMove u (record u { healthy = false })
    dies :
        u.state ≢ gone
        → RowMove u (record u { healthy = false; state = gone; cause = health_failed })
    registers :
        (port : P)
        → u.state ≡ starting
        → u.reachable ≡ true
        → RowMove u (record u { state = admitting; cause = unset; port = some port })
    drains :
        (why : Cause) → u.state ≡ admitting → RowMove u (record u { state = draining; cause = why })
    retires : (why : Cause) → u.state ≢ gone → RowMove u (record u { state = gone; cause = why })
    reports :
        (load : W) (now : Time)
        → IsLoad load
        → RowMove u (record u {
          reported = load;
          reported_at = now;
          ever_reported = true;
          committed = f.nought;
        })
    commits :
        (load : W)
        → u.state ≡ admitting
        → IsLoad load
        → RowMove u (record u { committed = f.plus u.committed load })

  -- A row that keeps its name, moves along the machine, and once gone keeps its cause.
  pub record Follows (u v : Row W P) : Type 0 where
    pub same_id : v.id ≡ u.id
    pub state_moves : u.state ⟶ v.state
    pub cause_kept : u.state ≡ gone → v.cause ≡ u.cause

  pub RowMove-Follows : {u v : Row W P} → RowMove u v → Follows u v
  RowMove-Follows {u} (starts e) = record {
    same_id = refl;
    state_moves = subst (λ s. s ⟶ starting) (sym e) provision;
    cause_kept = λ g. refl;
  }
  RowMove-Follows reaches = record { same_id = refl; state_moves = stay; cause_kept = λ g. refl }
  RowMove-Follows (unreached n) = record {
    same_id = refl;
    state_moves = stay;
    cause_kept = λ g. refl;
  }
  RowMove-Follows (loses_reach e) = record {
    same_id = refl;
    state_moves = subst (λ s. s ⟶ draining) (sym e) drain;
    cause_kept = λ g. cc;
  }
  RowMove-Follows answers = record { same_id = refl; state_moves = stay; cause_kept = λ g. refl }
  RowMove-Follows (stays_gone e) = record {
    same_id = refl;
    state_moves = stay;
    cause_kept = λ g. refl;
  }
  RowMove-Follows (dies n) = record {
    same_id = refl;
    state_moves = leave;
    cause_kept = λ g. absurd (n g);
  }
  RowMove-Follows (registers port e r) = record {
    same_id = refl;
    state_moves = subst (λ s. s ⟶ admitting) (sym e) join;
    cause_kept = λ g. cc;
  }
  RowMove-Follows (drains why e) = record {
    same_id = refl;
    state_moves = subst (λ s. s ⟶ draining) (sym e) drain;
    cause_kept = λ g. cc;
  }
  RowMove-Follows (retires why n) = record {
    same_id = refl;
    state_moves = leave;
    cause_kept = λ g. absurd (n g);
  }
  RowMove-Follows (reports load now l) = record {
    same_id = refl;
    state_moves = stay;
    cause_kept = λ g. refl;
  }
  RowMove-Follows (commits load e l) = record {
    same_id = refl;
    state_moves = stay;
    cause_kept = λ g. refl;
  }

  -- A row that the pool may hold: filed under its own name, with loads that are loads, and in a
  -- state that its inputs and its handle allow.
  pub record RowOk (id : UnitId) (u : Row W P) : Type 0 where
    pub keyed : id ≡ u.id
    pub named : id ≢ []
    pub reported_load : IsLoad u.reported
    pub committed_load : IsLoad u.committed
    pub state_ok : StateOk u.state u.reachable u.healthy (is_some u.port)

  restated :
      {id : UnitId} {u v : Row W P}
      → RowOk id u
      → v.id ≡ u.id
      → IsLoad v.reported
      → IsLoad v.committed
      → StateOk v.state v.reachable v.healthy (is_some v.port)
      → RowOk id v
  restated k e l m s = record {
    keyed = k.keyed ∙ sym e;
    named = k.named;
    reported_load = l;
    committed_load = m;
    state_ok = s;
  }

  state_at :
      {id : UnitId} {u : Row W P} {s : State}
      → RowOk id u
      → u.state ≡ s
      → StateOk s u.reachable u.healthy (is_some u.port)
  state_at {u = u} k e = subst (λ s. StateOk s u.reachable u.healthy (is_some u.port)) e k.state_ok

  -- A move that leaves the loads alone.
  moved :
      {id : UnitId} {u v : Row W P}
      → RowOk id u
      → v.id ≡ u.id
      → v.reported ≡ u.reported
      → v.committed ≡ u.committed
      → StateOk v.state v.reachable v.healthy (is_some v.port)
      → RowOk id v
  moved k e l m s =
      restated k e (subst IsLoad (sym l) k.reported_load) (subst IsLoad (sym m) k.committed_load) s

  pub RowMove-RowOk :
      (laws : IsIeee W) {id : UnitId} {u v : Row W P} → RowMove u v → RowOk id u → RowOk id v
  RowMove-RowOk laws (starts e) k = moved k refl refl refl (state_at k e)
  RowMove-RowOk laws {u = u} reaches k =
      moved k refl refl refl (StateOk-reached u.state _ _ _ k.state_ok)
  RowMove-RowOk laws {u = u} (unreached n) k =
      moved k refl refl refl (StateOk-unreached u.state _ _ _ _ n k.state_ok)
  RowMove-RowOk laws (loses_reach e) k = let s = state_at k e in moved k refl refl refl (s.1, s.2)
  RowMove-RowOk laws {u = u} answers k =
      moved k refl refl refl (StateOk-answers u.state _ _ _ k.state_ok)
  RowMove-RowOk laws {u = u} (stays_gone e) k =
      moved k refl refl refl (subst (λ s. StateOk s u.reachable false (is_some u.port)) (sym e) tt)
  RowMove-RowOk laws (dies n) k = moved k refl refl refl tt
  RowMove-RowOk laws (registers port e r) k = moved k refl refl refl (r, (state_at k e).0, refl)
  RowMove-RowOk laws (drains why e) k = let s = state_at k e in moved k refl refl refl (s.1, s.2)
  RowMove-RowOk laws (retires why n) k = moved k refl refl refl tt
  RowMove-RowOk laws (reports load now l) k = restated k refl l laws.nought_load k.state_ok
  RowMove-RowOk laws {u = u} (commits load e l) k =
      restated k refl k.reported_load (laws.plus_load u.committed load k.committed_load l)
        k.state_ok
