-- ===== src/Pool/Machine.antt =====
-- internal/pool/pool.go: what holds of the units after any history of calls.
use hoersaal.Base.{
  ◌≡◌, refl, ap, subst, ◌∙◌, inl, inr, Bool, some, List, [], arith, Bool-cases, ◌==◌, ==_iff, ok,
}
use hoersaal.Text.{Text, text_eq}
use hoersaal.Dict.{lookup, lookup-insert}
use hoersaal.Float.{Float64, IsIeee}
use hoersaal.Placement.Records.{UnitId}
use hoersaal.Pool.Rows.{State, gone, Row}
use hoersaal.Pool.Methods.{Pool, new, put}
use hoersaal.Pool.Moves.{◌⟶◌, stay, provision, join, drain, leave, RowMove-Follows}
use hoersaal.Pool.Evolution.{Evolves, same, moves, enters, entry, PoolOk, Evolves-PoolOk}
use hoersaal.Pool.Calls.{Call, run}
use hoersaal.Pool.Histories.{run-Evolves}

infix 40 ◌⟶*◌
pub data ◌⟶*◌ : State → State → Type 0 where
  here : {s : State} → s ⟶* s
  next : {s t u : State} → s ⟶* t → t ⟶ u → s ⟶* u

gone_stays : {s t : State} → s ⟶ t → s ≡ gone → t ≡ gone
gone_stays stay e = e
gone_stays provision e = cc
gone_stays join e = cc
gone_stays drain e = cc
gone_stays leave e = refl

module _ {W P : Type 0} ⦃f : Float64 W⦄ where
  new-PoolOk : (key : Text) (has_clock : Bool) (p : Pool W P) → new key has_clock ≡ ok p → PoolOk p
  unfolding new
  new-PoolOk key has_clock p h =
      let empty_pool : Pool W P = record { key = key; units = []; order = [] } in
      let same_pool : empty_pool ≡ p = ground arith in
      subst PoolOk same_pool (record { listed = refl; distinct = tt; rows_ok = tt })

  -- After any history of calls on a new pool, the order lists each unit that the pool holds once,
  -- and every row is filed under its own name, with loads that are numbers and not negative; a unit
  -- that admits is reachable, answers and has a handle, one that drains answers and has a handle,
  -- and one that is requested or starting answers and has none.
  pub run-PoolOk :
      (mac : Text → Text → Text) (laws : IsIeee W) (key : Text) (has_clock : Bool) (p : Pool W P)
      (cs : List (Call W P))
      → new key has_clock ≡ ok p
      → PoolOk (run mac p cs)
  run-PoolOk mac laws key has_clock p cs h =
      Evolves-PoolOk laws (new-PoolOk key has_clock p h) (run-Evolves mac p cs)

  -- What one row may have become.
  pub record Became (u v : Row W P) : Type 0 where
    pub same_id : v.id ≡ u.id
    pub path : u.state ⟶* v.state
    pub stays_gone : u.state ≡ gone → (v.state ≡ gone) × (v.cause ≡ u.cause)

  Evolves-Became :
      {p q : Pool W P} (id : UnitId) (u : Row W P)
      → Evolves p q
      → lookup id p.units ≡ some u
      → (v : Row W P) × (lookup id q.units ≡ some v) × Became u v
  unfolding put
  Evolves-Became id u same h =
      (u, h, record { same_id = refl; path = here; stays_gone = λ g. (g, refl) })
  Evolves-Became id u (moves {q} j w x e n m) h =
      let (v, k, b) = Evolves-Became id u e h in
      elim (Bool-cases (j == id)) [
        | inl y ↦
            let i : j ≡ id = (==_iff j id).0 y in
            let same_row : w ≡ v = ground (arith, i, n, k) in
            let fol = RowMove-Follows m in
            (
              x,
              rw (lookup-insert j id x q.units, y),
              record {
                same_id = fol.same_id ∙ (ap (λ (r : Row W P). r.id) same_row ∙ b.same_id);
                path =
                    next b.path
                      (subst (λ (r : Row W P). r.state ⟶ x.state) same_row fol.state_moves);
                stays_gone = λ g.
                    let s = b.stays_gone g in
                    let wg : w.state ≡ gone = ap (λ (r : Row W P). r.state) same_row ∙ s.0 in
                    (
                      gone_stays fol.state_moves wg,
                      fol.cause_kept wg ∙ (ap (λ (r : Row W P). r.cause) same_row ∙ s.1),
                    );
              },
            )
        | inr y ↦ (v, rw (lookup-insert j id x q.units, y) k, b)
      ]
  Evolves-Became id u (enters {q} j at e n s l) h =
      let (v, k, b) = Evolves-Became id u e h in
      elim (Bool-cases (j == id)) [
        | inl y ↦ absurd (ground (arith, ==_iff j id))
        | inr y ↦ (v, rw (lookup-insert j id (entry j at) q.units, y) k, b)
      ]

  -- No history of calls drops a unit that a pool holds: the pool holds it under the same name, in a
  -- state that the moves of the state machine lead to from the state it was in; and a unit that is
  -- gone stays gone, with the cause for which it went.
  pub run-Became :
      (mac : Text → Text → Text) (p : Pool W P) (cs : List (Call W P)) (id : UnitId) (u : Row W P)
      → lookup id p.units ≡ some u
      → (v : Row W P) × (lookup id (run mac p cs).units ≡ some v) × Became u v
  run-Became mac p cs id u h = Evolves-Became id u (run-Evolves mac p cs) h
