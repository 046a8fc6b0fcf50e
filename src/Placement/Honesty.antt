-- ===== src/Placement/Honesty.antt =====
-- internal/placement/placement.go: which records the constructors accept.
use hoersaal.Base.{
  ℕ, ◌≡◌, refl, ◌≢◌, ◌↔◌, inl, inr, none, List, [], ◌∷◌, arith, In, IsDistinct, All, Bool-cases,
  ◌==◌, ==_iff, ok,
}
use hoersaal.Text.{is_empty-false, is_empty_named, text_eq}
use hoersaal.Dict.{Dict, lookup, insert, lookup-insert}
use hoersaal.Float.{Float64, IsLoad, not_a_load_iff}
use hoersaal.Placement.Records.{
  UnitId, UnitRow, Pool, State, unnamed, known, check_rows, row_ids, new_unit, new_pool,
}

-- Every row names a unit, and none names one of an earlier row.
abbrev pub AreHonest : List UnitId → Type 0
AreHonest ids = All (λ u. u ≢ []) ids × IsDistinct ids

check_rows_sound :
    (held : Dict UnitId (Unit {0})) (ids : List UnitId)
    → check_rows held ids ≡ ok tt
    → AreHonest ids × ((u : UnitId) → In u ids → lookup u held ≡ none)
unfolding check_rows
check_rows_sound held [] h = ((tt, tt), λ u i. absurd (i tt))
check_rows_sound held (x ∷ ids) h =
    let rest = check_rows_sound (insert x tt held) ids (ground arith) in
    let fresh : lookup x held ≡ none = ground arith in
    (
      (
        (is_empty-false x (ground arith), rest.0.0),
        (
          λ i.
              let e : lookup x (insert x tt held) ≡ none = rest.1 x i in
              ground (arith, lookup-insert x x tt held, ==_iff x x),
          rest.0.1,
        ),
      ),
      λ u i. elim i [
        | inl e ↦ rw e fresh
        | inr j ↦ ground (arith, rest.1 u j, lookup-insert x u tt held)
      ],
    )

check_rows_complete :
    (held : Dict UnitId (Unit {0})) (ids : List UnitId)
    → AreHonest ids
    → ((u : UnitId) → In u ids → lookup u held ≡ none)
    → check_rows held ids ≡ ok tt
unfolding check_rows
check_rows_complete held [] h new = refl
check_rows_complete held (x ∷ ids) h new =
    rw (is_empty_named x h.0.0, new x (inl refl))
      (check_rows_complete (insert x tt held) ids (h.0.1, h.1.1)
        λ u i. rw (lookup-insert x u tt held) (elim (Bool-cases (x == u)) [
          | inl q ↦ absurd (h.1.0 (rw ((==_iff x u).0 q) i))
          | inr q ↦ rw q (new u (inr i))
        ]))

check_rows_iff : (ids : List UnitId) → (check_rows [] ids ≡ ok tt) ↔ AreHonest ids
unfolding lookup
check_rows_iff ids =
    (λ h. (check_rows_sound [] ids h).0, λ h. check_rows_complete [] ids h (λ u i. refl))

module _ {W : Type 0} where
  -- NewPool succeeds, with the rows it was given, exactly when every row names a unit and no two
  -- rows name one unit.
  pub new_pool_iff :
      (units : List (UnitRow W)) (p : Pool W)
      → (new_pool units ≡ ok p) ↔ (AreHonest (row_ids units) × (p ≡ record { units = units }))
  unfolding new_pool
  new_pool_iff units p = (
    λ h. ((check_rows_iff (row_ids units)).0 (ground arith), ground arith),
    λ h. rw ((check_rows_iff (row_ids units)).1 h.0, h.1),
  )

module _ {W : Type 0} ⦃f : Float64 W⦄ where
  -- NewUnit succeeds exactly for a named unit, a load that is a number and not negative, and one of
  -- the three states, and then gives the row of its arguments.
  pub new_unit_iff :
      (id : UnitId) (load : W) (at : ℕ) (state : State) (u : UnitRow W)
      → (new_unit id load at state ≡ ok u) ↔ (
          (id ≢ [])
          × IsLoad load
          × (state ≢ unnamed)
          × (u ≡ record { id = id; effective_load = load; reported_at = at; state = state }))
  unfolding new_unit known
  new_unit_iff id load at state u = (
    λ h. (
      is_empty-false id (ground arith),
      (not_a_load_iff load).0 (ground arith),
      (λ e. ground arith),
      ground arith,
    ),
    λ h. ground (arith, is_empty_named id h.0, not_a_load_iff load, h.1, h.2, h.3),
  )
