-- ===== src/Pool/Views.antt =====
-- internal/pool/pool.go: `Units`, the whole pool in one call.
use hoersaal.Base.{
  ◌≡◌, refl, sym, subst, ◌∙◌, inl, inr, some, List, [], ◌∷◌, map, arith, Option-cases, ok, In,
  In-map_inv, All, All-In, IsDistinct,
}
use hoersaal.Text.{text_eq, IsSorted, sort_by, sort_by-IsSorted, In-sort_by, sort_by-In}
use hoersaal.Dict.{Dict, lookup, In-keys_of_lookup, In-keys, not-In-keys_of_lookup}
use hoersaal.Float.{Float64}
use hoersaal.Placement.Records.{UnitId}
use hoersaal.Pool.Rows.{Row}
use hoersaal.Pool.Methods.{Pool, rows_of, units_sorted}
use hoersaal.Pool.Evolution.{PoolOk, row_ok}

module _ {W P : Type 0} where
  abbrev IsHeld : Dict UnitId (Row W P) → Row W P → Type 0
  IsHeld units u = lookup u.id units ≡ some u

  rows_of-total :
      (units : Dict UnitId (Row W P)) (ids : List UnitId)
      → ((id : UnitId) → In id ids → (u : Row W P) × (lookup id units ≡ some u) × (id ≡ u.id))
      → (rows : List (Row W P)) × (rows_of units ids ≡ ok rows)
        × (map (λ u. u.id) rows ≡ ids)
        × All (IsHeld units) rows
  unfolding rows_of
  rows_of-total units [] h = ([], refl, refl, tt)
  rows_of-total units (id ∷ ids) h =
      let (rows, e, m, a) = rows_of-total units ids (λ i j. h i (inr j)) in
      let (u, l, k) = h id (inl refl) in
      (u ∷ rows, rw (e, l), ground (arith, k, m), (subst (λ i. lookup i units ≡ some u) k l, a))

module _ {W P : Type 0} ⦃f : Float64 W⦄ where
  pub held_row :
      (p : Pool W P)
      → PoolOk p
      → (id : UnitId) → In id p.order
      → (u : Row W P) × (lookup id p.units ≡ some u) × (id ≡ u.id)
  held_row p k id i = elim (Option-cases (lookup id p.units)) [
    | inl n ↦ absurd (not-In-keys_of_lookup id p.units n (subst (In id) k.listed i))
    | inr (u, n) ↦ (u, n, (row_ok k id u n).keyed)
  ]

  -- Of a pool that satisfies the invariant Units never fails: it answers each row that the pool
  -- holds, and nothing else, in strictly rising order of identifier.
  pub units_sorted_lem :
      (p : Pool W P)
      → PoolOk p
      → (rows : List (Row W P)) × (units_sorted p ≡ ok rows)
        × IsSorted (λ u. u.id) rows
        × ((u : Row W P)
            → (In u rows → lookup u.id p.units ≡ some u)
              × (lookup u.id p.units ≡ some u → In u rows))
  unfolding units_sorted
  units_sorted_lem p k =
      let (rows, e, m, a) = rows_of-total p.units p.order (held_row p k) in
      let distinct : IsDistinct (map (λ u. u.id) rows) =
        subst IsDistinct (sym (m ∙ k.listed)) k.distinct in
      (
        sort_by (λ u. u.id) rows,
        rw e,
        sort_by-IsSorted (λ u. u.id) rows distinct,
        λ u. (
          λ i. All-In (IsHeld p.units) rows u a (In-sort_by (λ u. u.id) u rows i),
          λ h.
              let i : In u.id (map (λ (r : Row W P). r.id) rows) =
                subst (In u.id) (sym (m ∙ k.listed))
                  (In-keys u.id u p.units (In-keys_of_lookup u.id u p.units h)) in
              let (w, j, n) = In-map_inv (λ (r : Row W P). r.id) rows u.id i in
              let held : IsHeld p.units w = All-In (IsHeld p.units) rows w a j in
              let same_row : w ≡ u = ground (arith, n, h, held) in
              sort_by-In (λ u. u.id) u rows (subst (λ r. In r rows) same_row j),
        ),
      )
