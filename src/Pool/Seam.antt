-- ===== src/Pool/Seam.antt =====
-- internal/pool/pool.go: `View`, the pool as the placer reads it, and what a placement made on that
-- view says of the unit chosen.
use hoersaal.Base.{
  ◌≡◌, refl, sym, ◌≢◌, inl, inr, true, some, none, List, [], ◌∷◌, map, arith, Option-cases, ok, In,
  In-map_inv, All, All-In, All-of_In, IsDistinct,
}
use hoersaal.Text.{text_eq, IsSorted, text_lt, text_lt_irrefl}
use hoersaal.Dict.{lookup}
use hoersaal.Float.{Float64, IsIeee, IsLoad}
use hoersaal.Placement.Records.{UnitId, row_ids}
use hoersaal.Placement.Records
use hoersaal.Placement.Honesty.{new_unit_iff, new_pool_iff}
use hoersaal.Pool.Rows.{State, Row, effective_load}
use hoersaal.Pool.Methods.{Pool, seam_state, placement_result, view_rows, view}
use hoersaal.Pool.Moves.{RowOk}
use hoersaal.Pool.Evolution.{PoolOk, row_ok}
use hoersaal.Pool.Views.{units_sorted_lem}

seam_named : (s : State) (t : Records.State) → seam_state s ≡ some t → t ≢ Records.unnamed
unfolding seam_state
seam_named s t h e = ground arith

module _ {W P : Type 0} ⦃f : Float64 W⦄ where
  -- The placer's row of a unit.
  abbrev pub seam_row : Row W P → Records.State → Records.UnitRow W
  seam_row u s = record {
    id = u.id;
    effective_load = effective_load u;
    reported_at = u.reported_at;
    state = s;
  }

  abbrev Shows : List (Row W P) → Records.UnitRow W → Type 0
  Shows rows r =
      (u : Row W P) × In u rows
      × (s : Records.State) × (seam_state u.state ≡ some s)
      × (r ≡ seam_row u s)

  effective_load-IsLoad :
      (laws : IsIeee W) {id : UnitId} (u : Row W P) → RowOk id u → IsLoad (effective_load u)
  unfolding effective_load
  effective_load-IsLoad laws u k =
      laws.plus_load u.reported u.committed k.reported_load k.committed_load

  abbrev AreOk : List (Row W P) → Type 0
  AreOk = All λ u. RowOk u.id u

  -- What `View` builds of the rows: the rows that the seam has a word for.
  record Shown (rows : List (Row W P)) (us : List (Records.UnitRow W)) : Type 0 where
    built : view_rows rows ≡ ok us
    shows : (r : Records.UnitRow W) → In r us → Shows rows r
    shown : (r : Records.UnitRow W) → Shows rows r → In r us
    named : All (λ i. i ≢ []) (row_ids us)
    listed : (i : UnitId) → In i (row_ids us) → In i (map (λ u. u.id) rows)
    distinct : IsSorted (λ u. u.id) rows → IsDistinct (row_ids us)

  hidden :
      (u : Row W P) (rows : List (Row W P)) (us : List (Records.UnitRow W))
      → seam_state u.state ≡ none
      → Shown rows us
      → Shown (u ∷ rows) us
  unfolding view_rows
  hidden u rows us n k = record {
    built = rw (n, view_rows) k.built;
    shows = λ r i. let (v, j, s, e, d) = k.shows r i in (v, inr j, s, e, d);
    shown = λ r x. k.shown r (elim x.1 [
      | inl e ↦ absurd (let m : seam_state x.0.state ≡ none = rw e n in cc)
      | inr j ↦ (x.0, j, x.2, x.3, x.4)
    ]);
    named = k.named;
    listed = λ i j. inr (k.listed i j);
    distinct = λ t. k.distinct t.1;
  }

  above_new :
      (u : Row W P) (rows : List (Row W P))
      → IsSorted (λ v. v.id) (u ∷ rows)
      → In u.id (map (λ v. v.id) rows)
      → ⊥
  above_new u rows t i =
      let (v, j, e) = In-map_inv (λ (r : Row W P). r.id) rows u.id i in
      let h : text_lt u.id v.id ≡ true =
        All-In (λ (r : Row W P). text_lt u.id r.id ≡ true) rows v t.0 j in
      ground (arith, e, text_lt_irrefl v.id)

  appears :
      (laws : IsIeee W) (u : Row W P) (rows : List (Row W P)) (us : List (Records.UnitRow W))
      (s : Records.State)
      → RowOk u.id u
      → seam_state u.state ≡ some s
      → Shown rows us
      → Shown (u ∷ rows) (seam_row u s ∷ us)
  unfolding view_rows row_ids placement_result
  appears laws u rows us s o n k =
      let made : Records.new_unit u.id (effective_load u) u.reported_at s ≡ ok (seam_row u s) =
        (new_unit_iff u.id (effective_load u) u.reported_at s (seam_row u s)).1
          (o.named, effective_load-IsLoad laws u o, seam_named u.state s n, refl) in
      record {
        built = rw (n, made, k.built, view_rows);
        shows = λ r i. elim i [
          | inl e ↦ (u, inl refl, s, n, e)
          | inr j ↦ let (v, l, t, m, d) = k.shows r j in (v, inr l, t, m, d)
        ];
        shown = λ r x. elim x.1 [
          | inl e ↦
              inl (let m : seam_state u.state ≡ some x.2 = rw (sym e) x.3 in ground (arith, e, x.4))
          | inr j ↦ inr (k.shown r (x.0, j, x.2, x.3, x.4))
        ];
        named = (o.named, k.named);
        listed = λ i j. elim j [ inl e ↦ inl e | inr l ↦ inr (k.listed i l) ];
        distinct = λ t. (λ i. above_new u rows t (k.listed u.id i), k.distinct t.1);
      }

  view_rows-Shown :
      (laws : IsIeee W) (rows : List (Row W P))
      → AreOk rows
      → (us : List (Records.UnitRow W)) × Shown rows us
  unfolding view_rows row_ids
  view_rows-Shown laws [] a = (
    [],
    record {
      built = refl;
      shows = λ r i. absurd (i tt);
      shown = λ r x. absurd (x.1 tt);
      named = tt;
      listed = λ i j. j;
      distinct = λ s. tt;
    },
  )
  view_rows-Shown laws (u ∷ rows) a =
      let (us, k) = view_rows-Shown laws rows a.1 in
      elim (Option-cases (seam_state u.state)) [
        | inl n ↦ (us, hidden u rows us n k)
        | inr (s, n) ↦ (seam_row u s ∷ us, appears laws u rows us s a.0 n k)
      ]

  -- Of a pool that satisfies the invariant View never fails: it has one row for each unit that is
  -- admitting, draining or gone, with its effective load and the time of its last report, and no
  -- other row.
  pub view_lem :
      (laws : IsIeee W) (p : Pool W P)
      → PoolOk p
      → (v : Records.Pool W) × (view p ≡ ok v)
        × ((r : Records.UnitRow W)
            → (In r v.units
                → (u : Row W P) × (lookup u.id p.units ≡ some u)
                  × (s : Records.State) × (seam_state u.state ≡ some s)
                  × (r ≡ seam_row u s))
              × (((u : Row W P) × (lookup u.id p.units ≡ some u)
                    × (s : Records.State) × (seam_state u.state ≡ some s)
                    × (r ≡ seam_row u s))
                  → In r v.units))
  unfolding view placement_result
  view_lem laws p k =
      let (rows, e, sorted, held) = units_sorted_lem p k in
      let oks : AreOk rows =
        All-of_In (λ u. RowOk u.id u) rows (λ u i. row_ok k u.id u ((held u).0 i)) in
      let (us, x) = view_rows-Shown laws rows oks in
      let made : Records.new_pool us ≡ ok (record { units = us }) =
        (new_pool_iff us (record { units = us })).1 ((x.named, x.distinct sorted), refl) in
      (
        record { units = us },
        rw (e, x.built, made),
        λ r. (
          λ i. let (u, j, s, n, d) = x.shows r i in (u, (held u).0 j, s, n, d),
          λ y. x.shown r (y.0, (held y.0).1 y.1, y.2, y.3, y.4),
        ),
      )
