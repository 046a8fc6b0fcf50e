-- ===== src/Pool/Evolution.antt =====
-- internal/pool/pool.go: how a pool changes, as sequences of moves of its rows and of entries of new
-- rows, and the invariant that they keep.
use mathlib.Core.List.{map-append}
use hoersaal.Base.{
  ◌≡◌, refl, sym, subst, ◌∙◌, ◌≢◌, ◌⊎◌, inl, inr, true, false, some, none, [], ◌∷◌, ◌++◌,
  IsDistinct, IsDistinct-snoc, All, All-In, All-append,
}
use hoersaal.Text.{text_eq}
use hoersaal.Dict.{
  keys, lookup, insert, insert-All, keys-insert_held, insert_fresh, In-keys_of_lookup,
  not-In-keys_of_lookup,
}
use hoersaal.Float.{Float64, IsIeee}
use hoersaal.Placement.Records.{UnitId}
use hoersaal.Pool.Rows.{State, requested, starting, unset, Row}
use hoersaal.Pool.Methods.{Pool, put}
use hoersaal.Pool.Moves.{RowMove, RowOk, RowMove-RowOk}

module _ {W P : Type 0} ⦃f : Float64 W⦄ where
  -- The row of a unit that enters the pool.
  abbrev pub entry : UnitId → State → Row W P
  entry id at = record {
    id = id;
    state = at;
    cause = unset;
    reachable = false;
    healthy = true;
    reported = f.nought;
    reported_at = 0;
    ever_reported = false;
    committed = f.nought;
    port = none;
  }

  pub data Evolves (p : Pool W P) : Pool W P → Type 0 where
    same : Evolves p p
    moves :
        {q : Pool W P} (id : UnitId) (u v : Row W P)
        → Evolves p q
        → lookup id q.units ≡ some u
        → RowMove u v
        → Evolves p (put q id v)
    enters :
        {q : Pool W P} (id : UnitId) (at : State)
        → Evolves p q
        → id ≢ []
        → (at ≡ requested) ⊎ (at ≡ starting)
        → lookup id q.units ≡ none
        → Evolves p
            (record q { units = insert id (entry id at) q.units; order = q.order ++ (id ∷ []) })

  -- `order` lists every unit that the map holds, once, and every row may be held.
  pub record PoolOk (p : Pool W P) : Type 0 where
    pub listed : p.order ≡ keys p.units
    pub distinct : IsDistinct (keys p.units)
    pub rows_ok : All (λ e. RowOk e.0 e.1) p.units

  pub row_ok :
      {p : Pool W P}
      → PoolOk p
      → (id : UnitId) (u : Row W P) → lookup id p.units ≡ some u
      → RowOk id u
  row_ok {p} k id u h =
      All-In (λ e. RowOk e.0 e.1) p.units (id, u) k.rows_ok (In-keys_of_lookup id u p.units h)

  put-PoolOk :
      (p : Pool W P) (id : UnitId) (u v : Row W P)
      → PoolOk p
      → lookup id p.units ≡ some u
      → RowOk id v
      → PoolOk (put p id v)
  unfolding put
  put-PoolOk p id u v k h r =
      let kept : keys (insert id v p.units) ≡ keys p.units = keys-insert_held id v u p.units h in
      record {
        listed = k.listed ∙ sym kept;
        distinct = subst IsDistinct (sym kept) k.distinct;
        rows_ok = insert-All (λ e. RowOk e.0 e.1) id v p.units r k.rows_ok;
      }

  enter-PoolOk :
      (laws : IsIeee W) (p : Pool W P) (id : UnitId) (at : State)
      → PoolOk p
      → id ≢ []
      → (at ≡ requested) ⊎ (at ≡ starting)
      → lookup id p.units ≡ none
      → PoolOk (record p { units = insert id (entry id at) p.units; order = p.order ++ (id ∷ []) })
  enter-PoolOk laws p id at k n s h = rw (insert_fresh id (entry id at) p.units h) (record {
    listed = rw k.listed (sym (map-append _ p.units ((id, entry id at) ∷ [])));
    distinct =
        rw (map-append (λ (e : UnitId × Row W P). e.0) p.units ((id, entry id at) ∷ []))
          (IsDistinct-snoc (keys p.units) id k.distinct (not-In-keys_of_lookup id p.units h));
    rows_ok = All-append (λ e. RowOk e.0 e.1) p.units ((id, entry id at) ∷ []) k.rows_ok (new, tt);
  })
    where
      new : RowOk id (entry id at)
      new = record {
        keyed = refl;
        named = n;
        reported_load = laws.nought_load;
        committed_load = laws.nought_load;
        state_ok = elim s [ inl e ↦ rw e (refl, refl) | inr e ↦ rw e (refl, refl) ];
      }

  pub Evolves-PoolOk : (laws : IsIeee W) {p q : Pool W P} → PoolOk p → Evolves p q → PoolOk q
  Evolves-PoolOk laws k same = k
  Evolves-PoolOk laws {p} k (moves {q} id u v e h m) =
      let old = Evolves-PoolOk laws k e in
      put-PoolOk q id u v old h (RowMove-RowOk laws m (row_ok old id u h))
  Evolves-PoolOk laws k (enters {q} id at e n s h) =
      enter-PoolOk laws q id at (Evolves-PoolOk laws k e) n s h
