-- ===== src/Pool/Stale.antt =====
-- internal/pool/pool.go: `Sweep` retires the units whose signal went stale, and those that have sent
-- none since they registered.
use hoersaal.Base.{
  ◌≡◌, sym, subst, Bool, true, false, ◌<ℤ◌, ◌⊎◌, inl, inr, some, List, arith, ok, Bool-cases, In,
  IsDistinct, pos, leb_ℤ,
}
use hoersaal.Text.{text_eq}
use hoersaal.Dict.{lookup, In-keys, In-keys_of_lookup}
use hoersaal.Domain.Conference.{is_some}
use hoersaal.Float.{Float64}
use hoersaal.Placement.Records.{UnitId}
use hoersaal.Time.{Time, Duration, sub}
use hoersaal.Pool.Rows.{State, requested, starting, admitting, draining, gone, is_state_iff, Row}
use hoersaal.Pool.Methods.{Pool, is_fresh, spared, sweep}
use hoersaal.Pool.Moves.{StateOk, RowOk}
use hoersaal.Pool.Evolution.{PoolOk, row_ok}
use hoersaal.Pool.Views.{held_row}
use hoersaal.Pool.Sweeps.{stale_row, sweep_from_lem}

-- A unit that serves, and whose last answer, if it has given one, is older than the bound.
pub record IsStale {W P : Type 0} (now : Time) (older_than : Duration) (u : Row W P) : Type 0 where
  pub serves : (u.state ≡ admitting) ⊎ (u.state ≡ draining)
  pub silent : u.ever_reported ≡ true → older_than <ℤ sub now u.reported_at

serving_port :
    (s : State) (r h p : Bool) → StateOk s r h p → (s ≡ admitting) ⊎ (s ≡ draining) → p ≡ true
serving_port requested r h p k e = absurd (elim e [ inl x ↦ cc | inr x ↦ cc ])
serving_port starting r h p k e = absurd (elim e [ inl x ↦ cc | inr x ↦ cc ])
serving_port admitting r h p k e = k.2
serving_port draining r h p k e = k.1
serving_port gone r h p k e = absurd (elim e [ inl x ↦ cc | inr x ↦ cc ])

leb_false : (a b : Duration) → leb_ℤ a b ≡ false → b <ℤ a
leb_false a b h = ground arith

leb_of_lt : (a b : Duration) → b <ℤ a → leb_ℤ a b ≡ false
leb_of_lt a b h = ground arith

module _ {W P : Type 0} ⦃f : Float64 W⦄ where
  spared-false :
      (now : Time) (older_than : Duration) (u : Row W P)
      → spared u now older_than ≡ false
      → IsStale now older_than u
  unfolding spared is_fresh
  spared-false now older_than u h = record {
    serves = ground (arith, is_state_iff u.state admitting, is_state_iff u.state draining);
    silent = λ e. leb_false (sub now u.reported_at) older_than (ground arith);
  }

  stale_not_spared :
      {id : UnitId} (now : Time) (older_than : Duration) (u : Row W P)
      → RowOk id u
      → IsStale now older_than u
      → spared u now older_than ≡ false
  unfolding spared is_fresh
  stale_not_spared now older_than u k s =
      let has_port : is_some u.port ≡ true =
        serving_port u.state u.reachable u.healthy (is_some u.port) k.state_ok s.serves in
      elim (Bool-cases u.ever_reported) [
        | inl e ↦
            let late = leb_of_lt (sub now u.reported_at) older_than (s.silent e) in
            ground (arith, is_state_iff u.state admitting, is_state_iff u.state draining, s.serves)
        | inr e ↦
            ground (arith, is_state_iff u.state admitting, is_state_iff u.state draining, s.serves)
      ]

  -- Of a pool that satisfies the invariant, and under a positive bound, Sweep never fails: it
  -- answers those held units that are admitting or draining and whose last answer, if there is one,
  -- is older than the bound, makes each of them gone because the signal went stale, and leaves
  -- every other row as it was.
  pub sweep_lem :
      (p : Pool W P) (now : Time) (older_than : Duration)
      → PoolOk p
      → pos 0 <ℤ older_than
      → (q : Pool W P) × (swept : List UnitId) × (sweep p now older_than ≡ ok (q, swept))
        × ((id : UnitId) (u : Row W P)
            → lookup id p.units ≡ some u
            → (IsStale now older_than u → In id swept × (lookup id q.units ≡ some (stale_row u)))
              × ((IsStale now older_than u → ⊥) → (In id swept → ⊥) × (lookup id q.units ≡ some u)))
  unfolding sweep
  sweep_lem p now older_than k b =
      let (q, swept, e, h) =
        sweep_from_lem now older_than p p.order (subst IsDistinct (sym k.listed) k.distinct)
          (λ id i. let (u, l, n) = held_row p k id i in (u, l)) in
      (
        q,
        swept,
        rw (leb_of_lt older_than (pos 0) b) e,
        λ id u l.
            let s = h id u l in
            let i : In id p.order =
              subst (In id) (sym k.listed)
                (In-keys id u p.units (In-keys_of_lookup id u p.units l)) in
            (
              λ st.
                  let n = stale_not_spared now older_than u (row_ok k id u l) st in
                  (s.tells i n, let r = s.inside i in rw n at r),
              λ fresh. (
                λ j. fresh (spared-false now older_than u (s.told j).1),
                elim (Bool-cases (spared u now older_than)) [
                  | inl n ↦ let r = s.inside i in rw n at r
                  | inr n ↦ absurd (fresh (spared-false now older_than u n))
                ],
              ),
            ),
      )

  -- In a pool that satisfies the invariant, an admitting unit that has never reported is retired by
  -- the next Sweep under any positive bound, however short a time ago it registered.
  pub sweep_newcomer :
      (p : Pool W P) (now : Time) (older_than : Duration) (id : UnitId) (u : Row W P)
      → PoolOk p
      → pos 0 <ℤ older_than
      → lookup id p.units ≡ some u
      → u.state ≡ admitting
      → u.ever_reported ≡ false
      → (q : Pool W P) × (swept : List UnitId) × (sweep p now older_than ≡ ok (q, swept))
        × In id swept
  sweep_newcomer p now older_than id u k b l a n =
      let (q, swept, e, h) = sweep_lem p now older_than k b in
      (q, swept, e, ((h id u l).0 (record { serves = inl a; silent = λ r. cc })).0)
