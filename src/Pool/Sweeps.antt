-- ===== src/Pool/Sweeps.antt =====
-- internal/pool/pool.go: which units `Sweep` retires.
use hoersaal.Base.{
  ◌≡◌, refl, sym, subst, ◌∙◌, true, false, inl, inr, some, List, [], ◌∷◌, arith, ok, Bool-cases, In,
  IsDistinct, ◌==◌, ==_iff, if◌then◌else◌,
}
use hoersaal.Text.{text_eq}
use hoersaal.Dict.{lookup, lookup-insert, lookup-insert_self}
use hoersaal.Placement.Records.{UnitId}
use hoersaal.Time.{Time, Duration}
use hoersaal.Pool.Rows.{gone, Row, the_signal_went_stale}
use hoersaal.Pool.Methods.{Pool, put, spared, sweep_from}

module _ {W P : Type 0} where
  abbrev pub stale_row : Row W P → Row W P
  stale_row u = record u { state = gone; cause = the_signal_went_stale }

  -- What a sweep makes of a row.
  abbrev pub sweep_row : Time → Duration → Row W P → Row W P
  sweep_row now older_than u = if spared u now older_than then u else stale_row u

  -- What the loop makes of one unit: the sweep's row where it is among `ids`, and else the old one.
  pub record Swept (now : Time) (older_than : Duration) (ids : List UnitId) (q : Pool W P)
      (swept : List UnitId) (j : UnitId) (u : Row W P) : Type 0 where
    pub inside : In j ids → lookup j q.units ≡ some (sweep_row now older_than u)
    pub outside : (In j ids → ⊥) → lookup j q.units ≡ some u
    pub told : In j swept → In j ids × (spared u now older_than ≡ false)
    pub tells : In j ids → spared u now older_than ≡ false → In j swept

  module _ (now : Time) (older_than : Duration) where
    kept_one :
        (p q : Pool W P) (id : UnitId) (ids swept : List UnitId) (u : Row W P) (j : UnitId)
        (v : Row W P)
        → (In id ids → ⊥)
        → lookup id p.units ≡ some u
        → spared u now older_than ≡ true
        → lookup j p.units ≡ some v
        → Swept now older_than ids q swept j v
        → Swept now older_than (id ∷ ids) q swept j v
    kept_one p q id ids swept u j v n l b m s = record {
      inside = λ i. elim i [
        | inl x ↦
            let same_row : u ≡ v = ground (arith, x, l, m) in
            let kept : spared v now older_than ≡ true = rw (sym same_row) b in
            rw kept (s.outside (λ y. n (subst (λ z. In z ids) x y)))
        | inr y ↦ s.inside y
      ];
      outside = λ n. s.outside (λ y. n (inr y));
      told = λ i. let t = s.told i in (inr t.0, t.1);
      tells = λ i c. elim i [
        | inl x ↦
            let same_row : u ≡ v = ground (arith, x, l, m) in
            absurd (let bad : true ≡ false = sym b ∙ rw same_row c in cc)
        | inr y ↦ s.tells y c
      ];
    }

    next_row :
        (p : Pool W P) (id : UnitId) (u : Row W P) (j : UnitId) (v : Row W P)
        → (id ≡ j → ⊥)
        → lookup j p.units ≡ some v
        → lookup j (put p id (stale_row u)).units ≡ some v
    unfolding put
    next_row p id u j v n m =
        rw (lookup-insert id j (stale_row u) p.units) (ground (arith, ==_iff id j))

    stale_self :
        (p : Pool W P) (id : UnitId) (u : Row W P)
        → lookup id (put p id (stale_row u)).units ≡ some (stale_row u)
    unfolding put
    stale_self p id u = lookup-insert_self id (stale_row u) p.units

    pub sweep_from_lem :
        (p : Pool W P) (ids : List UnitId)
        → IsDistinct ids
        → ((id : UnitId) → In id ids → (u : Row W P) × (lookup id p.units ≡ some u))
        → (q : Pool W P) × (swept : List UnitId) × (sweep_from now older_than p ids ≡ ok (q, swept))
          × ((j : UnitId) (u : Row W P)
              → lookup j p.units ≡ some u
              → Swept now older_than ids q swept j u)
    unfolding sweep_from
    sweep_from_lem p [] d h = (
      p,
      [],
      refl,
      λ j u l. record {
        inside = λ i. absurd (i tt);
        outside = λ n. l;
        told = λ i. absurd (i tt);
        tells = λ i s. absurd (i tt);
      },
    )
    sweep_from_lem p (id ∷ ids) d h =
        let (u, l) = h id (inl refl) in
        elim (Bool-cases (spared u now older_than)) [
          | inl b ↦
              let (q, swept, e, k) = sweep_from_lem p ids d.1 (λ i m. h i (inr m)) in
              (
                q,
                swept,
                rw (l, b, sweep_from) e,
                λ j v m. kept_one p q id ids swept u j v d.0 l b m (k j v m),
              )
          | inr b ↦
              let next : Pool W P = put p id (stale_row u) in
              let (q, swept, e, k) = sweep_from_lem next ids d.1 (λ i m.
                let (v, n) = h i (inr m) in
                (v, next_row p id u i v (λ x. d.0 (subst (λ z. In z ids) (sym x) m)) n)) in
              (
                q,
                id ∷ swept,
                rw (l, b, e, sweep_from),
                λ j v m. elim (Bool-cases (id == j)) [
                  | inl y ↦
                      let x : id ≡ j = (==_iff id j).0 y in
                      let same_row : u ≡ v = ground (arith, x, l, m) in
                      let s = k j (stale_row u) (
                        subst (λ z. lookup z next.units ≡ some (stale_row u)) x
                          (stale_self p id u)) in
                      let now_stale : lookup j q.units ≡ some (stale_row u) =
                        s.outside (λ z. d.0 (subst (λ w. In w ids) (sym x) z)) in
                      let b' : spared v now older_than ≡ false = rw (sym same_row) b in
                      record {
                        inside = λ i. rw b' (rw (sym same_row) now_stale);
                        outside = λ n. absurd (n (inl (sym x)));
                        told = λ i. (inl (sym x), b');
                        tells = λ i c. inl (sym x);
                      }
                  | inr y ↦
                      let s = k j v (next_row p id u j v (λ x. ground (arith, ==_iff id j)) m) in
                      record {
                        inside = λ i. elim i [
                          | inl x ↦ absurd (ground (arith, ==_iff id j))
                          | inr z ↦ s.inside z
                        ];
                        outside = λ n. s.outside (λ z. n (inr z));
                        told = λ i. elim i [
                          | inl x ↦ absurd (ground (arith, ==_iff id j))
                          | inr z ↦ let t = s.told z in (inr t.0, t.1)
                        ];
                        tells = λ i c. elim i [
                          | inl x ↦ absurd (ground (arith, ==_iff id j))
                          | inr z ↦ inr (s.tells z c)
                        ];
                      }
                ],
              )
        ]
