-- ===== src/Placement/Lowest.antt =====
-- internal/placement/placement.go: what `lowest` finds. The preference is a strict total order on
-- eligible rows, so the unit found is the only least one and the order of the rows does not matter.
use hoersaal.Base.{
  ◌≡◌, refl, subst, ◌⊎◌, inl, inr, Bool, true, false, not, ◌||◌, Option, none, some, List, [], ◌∷◌,
  arith, Bool-cases, In, if◌then◌else◌,
}
use hoersaal.Text.{text_lt, text_lt_irrefl, text_lt_trans, text_lt_total}
use hoersaal.Float.{Float64, IsIeee}
use hoersaal.Placement.Records.{UnitRow, Pool}
use hoersaal.Placement.Naive.{eligible, prefer, lowest, lowest_from, better}

module _ {W : Type 0} ⦃f : Float64 W⦄ (laws : IsIeee W) where
  open laws use {lt_numbers, lt_irrefl, lt_trans, lt_split, feq_iff}

  -- Rows that the policy may choose: no load is a NaN.
  abbrev pub IsNumber : UnitRow W → Type 0
  IsNumber u = f.is_nan u.effective_load ≡ false

  pub prefer_irrefl : (a : UnitRow W) → IsNumber a → prefer a a ≡ false
  unfolding prefer
  prefer_irrefl a n = ground (
    arith,
    feq_iff a.effective_load a.effective_load n n,
    lt_irrefl a.effective_load,
    text_lt_irrefl a.id,
  )

  -- The smaller load, or the smaller identifier where neither load is the smaller.
  abbrev Before : UnitRow W → UnitRow W → Type 0
  Before a b =
      (f.lt a.effective_load b.effective_load ≡ true)
      ⊎ ((f.lt a.effective_load b.effective_load ≡ false)
          × (f.lt b.effective_load a.effective_load ≡ false)
          × (text_lt a.id b.id ≡ true))

  prefer_cases : (a b : UnitRow W) → IsNumber a → IsNumber b → prefer a b ≡ true → Before a b
  unfolding prefer
  prefer_cases a b na nb h = ground (arith, feq_iff a.effective_load b.effective_load na nb)

  prefer_when : (a b : UnitRow W) → IsNumber a → IsNumber b → Before a b → prefer a b ≡ true
  unfolding prefer
  prefer_when a b na nb h = ground (arith, feq_iff a.effective_load b.effective_load na nb)

  pub prefer_trans :
      (a b c : UnitRow W)
      → IsNumber a
      → IsNumber b
      → IsNumber c
      → prefer a b ≡ true
      → prefer b c ≡ true
      → prefer a c ≡ true
  prefer_trans a b c na nb nc h k =
      let x = a.effective_load in
      let y = b.effective_load in
      let z = c.effective_load in
      prefer_when a c na nc (
        ground (
          arith,
          prefer_cases a b na nb h,
          prefer_cases b c nb nc k,
          lt_trans x y z,
          lt_split x z y nc,
          lt_split y x z na,
          lt_split x y z nb,
          lt_split z y x nb,
          text_lt_trans a.id b.id c.id,
        ))

  pub prefer_total :
      (a b : UnitRow W)
      → IsNumber a
      → IsNumber b
      → prefer a b ≡ false
      → prefer b a ≡ false
      → a.id ≡ b.id
  unfolding prefer
  prefer_total a b na nb h k = ground (
    arith,
    feq_iff a.effective_load b.effective_load na nb,
    feq_iff b.effective_load a.effective_load nb na,
    text_lt_total a.id b.id,
  )

  -- A row that the search may take.
  abbrev pub Candidate : (UnitRow W → Bool) → UnitRow W → Type 0
  Candidate consider u = (eligible u ≡ true) × (consider u ≡ true)

  pub eligible-IsNumber : (u : UnitRow W) → eligible u ≡ true → IsNumber u
  unfolding eligible
  eligible-IsNumber u h = (lt_numbers u.effective_load f.ceiling (ground arith)).0

  -- `best` is a candidate among the rows `S`, and no candidate among them is preferred to it.
  pub record IsLeast (consider : UnitRow W → Bool) (S : UnitRow W → Type 0) (best : UnitRow W)
      : Type 0 where
    pub listed : S best
    pub candidate : Candidate consider best
    pub least : (u : UnitRow W) → S u → Candidate consider u → prefer u best ≡ false

  -- What a search through the rows `S` answers: the least candidate, or nothing where none is.
  abbrev pub Finds : (UnitRow W → Bool) → (UnitRow W → Type 0) → Option (UnitRow W) → Type 0
  Finds consider S none = (u : UnitRow W) → S u → Candidate consider u → ⊥
  Finds consider S (some best) = IsLeast consider S best

  abbrev And : (UnitRow W → Type 0) → UnitRow W → UnitRow W → Type 0
  And S x u = S u ⊎ (u ≡ x)

  module _ (consider : UnitRow W → Bool) (S : UnitRow W → Type 0) (x : UnitRow W) where
    Finds-skip :
        (best : Option (UnitRow W))
        → (Candidate consider x → ⊥)
        → Finds consider S best
        → Finds consider (And S x) best
    Finds-skip none n h =
        λ u i c. elim i [ inl j ↦ h u j c | inr e ↦ n (subst (Candidate consider) e c) ]
    Finds-skip (some b) n h = record {
      listed = inl h.listed;
      candidate = h.candidate;
      least = λ u i c. elim i [
        | inl j ↦ h.least u j c
        | inr e ↦ absurd (n (subst (Candidate consider) e c))
      ];
    }

    Finds-take :
        (best : Option (UnitRow W))
        → Candidate consider x
        → better x best ≡ true
        → Finds consider S best
        → Finds consider (And S x) (some x)
    unfolding better
    Finds-take none c p h = record {
      listed = inr refl;
      candidate = c;
      least = λ u i d. elim i [
        | inl j ↦ absurd (h u j d)
        | inr e ↦ rw e (prefer_irrefl x (eligible-IsNumber x c.0))
      ];
    }
    Finds-take (some b) c p h = record {
      listed = inr refl;
      candidate = c;
      least = λ u i d. elim i [
        | inl j ↦ ground (
          arith,
          h.least u j d,
          prefer_trans u x b (eligible-IsNumber u d.0) (eligible-IsNumber x c.0)
              (eligible-IsNumber b h.candidate.0),
        )
        | inr e ↦ rw e (prefer_irrefl x (eligible-IsNumber x c.0))
      ];
    }

    Finds-keep :
        (best : Option (UnitRow W))
        → better x best ≡ false
        → Finds consider S best
        → Finds consider (And S x) best
    unfolding better
    Finds-keep none p h = cc
    Finds-keep (some b) p h = record {
      listed = inl h.listed;
      candidate = h.candidate;
      least = λ u i d. elim i [ inl j ↦ h.least u j d | inr e ↦ rw e p ];
    }

  Finds-iff :
      (consider : UnitRow W → Bool) (S T : UnitRow W → Type 0) (best : Option (UnitRow W))
      → ((u : UnitRow W) → S u → T u)
      → ((u : UnitRow W) → T u → S u)
      → Finds consider S best
      → Finds consider T best
  Finds-iff consider S T none to from h = λ u i c. h u (from u i) c
  Finds-iff consider S T (some b) to from h = record {
    listed = to b h.listed;
    candidate = h.candidate;
    least = λ u i c. h.least u (from u i) c;
  }

  lowest_from-Finds :
      (consider : UnitRow W → Bool) (S : UnitRow W → Type 0) (best : Option (UnitRow W))
      (us : List (UnitRow W))
      → Finds consider S best
      → Finds consider (λ u. S u ⊎ In u us) (lowest_from consider best us)
  unfolding lowest_from
  lowest_from-Finds consider S best [] h =
      Finds-iff consider S (λ u. S u ⊎ In u []) best (λ u i. inl i)
        (λ u i. elim i [ inl j ↦ j | inr j ↦ absurd (j tt) ]) h
  lowest_from-Finds consider S best (x ∷ us) h =
      let next : Option (UnitRow W) =
        if not (eligible x) || not (consider x)
        then best
        else if better x best
        then some x
        else best in
      Finds-iff consider (λ u. And S x u ⊎ In u us) (λ u. S u ⊎ In u (x ∷ us))
        (lowest_from consider next us)
        (λ u i. elim i [ inl (inl j) ↦ inl j | inl (inr e) ↦ inr (inl e) | inr j ↦ inr (inr j) ])
        (λ u i. elim i [ inl j ↦ inl (inl j) | inr (inl e) ↦ inl (inr e) | inr (inr j) ↦ inr j ])
        (lowest_from-Finds consider (And S x) next us step)
    where
      step : Finds consider (And S x) (
          if not (eligible x) || not (consider x)
          then best
          else if better x best
          then some x
          else best)
      step = elim (Bool-cases (not (eligible x) || not (consider x))) [
        | inl q ↦ rw q (Finds-skip consider S x best (λ c. ground (arith, c.0, c.1)) h)
        | inr q ↦ elim (Bool-cases (better x best)) [
          | inl p ↦ rw (q, p) (Finds-take consider S x best (ground arith, ground arith) p h)
          | inr p ↦ rw (q, p) (Finds-keep consider S x best p h)
        ]
      ]

  -- `lowest` finds the least candidate among the rows of the pool, and nothing only where no row is
  -- one.
  pub lowest-Finds :
      (pool : Pool W) (consider : UnitRow W → Bool)
      → Finds consider (λ u. In u pool.units) (lowest pool consider)
  unfolding lowest
  lowest-Finds pool consider =
      Finds-iff consider (λ u. ⊥ ⊎ In u pool.units) (λ u. In u pool.units)
        (lowest_from consider none pool.units) (λ u i. elim i [ inl j ↦ absurd j | inr j ↦ j ])
        (λ u i. inr i) (lowest_from-Finds consider (λ u. ⊥) none pool.units (λ u i c. i))
