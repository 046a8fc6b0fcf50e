-- ===== src/MediaFake/Fitting.antt =====
-- internal/mediafake/mediafake.go: when the entries of a reception fit the sources that may be received.
use hoersaal.Base.{
  ℤ, ◌≡◌, refl, sym, ◌∙◌, ap, ◌↔◌, true, false, some, List, [], ◌∷◌, map, arith, if◌then◌else◌,
  ◌==◌, ==_iff, All, In, IsDistinct, Bool-cases, Option-cases, inl, inr, ◌⊎◌, ◌≤ℤ◌, ◌<ℤ◌, pos,
}
use hoersaal.Text.{Text, text_eq}
use hoersaal.Dict.{Dict, lookup, insert, lookup-insert}
use hoersaal.Domain.Model.{ParticipantId, SourceId, Source, Subscription, outside}
use hoersaal.MediaFake.Records.{Set}
use hoersaal.MediaFake.Checks.{has, check_entries, add_sources, by_id}

-- An entry names its subscriber, and a layer that the source filed under its identifier offers, which is
-- one of those that reach the unit.
pub record IsFitting (sources : Dict SourceId Source) (reaching : List Source) (p : ParticipantId)
    (e : Subscription) : Type 0 where
  pub same_subscriber : e.subscriber ≡ p
  pub source : Source
  pub offered : lookup e.source sources ≡ some source
  pub reaches : In source reaching
  pub named : source.id ≡ e.source
  pub from_zero : pos 0 ≤ℤ e.layer
  pub below : e.layer <ℤ source.layers

abbrev Fresh : Set → Subscription → Type 0
Fresh named e = has e.source named ≡ false

abbrev pub source_of : Subscription → SourceId
source_of e = e.source

has_other :
    (x y : Text) (set : Set) → has x (insert y tt set) ≡ (if y == x then true else has x set)
unfolding has
has_other x y set = elim (Bool-cases (y == x)) [
  | inl q ↦ rw (lookup-insert y x tt set, q) refl
  | inr q ↦ rw (lookup-insert y x tt set, q) refl
]

-- None of the entries was named before, nor is named by the entry in front of them.
Fresh-split :
    (y : SourceId) (named : Set) (es : List Subscription)
    → All (Fresh (insert y tt named)) es ↔ (All (Fresh named) es × (In y (map source_of es) → ⊥))
Fresh-split y named [] = (λ h. (tt, λ i. i tt), λ h. tt)
Fresh-split y named (e ∷ es) = (
  λ (h, hs).
      let (f, n) = (Fresh-split y named es).0 hs in
      let same = has_other e.source y named in
      ((ground arith, f), λ i. elim i [ inl x ↦ ground (arith, ==_iff y e.source) | inr x ↦ n x ]),
  λ ((f, fs), n).
      let same = has_other e.source y named in
      let apart : (y == e.source) ≡ false = elim (Bool-cases (y == e.source)) [
        | inl q ↦ absurd (n (inl ((==_iff y e.source).0 q)))
        | inr q ↦ q
      ] in
      (ground arith, (Fresh-split y named es).1 (fs, λ i. n (inr i))),
)

inside_zero : (layer layers : ℤ) → outside layer layers ≡ false → pos 0 ≤ℤ layer
unfolding outside
inside_zero layer layers h = ground arith

inside_below : (layer layers : ℤ) → outside layer layers ≡ false → layer <ℤ layers
unfolding outside
inside_below layer layers h = ground arith

inside : (layer layers : ℤ) → pos 0 ≤ℤ layer → layer <ℤ layers → outside layer layers ≡ false
unfolding outside
inside layer layers h k = ground arith

-- What is filed is one of the sources given, or was filed before.
add_sources_filed :
    (ss : List Source) (held : Dict SourceId Source) (x : SourceId) (s : Source)
    → lookup x (add_sources ss held) ≡ some s
    → (In s ss × (s.id ≡ x)) ⊎ (lookup x held ≡ some s)
unfolding add_sources
add_sources_filed [] held x s h = inr h
add_sources_filed (t ∷ ss) held x s h = elim (add_sources_filed ss (insert t.id t held) x s h) [
  | inl (i, e) ↦ inl (inr i, e)
  | inr l ↦
      let found : (if t.id == x then some t else lookup x held) ≡ some s =
        sym (lookup-insert t.id x t held) ∙ l in
      elim (Bool-cases (t.id == x)) [
        | inl q ↦
            let same : some t ≡ some s = ground arith in
            let same_source : t ≡ s = cc in
            inl (
              inl (sym same_source),
              ap (λ (a : Source). a.id) (sym same_source) ∙ (==_iff t.id x).0 q,
            )
        | inr q ↦ inr (ground arith)
      ]
]

pub by_id_filed :
    (ss : List Source) (x : SourceId) (s : Source)
    → lookup x (by_id ss) ≡ some s
    → In s ss × (s.id ≡ x)
unfolding by_id lookup
by_id_filed ss x s h = elim (add_sources_filed ss [] x s h) [ inl r ↦ r | inr bad ↦ cc ]

-- Each source of those filed is one that reaches the unit.
abbrev pub AreReaching : Dict SourceId Source → List Source → Type 0
AreReaching sources reaching =
    (x : SourceId) (s : Source) → lookup x sources ≡ some s → In s reaching × (s.id ≡ x)

pub check_entries_iff :
    (sources : Dict SourceId Source) (reaching : List Source) (from : AreReaching sources reaching)
    (p : ParticipantId) (named : Set) (es : List Subscription)
    → (check_entries sources p named es ≡ true) ↔ (
        All (IsFitting sources reaching p) es
        × IsDistinct (map source_of es)
        × All (Fresh named) es)
unfolding check_entries
check_entries_iff sources reaching from p named [] = (λ h. (tt, tt, tt), λ h. refl)
check_entries_iff sources reaching from p named (e ∷ es) = (
  λ h. elim (Option-cases (lookup e.source sources)) [
    | inl l ↦ absurd (ground (arith, l))
    | inr (s, l) ↦
        let fine : outside e.layer s.layers ≡ false = ground (arith, l) in
        let rest : check_entries sources p (insert e.source tt named) es ≡ true =
          ground (arith, l) in
        let (fits, d, fs) =
          (check_entries_iff sources reaching from p (insert e.source tt named) es).0 rest in
        let (others, n) = (Fresh-split e.source named es).0 fs in
        (
          (
            record {
              same_subscriber = ground (arith, ==_iff e.subscriber p);
              source = s;
              offered = l;
              reaches = (from e.source s l).0;
              named = (from e.source s l).1;
              from_zero = inside_zero e.layer s.layers fine;
              below = inside_below e.layer s.layers fine;
            },
            fits,
          ),
          (n, d),
          (ground arith, others),
        )
  ],
  λ ((fit, fits), (n, d), (f, fs)).
      let rest : check_entries sources p (insert e.source tt named) es ≡ true =
        (check_entries_iff sources reaching from p (insert e.source tt named) es).1
          (fits, d, (Fresh-split e.source named es).1 (fs, n)) in
      let fine : outside e.layer fit.source.layers ≡ false =
        inside e.layer fit.source.layers fit.from_zero fit.below in
      let same : (e.subscriber == p) ≡ true = (==_iff e.subscriber p).1 fit.same_subscriber in
      rw (same, f, fit.offered, fine) rest,
)

pub all-Fresh : (es : List Subscription) → All (Fresh []) es
unfolding has lookup
all-Fresh [] = tt
all-Fresh (e ∷ es) = (refl, all-Fresh es)
