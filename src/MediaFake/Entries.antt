-- ===== src/MediaFake/Entries.antt =====
-- internal/mediafake/mediafake.go: what the books of one conference satisfy, and what the tests on
-- sources and entries give.
use hoersaal.Base.{
  ◌≡◌, refl, true, false, none, List, [], ◌∷◌, arith, ◌==◌, ==_iff, All, All-imp, Bool-cases, inl,
  inr, if_lem, pos_part, ℕ, zero, suc,
}
use hoersaal.Text.{Text, text_eq, sort_by, All-sort_by}
use hoersaal.Dict.{Dict, insert, insert-All, lookup-insert, lookup-insert_self}
use hoersaal.Domain.Model.{ConferenceId, ParticipantId, SourceId, Source, Subscription}
use hoersaal.MediaFake.Records.{Set, Held, FakeUnit}
use hoersaal.MediaFake.Checks.{has, outside_profile, check_sources, add_sources, check_entries, cut}
use hoersaal.MediaFake.Units.{accepted}

-- A source is filed under its own identifier, is one of an admitted publisher, and is inside the profile.
abbrev pub SourceOk : Held → SourceId × Source → Type 0
SourceOk h (id, s) =
    (id ≡ s.id) × (has s.publisher h.publishers ≡ true) × (outside_profile h.profile s ≡ false)

-- A reception is one of an admitted subscriber, and each of its entries names it.
abbrev pub ReceptionOk : Held → ParticipantId × List Subscription → Type 0
ReceptionOk h (p, es) =
    (has p h.subscribers ≡ true) × All (λ (e : Subscription). e.subscriber ≡ p) es

pub record HeldOk (h : Held) : Type 0 where
  pub sources_ok : All (SourceOk h) h.sources
  pub receptions_ok : All (ReceptionOk h) h.receptions

abbrev pub EntryOk : ConferenceId × Held → Type 0
EntryOk e = HeldOk e.1

pub has-insert : (x y : Text) (set : Set) → has x set ≡ true → has x (insert y tt set) ≡ true
unfolding has
has-insert x y set h = elim (Bool-cases (y == x)) [
  | inl q ↦ rw (lookup-insert y x tt set, q) refl
  | inr q ↦ rw (lookup-insert y x tt set, q) h
]

pub has_self : (x : Text) (set : Set) → has x (insert x tt set) ≡ true
unfolding has
has_self x set = rw (lookup-insert_self x tt set) refl

pub check_sources_lem :
    (h : Held) (p : ParticipantId) (ss : List Source)
    → check_sources h p ss ≡ none
    → All (λ (s : Source). (s.publisher ≡ p) × (outside_profile h.profile s ≡ false)) ss
unfolding check_sources
check_sources_lem h p [] e = tt
check_sources_lem h p (s ∷ ss) e =
    ((ground (arith, ==_iff s.publisher p), ground arith), check_sources_lem h p ss (ground arith))

pub add_sources-All :
    (P : SourceId × Source → Type 0) (ss : List Source) (m : Dict SourceId Source)
    → All (λ (s : Source). P (s.id, s)) ss
    → All P m
    → All P (add_sources ss m)
unfolding add_sources
add_sources-All P [] m a b = b
add_sources-All P (s ∷ ss) m a b =
    add_sources-All P ss (insert s.id s m) a.1 (insert-All P s.id s m a.0 b)

pub check_entries_lem :
    (sources : Dict SourceId Source) (p : ParticipantId) (named : Set) (es : List Subscription)
    → check_entries sources p named es ≡ true
    → All (λ (e : Subscription). e.subscriber ≡ p) es
unfolding check_entries
check_entries_lem sources p named [] h = tt
check_entries_lem sources p named (e ∷ es) h = (
  ground (arith, ==_iff e.subscriber p),
  check_entries_lem sources p (insert e.source tt named) es (ground arith),
)

pub cut-All :
    (P : Subscription → Type 0) (n : ℕ) (es : List Subscription) → All P es → All P (cut n es)
unfolding cut
cut-All P n [] a = tt
cut-All P zero (e ∷ es) a = tt
cut-All P (suc n) (e ∷ es) a = (a.0, cut-All P n es a.1)

pub published :
    (h : Held) (p : ParticipantId) (ss : List Source)
    → HeldOk h
    → check_sources h p ss ≡ none
    → HeldOk
        (record h { publishers = insert p tt h.publishers; sources = add_sources ss h.sources })
published h p ss o e =
    let after : Held = record h {
      publishers = insert p tt h.publishers;
      sources = add_sources ss h.sources;
    } in
    record {
      sources_ok =
          add_sources-All (SourceOk after) ss h.sources
            (All-imp _ (λ (s : Source). SourceOk after (s.id, s)) ss
              (λ s x. (refl, rw x.0 (has_self p h.publishers), x.1)) (check_sources_lem h p ss e))
            (All-imp (SourceOk h) (SourceOk after) h.sources
              (λ x r. (r.0, has-insert x.1.publisher p h.publishers r.1, r.2)) o.sources_ok);
      receptions_ok = o.receptions_ok;
    }

pub accepted-All :
    {W : Type 0} (u : FakeUnit W) (p : ParticipantId) (es : List Subscription)
    → All (λ (e : Subscription). e.subscriber ≡ p) es
    → All (λ (e : Subscription). e.subscriber ≡ p) (accepted u es)
unfolding accepted
accepted-All u p es a =
    let P : Subscription → Type 0 = λ e. e.subscriber ≡ p in
    let all : All P (sort_by (λ e. e.source) es) = All-sort_by (λ e. e.source) P es a in
    if_lem (All P) _ (λ q. cut-All P (pos_part u.accept_at_most) (sort_by (λ e. e.source) es) all)
      (λ q. all)
