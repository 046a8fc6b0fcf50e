-- ===== src/Presence/Choosing.antt =====
-- internal/presence/presence.go: the second loop of `NewRoll`, which keeps the first of the participants
-- that the room attends to.
use mathlib.Core.List.{append-nil, append_assoc}
use hoersaal.Base.{
  ℕ, zero, suc, true, false, ◌+◌, ◌≡◌, refl, ap, ◌∙◌, inl, inr, none, some, List, [], ◌∷◌, ◌++◌, ok,
  arith, ◌==◌, ==_iff, Bool-cases, Option-cases, In, IsDistinct, length, ltb, if◌then◌else◌,
}
use hoersaal.Text.{text_eq}
use hoersaal.Dict.{Dict, lookup, insert, lookup-insert}
use hoersaal.Domain.Model.{ParticipantId}
use hoersaal.Presence.Records.{Entry, choose, max_attending}

-- The first `n` of a list.
abbrev pub first {ℓ} : {A : Type ℓ} → ℕ → List A → List A
first n [] = []
first zero (a ∷ xs) = []
first (suc n) (a ∷ xs) = a ∷ first n xs

-- The entries found under the first `n` of these identifiers.
unfoldable pub pick : Dict ParticipantId Entry → ℕ → List ParticipantId → List Entry
pick held n [] = []
pick held zero (id ∷ more) = []
pick held (suc n) (id ∷ more) = elim (lookup id held) [
  | none ↦ pick held n more
  | some e ↦ e ∷ pick held n more
]

abbrev pub Known : Dict ParticipantId Entry → List ParticipantId → Type 0
Known held more = (id : ParticipantId) → In id more → (e : Entry) × (lookup id held ≡ some e)

abbrev pub Unnamed : Dict ParticipantId (Unit {0}) → List ParticipantId → Type 0
Unnamed named more = (id : ParticipantId) → In id more → lookup id named ≡ none

length-snoc {ℓ} : {A : Type ℓ} (xs : List A) (a : A) → length (xs ++ (a ∷ [])) ≡ suc (length xs)
length-snoc [] a = refl
length-snoc (x ∷ xs) a = ap suc (length-snoc xs a)

-- What is taken next, and what is picked with it.
grow :
    (held : Dict ParticipantId Entry) (front : List Entry) (e : Entry) (n : ℕ) (id : ParticipantId)
    (more : List ParticipantId)
    → length front + n ≡ max_attending
    → lookup id held ≡ some e
    → (m : ℕ) × (length (if ltb (length front) max_attending then front ++ (e ∷ []) else front) + m
        ≡ max_attending)
      × ((if ltb (length front) max_attending then front ++ (e ∷ []) else front) ++ pick held m more
          ≡ front ++ pick held n (id ∷ more))
unfolding pick
grow held front e zero id more h q =
    let full : ltb (length front) max_attending ≡ false = ground arith in
    (zero, rw full h, rw full (ap (λ es. front ++ es) (none_picked more)))
  where
    none_picked : (more : List ParticipantId) → pick held zero more ≡ []
    none_picked [] = refl
    none_picked (id ∷ more) = refl
grow held front e (suc n) id more h q =
    let room : ltb (length front) max_attending ≡ true = ground arith in
    (
      n,
      rw (room, length-snoc front e) (omega arith),
      rw (room, q, pick) (append_assoc front (e ∷ []) (pick held n more)),
    )

pub choose_sound :
    (held : Dict ParticipantId Entry) (named : Dict ParticipantId (Unit {0}))
    (front out : List Entry) (n : ℕ) (more : List ParticipantId)
    → length front + n ≡ max_attending
    → choose held named front more ≡ ok out
    → IsDistinct more × Unnamed named more × Known held more × (out ≡ front ++ pick held n more)
unfolding choose pick
choose_sound held named front out n [] h k =
    (tt, λ id i. absurd (i tt), λ id i. absurd (i tt), ground (arith, append-nil front))
choose_sound held named front out n (id ∷ more) h k = elim (Option-cases (lookup id held)) [
  | inl q ↦ absurd (ground arith)
  | inr (e, q) ↦
      let (m, fits, same) = grow held front e n id more h q in
      let new : lookup id named ≡ none = ground arith in
      let (distinct, unnamed, known, made) =
        choose_sound held (insert id tt named)
          (if ltb (length front) max_attending then front ++ (e ∷ []) else front) out m more fits
          (ground arith) in
      (
        (
          λ i.
              let r : lookup id (insert id tt named) ≡ none = unnamed id i in
              ground (arith, lookup-insert id id tt named, ==_iff id id),
          distinct,
        ),
        λ j i. elim i [
          | inl r ↦ rw r new
          | inr l ↦
              let r : lookup j (insert id tt named) ≡ none = unnamed j l in
              ground (arith, lookup-insert id j tt named)
        ],
        λ j i. elim i [ inl r ↦ (e, rw r q) | inr l ↦ known j l ],
        made ∙ same,
      )
]

pub choose_complete :
    (held : Dict ParticipantId Entry) (named : Dict ParticipantId (Unit {0})) (front : List Entry)
    (more : List ParticipantId)
    → IsDistinct more
    → Unnamed named more
    → Known held more
    → (out : List Entry) × (choose held named front more ≡ ok out)
unfolding choose
choose_complete held named front [] d u k = (front, refl)
choose_complete held named front (id ∷ more) d u k =
    let (e, q) = k id (inl refl) in
    let (out, made) =
      choose_complete held (insert id tt named)
        (if ltb (length front) max_attending then front ++ (e ∷ []) else front) more d.1
        (λ j i. rw (lookup-insert id j tt named) (elim (Bool-cases (id == j)) [
          | inl r ↦ absurd (d.0 (rw ((==_iff id j).0 r) i))
          | inr r ↦ rw r (u j (inr i))
        ]))
        (λ j i. k j (inr i)) in
    let new : lookup id named ≡ none = u id (inl refl) in (out, rw (q, new, choose) made)
