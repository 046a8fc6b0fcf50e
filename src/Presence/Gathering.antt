-- ===== src/Presence/Gathering.antt =====
-- internal/presence/presence.go: the first loop of `NewRoll`, which refuses an entry without a name
-- and a participant given twice, and counts the people.
use hoersaal.Base.{
  ◌≡◌, refl, ◌↔◌, ◌⊎◌, inl, inr, none, some, List, [], ◌∷◌, map, ok, arith, ◌==◌, ==_iff, ==_refl,
  Bool-cases, In, IsDistinct,
}
use hoersaal.Text.{is_empty-false, is_empty_named, text_eq}
use hoersaal.Dict.{
  keys, lookup, insert, lookup-insert, insert-IsDistinct, In-keys-insert, insert-In-keys,
}
use hoersaal.Domain.Model.{ParticipantId, IdentityId}
use hoersaal.Placement.Honesty.{AreHonest}
use hoersaal.Presence.Records.{Entry, Gathered, gather}

abbrev pub ids : List Entry → List ParticipantId
ids = map λ e. e.id

abbrev pub add : Gathered → Entry → Gathered
add g e = record { held = insert e.id e g.held; identities = insert e.identity tt g.identities }

-- What the loop fills its maps with, where it refuses nothing.
unfoldable pub fill : Gathered → List Entry → Gathered
fill g [] = g
fill g (e ∷ es) = fill (add g e) es

-- None of these is held so far.
abbrev pub AreNew : Gathered → List Entry → Type 0
AreNew g es = (id : ParticipantId) → In id (ids es) → lookup id g.held ≡ none

pub gather_sound :
    (g out : Gathered) (es : List Entry)
    → gather g es ≡ ok out
    → AreHonest (ids es) × AreNew g es × (out ≡ fill g es)
unfolding gather fill
gather_sound g out [] h = ((tt, tt), λ id i. absurd (i tt), ground arith)
gather_sound g out (e ∷ es) h =
    let (honest, new, same) = gather_sound (add g e) out es (ground arith) in
    let fresh : lookup e.id g.held ≡ none = ground arith in
    (
      (
        (is_empty-false e.id (ground arith), honest.0),
        (
          λ i.
              let q : lookup e.id (insert e.id e g.held) ≡ none = new e.id i in
              ground (arith, lookup-insert e.id e.id e g.held, ==_iff e.id e.id),
          honest.1,
        ),
      ),
      λ id i. elim i [
        | inl q ↦ rw q fresh
        | inr j ↦
            let q : lookup id (insert e.id e g.held) ≡ none = new id j in
            ground (arith, lookup-insert e.id id e g.held)
      ],
      same,
    )

AreNew-add :
    (g : Gathered) (e : Entry) (es : List Entry)
    → IsDistinct (ids (e ∷ es))
    → AreNew g (e ∷ es)
    → AreNew (add g e) es
AreNew-add g e es d new id i = rw (lookup-insert e.id id e g.held) (elim (Bool-cases (e.id == id)) [
  | inl q ↦ absurd (d.0 (rw ((==_iff e.id id).0 q) i))
  | inr q ↦ rw q (new id (inr i))
])

pub gather_complete :
    (g : Gathered) (es : List Entry)
    → AreHonest (ids es)
    → AreNew g es
    → gather g es ≡ ok (fill g es)
unfolding gather fill
gather_complete g [] h new = refl
gather_complete g (e ∷ es) h new =
    rw (is_empty_named e.id h.0.0, new e.id (inl refl))
      (gather_complete (add g e) es (h.0.1, h.1.1) (AreNew-add g e es h.1 new))

fill_kept :
    (g : Gathered) (es : List Entry) (id : ParticipantId) (e : Entry)
    → lookup id g.held ≡ some e
    → (In id (ids es) → ⊥)
    → lookup id (fill g es).held ≡ some e
unfolding fill
fill_kept g [] id e h n = h
fill_kept g (d ∷ es) id e h n =
    fill_kept (add g d) es id e
      (rw (lookup-insert d.id id d g.held) (elim (Bool-cases (d.id == id)) [
        | inl q ↦ absurd (n (inl (ground (arith, ==_iff d.id id))))
        | inr q ↦ rw q h
      ]))
      λ i. n (inr i)

-- Each entry can be looked up, and what can be looked up is an entry or was held before.
pub fill_out :
    (g : Gathered) (es : List Entry) (e : Entry)
    → IsDistinct (ids es)
    → In e es
    → lookup e.id (fill g es).held ≡ some e
unfolding fill
fill_out g [] e d i = absurd (i tt)
fill_out g (c ∷ es) e d (inl q) =
    rw q
      (fill_kept (add g c) es c.id c (rw (lookup-insert c.id c.id c g.held, ==_refl c.id) refl) d.0)
fill_out g (c ∷ es) e d (inr i) = fill_out (add g c) es e d.1 i

pub fill_into :
    (g : Gathered) (es : List Entry) (id : ParticipantId) (e : Entry)
    → lookup id (fill g es).held ≡ some e
    → (In e es × (e.id ≡ id)) ⊎ (lookup id g.held ≡ some e)
unfolding fill
fill_into g [] id e h = inr h
fill_into g (c ∷ es) id e h = elim (fill_into (add g c) es id e h) [
  | inl (i, q) ↦ inl (inr i, q)
  | inr q ↦ elim (Bool-cases (c.id == id)) [
    | inl r ↦
        let same : e ≡ c = ground (arith, lookup-insert c.id id c g.held) in
        inl (inl same, rw same ((==_iff c.id id).0 r))
    | inr r ↦ inr (ground (arith, lookup-insert c.id id c g.held))
  ]
]

-- Every identity is counted once.
pub fill-IsDistinct :
    (g : Gathered) (es : List Entry)
    → IsDistinct (keys g.identities)
    → IsDistinct (keys (fill g es).identities)
unfolding fill
fill-IsDistinct g [] d = d
fill-IsDistinct g (e ∷ es) d =
    fill-IsDistinct (add g e) es (insert-IsDistinct e.identity tt g.identities d)

pub fill_people :
    (g : Gathered) (es : List Entry) (who : IdentityId)
    → In who (keys (fill g es).identities)
      ↔ (In who (map (λ e. e.identity) es) ⊎ In who (keys g.identities))
unfolding fill
fill_people g [] who = (λ i. inr i, λ i. elim i [ inl j ↦ absurd (j tt) | inr j ↦ j ])
fill_people g (e ∷ es) who =
    let rest = fill_people (add g e) es who in
    (
      λ i. elim (rest.0 i) [
        | inl j ↦ inl (inr j)
        | inr j ↦ elim (In-keys-insert e.identity who tt g.identities j) [
          | inl q ↦ inl (inl q)
          | inr q ↦ inr q
        ]
      ],
      λ i. rest.1 (elim i [
        | inl (inl q) ↦ inr (insert-In-keys e.identity who tt g.identities (inl q))
        | inl (inr j) ↦ inl j
        | inr j ↦ inr (insert-In-keys e.identity who tt g.identities (inr j))
      ]),
    )
