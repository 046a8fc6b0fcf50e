-- ===== src/Presence/Rolls.antt =====
-- internal/presence/presence.go: what `NewRoll` refuses and what a roll says of its arguments.
use mathlib.Core.Path.{ap₂}
use hoersaal.Base.{
  ℕ, zero, suc, ◌≡◌, refl, sym, ap, ◌↔◌, subst, ◌∙◌, inl, inr, some, List, [], ◌∷◌, map, Result, ok,
  arith, In, In-map, In-map_inv, IsDistinct, SameMembers, All, length, >>=-eq-ok,
}
use hoersaal.Text.{text_eq, IsSorted, sort_by, sort_by-IsSorted, In-sort_by, sort_by-In}
use hoersaal.Dict.{Dict, keys, lookup}
use hoersaal.Domain.Model.{ParticipantId, IdentityId}
use hoersaal.Placement.Honesty.{AreHonest}
use hoersaal.Presence.Records.{
  Error, Entry, Roll, Gathered, gather, choose, new_roll, max_attending,
}
use hoersaal.Presence.Gathering.{
  ids, fill, gather_sound, gather_complete, fill_out, fill_into, fill-IsDistinct, fill_people,
}
use hoersaal.Presence.Choosing.{first, pick, Known, choose_sound, choose_complete}

-- The entries are named, no participant is given twice, and those attended to are distinct
-- participants of the room.
abbrev pub Accepts : List Entry → List ParticipantId → Type 0
Accepts entries attending =
    AreHonest (ids entries)
    × IsDistinct attending
    × ((id : ParticipantId) → In id attending → In id (ids entries))

-- What a roll says of its arguments: the entries in their order, the first of those attended to
-- and how many there are, and the number of people.
abbrev pub Describes : List Entry → List ParticipantId → Roll → Type 0
Describes entries attending r =
    IsSorted (λ e. e.id) r.entries
    × SameMembers r.entries entries
    × (ids r.attending ≡ first max_attending attending)
    × All (λ e. In e entries) r.attending
    × (r.attending_total ≡ length attending)
    × ((people : List IdentityId) × IsDistinct people
        × ((who : IdentityId) → In who people ↔ In who (map (λ e. e.identity) entries))
        × (r.identities ≡ length people))

abbrev start : Gathered
start = record { held = []; identities = [] }

module _ (entries : List Entry) (honest : AreHonest (ids entries)) where
  abbrev held : Dict ParticipantId Entry
  held = (fill start entries).held

  In-held : (id : ParticipantId) (e : Entry) → lookup id held ≡ some e → In e entries × (e.id ≡ id)
  unfolding lookup
  In-held id e h = elim (fill_into start entries id e h) [ inl p ↦ p | inr q ↦ cc q ]

  Known-held :
      (attending : List ParticipantId)
      → ((id : ParticipantId) → In id attending → In id (ids entries))
      → Known held attending
  Known-held attending h id i =
      let (e, j, q) = In-map_inv (λ (e : Entry). e.id) entries id (h id i) in
      (e, rw q (fill_out start entries e honest.1 j))

  picked :
      (n : ℕ) (more : List ParticipantId)
      → Known held more
      → (ids (pick held n more) ≡ first n more) × All (λ e. In e entries) (pick held n more)
  unfolding pick
  picked n [] k = (refl, tt)
  picked zero (id ∷ more) k = (refl, tt)
  picked (suc n) (id ∷ more) k =
      let (e, q) = k id (inl refl) in
      let (i, r) = In-held id e q in
      let rest = picked n more (λ j l. k j (inr l)) in
      rw (q, pick) (ap₂ (λ x xs. x ∷ xs) r rest.0, (i, rest.1))

  describes :
      (attending : List ParticipantId) (front : List Entry)
      → Known held attending
      → front ≡ pick held max_attending attending
      → Describes entries attending (record {
        entries = sort_by (λ e. e.id) entries;
        attending = front;
        attending_total = length attending;
        identities = length (fill start entries).identities;
      })
  describes attending front k h =
      let (named, found) = picked max_attending attending k in
      (
        sort_by-IsSorted (λ e. e.id) entries honest.1,
        λ e. (In-sort_by (λ c. c.id) e entries, sort_by-In (λ c. c.id) e entries),
        ap ids h ∙ named,
        subst (All (λ e. In e entries)) (sym h) found,
        refl,
        (
          keys (fill start entries).identities,
          fill-IsDistinct start entries tt,
          λ who. (
            λ i. elim ((fill_people start entries who).0 i) [ inl j ↦ j | inr j ↦ absurd (j tt) ],
            λ i. (fill_people start entries who).1 (inl i),
          ),
          sym (length-map (fill start entries).identities),
        ),
      )
    where
      length-map : (m : Dict IdentityId (Unit {0})) → length (keys m) ≡ length m
      length-map [] = refl
      length-map (e ∷ m) = ap suc (length-map m)

ok_inj {ℓ κ} : {E : Type ℓ} {A : Type κ} {a b : A} → ◌≡◌ {A = Result E A} (ok a) (ok b) → a ≡ b
ok_inj h = cc

new_roll_sound :
    (entries : List Entry) (attending : List ParticipantId) (r : Roll)
    → new_roll entries attending ≡ ok r
    → Accepts entries attending × Describes entries attending r
unfolding new_roll
new_roll_sound entries attending r h =
    let (g, gathered, rest) = >>=-eq-ok (gather start entries) _ h in
    let (front, chosen, made) = >>=-eq-ok (choose g.held [] [] attending) _ rest in
    let (honest, new, same) = gather_sound start g entries gathered in
    let (distinct, unnamed, known, picks) =
      choose_sound (held entries honest) [] [] front max_attending attending (omega arith)
        (subst (λ (x : Gathered). choose x.held [] [] attending ≡ ok front) same chosen) in
    let e = ok_inj (
      subst
        (λ (x : Gathered).
          ◌≡◌ {A = Result Error Roll}
            (ok (record {
              entries = sort_by (λ c. c.id) entries;
              attending = front;
              attending_total = length attending;
              identities = length x.identities;
            }))
            (ok r))
        same made) in
    (
      (
        honest,
        distinct,
        λ id i.
            let (c, q) = known id i in
            let (j, p) = In-held entries honest id c q in
            subst (λ k. In k (ids entries)) p (In-map (λ (x : Entry). x.id) entries c j),
      ),
      subst (Describes entries attending) e (describes entries honest attending front known picks),
    )

new_roll_total :
    (entries : List Entry) (attending : List ParticipantId)
    → Accepts entries attending
    → (r : Roll) × (new_roll entries attending ≡ ok r)
unfolding new_roll lookup
new_roll_total entries attending (honest, distinct, known) =
    let gathered = gather_complete start entries honest (λ id i. refl) in
    let (front, chosen) =
      choose_complete (held entries honest) [] [] attending distinct (λ id i. refl)
        (Known-held entries honest attending known) in
    (
      record {
        entries = sort_by (λ c. c.id) entries;
        attending = front;
        attending_total = length attending;
        identities = length (fill start entries).identities;
      },
      rw (gathered, chosen) refl,
    )

-- NewRoll succeeds where the entries are named, no participant is given twice and those attended to
-- are distinct participants of the room, and only there; the roll then holds the entries in
-- strictly rising order of identifier, the first eight of those attended to and how many they are,
-- and the number of distinct identities.
pub new_roll_lem :
    (entries : List Entry) (attending : List ParticipantId)
    → (Accepts entries attending → (r : Roll) × (new_roll entries attending ≡ ok r))
      × ((r : Roll)
          → new_roll entries attending ≡ ok r
          → Accepts entries attending × Describes entries attending r)
new_roll_lem entries attending =
    (new_roll_total entries attending, new_roll_sound entries attending)
