-- ===== src/Presence/Assembly.antt =====
-- internal/presence/presence.go: a roll does not depend on the order in which its entries are
-- assembled.
use mathlib.Core.Path.{ap₂}
use hoersaal.Base.{
  ◌≡◌, ◌≢◌, refl, sym, ap, ◌∙◌, subst, some, List, [], ◌∷◌, map, ok, arith, In, In-map, In-map_inv,
  IsDistinct, SameMembers, All, All-imp, All-In, All-of_In, length,
}
use hoersaal.Text.{Text, text_eq, sort_by_unique, length-sort_by, IsSorted-unique}
use hoersaal.Dict.{lookup}
use hoersaal.Domain.Model.{ParticipantId}
use hoersaal.Presence.Records.{Entry, Roll, Gathered, new_roll}
use hoersaal.Presence.Gathering.{ids, fill, fill_out}
use hoersaal.Presence.Rolls.{Accepts, new_roll_lem}

map_same : (xs : List Text) → map (λ s. s) xs ≡ xs
map_same [] = refl
map_same (x ∷ xs) = ap (λ ys. x ∷ ys) (map_same xs)

-- Two lists without repetition and with the same members are equally long.
length_same :
    (xs ys : List Text) → IsDistinct xs → IsDistinct ys → SameMembers xs ys → length xs ≡ length ys
length_same xs ys d e same =
    sym (length-sort_by (λ s. s) xs)
    ∙ (ap length (
          sort_by_unique (λ s. s) xs ys (subst IsDistinct (sym (map_same xs)) d)
            (subst IsDistinct (sym (map_same ys)) e) same)
        ∙ length-sort_by (λ s. s) ys)

module _ (entries : List Entry) (distinct : IsDistinct (ids entries)) where
  same_entry : (c d : Entry) → In c entries → In d entries → c.id ≡ d.id → c ≡ d
  same_entry c d i j e =
      let empty_maps : Gathered = record { held = []; identities = [] } in
      let p = fill_out empty_maps entries c distinct i in
      let q = fill_out empty_maps entries d distinct j in
      let r = subst (λ k. lookup k (fill empty_maps entries).held ≡ some c) e p in ground arith

  same_list :
      (xs ys : List Entry)
      → All (λ e. In e entries) xs
      → All (λ e. In e entries) ys
      → ids xs ≡ ids ys
      → xs ≡ ys
  same_list [] [] a b h = refl
  same_list [] (y ∷ ys) a b h = absurd (let x : ids [] ≡ ids (y ∷ ys) = h in cc)
  same_list (x ∷ xs) [] a b h = absurd (let y : ids (x ∷ xs) ≡ ids [] = h in cc)
  same_list (x ∷ xs) (y ∷ ys) a b h =
      let heads : x.id ≡ y.id = cc in
      let tails : ids xs ≡ ids ys = cc in
      ap₂ (λ e es. e ∷ es) (same_entry x y a.0 b.0 heads) (same_list xs ys a.1 b.1 tails)

map_members :
    (key : Entry → Text) (es fs : List Entry)
    → SameMembers es fs
    → (k : Text) → In k (map key es)
    → In k (map key fs)
map_members key es fs same k i =
    let (e, j, q) = In-map_inv key es k i in
    subst (λ x. In x (map key fs)) (sym q) (In-map key fs e ((same e).0 j))

same_roll :
    (q r : Roll)
    → q.entries ≡ r.entries
    → q.attending ≡ r.attending
    → q.attending_total ≡ r.attending_total
    → q.identities ≡ r.identities
    → q ≡ r
same_roll q r a b c d =
    λ i. record { entries = a i; attending = b i; attending_total = c i; identities = d i }

-- If NewRoll accepts a list of entries, it makes the same roll of any list without repeated
-- participants that has the same members, in whatever order.
pub new_roll_order :
    (es fs : List Entry) (attending : List ParticipantId) (r : Roll)
    → SameMembers es fs
    → IsDistinct (ids fs)
    → new_roll es attending ≡ ok r
    → new_roll fs attending ≡ ok r
new_roll_order es fs attending r same distinct made =
    let (
      (honest, once, known),
      (sorted, members, named, found, total, (people, apart, who, counted)),
    ) =
      (new_roll_lem es attending).1 r made in
    let back : SameMembers fs es = λ e. ((same e).1, (same e).0) in
    let accepts : Accepts fs attending = (
      (
        All-of_In _ (ids fs) (λ k i.
            All-In (λ u. u ≢ []) (ids es) k honest.0 (map_members (λ e. e.id) fs es back k i)),
        distinct,
      ),
      once,
      λ id i. map_members (λ e. e.id) es fs same id (known id i),
    ) in
    let (q, again) = (new_roll_lem fs attending).0 accepts in
    let (sorted', members', named', found', total', (people', apart', who', counted')) =
      ((new_roll_lem fs attending).1 q again).1 in
    let entries_same : q.entries ≡ r.entries =
      IsSorted-unique (λ e. e.id) q.entries r.entries sorted' sorted
        λ e. (
          λ i. (members e).1 ((same e).1 ((members' e).0 i)),
          λ i. (members' e).1 ((same e).0 ((members e).0 i)),
        ) in
    let attending_same : q.attending ≡ r.attending =
      same_list es honest.1 q.attending r.attending
        (All-imp _ _ q.attending (λ e i. (same e).1 i) found') found (named' ∙ sym named) in
    let people_same : length people' ≡ length people = length_same people' people apart' apart λ k.
      (
        λ i. (who k).1 (map_members (λ e. e.identity) fs es back k ((who' k).0 i)),
        λ i. (who' k).1 (map_members (λ e. e.identity) es fs same k ((who k).0 i)),
      ) in
    again
    ∙ ap ok (
        same_roll q r entries_same attending_same (total' ∙ sym total)
          (counted' ∙ (people_same ∙ sym counted)))
