-- ===== src/MediaFake/Tests.antt =====
-- internal/mediafake/mediafake.go: a unit that carries a lecture with one lecturer and one listener, with
-- loads as plain numbers.
use hoersaal.Base.{◌≡◌, refl, ℕ, List, [], ◌∷◌, ok, err, pos, true, SameMembers}
use hoersaal.Text.{codes, is_empty, text_beq, text_lt, sort_by, In-sort_by, sort_by-In}
use hoersaal.Dict.{lookup, insert, delete}
use hoersaal.Domain.Model.{Source, Subscription, video, outside}
use hoersaal.MediaPort
use hoersaal.MediaPort.{Profile}
use hoersaal.MediaFake.Records.{new_held, FakeUnit, fresh, add, put_all, restart, die, conferences}
use hoersaal.MediaFake.Checks.{
  has, same_profile, outside_profile, check_sources, add_sources, by_id, check_entries, cut,
  after_prefix, reference_name,
}
use hoersaal.MediaFake.Units.{
  reference, reachable_state, conference_for, unserved, open_served, open_conference, transport_for,
  admit_publisher_at, admit_publisher, admit_subscriber, over_links, forwardable, accepted,
  set_reception, link_conference, unlink, close_conference, report_capacity,
}
use hoersaal.MediaFake.Books.{IsBooked}
use hoersaal.Base.{◌↔◌}
use hoersaal.MediaFake.Receptions.{IsTaken, set_reception_iff}
use hoersaal.MediaFake.Histories.{
  made, next, opens, admits_publisher, admits_subscriber, sets_reception, Reached-IsBooked,
}

-- Everything that a run of the model computes with.
program : Unit {0}
unfolding is_empty text_beq text_lt sort_by lookup insert delete outside new_held fresh add put_all
    restart die conferences has same_profile outside_profile check_sources add_sources by_id
    check_entries cut after_prefix reference_name reference reachable_state conference_for unserved
    open_served open_conference transport_for admit_publisher_at admit_publisher admit_subscriber
    over_links forwardable accepted set_reception link_conference unlink close_conference
    report_capacity
program = tt

abbrev plain : Profile
plain = record { codecs = codes "opus"; layers = pos 3 }

abbrev camera : Source
camera = record { id = codes "cam"; publisher = codes "ada"; kind = video; layers = pos 3 }

abbrev wants : Subscription
wants = record { subscriber = codes "bob"; source = codes "cam"; layer = pos 2 }

abbrev unit_a : FakeUnit ℕ
unit_a = fresh 0 (codes "a")

abbrev carrying : FakeUnit ℕ
carrying =
    (admit_subscriber (codes "c") (codes "bob")
      (admit_publisher (codes "c") (codes "ada") (camera ∷ [])
        (open_conference (codes "c") plain unit_a).1).1).1

abbrev by_name : List Source → List Source
by_name = sort_by (λ s. s.id)

by_name-SameMembers : (xs : List Source) → SameMembers (by_name xs) xs
by_name-SameMembers xs s =
    (In-sort_by (λ (x : Source). x.id) s xs, sort_by-In (λ (x : Source). x.id) s xs)

abbrev served : FakeUnit ℕ
served = (set_reception by_name [] (codes "c") (codes "bob") (wants ∷ []) carrying).1

runs :
    ((set_reception by_name [] (codes "c") (codes "bob") (wants ∷ []) carrying).0 ≡ ok (wants ∷ []))
    × ((set_reception by_name [] (codes "c") (codes "ada") (wants ∷ []) carrying).0
        ≡ err MediaPort.unknown)
    × ((set_reception by_name [] (codes "c") (codes "bob") (wants ∷ wants ∷ []) carrying).0
        ≡ err MediaPort.invalid)
    × ((admit_subscriber (codes "c") (codes "bob") served).0 ≡ err MediaPort.conflict)
    × ((admit_subscriber (codes "c") (codes "eve") (restart served)).0 ≡ err MediaPort.lost)
    × ((link_conference (λ n. codes "1") [] (codes "c") (reference unit_a) served).0
        ≡ err MediaPort.invalid)
    × (report_capacity (die served) ≡ err MediaPort.unavailable)
    × ((add 0 (codes "a") true []) ≡ ok ((codes "a", unit_a) ∷ []))
unfolding program
runs = (refl, refl, refl, refl, refl, refl, refl, refl)

Reached-IsBooked_example : IsBooked served
Reached-IsBooked_example = Reached-IsBooked (
    next
      (next
        (next (next (made 0 (codes "a")) (opens (codes "c") plain))
          (admits_publisher (codes "c") (codes "ada") (camera ∷ [])))
        (admits_subscriber (codes "c") (codes "bob")))
      (sets_reception by_name [] (codes "c") (codes "bob") (wants ∷ [])))

set_reception_iff_example :
    ((set_reception by_name [] (codes "c") (codes "bob") (wants ∷ []) carrying).0 ≡ ok (wants ∷ []))
    ↔ IsTaken by_name [] (codes "c") (codes "bob") (wants ∷ []) carrying (wants ∷ [])
set_reception_iff_example =
    set_reception_iff by_name [] (codes "c") (codes "bob") (wants ∷ []) carrying (wants ∷ [])
      by_name-SameMembers
