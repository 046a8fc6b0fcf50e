-- ===== src/Domain/Tests.antt =====
-- internal/domain/domain.go: a conference of three endpoints and two people, with a camera.
use hoersaal.Base.{
  ◌≡◌, ◌≤◌, refl, arith, ==_iff, ◌↔◌, some, [], ◌∷◌, map, ok, err, pos, negsuc, In, IsDistinct,
}
use hoersaal.Text.{
  Text, codes, IsSorted, is_empty, text_beq, pair_beq, text_lt, sort_by, text_eq, pair_eq,
}
use hoersaal.Dict.{lookup, insert, values}
use hoersaal.Domain.Model.{
  Error, Participant, Source, Subscription, audio, video, outside, known, new_participant,
  new_source, new_subscription,
}
use hoersaal.Domain.Conference.{
  Conference, new_conference, admit, publish, subscribe, participant_count, identity_count,
  reception,
}
use hoersaal.Domain.Integrity.{
  IsValid, Reachable, fresh, next, admits, publishes, subscribes, Reachable-IsValid,
}
use hoersaal.Domain.Operations.{
  Admitted, Published, Subscribed, admit_iff, publish_iff, subscribe_iff,
}
use hoersaal.Domain.Counts.{identity_count-le}
use hoersaal.Domain.Receptions.{reception-IsSorted_iff, reception_order}

-- Everything that a run of the model computes with.
program : Unit {0}
unfolding is_empty text_beq pair_beq text_lt lookup insert outside known sort_by new_conference
    admit publish subscribe reception participant_count identity_count new_participant new_source
    new_subscription
program = tt

abbrev phone : Participant
phone = record {
  id = codes "p1";
  identity = codes "ada";
  conference = codes "c";
  role = codes "host";
}

abbrev laptop : Participant
laptop = record {
  id = codes "p2";
  identity = codes "ada";
  conference = codes "c";
  role = codes "host";
}

abbrev guest : Participant
guest = record {
  id = codes "p3";
  identity = codes "bob";
  conference = codes "c";
  role = codes "guest";
}

abbrev camera : Source
camera = record { id = codes "s2"; publisher = codes "p1"; kind = video; layers = pos 3 }

abbrev voice : Source
voice = record { id = codes "s1"; publisher = codes "p1"; kind = audio; layers = pos 1 }

abbrev watch : Subscription
watch = record { subscriber = codes "p3"; source = codes "s2"; layer = pos 2 }

abbrev listen : Subscription
listen = record { subscriber = codes "p3"; source = codes "s1"; layer = pos 0 }

abbrev room0 : Conference
room0 = record { id = codes "c"; participants = []; sources = []; subscriptions = [] }

abbrev room1 : Conference
room1 = record room0 { participants = (codes "p1", phone) ∷ [] }

abbrev room2 : Conference
room2 = record room0 { participants = (codes "p1", phone) ∷ (codes "p2", laptop) ∷ [] }

abbrev room3 : Conference
room3 = record room0 {
  participants = (codes "p1", phone) ∷ (codes "p2", laptop) ∷ (codes "p3", guest) ∷ [];
}

abbrev room4 : Conference
room4 = record room3 { sources = (codes "s2", camera) ∷ [] }

abbrev room5 : Conference
room5 = record room4 { sources = (codes "s2", camera) ∷ (codes "s1", voice) ∷ [] }

abbrev room6 : Conference
room6 = record room5 { subscriptions = ((codes "p3", codes "s2"), watch) ∷ [] }

abbrev room7 : Conference
room7 = record room5 {
  subscriptions = ((codes "p3", codes "s2"), watch) ∷ ((codes "p3", codes "s1"), listen) ∷ [];
}

abbrev room7' : Conference
room7' = record room5 {
  subscriptions = ((codes "p3", codes "s1"), listen) ∷ ((codes "p3", codes "s2"), watch) ∷ [];
}

room5-Reachable : Reachable (codes "c") room5
unfolding program
room5-Reachable =
    next {c = room4}
      (next {c = room3}
        (next {c = room2}
          (next {c = room1} (next {c = room0} (fresh refl) (admits phone refl))
            (admits laptop refl))
          (admits guest refl))
        (publishes camera refl))
      (publishes voice refl)

room7-Reachable : Reachable (codes "c") room7
unfolding program
room7-Reachable =
    next {c = room6} (next {c = room5} room5-Reachable (subscribes watch refl))
      (subscribes listen refl)

refusals :
    (admit room3 guest ≡ err Error.duplicate)
    × (publish room3 (record camera { publisher = codes "p9" }) ≡ err Error.unknown)
    × (subscribe room4 (record watch { subscriber = codes "p1" }) ≡ err Error.own_source)
    × (subscribe room4 (record watch { layer = pos 3 }) ≡ err Error.no_layer)
    × (subscribe room4 (record watch { layer = negsuc 0 }) ≡ err Error.no_layer)
    × (new_source (codes "s9") (codes "p1") (codes "text") (pos 1) ≡ err Error.not_a_kind)
unfolding program
refusals = (refl, refl, refl, refl, refl, refl)

counts : (participant_count room7 ≡ 3) × (identity_count room7 ≡ 2)
unfolding program
counts = (refl, refl)

in_order : reception room7 (codes "p3") ≡ listen ∷ watch ∷ []
unfolding program
in_order = refl

Reachable-IsValid_example : IsValid room7
Reachable-IsValid_example = Reachable-IsValid room7-Reachable

admit_iff_example : (admit room2 guest ≡ ok room3) ↔ Admitted room2 guest room3
admit_iff_example = admit_iff room2 guest room3

publish_iff_example : (publish room3 camera ≡ ok room4) ↔ Published room3 camera room4
publish_iff_example = publish_iff room3 camera room4

subscribe_iff_example : (subscribe room5 watch ≡ ok room6) ↔ Subscribed room5 watch room6
subscribe_iff_example = subscribe_iff room5 watch room6

identity_count-le_example :
    (identity_count room7 ≤ participant_count room7)
    × ((identity_count room7 ≡ participant_count room7)
        ↔ IsDistinct (map (λ p. p.identity) (values room7.participants)))
identity_count-le_example = identity_count-le room7

reception-IsSorted_iff_example :
    IsSorted (λ s. s.source) (reception room7 (codes "p3"))
    × ((s : Subscription)
        → In s (reception room7 (codes "p3"))
          ↔ (lookup (codes "p3", s.source) room7.subscriptions ≡ some s))
reception-IsSorted_iff_example = reception-IsSorted_iff room7 (codes "p3") Reachable-IsValid_example

room7'-Reachable : Reachable (codes "c") room7'
unfolding program
room7'-Reachable =
    next {c = record room5 { subscriptions = ((codes "p3", codes "s1"), listen) ∷ [] }}
      (next {c = room5} room5-Reachable (subscribes listen refl)) (subscribes watch refl)

same_subscriptions :
    (k : Text × Text) → lookup k room7.subscriptions ≡ lookup k room7'.subscriptions
unfolding lookup
same_subscriptions k =
    ground (arith, ==_iff (codes "p3", codes "s1") k, ==_iff (codes "p3", codes "s2") k)

reception_order_example : reception room7 (codes "p3") ≡ reception room7' (codes "p3")
reception_order_example =
    reception_order room7 room7' (codes "p3") Reachable-IsValid_example
      (Reachable-IsValid room7'-Reachable) same_subscriptions
