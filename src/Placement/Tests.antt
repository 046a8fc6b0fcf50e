-- ===== src/Placement/Tests.antt =====
-- internal/placement/placement.go: three units, with loads in hundredths.
use hoersaal.Base.{
  ◌≡◌, refl, inl, inr, true, false, some, none, List, [], ◌∷◌, err, pos, In, SameMembers,
}
use hoersaal.Text.{codes, is_empty, text_beq, text_lt}
use hoersaal.Dict.{lookup, insert}
use hoersaal.Float.{Hundredths, hundredths, hundredths-IsIeee, not_a_load}
use hoersaal.Placement.Records.{
  Error, UnitRow, Pool, Conference, Arrival, admitting, draining, is_admitting, known, new_unit,
  new_pool, new_conference, new_arrival,
}
use hoersaal.Placement.Naive.{
  place, refuse, no_eligible_unit, reached_unit_ceiling, is_carrying, any_unit, eligible, prefer,
  lowest, place_conference, place_participant,
}
use hoersaal.Placement.Conferences.{ConferenceAnswer, place_conference-ConferenceAnswer}
use hoersaal.Placement.Participants.{
  ParticipantAnswer, place_participant-ParticipantAnswer, place_participant_order,
}

-- Everything that a run of the model computes with.
program : Unit {0}
unfolding is_empty text_beq text_lt lookup insert hundredths not_a_load known is_admitting new_unit
    new_pool new_conference new_arrival is_carrying any_unit eligible prefer lowest place_conference
    place_participant
program = tt

abbrev busy : UnitRow Hundredths
busy = record { id = codes "u1"; effective_load = some 70; reported_at = 0; state = admitting }

abbrev idle : UnitRow Hundredths
idle = record { id = codes "u3"; effective_load = some 20; reported_at = 0; state = admitting }

abbrev twin : UnitRow Hundredths
twin = record { id = codes "u2"; effective_load = some 20; reported_at = 0; state = admitting }

abbrev leaving : UnitRow Hundredths
leaving = record { id = codes "u0"; effective_load = some 10; reported_at = 0; state = draining }

abbrev units : List (UnitRow Hundredths)
units = busy ∷ idle ∷ twin ∷ leaving ∷ []

abbrev pool : Pool Hundredths
pool = record { units = units }

abbrev shuffled : Pool Hundredths
shuffled = record { units = leaving ∷ twin ∷ idle ∷ busy ∷ [] }

abbrev lecture : Conference Hundredths
lecture = record {
  id = codes "c";
  unit_ceiling = pos 1;
  carrying = record { unit = codes "u1"; participants = pos 5; published_bitrate = some 3 } ∷ [];
}

abbrev stuck : Conference Hundredths
stuck = record {
  id = codes "c";
  unit_ceiling = pos 1;
  carrying = record { unit = codes "u0"; participants = pos 5; published_bitrate = some 3 } ∷ [];
}

abbrev listener : Arrival
listener = record { publishes = false; sources = [] }

-- Ties go to the smaller name, the carrying unit comes before a lighter one, and the ceiling before
-- the rest of the pool.
answers :
    (place_conference pool (codes "c") ≡ place (codes "u2"))
    × (place_conference (record { units = leaving ∷ [] }) (codes "c") ≡ refuse no_eligible_unit)
    × (place_participant pool lecture listener ≡ place (codes "u1"))
    × (place_participant pool stuck listener ≡ refuse reached_unit_ceiling)
    × (place_participant pool (record stuck { unit_ceiling = pos 2 }) listener ≡ place (codes "u2"))
unfolding program
answers = (refl, refl, refl, refl, refl)

refusals :
    (new_pool (busy ∷ twin ∷ busy ∷ []) ≡ err Error.duplicate)
    × (new_unit {W = Hundredths} (codes "u") none 0 admitting ≡ err Error.not_a_load_error)
    × (new_conference {W = Hundredths} (codes "c") (pos 0) [] ≡ err Error.no_ceiling)
    × (new_arrival true [] ≡ err Error.not_an_arrival)
unfolding program
refusals = (refl, refl, refl, refl)

same_units : SameMembers units shuffled.units
same_units u = (to, from)
  where
    to : In u units → In u shuffled.units
    to (inl e) = inr (inr (inr (inl e)))
    to (inr (inl e)) = inr (inr (inl e))
    to (inr (inr (inl e))) = inr (inl e)
    to (inr (inr (inr (inl e)))) = inl e
    to (inr (inr (inr (inr n)))) = absurd (n tt)

    from : In u shuffled.units → In u units
    from (inl e) = inr (inr (inr (inl e)))
    from (inr (inl e)) = inr (inr (inl e))
    from (inr (inr (inl e))) = inr (inl e)
    from (inr (inr (inr (inl e)))) = inl e
    from (inr (inr (inr (inr n)))) = absurd (n tt)

place_conference-ConferenceAnswer_example :
    ConferenceAnswer hundredths-IsIeee pool (place_conference pool (codes "c"))
place_conference-ConferenceAnswer_example =
    place_conference-ConferenceAnswer hundredths-IsIeee pool (codes "c")

place_participant-ParticipantAnswer_example :
    ParticipantAnswer hundredths-IsIeee pool stuck (place_participant pool stuck listener)
place_participant-ParticipantAnswer_example =
    place_participant-ParticipantAnswer hundredths-IsIeee pool stuck listener

place_participant_order_example :
    place_participant pool stuck listener ≡ place_participant shuffled stuck listener
place_participant_order_example =
    place_participant_order hundredths-IsIeee pool shuffled stuck listener listener same_units
