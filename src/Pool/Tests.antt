-- ===== src/Pool/Tests.antt =====
-- internal/pool/pool.go: the pool of one unit as it joins, reports and goes stale.
use hoersaal.Base.{
  ◌≡◌, refl, ℕ, ◌+◌, ◌*◌, ◌/◌, ◌^◌, ◌≤◌, ◌↔◌, ◌⊎◌, ◌≢◌, arith, true, false, some, none, List, [],
  ◌∷◌, ok, err, pos, In,
}
use hoersaal.Text.{Text, codes, is_empty, text_beq, text_lt, sort_by, text_eq}
use hoersaal.Dict.{lookup, insert}
use hoersaal.Float.{Hundredths, hundredths, hundredths-IsIeee, not_a_load}
use hoersaal.Placement.Records
use hoersaal.Placement.Naive.{
  place, place_conference, place_participant, lowest, eligible, any_unit, is_carrying,
}
use hoersaal.Time.{second, sub, neg, unix_seconds}
use hoersaal.Pool.Rows.{
  Error, starting, gone, is_state, Row, the_operator_asked, the_signal_went_stale, effective_load,
}
use hoersaal.Pool.Proof.{payload, proof_of, prove}
use hoersaal.Pool.Methods.{
  new, started, reachable, reach_row, health_row, healthy, drain, retire, register, spared, sweep,
  units_sorted, view, too_old, seam_state, request, listed, report, commit, collect,
}
use hoersaal.Pool.Evolution.{PoolOk}
use hoersaal.Pool.Calls.{starts, retires, step, run}
use hoersaal.Pool.Machine.{Became, run-PoolOk, run-Became}
use hoersaal.Pool.Seam.{view_lem, seam_row}
use hoersaal.Pool.Placing.{Serves, place_conference-Serves, place_participant-Serves}
use hoersaal.Pool.Joining.{Joined, too_old_iff, too_old_far, register_iff}
use hoersaal.Pool.Payload.{payload-injective}
use hoersaal.Pool.Stale.{IsStale, sweep_lem, sweep_newcomer}
use hoersaal.Pool.Examples.{
  digest, key, name, noon, badge, Room, start, joining, serving, joined, new-start, joined-PoolOk,
  seen, view-joined,
}
use hoersaal.Pool.Forging.{register-prove}

-- Everything that a run of the model computes with.
program : Unit {0}
unfolding is_empty text_beq text_lt sort_by lookup insert hundredths not_a_load sub neg unix_seconds
    is_state effective_load prove too_old new run step started reachable reach_row healthy
    health_row drain retire register spared sweep units_sorted view request listed report commit
    collect proof_of payload Records.new_unit Records.new_pool Records.known Records.is_admitting
    place_conference place_participant lowest eligible any_unit is_carrying
program = tt

abbrev ready : Room
ready = record joined { units = (name, record serving { state = starting; port = none }) ∷ [] }

runs :
    (run digest start joining ≡ joined)
    × (new key true ≡ ok start)
    × (register digest ready (record badge { proof = key }) (some 7) noon ≡ err Error.bad_proof)
    × (register digest ready badge (some 7) (noon + 301 * second) ≡ err Error.bad_proof)
    × (started joined name ≡ err Error.illegal_transition)
    × (report joined name none noon ≡ err Error.not_a_load_error)
unfolding program
runs = (refl, refl, refl, refl, refl, refl)

run-PoolOk_example : PoolOk (run digest start joining)
run-PoolOk_example = run-PoolOk digest hundredths-IsIeee key true start joining new-start

held_serving : lookup name joined.units ≡ some serving
unfolding program
held_serving = refl

run-Became_example :
    (v : Row Hundredths ℕ) × (lookup name
        (run digest joined (retires name the_operator_asked ∷ starts name ∷ [])).units
      ≡ some v)
    × Became serving v
run-Became_example =
    run-Became digest joined (retires name the_operator_asked ∷ starts name ∷ []) name serving
      held_serving

view_lem_example :
    (v : Records.Pool Hundredths) × (view joined ≡ ok v)
    × ((r : Records.UnitRow Hundredths)
        → (In r v.units
            → (u : Row Hundredths ℕ) × (lookup u.id joined.units ≡ some u)
              × (s : Records.State) × (seam_state u.state ≡ some s)
              × (r ≡ seam_row u s))
          × (((u : Row Hundredths ℕ) × (lookup u.id joined.units ≡ some u)
                × (s : Records.State) × (seam_state u.state ≡ some s)
                × (r ≡ seam_row u s))
              → In r v.units))
view_lem_example = view_lem hundredths-IsIeee joined joined-PoolOk

abbrev lecture : Records.Conference Hundredths
lecture = record { id = codes "c"; unit_ceiling = pos 2; carrying = [] }

abbrev listener : Records.Arrival
listener = record { publishes = false; sources = [] }

place_joined : place_conference seen (codes "c") ≡ place name
unfolding program
place_joined = refl

place_listener : place_participant seen lecture listener ≡ place name
unfolding program
place_listener = refl

place_conference-Serves_example : (u : Row Hundredths ℕ) × Serves joined name u
place_conference-Serves_example =
    place_conference-Serves hundredths-IsIeee joined seen (codes "c") name joined-PoolOk view-joined
      place_joined

place_participant-Serves_example : (u : Row Hundredths ℕ) × Serves joined name u
place_participant-Serves_example =
    place_participant-Serves hundredths-IsIeee joined seen lecture listener name joined-PoolOk
      view-joined place_listener

too_old_iff_example :
    (too_old noon (noon + 300 * second) ≡ false)
    ↔ ((noon ≤ noon + 300 * second + 300 * second) × (noon + 300 * second ≤ noon + 300 * second))
too_old_iff_example = too_old_iff noon (noon + 300 * second) (omega arith) (omega arith)

too_old_far_example : too_old noon (noon + 2 ^ 63) ≡ false
too_old_far_example = too_old_far noon (noon + 2 ^ 63) (omega arith)

register_iff_example :
    (register digest ready badge (some 7) noon ≡ ok joined)
    ↔ Joined digest ready badge (some 7) noon joined
register_iff_example = register_iff digest ready badge (some 7) noon joined

payload-injective_example : (name ≡ name) × (noon / second ≡ (noon + 5) / second)
unfolding payload unix_seconds
payload-injective_example =
    payload-injective name name noon (noon + 5) (omega arith) (omega arith) (omega arith)
      (omega arith) refl

sweep_lem_example :
    (q : Room) × (swept : List Text) × (sweep joined noon (pos second) ≡ ok (q, swept))
    × ((id : Text) (u : Row Hundredths ℕ)
        → lookup id joined.units ≡ some u
        → (IsStale noon (pos second) u
            → In id swept
              × (lookup id q.units
                  ≡ some (record u { state = gone; cause = the_signal_went_stale })))
          × ((IsStale noon (pos second) u → ⊥) → (In id swept → ⊥) × (lookup id q.units ≡ some u)))
sweep_lem_example = sweep_lem joined noon (pos second) joined-PoolOk (omega arith)

sweep_newcomer_example :
    (q : Room) × (swept : List Text) × (sweep joined noon (pos (2 ^ 62)) ≡ ok (q, swept))
    × In name swept
sweep_newcomer_example =
    sweep_newcomer joined noon (pos (2 ^ 62)) name serving joined-PoolOk (omega arith) held_serving
      refl refl

made_badge : prove digest key name noon ≡ ok badge.proof
unfolding program
made_badge = refl

register-badge : register digest ready badge (some 7) noon ≡ ok joined
unfolding program
register-badge = refl

register-prove_example :
    ((name ≡ name) × (noon / second ≡ noon / second))
    ⊎ ((payload name noon ≢ payload name noon)
        × (digest key (payload name noon) ≡ digest key (payload name noon)))
register-prove_example =
    register-prove digest ready joined badge (some 7) noon name noon (omega arith) (omega arith)
      (omega arith) (omega arith) made_badge register-badge
