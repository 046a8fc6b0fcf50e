-- ===== src/Pool/Examples.antt =====
-- internal/pool/pool.go: a pool of one unit that has joined, with loads in hundredths, numbers for
-- handles, and a keyed digest that is the key followed by the message.
use hoersaal.Base.{◌≡◌, refl, ℕ, ◌*◌, true, false, some, List, [], ◌∷◌, ◌++◌, ok}
use hoersaal.Text.{Text, codes, is_empty, text_beq, text_lt, sort_by, text_eq}
use hoersaal.Dict.{lookup, insert}
use hoersaal.Float.{Hundredths, hundredths, hundredths-IsIeee, not_a_load}
use hoersaal.Placement.Records
use hoersaal.Placement.Naive.{
  place_conference, place_participant, lowest, eligible, any_unit, is_carrying,
}
use hoersaal.Time.{Time, second, sub, neg, unix_seconds}
use hoersaal.Pool.Rows.{admitting, is_state, Row, Cause, effective_load}
use hoersaal.Pool.Proof.{Registration, payload, proof_of, prove}
use hoersaal.Pool.Methods.{
  Pool, new, started, reachable, reach_row, health_row, healthy, drain, retire, register, spared,
  sweep, units_sorted, view, too_old, request, listed, report, commit, collect,
}
use hoersaal.Pool.Evolution.{PoolOk}
use hoersaal.Pool.Calls.{Call, lists, reaches, registers, step, run}
use hoersaal.Pool.Machine.{run-PoolOk}
use hoersaal.Pool.Seam.{seam_row}

-- Everything that a run of the model computes with.
program : Unit {0}
unfolding is_empty text_beq text_lt sort_by lookup insert hundredths not_a_load sub neg unix_seconds
    is_state effective_load prove too_old new run step started reachable reach_row healthy
    health_row drain retire register spared sweep units_sorted view request listed report commit
    collect proof_of payload Records.new_unit Records.new_pool Records.known Records.is_admitting
    place_conference place_participant lowest eligible any_unit is_carrying
program = tt

abbrev pub digest : Text → Text → Text
digest key message = key ++ message

abbrev pub key : Text
key = codes "0123456789abcdef0123456789abcdef"

abbrev pub name : Text
name = codes "unit-a"

-- 2026-01-01 in nanoseconds after Go's zero time.
abbrev pub noon : Time
noon = 63_902_908_800 * second

abbrev pub badge : Registration
badge = record { unit = name; issued_at = noon; proof = digest key (payload name noon) }

abbrev pub Room : Type 0
Room = Pool Hundredths ℕ

abbrev pub start : Room
start = record { key = key; units = []; order = [] }

abbrev pub joining : List (Call Hundredths ℕ)
joining = lists name ∷ reaches name true ∷ registers badge (some 7) noon ∷ []

abbrev pub serving : Row Hundredths ℕ
serving = record {
  id = name;
  state = admitting;
  cause = Cause.unset;
  reachable = true;
  healthy = true;
  reported = some 0;
  reported_at = 0;
  ever_reported = false;
  committed = some 0;
  port = some 7;
}

abbrev pub joined : Room
joined = record { key = key; units = (name, serving) ∷ []; order = name ∷ [] }

pub new-start : new {W = Hundredths} {P = ℕ} key true ≡ ok start
unfolding program
new-start = refl

pub run-joining : run digest start joining ≡ joined
unfolding program
run-joining = refl

pub joined-PoolOk : PoolOk joined
joined-PoolOk =
    rw run-joining at (run-PoolOk digest hundredths-IsIeee key true start joining new-start)

abbrev pub seen : Records.Pool Hundredths
seen = record { units = seam_row serving Records.admitting ∷ [] }

pub view-joined : view joined ≡ ok seen
unfolding program
view-joined = refl
