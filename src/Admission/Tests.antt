-- ===== src/Admission/Tests.antt =====
-- internal/admission/admission.go: a lecturer who asks to publish, is granted a place on a unit, and does
-- not arrive.
use hoersaal.Base.{ℕ, ◌+◌, ◌*◌, ◌≡◌, ◌⊎◌, refl, true, false, some, List, [], ◌∷◌, ok, pos}
use hoersaal.Text.{text_eq, codes, is_empty, text_beq, text_lt, sort_by}
use hoersaal.Dict.{lookup, insert, delete}
use hoersaal.Time.{second, seconds_of, unix_bits, of_unix, gap, wrap}
use hoersaal.Float.{Hundredths, hundredths, hundredths-IsIeee, not_a_load}
use hoersaal.Wire.{Message}
use hoersaal.Domain.Model.{
  audio, video, Source, new_participant_id, new_identity_id, new_role, new_source_id, new_source,
  known,
}
use hoersaal.Placement.Records
use hoersaal.Placement.Naive.{place_participant, lowest, eligible, any_unit, is_carrying}
use hoersaal.Pool.Rows.{Row}
use hoersaal.Pool.Proof.{big_endian}
use hoersaal.Pool.Placing.{Serves}
use hoersaal.Pool.Examples.{name, joined, joined-PoolOk, seen, view-joined}
use hoersaal.RoomCred.Layout.{field_bytes, encode_claims, decode_claims, of_big_endian}
use hoersaal.RoomCred.Methods.{verify}
use hoersaal.RoomCred.Examples.{noon, digest, guarded, guarded_bytes, key, token}
use hoersaal.RoomCred.Verifying.{Holds}
use hoersaal.Admission.Records.{
  type_request, Request, Room, Abandoned, admit_publisher, Seams, Desk, new_desk, default_window,
}
use hoersaal.Admission.Desk.{
  placement_reason, unit_reason, reason_text, identity_of, kind_of, need, need_ok, placed, usable,
  read_request, mint_sources, mint, prepare, Ready, refusal, call_of, grant_of, outstanding_of,
  settle, admit, arrived, sweep_from, sweep, outstanding,
}
use hoersaal.Admission.Cleared.{Cleared}
use hoersaal.Admission.Told.{Effect, admit-Effect}
use hoersaal.Admission.Outstanding.{DeskOk}
use hoersaal.Admission.Sweeping.{Sweeps, sweep-Sweeps}
use hoersaal.Admission.Histories.{
  Reached, made, next, admission, sweeping, Ends, Reached-DeskOk, Reached-keeps,
}
use hoersaal.Admission.Assembled.{assembled, assembled_lem}

-- Everything that a run of the model computes with.
program : Unit {0}
unfolding is_empty text_beq text_lt sort_by lookup insert delete seconds_of unix_bits of_unix gap
    wrap hundredths not_a_load new_participant_id new_identity_id new_role new_source_id new_source
    known place_participant lowest eligible any_unit is_carrying Records.is_admitting
    Records.new_arrival big_endian field_bytes encode_claims decode_claims of_big_endian verify
    new_desk placement_reason unit_reason reason_text identity_of kind_of need need_ok placed usable
    read_request mint_sources mint prepare refusal call_of grant_of outstanding_of settle admit
    arrived sweep_from sweep outstanding hoersaal.Pool.Rows.effective_load
program = tt

abbrev asking : Request
asking = record {
  conference = codes "c1";
  credential = token;
  publishing = true;
  offers = record { kind = audio; layers = pos 1 } ∷ record { kind = video; layers = pos 3 } ∷ [];
}

-- A deployment whose decoder reads one request, and whose names are the letters from A on.
abbrev deployment : Seams Hundredths ℕ
deployment = record {
  verify = λ token conference. verify digest guarded key token conference 0;
  may_publish = λ role. true;
  place = place_participant;
  unit = λ id. some 7;
  tell = λ call. ok (codes "t");
  name = λ n. some ((n + 65) ∷ []);
  now = noon;
  read = λ payload. some (asking, false);
  write_granted = λ g. some g.participant;
  write_refused = λ r. some r;
}

abbrev seams : Seams Hundredths ℕ
seams = assembled digest guarded key noon deployment

abbrev room : Room Hundredths
room = record {
  id = codes "c1";
  is_open = true;
  pool = seen;
  placement = record { id = codes "c1"; unit_ceiling = pos 2; carrying = [] };
}

abbrev message : Message
message = record { type = type_request; payload = some (codes "{}") }

abbrev desk : Desk
desk = record { window = default_window; outstanding = [] }

desk_made : new_desk true (pos 0) ≡ ok desk
unfolding program
desk_made = refl

abbrev waiting : Abandoned
waiting = record {
  conference = codes "c1";
  participant = codes "A";
  unit = name;
  granted_at = noon;
  deadline = noon + 120 * second;
}

abbrev sources : List Source
sources =
    record { id = codes "B"; publisher = codes "A"; kind = audio; layers = pos 1 }
    ∷ record { id = codes "C"; publisher = codes "A"; kind = video; layers = pos 3 }
    ∷ []

runs :
    ((admit seams desk room message).2 ≡ (admit_publisher 7 (codes "c1") (codes "A") sources ∷ []))
    × ((admit seams desk room message).1.outstanding ≡ ((codes "A", waiting) ∷ []))
    × ((admit seams desk (record room { is_open = false }) message).2 ≡ [])
    × ((admit deployment desk room message).2 ≡ [])
unfolding program
runs = (refl, refl, refl, refl)

admit-Effect_example :
    Effect seams desk room message
      (admit seams desk room message).0
      (admit seams desk room message).1
admit-Effect_example = admit-Effect seams desk room message

-- The desk that waits for the lecturer.
abbrev later : Desk
later = record desk { outstanding = (codes "A", waiting) ∷ [] }

admitted : (admit seams desk room message).1 ≡ later
unfolding program
admitted = refl

reached : Reached Hundredths ℕ (admit seams desk room message).1
reached = next (made true (pos 0) desk_made) (admission seams room message)

Reached-DeskOk_example : DeskOk (admit seams desk room message).1
Reached-DeskOk_example = Reached-DeskOk Hundredths ℕ reached

later-Reached : Reached Hundredths ℕ later
later-Reached = rw admitted at reached

later-DeskOk : DeskOk later
later-DeskOk = Reached-DeskOk Hundredths ℕ later-Reached

sweep-Sweeps_example :
    Sweeps later
      (noon + 120 * second)
      (sweep later (noon + 120 * second)).0
      (sweep later (noon + 120 * second)).1
sweep-Sweeps_example = sweep-Sweeps later (noon + 120 * second) later-DeskOk

held : lookup (codes "A") later.outstanding ≡ some waiting
unfolding program
held = refl

Reached-keeps_example :
    (lookup (codes "A") (sweep later noon).0.outstanding ≡ some waiting)
    ⊎ Ends Hundredths ℕ (sweeping {d = later} noon) (codes "A") waiting
Reached-keeps_example =
    Reached-keeps Hundredths ℕ (codes "A") waiting (sweeping noon) later-Reached held

assembled_lem_example :
    ((admit seams desk room message).2 ≡ [])
    ⊎ ((r : Ready ℕ) × ((admit seams desk room message).2 ≡ (call_of seams room r ∷ []))
        × Cleared seams room message r
        × Holds digest guarded key r.request.credential room.id noon r.claims
        × ((u : Row Hundredths ℕ) × Serves joined r.unit_id u))
assembled_lem_example =
    assembled_lem digest guarded hundredths-IsIeee (λ k m. refl) guarded_bytes key noon deployment
      joined desk room message joined-PoolOk view-joined
