-- ===== src/Admission/Assembled.antt =====
-- internal/admission/admission.go with internal/roomcred/roomcred.go, internal/placement/placement.go
-- and internal/pool/pool.go: a desk whose verifier is the one of room credentials, and whose placer
-- reads the pool's view.
use hoersaal.Base.{◌≡◌, ◌⊎◌, inl, inr, [], ◌∷◌, some, ok, length}
use hoersaal.Text.{Text}
use hoersaal.Time.{Time}
use hoersaal.Float.{Float64, IsIeee}
use hoersaal.Wire.{Message}
use hoersaal.Placement.Naive.{place_participant}
use hoersaal.Pool.Rows.{Row}
use hoersaal.Pool.Methods.{Pool, view}
use hoersaal.Pool.Evolution.{PoolOk}
use hoersaal.Pool.Placing.{Serves, place_participant-Serves}
use hoersaal.RoomCred.Methods.{Base64, mac_bytes, verify}
use hoersaal.RoomCred.Numbers.{AreBytes}
use hoersaal.RoomCred.Verifying.{Holds, verify_iff}
use hoersaal.Admission.Records.{Room, Seams, Desk}
use hoersaal.Admission.Desk.{Ready, call_of, admit}
use hoersaal.Admission.Cleared.{Cleared}
use hoersaal.Admission.Told.{admit-Cleared}

module _ {W U : Type 0} ⦃f : Float64 W⦄ (mac : Text → Text → Text) (base64 : Base64) where
  -- The seams with the verifier of one key, read at one moment, and the naive placer.
  abbrev pub assembled : Text → Time → Seams W U → Seams W U
  assembled key moment seams = record seams {
    verify = λ token conference. verify mac base64 key token conference moment;
    place = place_participant;
  }

  -- A desk whose verifier is that of one key, read at one moment, and whose placer reads the view
  -- of a pool that satisfies the invariant, tells a unit at most one thing in an admission, and
  -- only after every check: of a credential that the key signed for this room, in its window at
  -- that moment, and on a unit that the pool holds as admitting, with load to spare, reachable,
  -- answering and with a handle. The digest is taken to have 32 bytes, the base64 decoder to answer
  -- bytes, and the loads to follow IEEE 754.
  pub assembled_lem :
      {P : Type 0} (laws : IsIeee W) (sized : (k m : Text) → length (mac k m) ≡ mac_bytes)
      (bytes : (t b : Text) → base64.decode t ≡ some b → AreBytes b) (key : Text) (moment : Time)
      (seams : Seams W U) (p : Pool W P) (d : Desk) (room : Room W) (m : Message)
      → PoolOk p
      → view p ≡ ok room.pool
      → ((admit (assembled key moment seams) d room m).2 ≡ [])
        ⊎ ((r : Ready U) × ((admit (assembled key moment seams) d room m).2
              ≡ (call_of (assembled key moment seams) room r ∷ []))
            × Cleared (assembled key moment seams) room m r
            × Holds mac base64 key r.request.credential room.id moment r.claims
            × ((u : Row W P) × Serves p r.unit_id u))
  assembled_lem laws sized bytes key moment seams p d room m k h =
      elim (admit-Cleared (assembled key moment seams) d room m) [
        | inl e ↦ inl e
        | inr (r, c, e) ↦ inr (
          r,
          e,
          c,
          (verify_iff mac base64 sized key r.request.credential room.id moment r.claims bytes).0
              c.verified,
          place_participant-Serves laws p room.pool room.placement _ r.unit_id k h c.placed_there,
        )
      ]
