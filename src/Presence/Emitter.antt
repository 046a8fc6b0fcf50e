-- ===== src/Presence/Emitter.antt =====
-- internal/presence/presence.go: `Emitter`, which says when a summary may be sent. `now` is what its
-- clock reads; a revision is a `uint64`.
use hoersaal.Base.{
  ℕ, ◌+◌, ◌%◌, ◌^◌, Bool, true, false, not, ◌&&◌, ◌||◌, Result, ok, err, if◌then◌else◌, pos, ltb_ℤ,
  leb_ℤ,
}
use hoersaal.Time.{Time, Duration, sub, minus}
use hoersaal.Presence.Records.{Error, bad_window}

abbrev pub window : Duration
window = pos 500_000_000

pub record Emitter : Type 0 where
  pub window : Duration
  pub last : Time
  pub sent : Bool
  pub pending : Bool
  pub revision : ℕ

-- `has_clock` is whether a clock was handed over.
unfoldable pub new_emitter : Bool → Duration → Result Error Emitter
new_emitter has_clock window =
    if not has_clock || leb_ℤ window (pos 0)
    then err bad_window
    else ok (record { window = window; last = 0; sent = false; pending = false; revision = 0 })

unfoldable pub note : Emitter → Emitter
note e = record e { pending = true }

-- The emitter after the call, the revision, and whether a summary is due.
unfoldable pub take : Emitter → Time → Emitter × ℕ × Bool
take e now =
    if not e.pending
    then (e, e.revision, false)
    else if e.sent && ltb_ℤ (sub now e.last) e.window
    then (e, e.revision, false)
    else (
      record e { pending = false; sent = true; last = now; revision = (e.revision + 1) % 2 ^ 64 },
      (e.revision + 1) % 2 ^ 64,
      true,
    )

unfoldable pub wait : Emitter → Time → Duration × Bool
wait e now =
    if not e.pending
    then (pos 0, false)
    else if not e.sent
    then (pos 0, true)
    else let left = minus e.window (sub now e.last) in
      (if ltb_ℤ left (pos 0) then pos 0 else left, true)
