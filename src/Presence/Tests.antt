-- ===== src/Presence/Tests.antt =====
-- internal/presence/presence.go: a room of three endpoints and two people, and an emitter over a
-- second.
use hoersaal.Base.{
  ◌≡◌, ◌≤◌, ◌+◌, ◌↔◌, ◌⊎◌, inl, inr, IsDistinct, refl, arith, true, false, some, List, [], ◌∷◌, ok,
  err, pos, length, Option, none, not, ◌++◌, In, ℕ, zero, suc,
}
use hoersaal.Text.{Text, codes, is_empty, text_beq, text_lt, sort_by}
use hoersaal.Dict.{lookup, insert}
use hoersaal.Time.{Time, sub, minus}
use hoersaal.Domain.Model.{ParticipantId}
use hoersaal.Wire.{Json, encode}
use hoersaal.Presence.Records.{
  empty, duplicate, unknown, Entry, EntryJson, Roll, new_entry, new_roll, summary, summary_message,
}
use hoersaal.Presence.Pages.{PageJson, fits, page}
use hoersaal.Presence.Emitter.{Emitter, new_emitter, note, take, wait}
use hoersaal.Presence.Emission.{
  Call, noted, asked, sent_at, notes, IsSpaced, sent_at_lem, wait-take,
}
use hoersaal.Presence.Rolls.{Accepts, Describes, new_roll_lem}
use hoersaal.Presence.Gathering.{ids}
use hoersaal.Presence.Assembly.{new_roll_order}
use hoersaal.Presence.Paging.{Shows}
use hoersaal.Presence.Walk.{walk, page-Shows, walk_lem}

-- Everything that a run of the model computes with.
program : Unit {0}
unfolding is_empty text_beq text_lt lookup insert sort_by sub minus encode new_entry new_roll
    summary summary_message fits page new_emitter note take wait sent_at notes walk
program = tt

abbrev phone : Entry
phone = record { id = codes "p1"; identity = codes "ada"; role = codes "host" }

abbrev laptop : Entry
laptop = record { id = codes "p2"; identity = codes "ada"; role = codes "host" }

abbrev guest : Entry
guest = record { id = codes "p3"; identity = codes "bob"; role = codes "guest" }

abbrev present : List Entry
present = guest ∷ phone ∷ laptop ∷ []

abbrev speaking : List ParticipantId
speaking = codes "p3" ∷ codes "p1" ∷ []

abbrev room : Roll
room = record {
  entries = phone ∷ laptop ∷ guest ∷ [];
  attending = guest ∷ phone ∷ [];
  attending_total = 2;
  identities = 2;
}

abbrev silent : Roll
silent = record {
  entries = phone ∷ laptop ∷ guest ∷ [];
  attending = [];
  attending_total = 0;
  identities = 2;
}

three_apart : IsDistinct (ids (laptop ∷ phone ∷ guest ∷ []))
unfolding program
three_apart = ((new_roll_lem (laptop ∷ phone ∷ guest ∷ []) []).1 silent refl).0.0.1

room_made : new_roll present speaking ≡ ok room
unfolding program
room_made = refl

refusals :
    (new_entry (codes "p1") [] (codes "host") ≡ err empty)
    × (new_roll (phone ∷ phone ∷ []) [] ≡ err duplicate)
    × (new_roll present (codes "p9" ∷ []) ≡ err unknown)
    × (new_roll present (codes "p1" ∷ codes "p1" ∷ []) ≡ err duplicate)
unfolding program
refusals = (refl, refl, refl, refl)

-- An encoder that writes out what a page carries, its total as so many strokes, and one that
-- writes the type and the payload on a line.
abbrev write_entries : List EntryJson → Text
write_entries [] = []
write_entries (e ∷ es) =
    (e.participant ++ (codes "," ++ (e.identity ++ (codes "," ++ (e.role ++ codes ";")))))
    ++ write_entries es

abbrev tally : ℕ → Text
tally zero = []
tally (suc n) = 124 ∷ tally n

abbrev marshal : PageJson → Option Text
marshal p =
    some (write_entries p.entries ++ (codes "next=" ++ (p.next ++ (codes " of " ++ tally p.total))))

abbrev body_of : Option Text → Text
body_of none = codes "null"
body_of (some b) = b

abbrev json : Json
json = record {
  is_valid = λ b. not (is_empty b);
  encode_envelope = λ kind body. some (kind ++ (codes ":" ++ (body_of body ++ (10 ∷ []))));
}

page_one :
    page marshal json room [] (pos 2)
    ≡ ok (record { entries = phone ∷ laptop ∷ []; next = codes "p2"; total = 3 })
unfolding program
page_one = refl

abbrev emitter : Emitter
emitter = record { window = pos 500; last = 0; sent = false; pending = false; revision = 0 }

abbrev history : List Call
history = noted ∷ noted ∷ asked 7 ∷ noted ∷ asked 100 ∷ asked 600 ∷ asked 2_000 ∷ []

sent : sent_at emitter history ≡ 7 ∷ 600 ∷ []
unfolding program
sent = refl

sent_at_lem_example :
    IsSpaced 500 (sent_at emitter history) × (length (sent_at emitter history) ≤ notes history)
unfolding new_emitter
sent_at_lem_example = sent_at_lem 500 emitter history (omega arith) refl

abbrev busy : Emitter
busy = record { window = pos 500; last = 1_000; sent = true; pending = true; revision = 3 }

wait-take_example :
    ((wait busy 1_200).1 ≡ true)
    × (true ≡ true
        → (d : Time) × ((wait busy 1_200).0 ≡ pos d)
          × ((t : Time) → 1_200 ≤ t → ((take busy t).2 ≡ true) ↔ (1_200 + d ≤ t)))
wait-take_example =
    wait-take busy 500 1_200 refl (omega arith) (omega arith) (omega arith) (omega arith)

new_roll_lem_example :
    (Accepts present speaking → (r : Roll) × (new_roll present speaking ≡ ok r))
    × ((r : Roll)
        → new_roll present speaking ≡ ok r
        → Accepts present speaking × Describes present speaking r)
new_roll_lem_example = new_roll_lem present speaking

new_roll_order_example : new_roll (laptop ∷ phone ∷ guest ∷ []) speaking ≡ ok room
unfolding program
new_roll_order_example =
    new_roll_order present (laptop ∷ phone ∷ guest ∷ []) speaking room
      (λ e. (
        λ i. elim i [
          | inl p ↦ inr (inr (inl p))
          | inr (inl p) ↦ inr (inl p)
          | inr (inr (inl p)) ↦ inl p
          | inr (inr (inr n)) ↦ inr (inr (inr n))
        ],
        λ i. elim i [
          | inl p ↦ inr (inr (inl p))
          | inr (inl p) ↦ inr (inl p)
          | inr (inr (inl p)) ↦ inl p
          | inr (inr (inr n)) ↦ inr (inr (inr n))
        ],
      ))
      three_apart room_made

page-Shows_example :
    Shows room.entries [] 2 (record { entries = phone ∷ laptop ∷ []; next = codes "p2"; total = 3 })
    × (((phone ∷ laptop ∷ []) ≡ [])
        ⊎ (fits marshal json
              (record { entries = phone ∷ laptop ∷ []; next = codes "p2"; total = 3 })
            ≡ true))
page-Shows_example =
    page-Shows marshal json present speaking room room_made 2 (omega arith) (omega arith) [] _
      page_one

one_fits :
    (e : Entry) (c : Text)
    → In e room.entries
    → (c ≡ []) ⊎ (c ≡ e.id)
    → fits marshal json (record { entries = e ∷ []; next = c; total = 3 }) ≡ true
unfolding program
one_fits e c (inl p) (inl q) = rw (q, p) refl
one_fits e c (inl p) (inr q) = rw (q, p) refl
one_fits e c (inr (inl p)) (inl q) = rw (q, p) refl
one_fits e c (inr (inl p)) (inr q) = rw (q, p) refl
one_fits e c (inr (inr (inl p))) (inl q) = rw (q, p) refl
one_fits e c (inr (inr (inl p))) (inr q) = rw (q, p) refl
one_fits e c (inr (inr (inr n))) w = absurd (n tt)

walk_lem_example :
    walk (λ after. page marshal json room after (pos 2)) 4 [] ≡ some (phone ∷ laptop ∷ guest ∷ [])
walk_lem_example =
    walk_lem marshal json present speaking room room_made 2 (omega arith) (omega arith) one_fits
