-- ===== src/Sender/Loss.antt =====
-- internal/wire/send.go: messages that `Send` answers for and nobody writes.
use hoersaal.Base.{
  ◌≡◌, refl, sym, ◌∙◌, ap, ◌<◌, arith, Bool, true, Option, none, some, List, length, ltb, if_lem,
}
use hoersaal.Text.{Text}
use hoersaal.Sender.Machine.{
  max_queued, Error, ended, writing, failing, leaving, Sender, Once, unused, entered, recorded,
  signalled, used, begin_once, enter_finish, proceed_from, proceed, await_once, enqueue, close,
  advance_from, advance,
}
use hoersaal.Sender.Steps.{World, passes, puts, closes, proceeds, advances, Steps, done, next}
use hoersaal.Sender.Progress.{advance_ended}

-- The writer is over, with just these attempts.
record HasEnded (tried : List Text) (s : Sender) : Type 0 where
  over : s.phase ≡ ended
  same : s.attempted ≡ tried

proceed_from-HasEnded :
    (tried : List Text) (o : Once) (s : Sender)
    → HasEnded tried s
    → HasEnded tried (proceed_from o s)
unfolding proceed_from
proceed_from-HasEnded tried unused s k = k
proceed_from-HasEnded tried (entered why) s k = record { over = k.over; same = k.same }
proceed_from-HasEnded tried (recorded why) s k = record { over = k.over; same = k.same }
proceed_from-HasEnded tried (signalled why) s k = record { over = k.over; same = k.same }
proceed_from-HasEnded tried (used why) s k = k

enqueue-HasEnded :
    (tried : List Text) (m : Text) (s : Sender) → HasEnded tried s → HasEnded tried (enqueue m s).0
unfolding enqueue enter_finish
enqueue-HasEnded tried m s k =
    if_lem (λ (r : Sender × Option Error). HasEnded tried r.0) (ltb (length s.queue) max_queued)
      (λ q. record { over = k.over; same = k.same }) (λ q. record { over = k.over; same = k.same })

Steps-HasEnded :
    {w u : World} (tried : List Text)
    → Steps w u
    → HasEnded tried w.sender
    → HasEnded tried u.sender
unfolding close enter_finish proceed
Steps-HasEnded tried done k = k
Steps-HasEnded tried (next h (passes m p)) k = Steps-HasEnded tried h k
Steps-HasEnded tried (next {v = v} h (puts before after m p)) k =
    enqueue-HasEnded tried m v.sender (Steps-HasEnded tried h k)
Steps-HasEnded tried (next {v = v} h closes) k =
    let before : HasEnded tried v.sender = Steps-HasEnded tried h k in
    record { over = before.over; same = before.same }
Steps-HasEnded tried (next {v = v} h proceeds) k =
    proceed_from-HasEnded tried v.sender.once v.sender (Steps-HasEnded tried h k)
Steps-HasEnded tried (next {v = v} h (advances b a)) k =
    let before : HasEnded tried v.sender = Steps-HasEnded tried h k in
    rw (advance_ended b a v.sender before.over) before

-- A message that is put into the queue, while that has room, of a sender whose writer is over is
-- accepted without an error, and whatever sends, closings and steps follow, Write is given nothing
-- more.
pub late_message :
    (w u : World) (m : Text)
    → w.sender.phase ≡ ended
    → length w.sender.queue < max_queued
    → Steps (record w { sender = (enqueue m w.sender).0 }) u
    → ((enqueue m w.sender).1 ≡ none) × (u.sender.attempted ≡ w.sender.attempted)
unfolding enqueue
late_message w u m e room h =
    let after : HasEnded w.sender.attempted u.sender =
      Steps-HasEnded w.sender.attempted h
        (enqueue-HasEnded w.sender.attempted m w.sender (record { over = e; same = refl })) in
    let fits : ltb (length w.sender.queue) max_queued ≡ true = ground arith in
    (rw (fits, enqueue) refl, after.same)

-- A write of the loop that fails after `Close` has been through leaves no reason and leaves what is
-- queued: the writer passes through `finish` and leaves.
pub silent_failure :
    (b c : Bool) (e : Error) (a : Option Error) (m : Text) (s : Sender)
    → s.once ≡ used none
    → s.phase ≡ writing m
    → advance c a (advance b (some e) s) ≡ record s { phase = leaving }
unfolding advance advance_from enter_finish begin_once await_once
silent_failure b c e a m s u p =
    let same : begin_once (some e) s.once ≡ s.once = ap (begin_once (some e)) u ∙ sym u in
    let fails : advance b (some e) s ≡ record s { phase = failing } =
      ap (λ x. advance_from x b (some e) s) p
      ∙ ap (λ o. record s { once = o; phase = failing }) same in
    ap (advance c a) fails ∙ ap (λ o. await_once o (record s { phase = failing })) u
