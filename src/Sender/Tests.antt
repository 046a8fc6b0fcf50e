-- ===== src/Sender/Tests.antt =====
-- internal/wire/send.go: two sends, of which one is put after the client was closed.
use hoersaal.Base.{
  ◌≡◌, refl, ◌⊎◌, ℕ, zero, suc, ◌<◌, arith, Bool, true, false, ◌||◌, Option, none, some, List, [],
  ◌∷◌, length,
}
use hoersaal.Text.{Text, codes}
use hoersaal.Domain.Conference.{is_some}
use hoersaal.Sender.Machine.{
  timed_out, write, Error, Sender, too_slow, sender_closed, ended, new_sender, keep_first,
  begin_once, enter_finish, proceed_from, proceed, await_once, failure, check, enqueue, send, close,
  enter_drain, hand_over, advance_from, advance, drive,
}
use hoersaal.Sender.Steps.{
  World, passes, puts, closes, proceeds, advances, Steps, done, next, start,
}
use hoersaal.Sender.Orderly.{IsOrderly}
use hoersaal.Sender.Order.{Steps-IsOrderly}
use hoersaal.Sender.Ending.{is_leaving, any_failed, drive-IsDone}
use hoersaal.Sender.Loss.{late_message}

-- Everything that a run of the model computes with.
program : Unit {0}
unfolding new_sender keep_first begin_once enter_finish proceed_from proceed await_once failure
    check enqueue send close write enter_drain hand_over advance_from advance drive
program = tt

abbrev hello : Text
hello = codes "hello"

abbrev bye : Text
bye = codes "bye"

-- All of a call of `finish`, with nothing in between.
abbrev finished : Sender → Sender
finished s = proceed (proceed (proceed s))

-- The first message is being written, the second is passing, and the client is closed.
busy_history : Steps start (record {
  sender = finished (close (advance true none (advance true none (enqueue hello new_sender).0)));
  passing = bye ∷ [];
  accepted = hello ∷ [];
})
unfolding program
busy_history = next (next (next (next handed_over closes) proceeds) proceeds) proceeds
  where
    handed_over : Steps start (record {
      sender = advance true none (advance true none (enqueue hello new_sender).0);
      passing = bye ∷ [];
      accepted = hello ∷ [];
    })
    handed_over =
        next
          (next
            (next (next (next done (passes hello refl)) (passes bye refl))
              (puts (bye ∷ []) [] hello refl))
            (advances true none))
          (advances true none)

abbrev closing_world : World
closing_world = record {
  sender = finished (close (advance true none (advance true none (enqueue hello new_sender).0)));
  passing = bye ∷ [];
  accepted = hello ∷ [];
}

runs :
    ((send hello closing_world.sender).1 ≡ some sender_closed)
    × ((send hello (finished (enter_finish (some too_slow) new_sender))).1 ≡ some too_slow)
    × ((advance true none (
          advance true
            (write none)
            (advance true none (advance true none (enqueue hello new_sender).0)))).reason
        ≡ some timed_out)
    × (closing_world.sender.attempted ≡ (hello ∷ []))
    × ((proceed (enter_finish (some too_slow) new_sender)).reason ≡ some too_slow)
    × ((proceed (enter_finish (some too_slow) new_sender)).stopped ≡ false)
unfolding program
runs = (refl, refl, refl, refl, refl, refl)

stopped : closing_world.sender.stopped ≡ true
unfolding program
stopped = refl

abbrev quiet : ℕ → List (Bool × Option Error)
quiet zero = []
quiet (suc n) = (true, none) ∷ quiet n

length-quiet : (n : ℕ) → length (quiet n) ≡ n
length-quiet zero = refl
length-quiet (suc n) = omega (arith, length-quiet n)

Steps-IsOrderly_example : IsOrderly closing_world.accepted closing_world.sender
Steps-IsOrderly_example = Steps-IsOrderly busy_history

drive-IsDone_example :
    ((drive (quiet 261) closing_world.sender).phase ≡ ended)
    × ((drive (quiet 261) closing_world.sender).conn_closed ≡ true)
    × (((drive (quiet 261) closing_world.sender).attempted ≡ closing_world.accepted)
        ⊎ ((is_some closing_world.sender.reason
              || (is_leaving closing_world.sender.phase || any_failed (quiet 261)))
            ≡ true))
drive-IsDone_example =
    drive-IsDone closing_world (quiet 261) busy_history stopped (omega (arith, length-quiet 261))

-- The writer is over, and the second message is still passing.
abbrev late : World
late = record closing_world { sender = drive (quiet 5) closing_world.sender }

late_over : late.sender.phase ≡ ended
unfolding program
late_over = refl

late_room : length late.sender.queue < 64
unfolding program
late_room = omega arith

-- The second message is put into the queue of a writer that is over.
late_message_example :
    ((enqueue bye late.sender).1 ≡ none)
    × ((enqueue bye late.sender).0.attempted ≡ late.sender.attempted)
late_message_example =
    late_message late (record late { sender = (enqueue bye late.sender).0 }) bye late_over late_room
      done
