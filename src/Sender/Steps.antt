-- ===== src/Sender/Steps.antt =====
-- internal/wire/send.go: any interleaving of sends, closings, steps of `finish` and steps of the writer. A send that has
-- passed its first `select` and not yet reached the second is passing.
use hoersaal.Base.{◌≡◌, Option, none, some, List, [], ◌∷◌, ◌++◌, Bool}
use hoersaal.Text.{Text}
use hoersaal.Sender.Machine.{Error, Sender, new_sender, check, enqueue, close, proceed, advance}

-- `accepted` is what `Send` has answered without an error for, in the order of the queue.
pub record World : Type 0 where
  pub sender : Sender
  pub passing : List Text
  pub accepted : List Text

abbrev pub accept : Text → Option Error → List Text → List Text
accept m none taken = taken ++ (m ∷ [])
accept m (some e) taken = taken

pub data Step : World → World → Type 0 where
  passes :
      {w : World} (m : Text) → check w.sender ≡ none → Step w (record w { passing = m ∷ w.passing })
  puts :
      {w : World} (before after : List Text) (m : Text)
      → w.passing ≡ (before ++ (m ∷ after))
      → Step w (record {
        sender = (enqueue m w.sender).0;
        passing = before ++ after;
        accepted = accept m (enqueue m w.sender).1 w.accepted;
      })
  closes : {w : World} → Step w (record w { sender = close w.sender })
  proceeds : {w : World} → Step w (record w { sender = proceed w.sender })
  advances :
      {w : World} (stop_first : Bool) (answer : Option Error)
      → Step w (record w { sender = advance stop_first answer w.sender })

-- What some interleaving on a new sender leads to.
pub data Steps : World → World → Type 0 where
  done : {w : World} → Steps w w
  next : {w v u : World} → Steps w v → Step v u → Steps w u

abbrev pub start : World
start = record { sender = new_sender; passing = []; accepted = [] }
