-- ===== src/Sender/Machine.antt =====
-- internal/wire/send.go: a sender, and what each of its operations does in one atomic step. `finish` has
-- several: it is entered, and then takes one step after the other, between which other goroutines may
-- run. The writer is a goroutine: `Phase` says where in `run` or `drain` it stands, and `advance` takes
-- it one step further, or leaves it where it blocks. What a write answers, and which of two ready cases
-- a `select` takes, are arguments.
use hoersaal.Base.{
  ℕ, ◌*◌, Bool, true, false, ◌&&◌, ◌||◌, Option, none, some, List, [], ◌∷◌, ◌++◌, if◌then◌else◌,
  ltb, nat_eq, length,
}
use hoersaal.Text.{Text}
use hoersaal.Time.{second}
use hoersaal.Domain.Conference.{is_some}

abbrev pub max_queued : ℕ
max_queued = 64

abbrev pub write_timeout : ℕ
write_timeout = 10 * second

-- `write_failed` is an error of the connection's own, wrapped.
pub data Error : Type 0 where
  too_slow timed_out sender_closed write_failed : Error

-- `stopOnce` and how far the call of `finish` that it lets through has come, with the reason of that
-- call: no call yet; before `record`; before the closing of `stop`; before `closeConnection`; and over.
pub data Once : Type 0 where
  unused : Once
  entered recorded signalled used : Option Error → Once

-- At the top of the loop of `run`; at its second `select`; in a write of the loop; in `finish` after a
-- write of the loop failed; at the `select` of `drain`; in a write of `drain`; before the deferred
-- closing of the connection; before the deferred closing of `done`; and after it.
pub data Phase : Type 0 where
  looking choosing : Phase
  writing : Text → Phase
  failing draining : Phase
  flushing : Text → Phase
  leaving closing ended : Phase

-- `stopped` is whether `stop` is closed, and `attempted` what `Write` has been given, in order.
pub record Sender : Type 0 where
  pub queue : List Text
  pub once : Once
  pub stopped : Bool
  pub reason : Option Error
  pub conn_closed : Bool
  pub phase : Phase
  pub attempted : List Text

unfoldable pub new_sender : Sender
new_sender = record {
  queue = [];
  once = unused;
  stopped = false;
  reason = none;
  conn_closed = false;
  phase = looking;
  attempted = [];
}

-- `record`: the first reason stays.
unfoldable pub keep_first : Option Error → Option Error → Option Error
keep_first why none = why
keep_first why (some e) = some e

-- `stopOnce.Do`: the first call is let through.
unfoldable pub begin_once : Option Error → Once → Once
begin_once why unused = entered why
begin_once why (entered w) = entered w
begin_once why (recorded w) = recorded w
begin_once why (signalled w) = signalled w
begin_once why (used w) = used w

-- The entry of `finish`.
unfoldable pub enter_finish : Option Error → Sender → Sender
unfolding begin_once
enter_finish why s = record s { once = begin_once why s.once }

-- The next step of the call of `finish` that was let through.
unfoldable pub proceed_from : Once → Sender → Sender
unfolding keep_first
proceed_from unused s = s
proceed_from (entered why) s = record s { reason = keep_first why s.reason; once = recorded why }
proceed_from (recorded why) s = record s { stopped = true; once = signalled why }
proceed_from (signalled why) s = record s {
  conn_closed = is_some why || s.conn_closed;
  once = used why;
}
proceed_from (used why) s = s

unfoldable pub proceed : Sender → Sender
unfolding proceed_from
proceed s = proceed_from s.once s

-- The writer in `finish`: `Do` returns when the call that was let through is over. Until then that
-- call, the writer's or another goroutine's, takes its next step.
unfoldable pub await_once : Once → Sender → Sender
unfolding proceed_from
await_once unused s = proceed_from unused s
await_once (entered why) s = proceed_from (entered why) s
await_once (recorded why) s = proceed_from (recorded why) s
await_once (signalled why) s = proceed_from (signalled why) s
await_once (used why) s = record s { phase = leaving }

unfoldable pub failure : Sender → Error
failure s = elim s.reason [ none ↦ sender_closed | some e ↦ e ]

-- The first `select` of `Send`: the error that ends it, if it does.
unfoldable pub check : Sender → Option Error
unfolding failure
check s = if s.stopped then some (failure s) else none

-- The second `select` of `Send`, up to its entry of `finish` where the queue is full.
unfoldable pub enqueue : Text → Sender → Sender × Option Error
unfolding enter_finish
enqueue m s =
    if ltb (length s.queue) max_queued
    then (record s { queue = s.queue ++ (m ∷ []) }, none)
    else (enter_finish (some too_slow) s, some too_slow)

-- `Send` with nothing between its two `select`s.
unfoldable pub send : Text → Sender → Sender × Option Error
unfolding check enqueue
send m s = elim (check s) [ none ↦ enqueue m s | some e ↦ (s, some e) ]

-- `Close`, up to its entry of `finish`.
unfoldable pub close : Sender → Sender
unfolding enter_finish
close s = enter_finish none s

-- What `write` answers: what the connection's `Write` returned, an error or not, unless the timeout
-- came first.
unfoldable pub write : Option Bool → Option Error
write none = some timed_out
write (some failed) = if failed then some write_failed else none

-- The entry of `drain`.
unfoldable pub enter_drain : Sender → Sender
enter_drain s = record s { phase = if is_some s.reason then leaving else draining }

-- A message of the queue is handed to `Write`.
unfoldable pub hand_over : (Text → Phase) → List Text → Phase → Sender → Sender
hand_over next [] idle s = record s { phase = idle }
hand_over next (m ∷ rest) idle s = record s {
  queue = rest;
  phase = next m;
  attempted = s.attempted ++ (m ∷ []);
}

-- One step of the writer.
unfoldable pub advance_from : Phase → Bool → Option Error → Sender → Sender
unfolding enter_finish await_once enter_drain hand_over keep_first
advance_from looking stop_first answer s =
    if s.stopped then enter_drain s else record s { phase = choosing }
advance_from choosing stop_first answer s =
    if s.stopped && (stop_first || nat_eq (length s.queue) 0)
    then enter_drain s
    else hand_over writing s.queue choosing s
advance_from (writing m) stop_first none s = record s { phase = looking }
advance_from (writing m) stop_first (some e) s = record (enter_finish (some e) s) {
  phase = failing;
}
advance_from failing stop_first answer s = await_once s.once s
advance_from draining stop_first answer s = hand_over flushing s.queue leaving s
advance_from (flushing m) stop_first none s = record s { phase = draining }
advance_from (flushing m) stop_first (some e) s = record s {
  reason = keep_first (some e) s.reason;
  phase = leaving;
}
advance_from leaving stop_first answer s = record s { conn_closed = true; phase = closing }
advance_from closing stop_first answer s = record s { phase = ended }
advance_from ended stop_first answer s = s

unfoldable pub advance : Bool → Option Error → Sender → Sender
unfolding advance_from
advance stop_first answer s = advance_from s.phase stop_first answer s

-- Many steps of the writer, with nothing in between but a `finish` that it waits for.
unfoldable pub drive : List (Bool × Option Error) → Sender → Sender
unfolding advance
drive [] s = s
drive ((stop_first, answer) ∷ rest) s = drive rest (advance stop_first answer s)
