-- ===== src/Lib.antt =====
-- The control plane of hoersaal, a conference server: what a conference holds, where a
-- conference and its participants are placed, which media units there are, and what a client is
-- told of a room.
--
-- Parts, and the files that model them:
--
-- - internal/domain/domain.go: the aggregate `Conference`. Domain/Model has its values and their
--   constructors, Domain/Conference its methods (`Admit`, `Publish`, `Subscribe`, the counts and
--   `Reception`); Operations, Integrity, Counts and Receptions have the proofs.
-- - internal/placement/placement.go: the naive placer. Placement/Records has the records it
--   reads and their constructors, Placement/Naive the search `lowest` and the two questions;
--   Lowest, Conferences, Participants and Honesty have the proofs.
-- - internal/pool/pool.go: the record of the units. Pool/Rows has a row, Pool/Proof the
--   registration proof, Pool/Methods the pool and its methods (Marks, Loads), Pool/Moves the
--   state machine as a relation on rows, Pool/Calls the methods as one step function; the other
--   files have the proofs. The pool's view is built by the placer's constructors, and
--   Pool/Placing proves what a placement on that view means.
-- - internal/presence/presence.go: what a client is told of the others in a room.
--   Presence/Records has the roll and its summary, Presence/Pages the pages of the full list,
--   Presence/Emitter when a summary is due; Gathering, Choosing, Rolls, Assembly, Cursor,
--   Paging, Walk and Emission have the proofs.
-- - internal/roomcred/roomcred.go: the signed credential that admits to a room. RoomCred/Layout
--   has the signed bytes and their reader, RoomCred/Methods the issuer and the verifier;
--   Numbers, Fields, Decoding and Verifying have the proofs.
-- - internal/mediaport/mediaport.go: the errors and the values of a media unit's port are in
--   MediaPort.
-- - internal/admission/admission.go: from a credential to a participant on a unit.
--   Admission/Records has requests, grants, refusals and the desk with its seams, Admission/Desk
--   the exchange (`Admit` with `prepare` before a unit is told and `settle` after, `Arrived`,
--   `Sweep`). Offers, Requests and Cleared say what stands when a unit is told, Told what one
--   admission does, Outstanding, Sweeping and Histories what the desk waits for, and Assembled
--   what a desk does with the verifier of RoomCred, the placer of Placement and the view of
--   Pool.
-- - internal/wire/wire.go: the envelope and `Encode` are in Wire, since a page is cut to what
--   they carry.
-- - internal/wire/send.go: the queue of one client. Sender/Machine has the sender, with `Send`
--   as its two selects, the steps of `finish`, and the writer goroutine as a step function;
--   Sender/Steps has the interleavings as a relation; Orderly, Order, Progress, Ending and Loss
--   have the proofs.
-- - internal/mediafake/mediafake.go: the stand-in for a media unit. MediaFake/Records has the
--   units of a fabric and what a test sets, MediaFake/Units the operations of the port; Entries,
--   Books, Histories, Fitting and Receptions have the proofs. A unit is a record, and an
--   operation that looks at the other units takes the fabric; `CloseConference` answers what it
--   does to each of them.
--
-- Shared: Base (tests, lists, results, signed integers), Text (Go strings as bytes, their order,
-- the sort by a string key), Dict (Go maps), Time (instants and durations), Float (the float64
-- interface).
--
-- How the code is modelled. A method that changes its receiver returns the new record, or the
-- error that it wraps; on an error the caller keeps the old record; an operation that changes
-- its receiver also where it fails answers both. The words of error messages are left out, and
-- so is the name inside a struct that wraps one string: an identifier, a role or a kind is its
-- string. A string is its bytes. A map is an association list whose order stands for the order
-- of a walk; where the order of a walk could show in what the domain, the placer or presence
-- answers, a theorem says that it does not matter. Which of two sources with one identifier on
-- linked stand-in units counts is left to `sort.Slice`, which is a parameter there. `int` is a
-- signed integer without bounds, since the code only compares it. `float64` is any type with the
-- operations that the code uses; theorems take as a hypothesis the laws of IEEE 754 that they
-- need. A time counts nanoseconds since Go's zero time and does not go below it; `Sub` and the
-- negation of a duration have the ends of int64, and differences of durations wrap. A mutex
-- makes a method one step. `finish` of a sender is not under one lock: its recording, its
-- closing of `stop` and its closing of the connection are single steps, between which other
-- goroutines run. `Collect`, which gives it up while it asks, is modelled with no other call in
-- between, and takes what each handle answers, and the clock when the answer is recorded, as a
-- function. The clock's reading, the handle of a unit and the keyed digest (HMAC with SHA-256)
-- are arguments, and so are `sort.Slice` where keys can be equal, Go's JSON encoder and validity
-- test, base64url, the strict JSON decoder of a request, and the seams of the desk (the unit
-- that is told, the powers of a role, the names, by the index of the call within one admission).
-- An end of a credential's window is a signed number of nanoseconds, since a decoded one may lie
-- before the zero time. `Admit` is one step of the desk: its writes to the desk are one, at its
-- end, under the lock. A nil row, which would be a run-time panic, is an error of its own. No
-- fuel is used: every loop runs over a list, and the writer of a sender, whose loop has no end
-- of its own, is a step function that a list of choices drives. The client that walks the pages
-- is not code of the repository; its fuel is the number of entries and one more.
--
-- Not modelled: the text of errors and of `String` methods, the redacting `Format` of the pool,
-- plain field accessors, the fault streams of the stand-in unit, and the packages that the
-- manifest lists as not modelled.
pub mod Base
pub mod Text
pub mod Dict
pub mod Time
pub mod Float
pub mod Domain
pub mod Placement
pub mod Pool
pub mod Wire
pub mod Presence
pub mod RoomCred
pub mod MediaPort
pub mod Admission
pub mod Sender
pub mod MediaFake
