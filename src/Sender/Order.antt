-- ===== src/Sender/Order.antt =====
-- internal/wire/send.go: that a sender stays orderly in every interleaving.
use mathlib.Core.List.{append_assoc}
use hoersaal.Base.{
  ◌≡◌, refl, sym, ◌∙◌, ap, inl, inr, Option-cases, ◌≤◌, arith, Bool, true, false, ◌&&◌, ◌||◌,
  Option, none, some, List, [], ◌∷◌, ◌++◌, length, length-append, ltb, nat_eq, if_lem,
}
use hoersaal.Text.{Text}
use hoersaal.Domain.Conference.{is_some}
use hoersaal.Sender.Machine.{
  max_queued, Error, too_slow, Once, unused, entered, recorded, signalled, used, enter_finish,
  proceed, await_once, Phase, looking, choosing, writing, failing, draining, flushing, leaving,
  closing, ended, Sender, keep_first, enqueue, close, enter_drain, hand_over, advance_from, advance,
  new_sender,
}
use hoersaal.Sender.Steps.{
  World, accept, Step, passes, puts, closes, proceeds, advances, Steps, done, next, start,
}
use hoersaal.Sender.Orderly.{
  is_over, is_emptying, MayDrain, recorded_fault, IsOrderly, enter_finish-IsOrderly,
  proceed_from-IsOrderly, past_stop-past_record,
}

-- The writer goes on to a phase that is not over.
to_phase :
    (taken : List Text) (p : Phase) (s : Sender)
    → is_over p ≡ false
    → (is_emptying p ≡ true → MayDrain s)
    → IsOrderly taken s
    → IsOrderly taken (record s { phase = p })
to_phase taken p s n d k = record {
  in_order = k.in_order;
  bounded = k.bounded;
  explained = k.explained;
  kept = k.kept;
  follows = k.follows;
  emptied = d;
  closed_after = λ h. ground arith;
  closed_by = k.closed_by;
}

hand_over-IsOrderly :
    (taken : List Text) (to : Text → Phase) (queue : List Text) (idle : Phase) (s : Sender)
    → s.queue ≡ queue
    → ((m : Text) → is_over (to m) ≡ false)
    → is_over idle ≡ false
    → ((m : Text) → is_emptying (to m) ≡ true → MayDrain s)
    → (is_emptying idle ≡ true → MayDrain s)
    → IsOrderly taken s
    → IsOrderly taken (hand_over to queue idle s)
unfolding hand_over
hand_over-IsOrderly taken to [] idle s e n i d j k = to_phase taken idle s i j k
hand_over-IsOrderly taken to (m ∷ rest) idle s e n i d j k = record {
  in_order =
      k.in_order ∙ ap (λ q. s.attempted ++ q) e ∙ sym (append_assoc s.attempted (m ∷ []) rest);
  bounded =
      let shorter : length s.queue ≡ length (m ∷ rest) = ap length e in
      omega (arith, k.bounded, shorter);
  explained = k.explained;
  kept = k.kept;
  follows = k.follows;
  emptied = d m;
  closed_after = λ h. ground (arith, n m);
  closed_by = k.closed_by;
}

no_fault :
    (taken : List Text) (s : Sender)
    → is_some s.reason ≡ false
    → IsOrderly taken s
    → recorded_fault s.once ≡ none
no_fault taken s q k = elim (Option-cases (recorded_fault s.once)) [
  | inl f ↦ f
  | inr (e, f) ↦ absurd (let bad : true ≡ false = sym (ap is_some (k.kept e f)) ∙ q in cc)
]

enter_drain-IsOrderly :
    (taken : List Text) (s : Sender)
    → s.stopped ≡ true
    → IsOrderly taken s
    → IsOrderly taken (enter_drain s)
unfolding enter_drain
enter_drain-IsOrderly taken s e k =
    if_lem (λ p. IsOrderly taken (record s { phase = p })) (is_some s.reason)
      (λ q. to_phase taken leaving s refl (λ h. cc) k)
      (λ q. to_phase taken draining s refl (λ h. (e, no_fault taken s q k)) k)

await_once-IsOrderly :
    (taken : List Text) (o : Once) (s : Sender)
    → s.once ≡ o
    → IsOrderly taken s
    → IsOrderly taken (await_once o s)
unfolding await_once
await_once-IsOrderly taken unused s e k = proceed_from-IsOrderly taken unused s e k
await_once-IsOrderly taken (entered why) s e k = proceed_from-IsOrderly taken (entered why) s e k
await_once-IsOrderly taken (recorded why) s e k = proceed_from-IsOrderly taken (recorded why) s e k
await_once-IsOrderly taken (signalled why) s e k =
    proceed_from-IsOrderly taken (signalled why) s e k
await_once-IsOrderly taken (used why) s e k = to_phase taken leaving s refl (λ h. cc) k

pub advance_from-IsOrderly :
    (taken : List Text) (p : Phase) (b : Bool) (a : Option Error) (s : Sender)
    → s.phase ≡ p
    → IsOrderly taken s
    → IsOrderly taken (advance_from p b a s)
unfolding advance_from keep_first
advance_from-IsOrderly taken looking b a s e k =
    if_lem (IsOrderly taken) s.stopped (λ q. enter_drain-IsOrderly taken s q k)
      (λ q. to_phase taken choosing s refl (λ h. cc) k)
advance_from-IsOrderly taken choosing b a s e k =
    if_lem (IsOrderly taken) (s.stopped && (b || nat_eq (length s.queue) 0))
      (λ q. enter_drain-IsOrderly taken s (ground arith) k)
      (λ q.
        hand_over-IsOrderly taken writing s.queue choosing s refl (λ m. refl) refl (λ m h. cc)
          (λ h. cc) k)
advance_from-IsOrderly taken (writing m) b none s e k = to_phase taken looking s refl (λ h. cc) k
advance_from-IsOrderly taken (writing m) b (some why) s e k =
    to_phase taken failing (enter_finish (some why) s) refl (λ h. cc)
      (enter_finish-IsOrderly taken (some why) s k)
advance_from-IsOrderly taken failing b a s e k = await_once-IsOrderly taken s.once s refl k
advance_from-IsOrderly taken draining b a s e k =
    hand_over-IsOrderly taken flushing s.queue leaving s refl (λ m. refl) refl
      (λ m h. k.emptied (rw e refl)) (λ h. cc) k
advance_from-IsOrderly taken (flushing m) b none s e k =
    to_phase taken draining s refl (λ h. k.emptied (rw e refl)) k
advance_from-IsOrderly taken (flushing m) b (some why) s e k = record {
  in_order = k.in_order;
  bounded = k.bounded;
  explained = λ h. past_stop-past_record s.once (sym k.follows ∙ (k.emptied (rw e refl)).0);
  kept = λ x h. absurd (let deliberate = (k.emptied (rw e refl)).1 in cc);
  follows = k.follows;
  emptied = λ h. cc;
  closed_after = λ h. cc;
  closed_by = k.closed_by;
}
advance_from-IsOrderly taken leaving b a s e k = record {
  in_order = k.in_order;
  bounded = k.bounded;
  explained = k.explained;
  kept = k.kept;
  follows = k.follows;
  emptied = λ h. cc;
  closed_after = λ h. refl;
  closed_by = λ x h. refl;
}
advance_from-IsOrderly taken closing b a s e k = record {
  in_order = k.in_order;
  bounded = k.bounded;
  explained = k.explained;
  kept = k.kept;
  follows = k.follows;
  emptied = λ h. cc;
  closed_after = λ h. k.closed_after (rw e refl);
  closed_by = k.closed_by;
}
advance_from-IsOrderly taken ended b a s e k = k

enqueue-IsOrderly :
    (taken : List Text) (m : Text) (s : Sender)
    → IsOrderly taken s
    → IsOrderly (accept m (enqueue m s).1 taken) (enqueue m s).0
unfolding enqueue
enqueue-IsOrderly taken m s k =
    if_lem (λ (r : Sender × Option Error). IsOrderly (accept m r.1 taken) r.0)
      (ltb (length s.queue) max_queued)
      (λ q. record {
        in_order = ap (λ t. t ++ (m ∷ [])) k.in_order ∙ append_assoc s.attempted s.queue (m ∷ []);
        bounded =
            let room : length s.queue ≤ 63 = ground arith in
            omega (arith, room, length-append s.queue (m ∷ []));
        explained = k.explained;
        kept = k.kept;
        follows = k.follows;
        emptied = k.emptied;
        closed_after = k.closed_after;
        closed_by = k.closed_by;
      })
      (λ q. enter_finish-IsOrderly taken (some too_slow) s k)

Step-IsOrderly :
    {w v : World} → Step w v → IsOrderly w.accepted w.sender → IsOrderly v.accepted v.sender
unfolding close proceed advance
Step-IsOrderly (passes m h) k = k
Step-IsOrderly {w = w} (puts before after m h) k = enqueue-IsOrderly w.accepted m w.sender k
Step-IsOrderly {w = w} closes k = enter_finish-IsOrderly w.accepted none w.sender k
Step-IsOrderly {w = w} proceeds k = proceed_from-IsOrderly w.accepted w.sender.once w.sender refl k
Step-IsOrderly {w = w} (advances b a) k =
    advance_from-IsOrderly w.accepted w.sender.phase b a w.sender refl k

start-IsOrderly : IsOrderly start.accepted start.sender
unfolding new_sender
start-IsOrderly = record {
  in_order = refl;
  bounded = omega arith;
  explained = λ h. cc;
  kept = λ x h. cc;
  follows = refl;
  emptied = λ h. cc;
  closed_after = λ h. cc;
  closed_by = λ x h. cc;
}

-- In any interleaving of sends, closings, steps of the writer and the single steps of finish
-- (recording the reason, closing stop, closing the connection) on a new sender, what Send has
-- accepted is, in one order, what Write was given and then what is queued; at most 64 messages are
-- queued; a reason is kept only once finish has recorded its own, and an error that finish has
-- recorded is the reason kept; stop is closed just when finish is past closing it, which is after
-- that recording; the writer drains only with stop closed and no error recorded by finish; and the
-- connection is closed when the writer is over and when a finish with an error is over.
pub Steps-IsOrderly : {w : World} → Steps start w → IsOrderly w.accepted w.sender
Steps-IsOrderly h = kept h refl
  where
    kept : {w v : World} → Steps w v → w ≡ start → IsOrderly v.accepted v.sender
    kept done e = rw e start-IsOrderly
    kept (next h s) e = Step-IsOrderly s (kept h e)
