-- ===== src/Sender/Ending.antt =====
-- internal/wire/send.go: what a stopped sender has done when it ends.
use mathlib.Core.List.{append-nil}
use hoersaal.Base.{
  ◌≡◌, refl, sym, ◌∙◌, ap, ◌⊎◌, inl, inr, ◌≤◌, arith, Bool, true, false, ◌&&◌, ◌||◌, Option, none,
  some, List, [], ◌∷◌, ◌++◌, length, nat_eq, if_lem, Bool-cases,
}
use hoersaal.Text.{Text}
use hoersaal.Domain.Conference.{is_some}
use hoersaal.Sender.Machine.{
  Error, Phase, looking, choosing, writing, failing, draining, flushing, leaving, closing, ended,
  Sender, enter_drain, hand_over, advance_from, advance, drive,
}
use hoersaal.Sender.Steps.{World, Steps, start}
use hoersaal.Sender.Orderly.{IsOrderly}
use hoersaal.Sender.Order.{Steps-IsOrderly}
use hoersaal.Sender.Progress.{rank, rank-max, drive_ends, drive-IsOrderly}

-- The writer has left its loops: it is in `finish` after a write failed, or past it.
abbrev pub is_leaving : Phase → Bool
is_leaving failing = true
is_leaving leaving = true
is_leaving closing = true
is_leaving ended = true
is_leaving _ = false

-- Some write fails.
abbrev pub any_failed : List (Bool × Option Error) → Bool
any_failed [] = false
any_failed ((b, a) ∷ rest) = is_some a || any_failed rest

-- Without a reason, the writer leaves its loops only with nothing queued.
record IsCalm (s : Sender) : Type 0 where
  no_reason : s.reason ≡ none
  stays : s.stopped ≡ true
  unfailing : s.phase ≡ failing → ⊥
  emptied : is_leaving s.phase ≡ true → s.queue ≡ []

hand_over-IsCalm :
    (to : Text → Phase) (queue : List Text) (idle : Phase) (s : Sender)
    → s.queue ≡ queue
    → ((m : Text) → is_leaving (to m) ≡ false)
    → (idle ≡ failing → ⊥)
    → IsCalm s
    → IsCalm (hand_over to queue idle s)
unfolding hand_over
hand_over-IsCalm to [] idle s e n i k = record {
  no_reason = k.no_reason;
  stays = k.stays;
  unfailing = i;
  emptied = λ h. e;
}
hand_over-IsCalm to (m ∷ rest) idle s e n i k = record {
  no_reason = k.no_reason;
  stays = k.stays;
  unfailing = λ f. let late : true ≡ false = sym (ap is_leaving f) ∙ n m in cc;
  emptied = λ h. absurd (let bad : true ≡ false = sym h ∙ n m in cc);
}

enter_drain-IsCalm : (s : Sender) → IsCalm s → IsCalm (enter_drain s)
unfolding enter_drain
enter_drain-IsCalm s k =
    if_lem (λ p. IsCalm (record s { phase = p })) (is_some s.reason)
      (λ q. absurd (let bad : false ≡ true = rw k.no_reason at q in cc))
      (λ q. record {
        no_reason = k.no_reason;
        stays = k.stays;
        unfailing = λ f. cc;
        emptied = λ h. cc;
      })

advance_from-IsCalm :
    (p : Phase) (b : Bool) (s : Sender) → s.phase ≡ p → IsCalm s → IsCalm (advance_from p b none s)
unfolding advance_from
advance_from-IsCalm looking b s e k =
    if_lem IsCalm s.stopped (λ q. enter_drain-IsCalm s k)
      (λ q. absurd (let bad : true ≡ false = sym k.stays ∙ q in cc))
advance_from-IsCalm choosing b s e k =
    if_lem IsCalm (s.stopped && (b || nat_eq (length s.queue) 0)) (λ q. enter_drain-IsCalm s k)
      (λ q. hand_over-IsCalm writing s.queue choosing s refl (λ m. refl) (λ f. cc) k)
advance_from-IsCalm (writing m) b s e k = record {
  no_reason = k.no_reason;
  stays = k.stays;
  unfailing = λ f. cc;
  emptied = λ h. cc;
}
advance_from-IsCalm failing b s e k = absurd (k.unfailing e)
advance_from-IsCalm draining b s e k =
    hand_over-IsCalm flushing s.queue leaving s refl (λ m. refl) (λ f. cc) k
advance_from-IsCalm (flushing m) b s e k = record {
  no_reason = k.no_reason;
  stays = k.stays;
  unfailing = λ f. cc;
  emptied = λ h. cc;
}
advance_from-IsCalm leaving b s e k = record {
  no_reason = k.no_reason;
  stays = k.stays;
  unfailing = λ f. cc;
  emptied = λ h. k.emptied (rw e refl);
}
advance_from-IsCalm closing b s e k = record {
  no_reason = k.no_reason;
  stays = k.stays;
  unfailing = λ f. cc;
  emptied = λ h. k.emptied (rw e refl);
}
advance_from-IsCalm ended b s e k = k

drive-IsCalm :
    (choices : List (Bool × Option Error)) (s : Sender)
    → any_failed choices ≡ false
    → IsCalm s
    → IsCalm (drive choices s)
unfolding drive advance
drive-IsCalm [] s f k = k
drive-IsCalm ((b, none) ∷ rest) s f k =
    drive-IsCalm rest (advance b none s) f (advance_from-IsCalm s.phase b s refl k)
drive-IsCalm ((b, some e) ∷ rest) s f k = cc

-- What a stopped sender has accepted is written, unless there was a reason, or the writer had left
-- its loops, or a write fails.
drive_writes :
    (taken : List Text) (choices : List (Bool × Option Error)) (s : Sender)
    → IsOrderly taken s
    → s.stopped ≡ true
    → (drive choices s).phase ≡ ended
    → (is_some s.reason || (is_leaving s.phase || any_failed choices)) ≡ false
    → (drive choices s).attempted ≡ taken
drive_writes taken choices s k st e q =
    let calm : IsCalm s = record {
      no_reason = ground arith;
      stays = st;
      unfailing = λ f. let late : is_leaving s.phase ≡ true = ap is_leaving f in ground arith;
      emptied = λ h. ground arith;
    } in
    let after : IsCalm (drive choices s) = drive-IsCalm choices s (ground arith) calm in
    let all : IsOrderly taken (drive choices s) = drive-IsOrderly taken choices s k in
    let empty : (drive choices s).queue ≡ [] = after.emptied (rw e refl) in
    sym (
      all.in_order
      ∙ ap (λ q. (drive choices s).attempted ++ q) empty
      ∙ append-nil (drive choices s).attempted)

-- From any stopped sender that an interleaving leads to, 261 steps of the writer with nothing in
-- between end it, whatever its writes answer, and the connection is then closed; and Write has been
-- given all that was accepted, unless there was a reason, or the writer had left its loops, or a
-- write fails.
pub drive-IsDone :
    (w : World) (choices : List (Bool × Option Error))
    → Steps start w
    → w.sender.stopped ≡ true
    → 261 ≤ length choices
    → ((drive choices w.sender).phase ≡ ended)
      × ((drive choices w.sender).conn_closed ≡ true)
      × (((drive choices w.sender).attempted ≡ w.accepted)
          ⊎ ((is_some w.sender.reason || (is_leaving w.sender.phase || any_failed choices)) ≡ true))
drive-IsDone w choices h st enough =
    let s : Sender = w.sender in
    let k : IsOrderly w.accepted s = Steps-IsOrderly h in
    let most : rank s.phase s.once ≤ 5 = rank-max s.phase s.once in
    let e : (drive choices s).phase ≡ ended =
      drive_ends choices s st (sym k.follows ∙ st) (omega (arith, enough, most, k.bounded)) in
    let all : IsOrderly w.accepted (drive choices s) = drive-IsOrderly w.accepted choices s k in
    (
      e,
      all.closed_after (rw e refl),
      elim (Bool-cases (is_some s.reason || (is_leaving s.phase || any_failed choices))) [
        | inl q ↦ inr q
        | inr q ↦ inl (drive_writes w.accepted choices s k st e q)
      ],
    )
