-- ===== src/Sender/Progress.antt =====
-- internal/wire/send.go: that a stopped sender ends, whatever its writes answer.
use hoersaal.Base.{
  ◌≡◌, refl, sym, ◌∙◌, ap, subst, ◌⊎◌, inl, inr, ℕ, suc, ◌+◌, ◌*◌, ◌≤◌, arith, Bool, true, false,
  ◌&&◌, ◌||◌, Option, none, some, List, [], ◌∷◌, length, nat_eq, if_lem,
}
use hoersaal.Text.{Text}
use hoersaal.Domain.Conference.{is_some}
use hoersaal.Sender.Machine.{
  Error, Phase, looking, choosing, writing, draining, failing, flushing, leaving, closing, ended,
  Sender, Once, unused, entered, recorded, signalled, used, begin_once, enter_finish, proceed_from,
  await_once, enter_drain, hand_over, advance_from, advance, drive,
}
use hoersaal.Sender.Orderly.{past_stop, IsOrderly}
use hoersaal.Sender.Order.{advance_from-IsOrderly}

-- What a writer in `finish` waits for, once `stop` is closed.
abbrev pub to_do : Once → ℕ
to_do (used why) = 0
to_do _ = 1

-- What is left to do, in steps of the writer.
abbrev pub rank : Phase → Once → ℕ
rank ended o = 0
rank closing o = 1
rank leaving o = 2
rank failing o = 3 + to_do o
rank draining o = 3
rank (flushing m) o = 4
rank looking o = 4
rank choosing o = 4
rank (writing m) o = 5

abbrev pub left : Sender → ℕ
left s = 4 * length s.queue + rank s.phase s.once

to_do-max : (o : Once) → to_do o ≤ 1
to_do-max unused = omega arith
to_do-max (entered why) = omega arith
to_do-max (recorded why) = omega arith
to_do-max (signalled why) = omega arith
to_do-max (used why) = omega arith

pub rank-max : (p : Phase) (o : Once) → rank p o ≤ 5
rank-max ended o = omega arith
rank-max looking o = omega arith
rank-max choosing o = omega arith
rank-max (writing m) o = omega arith
rank-max failing o = omega (arith, to_do-max o)
rank-max draining o = omega arith
rank-max (flushing m) o = omega arith
rank-max leaving o = omega arith
rank-max closing o = omega arith

begin_once_past : (why : Option Error) (o : Once) → past_stop o ≡ true → begin_once why o ≡ o
unfolding begin_once
begin_once_past why unused h = cc
begin_once_past why (entered w) h = cc
begin_once_past why (recorded w) h = cc
begin_once_past why (signalled w) h = refl
begin_once_past why (used w) h = refl

-- A stopped sender stays stopped, and a step brings it nearer to its end.
Nearer : ℕ → Sender → Type 0
Nearer n t = (t.stopped ≡ true) × (past_stop t.once ≡ true) × (left t ≤ n)

hand_over-Nearer :
    (to : Text → Phase) (queue : List Text) (idle : Phase) (s : Sender) (n : ℕ)
    → s.queue ≡ queue
    → s.stopped ≡ true
    → past_stop s.once ≡ true
    → ((m : Text) → rank (to m) s.once ≤ 5)
    → (queue ≡ [] → rank idle s.once ≤ n)
    → 4 * length queue + 1 ≤ n
    → Nearer n (hand_over to queue idle s)
unfolding hand_over Nearer
hand_over-Nearer to [] idle s n e st ps r i h = (
  st,
  ps,
  let none_left : length s.queue ≡ 0 = ap length e in
      let idles : rank idle s.once ≤ n = i refl in omega (arith, none_left, idles),
)
hand_over-Nearer to (m ∷ rest) idle s n e st ps r i h =
    (st, ps, let r_m : rank (to m) s.once ≤ 5 = r m in omega (arith, r_m, h))

enter_drain-Nearer :
    (s : Sender) (n : ℕ)
    → s.stopped ≡ true
    → past_stop s.once ≡ true
    → 4 * length s.queue + 3 ≤ n
    → Nearer n (enter_drain s)
unfolding enter_drain Nearer
enter_drain-Nearer s n st ps h =
    if_lem (λ p. Nearer n (record s { phase = p })) (is_some s.reason)
      (λ q. (st, ps, omega (arith, h))) (λ q. (st, ps, omega (arith, h)))

await_once-Nearer :
    (o : Once) (s : Sender) (n : ℕ)
    → s.once ≡ o
    → s.stopped ≡ true
    → past_stop o ≡ true
    → 4 * length s.queue + rank failing o ≤ suc n
    → (s.phase ≡ failing)
    → Nearer n (await_once o s)
unfolding await_once proceed_from Nearer
await_once-Nearer unused s n e st ps h f = cc
await_once-Nearer (entered why) s n e st ps h f = cc
await_once-Nearer (recorded why) s n e st ps h f = cc
await_once-Nearer (signalled why) s n e st ps h f =
    let now : rank s.phase (used why) ≡ 3 = ap (λ p. rank p (used why)) f in
    (st, refl, omega (arith, h, now))
await_once-Nearer (used why) s n e st ps h f = (st, ap past_stop e, omega (arith, h))

advance_from-Nearer :
    (p : Phase) (b : Bool) (a : Option Error) (s : Sender) (n : ℕ)
    → s.phase ≡ p
    → s.stopped ≡ true
    → past_stop s.once ≡ true
    → (p ≡ ended → ⊥)
    → 4 * length s.queue + rank p s.once ≤ suc n
    → Nearer n (advance_from p b a s)
unfolding advance_from enter_finish Nearer
advance_from-Nearer looking b a s n here st ps e h =
    if_lem (Nearer n) s.stopped (λ q. enter_drain-Nearer s n st ps (omega (arith, h)))
      (λ q. absurd (let bad : true ≡ false = sym st ∙ q in cc))
advance_from-Nearer choosing b a s n here st ps e h =
    if_lem (Nearer n) (s.stopped && (b || nat_eq (length s.queue) 0))
      (λ q. enter_drain-Nearer s n st ps (omega (arith, h)))
      (λ q.
        hand_over-Nearer writing s.queue choosing s n refl st ps (λ m. omega arith)
          (λ nil. let empty : length s.queue ≡ 0 = ap length nil in absurd (ground arith))
          (omega (arith, h)))
advance_from-Nearer (writing m) b none s n here st ps e h = (st, ps, omega (arith, h))
advance_from-Nearer (writing m) b (some why) s n here st ps e h =
    subst (λ o. Nearer n (record s { once = o; phase = failing }))
      (sym (begin_once_past (some why) s.once ps)) (st, ps, omega (arith, h, to_do-max s.once))
advance_from-Nearer failing b a s n here st ps e h = await_once-Nearer s.once s n refl st ps h here
advance_from-Nearer draining b a s n here st ps e h =
    hand_over-Nearer flushing s.queue leaving s n refl st ps (λ m. omega arith)
      (λ nil. omega (arith, h)) (omega (arith, h))
advance_from-Nearer (flushing m) b none s n here st ps e h = (st, ps, omega (arith, h))
advance_from-Nearer (flushing m) b (some why) s n here st ps e h = (st, ps, omega (arith, h))
advance_from-Nearer leaving b a s n here st ps e h = (st, ps, omega (arith, h))
advance_from-Nearer closing b a s n here st ps e h = (st, ps, omega (arith, h))
advance_from-Nearer ended b a s n here st ps e h = absurd (e refl)

-- The phases with the last one apart.
ended-cases : (p : Phase) (o : Once) → (p ≡ ended) ⊎ ((p ≡ ended → ⊥) × (1 ≤ rank p o))
ended-cases ended o = inl refl
ended-cases looking o = inr (λ h. cc, omega arith)
ended-cases choosing o = inr (λ h. cc, omega arith)
ended-cases (writing m) o = inr (λ h. cc, omega arith)
ended-cases failing o = inr (λ h. cc, omega arith)
ended-cases draining o = inr (λ h. cc, omega arith)
ended-cases (flushing m) o = inr (λ h. cc, omega arith)
ended-cases leaving o = inr (λ h. cc, omega arith)
ended-cases closing o = inr (λ h. cc, omega arith)

pub advance_ended : (b : Bool) (a : Option Error) (s : Sender) → s.phase ≡ ended → advance b a s ≡ s
unfolding advance advance_from
advance_ended b a s e = rw e refl

drive_ended :
    (choices : List (Bool × Option Error)) (s : Sender) → s.phase ≡ ended → drive choices s ≡ s
unfolding drive
drive_ended [] s e = refl
drive_ended ((b, a) ∷ rest) s e = rw (advance_ended b a s e) (drive_ended rest s e)

-- Steps of the writer that outnumber what is left end it.
pub drive_ends :
    (choices : List (Bool × Option Error)) (s : Sender)
    → s.stopped ≡ true
    → past_stop s.once ≡ true
    → left s ≤ length choices
    → (drive choices s).phase ≡ ended
unfolding drive advance Nearer
drive_ends [] s st ps h = elim (ended-cases s.phase s.once) [
  | inl e ↦ e
  | inr (n, some_left) ↦ absurd (omega (arith, h, some_left))
]
drive_ends ((b, a) ∷ rest) s st ps h = elim (ended-cases s.phase s.once) [
  | inl e ↦
      ap (λ (t : Sender). t.phase) (ap (drive rest) (advance_ended b a s e) ∙ drive_ended rest s e)
      ∙ e
  | inr (n, _) ↦
      let (still, past, nearer) = advance_from-Nearer s.phase b a s (length rest) refl st ps n h in
      drive_ends rest (advance b a s) still past nearer
]

pub drive-IsOrderly :
    (taken : List Text) (choices : List (Bool × Option Error)) (s : Sender)
    → IsOrderly taken s
    → IsOrderly taken (drive choices s)
unfolding drive advance
drive-IsOrderly taken [] s k = k
drive-IsOrderly taken ((b, a) ∷ rest) s k =
    drive-IsOrderly taken rest (advance b a s) (advance_from-IsOrderly taken s.phase b a s refl k)
