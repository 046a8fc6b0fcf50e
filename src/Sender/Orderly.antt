-- ===== src/Sender/Orderly.antt =====
-- internal/wire/send.go: when a sender is orderly, and the steps of `finish`.
use hoersaal.Base.{
  ◌≡◌, refl, sym, ◌∙◌, ap, subst, ◌⊎◌, inl, inr, Option-cases, ◌≤◌, arith, Bool, true, false,
  Option, none, some, List, ◌++◌, length,
}
use hoersaal.Text.{Text}
use hoersaal.Domain.Conference.{is_some}
use hoersaal.Sender.Machine.{
  max_queued, Error, Once, unused, entered, recorded, signalled, used, begin_once, enter_finish,
  proceed_from, Phase, draining, flushing, closing, ended, Sender, keep_first,
}

-- The connection is closed when the writer reaches these.
abbrev pub is_over : Phase → Bool
is_over closing = true
is_over ended = true
is_over _ = false

abbrev pub is_emptying : Phase → Bool
is_emptying draining = true
is_emptying (flushing m) = true
is_emptying _ = false

abbrev pub past_record : Once → Bool
past_record unused = false
past_record (entered why) = false
past_record _ = true

abbrev pub past_stop : Once → Bool
past_stop (signalled why) = true
past_stop (used why) = true
past_stop _ = false

-- The reason that `finish` has recorded by now.
abbrev pub recorded_fault : Once → Option Error
recorded_fault unused = none
recorded_fault (entered why) = none
recorded_fault (recorded why) = why
recorded_fault (signalled why) = why
recorded_fault (used why) = why

-- The sender was closed deliberately.
abbrev pub MayDrain : Sender → Type 0
MayDrain s = (s.stopped ≡ true) × (recorded_fault s.once ≡ none)

-- What was accepted is what was handed to `Write` and then what waits, in one order; the queue is
-- bounded; a reason is kept only once `finish` has recorded its own, and if that is an error it is the
-- one kept; `stop` is closed just when `finish` is past closing it; the writer drains only after a
-- deliberate closing; and the connection is closed when the writer or a `finish` with an error is over.
pub record IsOrderly (taken : List Text) (s : Sender) : Type 0 where
  pub in_order : taken ≡ s.attempted ++ s.queue
  pub bounded : length s.queue ≤ max_queued
  pub explained : is_some s.reason ≡ true → past_record s.once ≡ true
  pub kept : (e : Error) → recorded_fault s.once ≡ some e → s.reason ≡ some e
  pub follows : s.stopped ≡ past_stop s.once
  pub emptied : is_emptying s.phase ≡ true → MayDrain s
  pub closed_after : is_over s.phase ≡ true → s.conn_closed ≡ true
  pub closed_by : (e : Error) → s.once ≡ used (some e) → s.conn_closed ≡ true

begin_once-cases :
    (why : Option Error) (o : Once)
    → (begin_once why o ≡ o) ⊎ ((o ≡ unused) × (begin_once why o ≡ entered why))
unfolding begin_once
begin_once-cases why unused = inr (refl, refl)
begin_once-cases why (entered w) = inl refl
begin_once-cases why (recorded w) = inl refl
begin_once-cases why (signalled w) = inl refl
begin_once-cases why (used w) = inl refl

pub past_stop-past_record : (o : Once) → past_stop o ≡ true → past_record o ≡ true
past_stop-past_record unused h = cc
past_stop-past_record (entered why) h = cc
past_stop-past_record (recorded why) h = refl
past_stop-past_record (signalled why) h = refl
past_stop-past_record (used why) h = refl

pub enter_finish-IsOrderly :
    (taken : List Text) (why : Option Error) (s : Sender)
    → IsOrderly taken s
    → IsOrderly taken (enter_finish why s)
unfolding enter_finish
enter_finish-IsOrderly taken why s k = elim (begin_once-cases why s.once) [
  | inl e ↦ subst (λ o. IsOrderly taken (record s { once = o })) (sym e) k
  | inr (fresh, e) ↦
      subst (λ o. IsOrderly taken (record s { once = o })) (sym e)
        (record {
          in_order = k.in_order;
          bounded = k.bounded;
          explained = λ h.
              let early : past_record s.once ≡ false = ap past_record fresh in
              let late : past_record s.once ≡ true = k.explained h in cc;
          kept = λ x h. cc;
          follows = k.follows ∙ ap past_stop fresh;
          emptied = λ h. ((k.emptied h).0, refl);
          closed_after = k.closed_after;
          closed_by = λ x h. cc;
        })
]

no_reason_yet : (s : Sender) → (is_some s.reason ≡ true → false ≡ true) → s.reason ≡ none
no_reason_yet s h = elim (Option-cases s.reason) [
  | inl q ↦ q
  | inr (e, q) ↦ absurd (let bad : false ≡ true = h (ap is_some q) in cc)
]

-- Nothing is drained before `stop` is closed.
not_yet :
    (taken : List Text) (s : Sender)
    → IsOrderly taken s
    → past_stop s.once ≡ false
    → is_emptying s.phase ≡ true
    → ⊥
not_yet taken s k e h =
    let open_still : s.stopped ≡ false = k.follows ∙ e in
    let closed : s.stopped ≡ true = (k.emptied h).0 in cc

pub proceed_from-IsOrderly :
    (taken : List Text) (o : Once) (s : Sender)
    → s.once ≡ o
    → IsOrderly taken s
    → IsOrderly taken (proceed_from o s)
unfolding proceed_from keep_first
proceed_from-IsOrderly taken unused s e k = k
proceed_from-IsOrderly taken (entered why) s e k =
    let none_yet : s.reason ≡ none =
      no_reason_yet s (λ h. ap past_record (sym e) ∙ k.explained h) in
    let reads : keep_first why s.reason ≡ why = ap (keep_first why) none_yet in
    record {
      in_order = k.in_order;
      bounded = k.bounded;
      explained = λ h. refl;
      kept = λ x h. reads ∙ h;
      follows = k.follows ∙ ap past_stop e;
      emptied = λ h. absurd (not_yet taken s k (ap past_stop e) h);
      closed_after = k.closed_after;
      closed_by = λ x h. cc;
    }
proceed_from-IsOrderly taken (recorded why) s e k = record {
  in_order = k.in_order;
  bounded = k.bounded;
  explained = λ h. refl;
  kept = λ x h. k.kept x (ap recorded_fault e ∙ h);
  follows = refl;
  emptied = λ h. absurd (not_yet taken s k (ap past_stop e) h);
  closed_after = k.closed_after;
  closed_by = λ x h. cc;
}
proceed_from-IsOrderly taken (signalled why) s e k = record {
  in_order = k.in_order;
  bounded = k.bounded;
  explained = λ h. refl;
  kept = λ x h. k.kept x (ap recorded_fault e ∙ h);
  follows = k.follows ∙ ap past_stop e;
  emptied = λ h. ((k.emptied h).0, sym (ap recorded_fault e) ∙ (k.emptied h).1);
  closed_after = λ h. let over = k.closed_after h in ground arith;
  closed_by = λ x h.
      let same : why ≡ some x = ap recorded_fault h in
      let faulty : is_some why ≡ true = ap is_some same in ground arith;
}
proceed_from-IsOrderly taken (used why) s e k = k
