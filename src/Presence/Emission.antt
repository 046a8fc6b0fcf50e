-- ===== src/Presence/Emission.antt =====
-- internal/presence/presence.go: how often an `Emitter` says that a summary is due, and what `Wait`
-- promises of the next `Take`.
use hoersaal.Base.{
  ℕ, suc, ◌+◌, ◌-◌, ◌%◌, ◌≤◌, ◌<◌, ◌^◌, ◌≡◌, refl, sym, ap, subst, ◌⊎◌, not, ◌↔◌, Bool, true, false,
  ◌&&◌, List, [], ◌∷◌, ok, arith, pos, inl, inr, negsuc, sub_ℕ, ltb_ℤ, leb, Bool-cases, length,
  if◌then◌else◌,
}
use hoersaal.Time.{Time, sub, minus}
use hoersaal.Presence.Emitter.{Emitter, new_emitter, note, take, wait}

-- The calls that change an emitter.
pub data Call : Type 0 where
  noted : Call
  asked : Time → Call

-- The moments at which Take yields a summary in a history of calls.
unfoldable pub sent_at : Emitter → List Call → List Time
unfolding note take
sent_at e [] = []
sent_at e (noted ∷ cs) = sent_at (note e) cs
sent_at e (asked now ∷ cs) =
    let (after, n, due) = take e now in
    let rest = sent_at after cs in elim due [ true ↦ now ∷ rest | false ↦ rest ]

unfoldable pub notes : List Call → ℕ
notes [] = 0
notes (noted ∷ cs) = suc (notes cs)
notes (asked now ∷ cs) = notes cs

-- Each moment lies at least `w` after the one before it, the first one after `t`.
abbrev pub Spaced : ℕ → Time → List Time → Type 0
Spaced w t [] = Unit
Spaced w t (u ∷ us) = (t + w ≤ u) × Spaced w u us

abbrev pub IsSpaced : ℕ → List Time → Type 0
IsSpaced w [] = Unit
IsSpaced w (t ∷ ts) = Spaced w t ts

sub_due :
    (now last w : ℕ)
    → 0 < w
    → w < 2 ^ 63
    → (ltb_ℤ (sub now last) (pos w) ≡ false) ↔ (last + w ≤ now)
unfolding sub
sub_due now last w h k = (λ q. ground arith, λ q. ground arith)

minus_pos : (w p : ℕ) → w < 2 ^ 63 → p < 2 ^ 63 → minus (pos w) (pos p) ≡ sub_ℕ w p
unfolding minus
minus_pos w p h k = ground arith

minus_neg : (w q : ℕ) → w + suc q < 2 ^ 63 → minus (pos w) (negsuc q) ≡ pos (w + suc q)
unfolding minus
minus_neg w q h = ground arith

-- The emitter after a summary.
abbrev sent_now : Emitter → Time → Emitter
sent_now e now = record e {
  pending = false;
  sent = true;
  last = now;
  revision = (e.revision + 1) % 2 ^ 64;
}

if_if {ℓ} :
    {A : Type ℓ} (a b : Bool) (x y : A)
    → ((if a then x else if b then x else y) ≡ x)
      ⊎ ((a ≡ false) × (b ≡ false) × ((if a then x else if b then x else y) ≡ y))
if_if true b x y = inl refl
if_if false true x y = inl refl
if_if false false x y = inr (refl, refl, refl)

-- Take leaves the emitter as it is, or a change waits, the window has passed, and a summary is due.
take_cases :
    (e : Emitter) (now : Time)
    → (take e now ≡ (e, e.revision, false))
      ⊎ ((e.pending ≡ true)
          × ((e.sent && ltb_ℤ (sub now e.last) e.window) ≡ false)
          × (take e now ≡ (sent_now e now, (e.revision + 1) % 2 ^ 64, true)))
unfolding take
take_cases e now =
    elim (if_if {A = Emitter × ℕ × Bool} (not e.pending) (e.sent && ltb_ℤ (sub now e.last) e.window)
      (e, e.revision, false) (sent_now e now, (e.revision + 1) % 2 ^ 64, true)) [
        | inl q ↦ inl q
        | inr (p, q, r) ↦ inr (ground arith, q, r)
      ]

sent_at-asked :
    (e : Emitter) (now : Time) (cs : List Call) (after : Emitter) (n : ℕ) (due : Bool)
    → take e now ≡ (after, n, due)
    → sent_at e (asked now ∷ cs)
      ≡ elim due [ true ↦ now ∷ sent_at after cs | false ↦ sent_at after cs ]
unfolding sent_at
sent_at-asked e now cs after n due h =
    ap
      (λ (t : Emitter × ℕ × Bool). elim t.2 [
        | true ↦ now ∷ sent_at t.0 cs
        | false ↦ sent_at t.0 cs
      ])
      h

module _ (w : ℕ) (h : 0 < w) (k : w < 2 ^ 63) where
  sent_at-Spaced :
      (e : Emitter) (cs : List Call)
      → e.window ≡ pos w
      → e.sent ≡ true
      → Spaced w e.last (sent_at e cs)
  unfolding sent_at note
  sent_at-Spaced e [] v s = tt
  sent_at-Spaced e (noted ∷ cs) v s = sent_at-Spaced (note e) cs v s
  sent_at-Spaced e (asked now ∷ cs) v s = elim (take_cases e now) [
    | inl q ↦
        subst (Spaced w e.last) (sym (sent_at-asked e now cs e e.revision false q))
          (sent_at-Spaced e cs v s)
    | inr (p, q, r) ↦
        let passed : ltb_ℤ (sub now e.last) (pos w) ≡ false =
          subst (λ d. ltb_ℤ (sub now e.last) d ≡ false) v (ground arith) in
        subst (Spaced w e.last) (sym (sent_at-asked e now cs (sent_now e now) _ true r))
          ((sub_due now e.last w h k).0 passed, sent_at-Spaced (sent_now e now) cs v refl)
  ]

  sent_at-IsSpaced :
      (e : Emitter) (cs : List Call) → e.window ≡ pos w → e.sent ≡ false → IsSpaced w (sent_at e cs)
  unfolding sent_at note
  sent_at-IsSpaced e [] v s = tt
  sent_at-IsSpaced e (noted ∷ cs) v s = sent_at-IsSpaced (note e) cs v s
  sent_at-IsSpaced e (asked now ∷ cs) v s = elim (take_cases e now) [
    | inl q ↦
        subst (IsSpaced w) (sym (sent_at-asked e now cs e e.revision false q))
          (sent_at-IsSpaced e cs v s)
    | inr (p, q, r) ↦
        subst (IsSpaced w) (sym (sent_at-asked e now cs (sent_now e now) _ true r))
          (sent_at-Spaced (sent_now e now) cs v refl)
  ]

-- A change waits for at most one summary.
abbrev waiting : Bool → ℕ
waiting true = 1
waiting false = 0

length-sent_at :
    (e : Emitter) (cs : List Call) → length (sent_at e cs) ≤ waiting e.pending + notes cs
unfolding sent_at note notes
length-sent_at e [] = omega arith
length-sent_at e (noted ∷ cs) = ground (arith, length-sent_at (note e) cs)
length-sent_at e (asked now ∷ cs) = elim (take_cases e now) [
  | inl q ↦
      ground (arith, ap length (sent_at-asked e now cs e e.revision false q), length-sent_at e cs)
  | inr (p, q, r) ↦
      let after : List Time = sent_at (sent_now e now) cs in
      let few : length after ≤ notes cs = omega (arith, length-sent_at (sent_now e now) cs) in
      let grown : length (sent_at e (asked now ∷ cs)) ≡ suc (length after) =
        ap length (sent_at-asked e now cs (sent_now e now) _ true r) in
      ground arith
]

-- In any history of Note and Take on a new emitter, whatever its clock reads, the summaries lie at
-- least a window apart, and there are at most as many as there were changes, for a window of less
-- than 2^63 nanoseconds.
pub sent_at_lem :
    (w : ℕ) (e : Emitter) (cs : List Call)
    → w < 2 ^ 63
    → new_emitter true (pos w) ≡ ok e
    → IsSpaced w (sent_at e cs) × (length (sent_at e cs) ≤ notes cs)
unfolding new_emitter
sent_at_lem w e cs k made =
    let positive : 0 < w = ground arith in
    let v : e.window ≡ pos w = ground arith in
    let s : e.sent ≡ false = ground arith in
    let p : e.pending ≡ false = ground arith in
    (sent_at-IsSpaced w positive k e cs v s, ground (arith, length-sent_at e cs))

sub_after : (now last : ℕ) → last ≤ now → now < last + 2 ^ 63 → sub now last ≡ pos (now - last)
unfolding sub
sub_after now last h k = ground arith

sub_before :
    (now last : ℕ) → now < last → last < now + 2 ^ 63 → sub now last ≡ negsuc (last - now - 1)
unfolding sub
sub_before now last h k = ground arith

-- What Wait computes of the window and the last summary.
wait_left :
    (now last w : ℕ)
    → w < 2 ^ 63
    → last + w < now + 2 ^ 63
    → now < last + 2 ^ 63
    → (if ltb_ℤ (minus (pos w) (sub now last)) (pos 0) then pos 0 else minus (pos w) (sub now last))
      ≡ pos (last + w - now)
wait_left now last w g k l = elim (Bool-cases (leb last now)) [
  | inl q ↦
      rw (sub_after now last (ground arith) l, minus_pos w (now - last) g (omega arith))
        (ground arith)
  | inr q ↦
      rw
        (
          sub_before now last (ground arith) (omega arith),
          minus_neg w (last - now - 1) (ground arith),
        )
        (ground arith)
]

take_due :
    (e : Emitter) (t : Time)
    → e.pending ≡ true
    → e.sent ≡ true
    → ((take e t).2 ≡ true) ↔ (ltb_ℤ (sub t e.last) e.window ≡ false)
unfolding take
take_due e t p s = elim (Bool-cases (ltb_ℤ (sub t e.last) e.window)) [
  | inl q ↦ (λ h. absurd (let bad : false ≡ true = rw (p, s, q) at h in cc), λ h. cc)
  | inr q ↦ (λ h. q, λ h. rw (p, s, q) refl)
]

-- Under a positive window of less than 2^63 nanoseconds, and where now is less than 2^63
-- nanoseconds after the last summary and not so long before it that the window still left exceeds a
-- duration, Wait says whether a change waits and, if one does, a time d such that a Take from now
-- on yields a summary exactly when it comes at d from now or later.
pub wait-take :
    (e : Emitter) (w now : ℕ)
    → e.window ≡ pos w
    → 0 < w
    → w < 2 ^ 63
    → e.last + w < now + 2 ^ 63
    → now < e.last + 2 ^ 63
    → ((wait e now).1 ≡ e.pending)
      × (e.pending ≡ true
          → (d : ℕ) × ((wait e now).0 ≡ pos d)
            × ((t : ℕ) → now ≤ t → ((take e t).2 ≡ true) ↔ (now + d ≤ t)))
unfolding wait take
wait-take e w now v h g k l = (
  ground arith,
  λ p. elim (Bool-cases e.sent) [
    | inl s ↦ (
      e.last + w - now,
      rw (p, s, v) (wait_left now e.last w g k l),
      λ t m. (
        λ q. ground (arith, sub_due t e.last w h g, take_due e t p s, v),
        λ q. ground (arith, sub_due t e.last w h g, take_due e t p s, v),
      ),
    )
    | inr s ↦ (0, ground arith, λ t m. (λ q. omega arith, λ q. ground arith))
  ],
)
