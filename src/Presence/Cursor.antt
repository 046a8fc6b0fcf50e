-- ===== src/Presence/Cursor.antt =====
-- internal/presence/presence.go: where the cursor of a page leads in a sorted roll.
use hoersaal.Base.{
  ℕ, zero, suc, ◌+◌, ◌≤◌, ◌<◌, ◌≡◌, ◌≢◌, refl, sym, ap, ◌⊎◌, inl, inr, In, if_lem, true, false,
  List, [], ◌∷◌, ◌++◌, arith, if◌then◌else◌, leb, nat_eq, Bool-cases, All, length, length-append,
}
use hoersaal.Text.{Text, is_empty, text_lt, text_lt_irrefl, text_lt_trans, text_lt_asymm, IsSorted}
use hoersaal.Presence.Records.{Entry}
use hoersaal.Presence.Pages.{take, drop, search, last_id, cursor_at}

-- The entries past an identifier.
unfoldable pub beyond : Text → List Entry → List Entry
beyond after [] = []
beyond after (e ∷ es) = let rest = beyond after es in if text_lt after e.id then e ∷ rest else rest

-- What a cursor has yet to show; the empty cursor stands at the beginning.
unfoldable pub remaining : Text → List Entry → List Entry
unfolding beyond
remaining after es = if is_empty after then es else beyond after es

abbrev pub AreSorted : List Entry → Type 0
AreSorted = IsSorted λ e. e.id

abbrev pub Past : Text → Entry → Type 0
Past after e = text_lt after e.id ≡ true

abbrev pub Named : Entry → Type 0
Named e = e.id ≢ []

beyond-All : (after : Text) (es : List Entry) → All (Past after) es → beyond after es ≡ es
unfolding beyond
beyond-All after [] a = refl
beyond-All after (e ∷ es) a = rw a.0 (ap (λ xs. e ∷ xs) (beyond-All after es a.1))

Past-trans :
    (after k : Text) (es : List Entry)
    → text_lt after k ≡ true
    → All (Past k) es
    → All (Past after) es
Past-trans after k [] h a = tt
Past-trans after k (e ∷ es) h a = (text_lt_trans after k e.id h a.0, Past-trans after k es h a.1)

pub drop-search :
    (after : Text) (es : List Entry) → AreSorted es → drop (search after es) es ≡ beyond after es
unfolding search beyond
drop-search after [] s = refl
drop-search after (e ∷ es) s = elim (Bool-cases (text_lt after e.id)) [
  | inl q ↦ rw q (ap (λ xs. e ∷ xs) (sym (beyond-All after es (Past-trans after e.id es q s.0))))
  | inr q ↦ rw q (drop-search after es s.1)
]

pub search-le : (after : Text) (es : List Entry) → search after es ≤ length es
unfolding search
search-le after [] = omega arith
search-le after (e ∷ es) = ground (arith, search-le after es)

pub take-drop : (n : ℕ) (es : List Entry) → es ≡ take n es ++ drop n es
take-drop n [] = refl
take-drop zero (e ∷ es) = refl
take-drop (suc n) (e ∷ es) = ap (λ xs. e ∷ xs) (take-drop n es)

pub length-take : (n : ℕ) (es : List Entry) → n ≤ length es → length (take n es) ≡ n
length-take zero [] h = refl
length-take (suc n) [] h = omega arith
length-take zero (e ∷ es) h = refl
length-take (suc n) (e ∷ es) h = ap suc (length-take n es (omega arith))

pub length-take-le : (n : ℕ) (es : List Entry) → length (take n es) ≤ n
length-take-le n [] = omega arith
length-take-le zero (e ∷ es) = omega arith
length-take-le (suc n) (e ∷ es) = omega (arith, length-take-le n es)

pub take_nothing : (n : ℕ) (es : List Entry) → 0 < n → take n es ≡ [] → es ≡ []
take_nothing n [] h k = refl
take_nothing zero (e ∷ es) h k = absurd (omega arith)
take_nothing (suc n) (e ∷ es) h k = cc

-- The last identifier has what all of them have.
last_id-All :
    (P : Text → Type 0) (pre : List Entry) (x : Entry) (xs ys : List Entry)
    → All (λ e. P e.id) (pre ++ ((x ∷ xs) ++ ys))
    → P (last_id (x ∷ xs))
unfolding last_id
last_id-All P [] x [] ys a = a.0
last_id-All P [] x (y ∷ xs) ys a = last_id-All P [] y xs ys a.1
last_id-All P (e ∷ pre) x xs ys a = last_id-All P pre x xs ys a.1

beyond_last :
    (pre : List Entry) (x : Entry) (xs ys : List Entry)
    → AreSorted (pre ++ ((x ∷ xs) ++ ys))
    → beyond (last_id (x ∷ xs)) (pre ++ ((x ∷ xs) ++ ys)) ≡ ys
unfolding beyond last_id
beyond_last [] x [] ys s = rw (text_lt_irrefl x.id) (beyond-All x.id ys s.0)
beyond_last [] x (y ∷ xs) ys s =
    let up : text_lt x.id (last_id (y ∷ xs)) ≡ true =
      last_id-All (λ k. text_lt x.id k ≡ true) [] y xs ys s.0 in
    let down : text_lt (last_id (y ∷ xs)) x.id ≡ false =
      ground (arith, text_lt_asymm x.id (last_id (y ∷ xs))) in
    rw down (beyond_last [] y xs ys s.1)
beyond_last (e ∷ pre) x xs ys s =
    let up : text_lt e.id (last_id (x ∷ xs)) ≡ true =
      last_id-All (λ k. text_lt e.id k ≡ true) pre x xs ys s.0 in
    let down : text_lt (last_id (x ∷ xs)) e.id ≡ false =
      ground (arith, text_lt_asymm e.id (last_id (x ∷ xs))) in
    rw down (beyond_last pre x xs ys s.1)

nothing_left : (ys : List Entry) → length ys ≤ 0 → ys ≡ []
nothing_left [] h = refl
nothing_left (y ∷ ys) h = absurd (omega arith)

pub cursor_at_lem :
    (pre shown later : List Entry)
    → AreSorted (pre ++ (shown ++ later))
    → All Named (pre ++ (shown ++ later))
    → (shown ≡ [] → later ≡ [])
    → (cursor_at shown (length pre) (length (pre ++ (shown ++ later))) ≡ [] → later ≡ [])
      × (cursor_at shown (length pre) (length (pre ++ (shown ++ later))) ≢ []
          → (shown ≢ [])
            × (later
                ≡ beyond
                    (cursor_at shown (length pre) (length (pre ++ (shown ++ later))))
                    (pre ++ (shown ++ later))))
unfolding cursor_at
cursor_at_lem pre [] later s a h = (λ q. h refl, λ q. absurd (q refl))
cursor_at_lem pre (x ∷ xs) later s a h =
    let some_shown : nat_eq (length (x ∷ xs)) 0 ≡ false = ground arith in
    elim (Bool-cases (leb (length (pre ++ ((x ∷ xs) ++ later))) (length pre + length (x ∷ xs)))) [
      | inl q ↦ (
        λ r.
            nothing_left later
              (ground (arith, length-append pre ((x ∷ xs) ++ later), length-append (x ∷ xs) later)),
        λ r. absurd (r (ground arith)),
      )
      | inr q ↦
          rw (some_shown, q)
            (
              λ r. absurd (last_id-All (λ k. k ≢ []) pre x xs later a r),
              λ r. (λ e. cc, sym (beyond_last pre x xs later s)),
            )
    ]

-- The cursor of a page with one entry is empty or names it.
pub cursor_at_one :
    (shown : List Entry) (start all : ℕ) (e : Entry)
    → shown ≡ e ∷ []
    → (cursor_at shown start all ≡ []) ⊎ (cursor_at shown start all ≡ e.id)
unfolding cursor_at last_id
cursor_at_one shown start all e h = elim (Bool-cases (leb all (start + 1))) [
  | inl q ↦ inl (rw (h, q) refl)
  | inr q ↦ inr (rw (h, q) refl)
]

beyond-In : (after : Text) (es : List Entry) (e : Entry) → In e (beyond after es) → In e es
unfolding beyond
beyond-In after [] e = λ i. i
beyond-In after (d ∷ es) e =
    if_lem (λ xs. In e xs → In e (d ∷ es)) (text_lt after d.id)
      (λ q i. elim i [ inl p ↦ inl p | inr p ↦ inr (beyond-In after es e p) ])
      (λ q i. inr (beyond-In after es e i))

pub remaining-In :
    (after : Text) (es : List Entry) (e : Entry) → In e (remaining after es) → In e es
unfolding remaining
remaining-In after es e =
    if_lem (λ xs. In e xs → In e es) (is_empty after) (λ q i. i) (λ q i. beyond-In after es e i)
