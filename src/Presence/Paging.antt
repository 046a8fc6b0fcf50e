-- ===== src/Presence/Paging.antt =====
-- internal/presence/presence.go: what one page of a sorted roll shows, before and after the shortening.
use mathlib.Core.List.{append_assoc}
use hoersaal.Base.{
  ℕ, zero, suc, ◌≤◌, ◌<◌, ◌≡◌, ◌≢◌, refl, sym, ap, ◌∙◌, subst, ◌⊎◌, inl, inr, Bool, true, not, ◌&&◌,
  List, [], ◌∷◌, ◌++◌, arith, ok, err, if◌then◌else◌, ltb, nat_eq, Bool-cases, All, length,
}
use hoersaal.Text.{Text, is_empty, is_empty_named}
use hoersaal.Presence.Records.{too_large, Entry}
use hoersaal.Presence.Pages.{Page, take, drop, search, cursor_at, page_at, shorten, cut_page}
use hoersaal.Presence.Cursor.{
  beyond, remaining, AreSorted, Named, drop-search, search-le, take-drop, length-take,
  length-take-le, take_nothing, cursor_at_lem, cursor_at_one,
}

-- What a page shows of a roll: the entries past the cursor, up to its own cursor, which is empty
-- only on the last page.
abbrev pub Shows : List Entry → Text → ℕ → Page → Type 0
Shows es after size p =
    (later : List Entry) × (remaining after es ≡ p.entries ++ later)
    × (length p.entries ≤ size)
    × (p.total ≡ length es)
    × (p.next ≡ [] → later ≡ [])
    × (p.next ≢ [] → (p.entries ≢ []) × (later ≡ remaining p.next es))

module _ (ok_size : Page → Bool) where
  -- The loop ends on a page that fits, or on one of at most one entry.
  shorten_lem :
      (chunk : List Entry) (start all n : ℕ)
      → (m : ℕ) × (m ≤ n)
        × (0 < n → 0 < m)
        × (shorten ok_size chunk start all n ≡ page_at chunk start all m)
        × ((ok_size (page_at chunk start all m) ≡ true) ⊎ (m ≤ 1))
  unfolding shorten
  shorten_lem chunk start all zero = (0, omega arith, λ h. h, refl, inr (omega arith))
  shorten_lem chunk start all (suc n) =
      elim (Bool-cases (ltb 1 (suc n) && not (ok_size (page_at chunk start all (suc n))))) [
        | inl q ↦
            let (m, le, some_left, same, why) = shorten_lem chunk start all n in
            (m, omega arith, λ h. some_left (ground arith), rw q same, why)
        | inr q ↦ (suc n, omega arith, λ h. h, rw q refl, ground arith)
      ]

  abbrev start_of : Text → List Entry → ℕ
  start_of after es = if is_empty after then 0 else search after es

  drop-start_of :
      (after : Text) (es : List Entry)
      → AreSorted es
      → drop (start_of after es) es ≡ remaining after es
  unfolding remaining
  drop-start_of after es s = elim (Bool-cases (is_empty after)) [
    | inl q ↦ rw q (drop_none es)
    | inr q ↦ rw q (drop-search after es s)
  ]
    where
      drop_none : (es : List Entry) → drop zero es ≡ es
      drop_none [] = refl
      drop_none (e ∷ es) = refl

  start_of-le : (after : Text) (es : List Entry) → start_of after es ≤ length es
  start_of-le after es = ground (arith, search-le after es)

  no_more :
      (size m : ℕ) (rest : List Entry)
      → 0 < size
      → (0 < length (take size rest) → 0 < m)
      → take m (take size rest) ≡ []
      → drop m (take size rest) ++ drop size rest ≡ []
  no_more size m [] h more e = refl
  no_more zero m (c ∷ cs) h more e = absurd (omega arith)
  no_more (suc n) m (c ∷ cs) h more e =
      let none_kept = take_nothing m (c ∷ take n cs) (more (omega arith)) e in cc

  remaining_past : (k : Text) (es : List Entry) → k ≢ [] → remaining k es ≡ beyond k es
  unfolding remaining
  remaining_past k es h = rw (is_empty_named k h) refl

  page_at-Shows :
      (es : List Entry) (after : Text) (size m : ℕ)
      → AreSorted es
      → All Named es
      → 0 < size
      → m ≤ length (take size (drop (start_of after es) es))
      → (0 < length (take size (drop (start_of after es) es)) → 0 < m)
      → Shows es after size
          (page_at (take size (drop (start_of after es) es)) (start_of after es) (length es) m)
  unfolding page_at
  page_at-Shows es after size m s a h le more =
      let start : ℕ = start_of after es in
      let rest : List Entry = drop start es in
      let chunk : List Entry = take size rest in
      let shown : List Entry = take m chunk in
      let later : List Entry = drop m chunk ++ drop size rest in
      let halves : rest ≡ shown ++ later =
        take-drop size rest
        ∙ (ap (λ xs. xs ++ drop size rest) (take-drop m chunk)
            ∙ append_assoc shown (drop m chunk) (drop size rest)) in
      let whole : es ≡ take start es ++ (shown ++ later) =
        take-drop start es ∙ ap (λ xs. take start es ++ xs) halves in
      let Leads : ℕ → List Entry → Type 0 = λ k xs.
        (cursor_at shown k (length xs) ≡ [] → later ≡ [])
        × (cursor_at shown k (length xs) ≢ []
            → (shown ≢ []) × (later ≡ beyond (cursor_at shown k (length xs)) xs)) in
      let led : Leads (length (take start es)) (take start es ++ (shown ++ later)) =
        cursor_at_lem (take start es) shown later (subst AreSorted whole s)
          (subst (All Named) whole a) (no_more size m rest h more) in
      let leads : Leads start es =
        subst (λ k. Leads k es) (length-take start es (start_of-le after es))
          (subst (Leads (length (take start es))) (sym whole) led) in
      (
        later,
        sym (drop-start_of after es s) ∙ halves,
        omega (arith, length-take-le m chunk, length-take-le size rest),
        refl,
        leads.0,
        λ q.
            let (some_shown, e) = leads.1 q in
            (some_shown, e ∙ sym (remaining_past (cursor_at shown start (length es)) es q)),
      )

  few_left : (p : Page) → length p.entries ≤ 0 → p.entries ≡ []
  few_left p h =
      elim p.entries as (λ es. length es ≤ 0 → es ≡ []) [
        | [] ↦ λ k. refl
        | e ∷ es ↦ λ k. absurd (omega arith)
      ]
        h

  pub cut_page_lem :
      (es : List Entry) (after : Text) (size : ℕ)
      → AreSorted es
      → All Named es
      → 0 < size
      → (q : Page) × Shows es after size q
        × (cut_page ok_size es after size
            ≡ (if nat_eq (length q.entries) 1 && not (ok_size q) then err too_large else ok q))
        × ((length q.entries ≤ 1) ⊎ (ok_size q ≡ true))
        × ((e : Entry) → q.entries ≡ e ∷ [] → (q.next ≡ []) ⊎ (q.next ≡ e.id))
  unfolding cut_page page_at
  cut_page_lem es after size s a h =
      let start : ℕ = start_of after es in
      let chunk : List Entry = take size (drop start es) in
      let (m, le, more, same, why) = shorten_lem chunk start (length es) (length chunk) in
      let q : Page = page_at chunk start (length es) m in
      (
        q,
        page_at-Shows es after size m s a h le more,
        ap
            (λ (x : Page).
              if nat_eq (length x.entries) 1 && not (ok_size x) then err too_large else ok x)
            same,
        elim why [ inl r ↦ inr r | inr r ↦ inl (omega (arith, length-take-le m chunk)) ],
        λ e. cursor_at_one (take m chunk) start (length es) e,
      )
