-- ===== src/Presence/Walk.antt =====
-- internal/presence/presence.go: `Roll.Page` of a roll that `NewRoll` gave, and a client that asks for
-- one page after the other with the cursor it was handed.
use mathlib.Core.List.{append-nil}
use hoersaal.Base.{
  ℕ, zero, suc, ◌≤◌, ◌<◌, ◌≡◌, ◌≢◌, refl, sym, ap, ◌∙◌, subst, ◌⊎◌, inl, inr, Bool, true, false,
  Option, none, some, List, [], ◌∷◌, ◌++◌, arith, Result, ok, err, if◌then◌else◌, nat_eq, ◌&&◌, not,
  In, In-map, All, All-In, All-of_In, length, length-append, pos,
}
use hoersaal.Text.{Text, is_empty, is_empty_named}
use hoersaal.Wire.{Json}
use hoersaal.Domain.Model.{ParticipantId}
use hoersaal.Presence.Records.{Error, too_large, Entry, Roll, new_roll}
use hoersaal.Presence.Pages.{Page, PageJson, fits, cut_page, page}
use hoersaal.Presence.Rolls.{new_roll_lem}
use hoersaal.Presence.Cursor.{remaining, AreSorted, Named, remaining-In}
use hoersaal.Presence.Paging.{Shows, cut_page_lem}

-- A client that follows the cursors, for at most so many pages.
unfoldable pub walk : (Text → Result Error Page) → ℕ → Text → Option (List Entry)
walk ask zero after = none
walk ask (suc n) after = elim (ask after) [
  | err e ↦ none
  | ok p ↦
      let rest = walk ask n p.next in
      if is_empty p.next
      then some p.entries
      else elim rest [ none ↦ none | some es ↦ some (p.entries ++ es) ]
]

walk_last :
    (ask : Text → Result Error Page) (n : ℕ) (after : Text) (p : Page)
    → ask after ≡ ok p
    → p.next ≡ []
    → walk ask (suc n) after ≡ some p.entries
unfolding walk is_empty
walk_last ask n after p h k = rw (h, walk) (rw k refl)

walk_next :
    (ask : Text → Result Error Page) (n : ℕ) (after : Text) (p : Page) (es : List Entry)
    → ask after ≡ ok p
    → p.next ≢ []
    → walk ask n p.next ≡ some es
    → walk ask (suc n) after ≡ some (p.entries ++ es)
unfolding walk
walk_next ask n after p es h k e = rw (h, walk) (rw (is_empty_named p.next k, e) refl)

empty_or_not : (s : Text) → (s ≡ []) ⊎ (s ≢ [])
empty_or_not [] = inl refl
empty_or_not (b ∷ s) = inr (λ e. cc)

not_none : (es : List Entry) → es ≢ [] → 0 < length es
not_none [] h = absurd (h refl)
not_none (e ∷ es) h = omega arith

kept :
    (q p : Page) (b : Bool)
    → ◌≡◌ {A = Result Error Page}
        (if nat_eq (length q.entries) 1 && not b then err too_large else ok q)
        (ok p)
    → (q ≡ p) × ((length q.entries ≤ 1) ⊎ (b ≡ true) → (q.entries ≡ []) ⊎ (b ≡ true))
kept q p true h = (ground arith, λ w. inr refl)
kept q p false h =
    (ground arith, λ w. elim (empty_or_none q.entries) [ inl e ↦ inl e | inr e ↦ ground arith ])
  where
    empty_or_none : (es : List Entry) → (es ≡ []) ⊎ (0 < length es)
    empty_or_none [] = inl refl
    empty_or_none (e ∷ es) = inr (omega arith)

-- A roll lists named entries in their order.
roll_sorted :
    (entries : List Entry) (attending : List ParticipantId) (r : Roll)
    → new_roll entries attending ≡ ok r
    → AreSorted r.entries × All Named r.entries
roll_sorted entries attending r h =
    let (accepts, describes) = (new_roll_lem entries attending).1 r h in
    (
      describes.0,
      All-of_In Named r.entries λ e i.
          All-In (λ k. k ≢ []) _ e.id accepts.0.0
            (In-map (λ (x : Entry). x.id) entries e ((describes.1 e).0 i)),
    )

module _ (marshal : PageJson → Option Text) (json : Json) (entries : List Entry)
    (attending : List ParticipantId) (r : Roll) (made : new_roll entries attending ≡ ok r) (n : ℕ)
    (low : 0 < n) (high : n ≤ 100) where
  page_cut :
      (after : Text)
      → page marshal json r after (pos n) ≡ cut_page (fits marshal json) r.entries after n
  unfolding page
  page_cut after = ground arith

  -- A page that Page gives of a roll that NewRoll gave, for a size from 1 to 100, shows at most
  -- that many of the entries past the cursor, from the first on; its own cursor is empty only if
  -- none is left, and else some entry is shown and the entries left are those past its cursor; it
  -- carries the size of the roll; and it fits a message if it shows an entry.
  pub page-Shows :
      (after : Text) (p : Page)
      → page marshal json r after (pos n) ≡ ok p
      → Shows r.entries after n p × ((p.entries ≡ []) ⊎ (fits marshal json p ≡ true))
  page-Shows after p h =
      let (s, a) = roll_sorted entries attending r made in
      let (q, shows, result, why, _) = cut_page_lem (fits marshal json) r.entries after n s a low in
      let (same, fit) = kept q p (fits marshal json q) (sym result ∙ (sym (page_cut after) ∙ h)) in
      subst
        (λ (x : Page).
          Shows r.entries after n x × ((x.entries ≡ []) ⊎ (fits marshal json x ≡ true)))
        same (shows, fit why)

  -- In a roll that NewRoll gave, under any page size from 1 to 100, and where a message holds every
  -- page of one entry of the roll whose cursor is empty or names that entry, a client that starts
  -- without a cursor and asks with each cursor it is handed is never refused and, within one page
  -- more than there are entries, has been shown exactly the entries of the roll, in their order.
  pub walk_lem :
      ((e : Entry) (c : Text)
        → In e r.entries
        → (c ≡ []) ⊎ (c ≡ e.id)
        → fits marshal json (record { entries = e ∷ []; next = c; total = length r.entries })
          ≡ true)
      → walk (λ after. page marshal json r after (pos n)) (suc (length r.entries)) []
        ≡ some r.entries
  unfolding remaining is_empty
  walk_lem one = rest (suc (length r.entries)) [] (omega arith)
    where
      kept_one :
          (q : Page)
          → (length q.entries ≡ 1 → fits marshal json q ≡ true)
          → (if nat_eq (length q.entries) 1 && not (fits marshal json q)
              then err too_large
              else ok q)
            ≡ ok q
      kept_one q h = ground (arith, h)

      only : (es : List Entry) → length es ≡ 1 → (e : Entry) × (es ≡ e ∷ [])
      only [] h = absurd (omega arith)
      only (e ∷ []) h = (e, refl)
      only (e ∷ d ∷ es) h = absurd (omega arith)

      -- A page of one entry of the roll fits.
      single :
          (q : Page) (after : Text) (later : List Entry)
          → remaining after r.entries ≡ q.entries ++ later
          → q.total ≡ length r.entries
          → ((e : Entry) → q.entries ≡ e ∷ [] → (q.next ≡ []) ⊎ (q.next ≡ e.id))
          → length q.entries ≡ 1
          → fits marshal json q ≡ true
      single q after later split total leads h =
          let (e, shown) = only q.entries h in
          let lists : remaining after r.entries ≡ e ∷ later =
            split ∙ ap (λ es. es ++ later) shown in
          let among : In e r.entries =
            remaining-In after r.entries e (subst (In e) (sym lists) (inl refl)) in
          let same : q ≡ record { entries = e ∷ []; next = q.next; total = length r.entries } =
            rw (sym shown, sym total) refl in
          ap (fits marshal json) same ∙ one e q.next among (leads e shown)

      rest :
          (k : ℕ) (after : Text)
          → length (remaining after r.entries) < k
          → walk (λ c. page marshal json r c (pos n)) k after ≡ some (remaining after r.entries)
      rest zero after h = absurd (omega arith)
      rest (suc k) after h =
          let (s, a) = roll_sorted entries attending r made in
          let (q, (later, split, few, total, final, onward), result, why, leads) =
            cut_page_lem (fits marshal json) r.entries after n s a low in
          let got : page marshal json r after (pos n) ≡ ok q =
            page_cut after ∙ (result ∙ kept_one q (single q after later split total leads)) in
          elim (empty_or_not q.next) [
            | inl e ↦
                walk_last _ k after q got e
                ∙ ap some
                    (sym (split ∙ (ap (λ es. q.entries ++ es) (final e) ∙ append-nil q.entries)))
            | inr e ↦
                let (some_shown, lead) = onward e in
                let halves : remaining after r.entries ≡ q.entries ++ remaining q.next r.entries =
                  split ∙ ap (λ es. q.entries ++ es) lead in
                let grown : 0 < length q.entries = not_none q.entries some_shown in
                let both = length-append q.entries (remaining q.next r.entries) in
                let sum = ap length halves in
                walk_next _ k after q (remaining q.next r.entries) got e
                  (rest k q.next (omega arith))
                ∙ ap some (sym halves)
          ]
