-- ===== src/Presence/Pages.antt =====
-- internal/presence/presence.go: `Roll.Page`, one page of the full list. `sort.Search` is taken for
-- what it answers on a sorted roll, the first entry past the cursor.
use hoersaal.Base.{
  ℕ, zero, suc, ◌+◌, Bool, false, not, ◌&&◌, ◌||◌, Option, none, some, List, [], ◌∷◌, map, Result,
  ok, err, if◌then◌else◌, ltb, leb, nat_eq, ℤ, pos, pos_part, ltb_ℤ, length, ◌>>◌, refuse_if,
}
use hoersaal.Text.{Text, is_empty, text_lt}
use hoersaal.Wire.{Json, Message, encode, max_message_bytes}
use hoersaal.Presence.Records.{
  Error, page_size, too_large, unencodable, Entry, EntryJson, Roll, wire_form, max_page, type_page,
}

pub record Page : Type 0 where
  pub entries : List Entry
  pub next : Text
  pub total : ℕ

pub record PageJson : Type 0 where
  pub entries : List EntryJson
  pub next : Text
  pub total : ℕ

unfoldable pub page_form : Page → PageJson
unfolding wire_form
page_form p = record { entries = map wire_form p.entries; next = p.next; total = p.total }

unfoldable pub page_message : (PageJson → Option Text) → Page → Result Error Message
unfolding page_form
page_message marshal p = elim (marshal (page_form p)) [
  | none ↦ err unencodable
  | some payload ↦ ok (record { type = type_page; payload = some payload })
]

-- `marshal` is `json.Marshal` at the shape of a page.
unfoldable pub fits : (PageJson → Option Text) → Json → Page → Bool
unfolding page_message
fits marshal json p = elim (page_message marshal p) [
  | err e ↦ false
  | ok m ↦ elim (encode json m) [ err e ↦ false | ok b ↦ leb (length b) max_message_bytes ]
]

-- The slices `xs[:n]` and `xs[n:]`.
abbrev pub take : ℕ → List Entry → List Entry
take n [] = []
take zero (e ∷ es) = []
take (suc n) (e ∷ es) = e ∷ take n es

abbrev pub drop : ℕ → List Entry → List Entry
drop n [] = []
drop zero (e ∷ es) = e ∷ es
drop (suc n) (e ∷ es) = drop n es

-- `sort.Search(len(entries), func(i) bool { return entries[i].id > after })`
unfoldable pub search : Text → List Entry → ℕ
search after [] = 0
search after (e ∷ es) = let rest = search after es in if text_lt after e.id then 0 else suc rest

unfoldable pub last_id : List Entry → Text
last_id [] = []
last_id (e ∷ []) = e.id
last_id (e ∷ d ∷ es) = last_id (d ∷ es)

-- `cursorAt`: the cursor of a page with these entries, which begins at `start` of a roll of `all`.
unfoldable pub cursor_at : List Entry → ℕ → ℕ → Text
unfolding last_id
cursor_at entries start all =
    if nat_eq (length entries) 0 || leb all (start + length entries) then [] else last_id entries

-- The page with the first `n` of the entries that it may have.
unfoldable pub page_at : List Entry → ℕ → ℕ → ℕ → Page
unfolding cursor_at
page_at entries start all n = record {
  entries = take n entries;
  next = cursor_at (take n entries) start all;
  total = all;
}

-- The loop that drops the last entry while the page has more than one and does not fit.
unfoldable pub shorten : (Page → Bool) → List Entry → ℕ → ℕ → ℕ → Page
unfolding page_at
shorten ok_size entries start all zero = page_at entries start all 0
shorten ok_size entries start all (suc n) =
    let rest = shorten ok_size entries start all n in
    if ltb 1 (suc n) && not (ok_size (page_at entries start all (suc n)))
    then rest
    else page_at entries start all (suc n)

-- The body of `Page` after the test of the size; `ok_size` is `fits`.
unfoldable pub cut_page : (Page → Bool) → List Entry → Text → ℕ → Result Error Page
unfolding search shorten
cut_page ok_size entries after size =
    let start = if is_empty after then 0 else search after entries in
    let chunk = take size (drop start entries) in
    let p = shorten ok_size chunk start (length entries) (length chunk) in
    if nat_eq (length p.entries) 1 && not (ok_size p) then err too_large else ok p

unfoldable pub page : (PageJson → Option Text) → Json → Roll → Text → ℤ → Result Error Page
unfolding cut_page fits
page marshal json r after size = do
  refuse_if (ltb_ℤ size (pos 1) || ltb_ℤ max_page size) page_size
  cut_page (fits marshal json) r.entries after (pos_part size)
