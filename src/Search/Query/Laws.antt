-- ===== src/Search/Query/Laws.antt =====
-- What `NewQuery` and `NewSuggestQuery` of internal/search let through, and what they refuse.
use kinetix_search_service.Common.{
  ℤ, pos, negsuc, subst, ◌≤◌, ◌≤ℤ◌, ◌≡◌, refl, false, List, [], ◌∷◌, Text, is_empty, any, byte_len,
  trim_space, lit, arith, ok, All, >>=-eq_ok, if◌then◌else◌,
}
use kinetix_search_service.Common.Strings.Trim.{trim_space_idem}
use kinetix_search_service.Search.Identifier.{is_control}
use kinetix_search_service.Search.Query.{
  max_query_length, max_page_size, searchable, page_size, categories,
}

-- A text that may reach the engine.
pub record IsSearchable (s : Text) : Type 0 where
  pub trimmed : trim_space s ≡ s
  pub short : byte_len s ≤ max_query_length
  pub printable : any is_control s ≡ false

pub searchable-IsSearchable :
    (op what raw : Text) {s : Text} → searchable op what raw ≡ ok s → IsSearchable s
unfolding searchable
searchable-IsSearchable op what raw h =
    let (short, printable, same) = facts h in
    rw (← same) (record { trimmed = trim_space_idem raw; short = short; printable = printable })
  where
    facts :
        {s : Text}
        → searchable op what raw ≡ ok s
        → (byte_len (trim_space raw) ≤ max_query_length)
          × (any is_control (trim_space raw) ≡ false)
          × (trim_space raw ≡ s)
    facts h = ground arith

pub searchable_complete : (op what s : Text) → IsSearchable s → searchable op what s ≡ ok s
unfolding searchable
searchable_complete op what s v = rw v.trimmed (ground (arith, v.short, v.printable))

abbrev pub IsKept : Text → Type 0
IsKept s = IsSearchable s × (is_empty s ≡ false)

-- A category that is kept.
categories-cons :
    (op c : Text) (raw : List Text) {kept : List Text}
    → categories op (c ∷ raw) ≡ ok kept
    → (t : Text) × (searchable op (lit "category") c ≡ ok t)
      × (rest : List Text) × (categories op raw ≡ ok rest)
      × ((if is_empty t then rest else t ∷ rest) ≡ kept)
unfolding categories
categories-cons op c raw h =
    let (t, found, h') = >>=-eq_ok (searchable op (lit "category") c) _ h in
    let (rest, others, e) = >>=-eq_ok (categories op raw) _ h' in
    (t, found, rest, others, ground arith)

All-cons_filled :
    (t : Text) (rest : List Text)
    → IsSearchable t
    → All IsKept rest
    → All IsKept (if is_empty t then rest else t ∷ rest)
All-cons_filled [] rest v h = h
All-cons_filled (c ∷ t) rest v h = ((v, refl), h)

pub categories-IsKept :
    (op : Text) (raw : List Text) (kept : List Text) → categories op raw ≡ ok kept → All IsKept kept
unfolding categories
categories-IsKept op [] [] h = tt
categories-IsKept op [] (k ∷ kept) h = cc
categories-IsKept op (c ∷ raw) kept h =
    let (t, found, rest, others, e) = categories-cons op c raw h in
    subst (All IsKept) e (
      All-cons_filled t rest (searchable-IsSearchable op (lit "category") c found)
        (categories-IsKept op raw rest others))

-- Categories that were kept are kept again, as they stand.
pub categories_complete :
    (op : Text) (kept : List Text) → All IsKept kept → categories op kept ≡ ok kept
unfolding categories
categories_complete op [] h = refl
categories_complete op (k ∷ kept) ((v, filled), h) =
    rw (searchable_complete op (lit "category") k v, categories_complete op kept h, filled)

-- A size lies between 1 and the greatest page, if the fallback does.
abbrev pub IsPageSize : ℤ → Type 0
IsPageSize n = (pos 1 ≤ℤ n) × (n ≤ℤ max_page_size)

pub page_size-IsPageSize :
    (op : Text) (limit fallback : ℤ) {n : ℤ}
    → IsPageSize fallback
    → page_size op limit fallback ≡ ok n
    → IsPageSize n
unfolding page_size
page_size-IsPageSize op limit fallback f h = ground arith

pub page_size_complete :
    (op : Text) (limit fallback : ℤ) → IsPageSize limit → page_size op limit fallback ≡ ok limit
unfolding page_size
page_size_complete op (pos n) fallback f = ground arith
page_size_complete op (negsuc n) fallback f = absurd (omega arith)
