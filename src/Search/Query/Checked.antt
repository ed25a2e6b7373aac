-- ===== src/Search/Query/Checked.antt =====
-- The whole of `NewQuery` and `NewSuggestQuery`: the form of what they return, that returning it
-- again changes nothing, and the kind of every refusal.
use kinetix_search_service.Common.{
  ℤ, pos, ◌≤ℤ◌, ◌≡◌, refl, sym, ◌∙◌, ap, inl, inr, true, List, [], ◌∷◌, Text, lit, arith, ok, All,
  Bool-cases, ltb_ℤ, >>=-eq_ok, subst,
}
use kinetix_search_service.Search.Query.{
  with_ranking, RankingProfile, by_relevance, by_newest, by_price_asc, unnamed, Query, QueryOption,
  searchable, page_size, categories, checked, checked_within, new_query, is_known, apply_options,
  zero_query, default_page_size, query_op,
}
use kinetix_search_service.Search.Query.Laws.{
  IsSearchable, IsKept, IsPageSize, searchable-IsSearchable, categories-IsKept, categories_complete,
  page_size-IsPageSize, page_size_complete,
}

-- What the checks of `NewQuery` establish, whatever the options did.
pub record IsChecked (q : Query) : Type 0 where
  pub offset : pos 0 ≤ℤ q.page.offset
  pub limit : IsPageSize q.page.limit
  pub ranking : is_known q.ranking ≡ true
  pub categories : All IsKept q.categories

-- Success of `checked`, taken apart.
record IsMadeFrom (q r : Query) : Type 0 where
  offset : pos 0 ≤ℤ q.page.offset
  ranking : is_known q.ranking ≡ true
  limit : ℤ
  sized : page_size query_op q.page.limit default_page_size ≡ ok limit
  kept : List Text
  sorted : categories query_op q.categories ≡ ok kept
  same : record q { page = record { offset = q.page.offset; limit = limit }; categories = kept } ≡ r

checked_within-inv :
    (q : Query) (limit : ℤ) {r : Query}
    → pos 0 ≤ℤ q.page.offset
    → page_size query_op q.page.limit default_page_size ≡ ok limit
    → checked_within q limit ≡ ok r
    → IsMadeFrom q r
checked_within-inv q limit offset sized h = elim (Bool-cases (is_known q.ranking)) [
  | inl known ↦
      let (kept, sorted, last) =
        >>=-eq_ok (categories query_op q.categories)
          (λ kept. ok (record q {
            page = record { offset = q.page.offset; limit = limit };
            categories = kept;
          }))
          (rw (known, checked_within) at h) in
      record {
        offset = offset;
        ranking = known;
        limit = limit;
        sized = sized;
        kept = kept;
        sorted = sorted;
        same = cc last;
      }
  | inr unknown ↦ absurd (ground arith)
]

checked-inv : (q : Query) {r : Query} → checked q ≡ ok r → IsMadeFrom q r
unfolding checked
checked-inv q h = elim (Bool-cases (ltb_ℤ q.page.offset (pos 0))) [
  | inl negative ↦ absurd (ground arith)
  | inr natural ↦
      let (limit, sized, h') =
        >>=-eq_ok (page_size query_op q.page.limit default_page_size) (checked_within q)
          (rw (natural, checked) at h) in
      checked_within-inv q limit (ground arith) sized h'
]

checked-text : (q : Query) {r : Query} → checked q ≡ ok r → r.text ≡ q.text
checked-text q h = sym (ap (λ (x : Query). x.text) (checked-inv q h).same)

pub checked-merchant_id : (q : Query) {r : Query} → checked q ≡ ok r → r.merchant_id ≡ q.merchant_id
checked-merchant_id q h = sym (ap (λ (x : Query). x.merchant_id) (checked-inv q h).same)

pub checked-on_behalf_of :
    (q : Query) {r : Query} → checked q ≡ ok r → r.on_behalf_of ≡ q.on_behalf_of
checked-on_behalf_of q h = sym (ap (λ (x : Query). x.on_behalf_of) (checked-inv q h).same)

checked-IsChecked : (q : Query) {r : Query} → checked q ≡ ok r → IsChecked r
checked-IsChecked q h =
    let m = checked-inv q h in
    subst IsChecked m.same (record {
      offset = m.offset;
      limit = page_size-IsPageSize query_op q.page.limit default_page_size (omega arith) m.sized;
      ranking = m.ranking;
      categories = categories-IsKept query_op q.categories m.kept m.sorted;
    })

pub IsChecked-checked : (q : Query) → IsChecked q → checked q ≡ ok q
unfolding checked
IsChecked-checked q v = ground (
  arith,
  v.offset,
  v.ranking,
  page_size_complete query_op q.page.limit default_page_size v.limit,
  categories_complete query_op q.categories v.categories,
)

-- A checked query is checked again as it stands.
pub checked-checked : (q : Query) {r : Query} → checked q ≡ ok r → checked r ≡ ok r
checked-checked q {r} h = IsChecked-checked r (checked-IsChecked q h)

-- An option that leaves the text alone, as each of the package does.
abbrev pub KeepsText : QueryOption → Type 0
KeepsText o = (q : Query) → (o q).text ≡ q.text

pub with_ranking-KeepsText : (r : RankingProfile) → KeepsText (with_ranking r)
unfolding with_ranking
with_ranking-KeepsText by_relevance q = refl
with_ranking-KeepsText by_newest q = refl
with_ranking-KeepsText by_price_asc q = refl
with_ranking-KeepsText (unnamed []) q = refl
with_ranking-KeepsText (unnamed (c ∷ s)) q = refl

apply_options-text :
    (os : List QueryOption) (q : Query) → All KeepsText os → (apply_options os q).text ≡ q.text
apply_options-text [] q h = refl
apply_options-text (o ∷ os) q (k, h) = apply_options-text os (o q) h ∙ k q

-- The query that `NewQuery` returns is checked, and its text is searchable.
abbrev pub IsValidQuery : Query → Type 0
IsValidQuery q = IsSearchable q.text × IsChecked q

-- If the options leave the text alone, as those of the package do, a query that `NewQuery` returns
-- has a trimmed text of at most 256 bytes without control bytes, an offset that is not negative, a
-- limit from 1 to 100, one of the three rankings, and categories that are such texts and not empty.
pub new_query-IsValidQuery :
    (text : Text) (options : List QueryOption) {q : Query}
    → All KeepsText options
    → new_query text options ≡ ok q
    → IsValidQuery q
unfolding new_query
new_query-IsValidQuery text options {q} keep h =
    let (trimmed, found, h') = >>=-eq_ok (searchable query_op (lit "query") text) _ h in
    let made = apply_options options (zero_query trimmed) in
    let same : q.text ≡ trimmed =
      checked-text made h' ∙ apply_options-text options (zero_query trimmed) keep in
    (rw same (searchable-IsSearchable query_op (lit "query") text found), checked-IsChecked made h')
