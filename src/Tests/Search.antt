-- ===== src/Tests/Search.antt =====
-- Examples for internal/search and internal/querying.
use kinetix_search_service.Common.{
  ℤ, pos, true, false, ◌≡◌, refl, List, [], ◌∷◌, lit, ok, trim_space, is_space, trim_left,
  trim_right,
}
use kinetix_search_service.Search.Time.{time_sub}
use kinetix_search_service.Search.Identifier.{
  ProductId, new_id, product_identifier, merchant_identifier, is_control,
}
use kinetix_search_service.Search.Identifier.Laws.{Accepts, product_IsLawful, new_id-Accepts}
use kinetix_search_service.Search.Document.{ProductDoc, Results, products}
use kinetix_search_service.Search.Query.{
  new_suggest_query, Query, QueryOption, by_newest, with_page, with_ranking, with_categories,
  zero_query, checked, new_query, searchable, page_size, categories,
}
use kinetix_search_service.Search.Query.Checked.{with_ranking-KeepsText}
use kinetix_search_service.Search.Query.Answers.{
  Suggests, new_suggest_query-Suggests, Answers, new_query-Answers,
}
use kinetix_search_service.Querying.{Finder, find, found, freshness, never_synced}
use kinetix_search_service.Querying.Laws.{IsFoundBy, find-IsFoundBy}
use kinetix_search_service.Tests.Samples.{lamp, noon, clock}

new_id-Accepts_example :
    Accepts {T = ProductId} product_IsLawful (lit " p-1 ") (new_id (lit " p-1 ") (lit "test"))
new_id-Accepts_example = new_id-Accepts product_IsLawful (lit " p-1 ") (lit "test")

abbrev options : List QueryOption
options =
    with_page (pos 3) (pos 500)
    ∷ with_ranking by_newest
    ∷ with_categories (lit " light " ∷ lit " " ∷ [])
    ∷ []

abbrev answered : Query
answered = record (zero_query (lit "lamp")) {
  categories = lit "light" ∷ [];
  page = record { offset = pos 3; limit = pos 100 };
}

new_query-Answers_example : Answers (new_query (lit " lamp ") options)
unfolding with_page with_categories
new_query-Answers_example =
    new_query-Answers (lit " lamp ") options
      ((λ q. refl), (with_ranking-KeepsText by_newest, ((λ q. refl), tt)))

new_suggest_query-Suggests_example : Suggests (new_suggest_query (lit " la") (pos 0))
new_suggest_query-Suggests_example = new_suggest_query-Suggests (lit " la") (pos 0)

-- What those examples accept: the identifier, the query and the query for suggestions.
id_trimmed :
    new_id (lit " p-1 ") (lit "test") ≡ ok (let p : ProductId = record { v = lit "p-1" } in p)
unfolding new_id trim_space is_space trim_left trim_right
id_trimmed = refl

query_checked : new_query (lit " lamp ") options ≡ ok (record answered { ranking = by_newest })
unfolding new_query checked page_size categories searchable trim_space is_space trim_left trim_right
    is_control with_page with_categories with_ranking
query_checked = refl

abbrev one_hit : Results ℤ ProductDoc
one_hit = record {
  hits = record { score = pos 7; doc = lamp } ∷ [];
  total = pos 1;
  facets = [];
  freshness = never_synced;
}

abbrev finder : Finder ℤ (Unit {0}) ProductDoc
finder = record {
  collection = products;
  searcher = record { search_docs = λ q w. (ok one_hit, w); suggest = λ q w. (ok [], w) };
  checkpoint = record {
    load = λ c w. (
      ok (record {
        cursor = record { transaction_id = 1; last_id = []; updated_through = noon };
        saved_at = noon;
      }),
      w,
    );
    save = λ c cur w. (ok tt, w);
  };
  clock = clock;
  stale_after = pos 600;
}

abbrev fresh_hit : Results ℤ ProductDoc
fresh_hit = record one_hit {
  freshness = record { synced = true; indexed_through = noon; age = pos 0; stale = false };
}

find-IsFoundBy_example : IsFoundBy finder answered tt fresh_hit
unfolding find found freshness time_sub
find-IsFoundBy_example = find-IsFoundBy finder answered tt {r = fresh_hit} {w' = tt} refl
