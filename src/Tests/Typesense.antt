-- ===== src/Tests/Typesense.antt =====
-- Examples for internal/typesense.
use kinetix_search_service.Common.{
  ap, ◌∙◌, has_prefix-append, join_rest, ℕ, ℤ, pos, ◌+◌, true, ◌≡◌, refl, ◌⊎◌, inl, inr, Option,
  none, some, List, [], ◌∷◌, any, not, ◌&&◌, Text, lit, is_empty, has_prefix, if◌then◌else◌,
  text_eq, ok, arith, trim_space, is_space, trim_left, trim_right, ◌+ℤ◌, ◌-ℤ◌,
}
use kinetix_search_service.Search.Errors.{Result}
use kinetix_search_service.Search.Time.{unix_milli, time_of_millis}
use kinetix_search_service.Search.Identifier.{is_control, merchant_identifier}
use kinetix_search_service.Search.Identifier.Laws.{IsIdText}
use kinetix_search_service.Search.Document.{ProductDoc, MerchantDoc, OrderDoc, products, orders}
use kinetix_search_service.Search.Query.{Query, zero_query, by_price_asc}
use kinetix_search_service.Search.Service.{Checkpoint}
use kinetix_search_service.Querying.{find}
use kinetix_search_service.Typesense.Documents.{
  encode_product, decode_product, encode_merchant, decode_merchant, encode_order, decode_order, str,
}
use kinetix_search_service.Typesense.Documents.RoundTrip.{carried, IsCarried, documents_come_back}
use kinetix_search_service.Typesense.Engine.{Engine, ResultHit, ImportResult}
use kinetix_search_service.Typesense.Query.{
  filter_for, quote, principal_clauses, merchant_clauses, category_clauses, quote_all,
}
use kinetix_search_service.Typesense.Query.Reading.{outline, values}
use kinetix_search_service.Typesense.Query.Safety.{filter_for-reads}
use kinetix_search_service.Typesense.Schema.{product_schema, schema_for}
use kinetix_search_service.Typesense.Schema.Consistent.{Serves, schema_for-Serves}
use kinetix_search_service.Typesense.Searcher.{suggestions_onto, suggested}
use kinetix_search_service.Typesense.Searcher.Laws.{Distinct, contains, suggestions_exact}
use kinetix_search_service.Typesense.Searcher.Private.{
  AgreeFor, party_clause, orders_finder, find_private,
}
use kinetix_search_service.Typesense.Index.{bulk, first_refusal}
use kinetix_search_service.Typesense.Index.Laws.{IsImported, bulk-IsImported}
use kinetix_search_service.Tests.Samples.{floats, lamp, noon, clock, memory}

id_text : IsIdText (lit "p-1")
unfolding trim_space is_space trim_left trim_right is_control
id_text = record { trimmed = refl; filled = refl; short = omega arith; printable = refl }

merchant_text : IsIdText (lit "m-1")
unfolding trim_space is_space trim_left trim_right is_control
merchant_text = record { trimmed = refl; filled = refl; short = omega arith; printable = refl }

abbrev lights : MerchantDoc
lights = record {
  id = record { v = lit "m-1" };
  display_name = lit "Lights";
  status = lit "verified";
  may_sell = true;
  categories = lit "light" ∷ [];
  updated_at = noon;
}

abbrev placed : OrderDoc
placed = record {
  id = record { v = lit "p-1" };
  buyer = record { v = lit "m-1" };
  merchant_id = record { v = [] };
  number = lit "p-1";
  status = lit "paid";
  line_titles = lit "Lamp" ∷ [];
  placed_at = noon;
  updated_at = noon;
}

abbrev anns : Query
anns = record (zero_query (lit "lamp")) {
  on_behalf_of = record { v = lit "ann" };
  categories = lit "a && b" ∷ lit "c" ∷ [];
}

abbrev anns_filter : Text
anns_filter = lit "(buyer:=`ann` || merchant_id:=`ann`) && categories:=[`a && b`,`c`]"

filter_for-reads_example :
    (outline anns_filter ≡ lit "(buyer:=`` || merchant_id:=``) && categories:=[``,``]")
    × (values anns_filter ≡ lit "ann" ∷ lit "ann" ∷ lit "a && b" ∷ lit "c" ∷ [])
unfolding filter_for principal_clauses merchant_clauses category_clauses quote_all quote
filter_for-reads_example = filter_for-reads orders anns {f = anns_filter} refl

schema_for-Serves_example : Serves products by_price_asc (product_schema (lit "products_v1")).fields
unfolding schema_for
schema_for-Serves_example =
    schema_for-Serves products by_price_asc (lit "products_v1")
      {s = product_schema (lit "products_v1")} refl

abbrev titled : Text → ResultHit ℤ
titled t = record { document = some ((lit "title", str t) ∷ []); text_match = none }

abbrev hits : List (ResultHit ℤ)
hits = titled (lit "Lamp") ∷ titled [] ∷ titled (lit "Lamp") ∷ titled (lit "Chair") ∷ []

suggestions_exact_example :
    Distinct (suggestions_onto floats (lit "title") [] hits)
    × ((v : Text)
        → contains (suggestions_onto floats (lit "title") [] hits) v ≡ (
            not (is_empty v)
            && any (λ h. text_eq v (suggested floats (lit "title") h.document)) hits))
suggestions_exact_example = suggestions_exact floats (lit "title") hits

-- An engine whose state is the number of its calls, with what it says of an import and of a
-- deletion.
at_noon : IsCarried floats noon
unfolding unix_milli time_of_millis ◌+ℤ◌ ◌-ℤ◌
at_noon = record {
  millis = record { millis = pos 7; is_time = refl };
  exact = (omega arith, omega arith);
}

documents_come_back_example :
    (decode_product floats (carried floats (encode_product lamp)) ≡ ok lamp)
    × (decode_merchant floats (carried floats (encode_merchant lights)) ≡ ok lights)
    × (decode_order floats (carried floats (encode_order placed)) ≡ ok placed)
documents_come_back_example =
    documents_come_back floats lamp lights placed
      (record {
        id = id_text;
        merchant_id = inr merchant_text;
        price = (omega arith, omega arith);
        updated = at_noon;
        texts = (refl, (refl, (refl, (refl, (refl, (refl, (refl, tt)))))));
      })
      (record { id = merchant_text; updated = at_noon; texts = (refl, (refl, (refl, (refl, tt)))) })
      (record {
        id = id_text;
        buyer = merchant_text;
        merchant_id = inl refl;
        placed = at_noon;
        updated = at_noon;
        texts = (refl, (refl, (refl, (refl, (refl, (refl, tt))))));
      })

abbrev pub engine : Option ℤ → List (Option ImportResult) → Result (Unit {0}) → Engine ℕ ℤ
engine found results gone = record {
  search_in =
      λ name params n. (ok (record { found = found; hits = none; facet_counts = none }), n + 1);
  create = λ schema n. (ok tt, n + 1);
  import_into = λ gen action docs n. (ok results, n + 1);
  delete = λ gen id n. (gone, n + 1);
  count_documents = λ gen n. (ok (some (pos 0)), n + 1);
  upsert_alias = λ name gen n. (ok tt, n + 1);
  alias_target = λ name n. (ok (lit "products_v1"), n + 1);
}

abbrev pub calm : Engine ℕ ℤ
calm = engine (some (pos 0)) (some (record { success = true; error_text = [] }) ∷ none ∷ []) (ok tt)

bulk-IsImported_example :
    ((◌≡◌ {A = List ProductDoc} (lamp ∷ lamp ∷ []) []) × (◌≡◌ {A = ℕ} 0 1))
    ⊎ IsImported calm products encode_product (lit "products_v1") (lamp ∷ lamp ∷ []) 0 1
unfolding bulk first_refusal
bulk-IsImported_example =
    bulk-IsImported calm products encode_product (lit "products_v1") (lamp ∷ lamp ∷ []) 0 {w' = 1}
      refl

abbrev no_progress : Checkpoint ℕ
no_progress = record { load = λ c n. (ok memory.progress, n); save = λ c cur n. (ok tt, n) }

-- How many are found: one by Ann's filter, so many by any other.
abbrev found_by : ℤ → Option Text → ℤ
found_by others none = others
found_by others (some f) = if has_prefix f (party_clause (lit "ann")) then pos 1 else others

abbrev counting : ℤ → Engine ℕ ℤ
counting others = record calm {
  search_in = λ name params n. (
    ok (record {
      found = some (found_by others params.filter_by);
      hits = none;
      facet_counts = none;
    }),
    n + 1,
  );
}

counting-AgreeFor : AgreeFor (lit "ann") (counting (pos 0)) (counting (pos 9))
counting-AgreeFor name params f n asked own =
    let anns : has_prefix f (party_clause (lit "ann")) ≡ true =
      ap (λ (t : Text). has_prefix t (party_clause (lit "ann"))) own.joined
      ∙ has_prefix-append (party_clause (lit "ann")) (join_rest (lit " && ") own.others) in
    rw (asked, anns) (refl)

find_private_example :
    find
      (orders_finder floats (decode_order floats) no_progress clock (pos 0) (counting (pos 0)))
      anns
      0
    ≡ find
        (orders_finder floats (decode_order floats) no_progress clock (pos 0) (counting (pos 9)))
        anns
        0
find_private_example =
    find_private floats (decode_order floats) no_progress clock (pos 0) (counting (pos 0))
      (counting (pos 9)) anns 0 refl counting-AgreeFor
