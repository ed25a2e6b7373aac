-- ===== src/Typesense/Schema/Consistent.antt =====
-- The names that internal/typesense/query.go and schema.go hand to the engine, held against the
-- schema that they are for.
use kinetix_search_service.Common.{
  ℕ, ◌==◌, ◌&&◌, ◌||◌, Bool, true, false, ◌≡◌, refl, subst, Option, none, some, List, [], ◌∷◌,
  length, all, any, Text, lit, text_eq, if◌then◌else◌, arith,
}
use kinetix_search_service.Search.Document.{
  Collection, Generation, products, merchants, orders, unnamed,
}
use kinetix_search_service.Search.Query.{RankingProfile, by_relevance}
use kinetix_search_service.Typesense.Query.{sort_for}
use kinetix_search_service.Typesense.Schema.{
  Field, CollectionSchema, schema_for, query_fields_for, facet_fields_for, product_schema,
  merchant_schema, order_schema, exact_symbols,
}

abbrev onto_first : ℕ → List Text → List Text
onto_first c [] = (c ∷ []) ∷ []
onto_first c (t ∷ ts) = (c ∷ t) ∷ ts

-- The pieces between the commas.
unfoldable pub pieces : Text → List Text
pieces [] = [] ∷ []
pieces (c ∷ s) = let rest = pieces s in if c == 44 then [] ∷ rest else onto_first c rest

-- The text before the colon of an order.
unfoldable pub before_colon : Text → Text
before_colon [] = []
before_colon (c ∷ s) = let rest = before_colon s in if c == 58 then [] else c ∷ rest

abbrev pub set : Option Bool → Bool
set none = false
set (some b) = b

abbrev pub is_textual : Field → Bool
is_textual f = text_eq f.type_name (lit "string") || text_eq f.type_name (lit "string[]")

-- There is a field of that name of which the test holds.
abbrev pub has : List Field → (Field → Bool) → Text → Bool
has fields test name = any (λ f. text_eq f.name name && test f) fields

-- What a schema has to offer for the collection's queries under a ranking.
pub record Serves (c : Collection) (r : RankingProfile) (fields : List Field) : Type 0 where
  pub searched : all (has fields is_textual) (pieces (query_fields_for c).0) ≡ true
  pub weighed :
      (length (pieces (query_fields_for c).0) == length (pieces (query_fields_for c).1)) ≡ true
  pub counted : all (has fields (λ f. set f.facet)) (pieces (facet_fields_for c)) ≡ true
  pub ordered :
      (text_eq (before_colon (sort_for c r)) (lit "_text_match")
        || has fields (λ f. set f.sort) (before_colon (sort_for c r)))
      ≡ true

products_Serves :
    (r : RankingProfile) (gen : Generation) → Serves products r (product_schema gen).fields
unfolding query_fields_for facet_fields_for sort_for product_schema exact_symbols pieces
    before_colon
products_Serves by_relevance gen = record {
  searched = refl;
  weighed = refl;
  counted = refl;
  ordered = refl;
}
products_Serves _ gen = record { searched = refl; weighed = refl; counted = refl; ordered = refl }

merchants_Serves :
    (r : RankingProfile) (gen : Generation) → Serves merchants r (merchant_schema gen).fields
unfolding query_fields_for facet_fields_for sort_for merchant_schema exact_symbols pieces
    before_colon
merchants_Serves by_relevance gen = record {
  searched = refl;
  weighed = refl;
  counted = refl;
  ordered = refl;
}
merchants_Serves _ gen = record { searched = refl; weighed = refl; counted = refl; ordered = refl }

orders_Serves : (r : RankingProfile) (gen : Generation) → Serves orders r (order_schema gen).fields
unfolding query_fields_for facet_fields_for sort_for order_schema exact_symbols pieces before_colon
orders_Serves by_relevance gen = record {
  searched = refl;
  weighed = refl;
  counted = refl;
  ordered = refl;
}
orders_Serves _ gen = record { searched = refl; weighed = refl; counted = refl; ordered = refl }

fields_eq :
    (c : Collection) (r : RankingProfile) {a b : CollectionSchema}
    → some a ≡ some b
    → Serves c r a.fields
    → Serves c r b.fields
fields_eq c r {a} {b} h v =
    let same : a ≡ b = cc h in subst (λ (s : CollectionSchema). Serves c r s.fields) same v

-- The schema of a collection offers all that its queries name: each searched field is a text or a
-- list of texts, with a weight for each field; each facet is a facet field; and the order, under
-- every ranking, is by the match or by a field that is kept for sorting.
pub schema_for-Serves :
    (c : Collection) (r : RankingProfile) (gen : Generation) {s : CollectionSchema}
    → schema_for c gen ≡ some s
    → Serves c r s.fields
unfolding schema_for
schema_for-Serves products r gen h = fields_eq products r h (products_Serves r gen)
schema_for-Serves merchants r gen h = fields_eq merchants r h (merchants_Serves r gen)
schema_for-Serves orders r gen h = fields_eq orders r h (orders_Serves r gen)
schema_for-Serves (unnamed s) r gen h = absurd (ground arith)
