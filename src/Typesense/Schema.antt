-- ===== src/Typesense/Schema.antt =====
-- internal/typesense/schema.go: the fields of each collection, and the lists of names that queries
-- take from it. The engine client's `api.Field` and `api.CollectionSchema` are the records here,
-- with an unset pointer as `none`.
pub mod Consistent
use kinetix_search_service.Common.{Bool, true, Option, none, some, List, [], ◌∷◌, map, Text, lit}
use kinetix_search_service.Search.Document.{
  Collection, Generation, products, merchants, orders, unnamed,
}

pub record Field : Type 0 where
  pub name : Text
  pub type_name : Text
  pub facet : Option Bool
  pub optional : Option Bool
  pub sort : Option Bool
  pub range_index : Option Bool
  pub symbols_to_index : Option (List Text)

pub record CollectionSchema : Type 0 where
  pub name : Text
  pub fields : List Field

-- `strings.Split(…, "")` of a text: its runes, each a text.
unfoldable pub exact_symbols : List Text
exact_symbols = map (λ c. c ∷ []) (lit "!\"#$%&'()*+,-./:;<=>?@[\\]^_{|}~")

abbrev plain : Text → Text → Field
plain name type_name = record {
  name = name;
  type_name = type_name;
  facet = none;
  optional = none;
  sort = none;
  range_index = none;
  symbols_to_index = none;
}

abbrev faceted : Field → Field
faceted f = record f { facet = some true }

abbrev may_lack : Field → Field
may_lack f = record f { optional = some true }

abbrev sorted : Field → Field
sorted f = record f { sort = some true }

abbrev ranged : Field → Field
ranged f = record f { range_index = some true }

abbrev exact : Field → Field
exact f = record f { symbols_to_index = some exact_symbols }

unfoldable pub product_schema : Generation → CollectionSchema
product_schema gen = record {
  name = gen;
  fields =
      plain (lit "id") (lit "string")
      ∷ exact (faceted (plain (lit "merchant_id") (lit "string")))
      ∷ plain (lit "title") (lit "string")
      ∷ may_lack (plain (lit "description") (lit "string"))
      ∷ exact (may_lack (faceted (plain (lit "categories") (lit "string[]"))))
      ∷ ranged (sorted (plain (lit "price_minor") (lit "int64")))
      ∷ faceted (plain (lit "currency") (lit "string"))
      ∷ sorted (plain (lit "updated_at") (lit "int64"))
      ∷ [];
}

unfoldable pub merchant_schema : Generation → CollectionSchema
merchant_schema gen = record {
  name = gen;
  fields =
      plain (lit "id") (lit "string")
      ∷ plain (lit "display_name") (lit "string")
      ∷ faceted (plain (lit "status") (lit "string"))
      ∷ faceted (plain (lit "may_sell") (lit "bool"))
      ∷ exact (may_lack (faceted (plain (lit "categories") (lit "string[]"))))
      ∷ sorted (plain (lit "updated_at") (lit "int64"))
      ∷ [];
}

unfoldable pub order_schema : Generation → CollectionSchema
order_schema gen = record {
  name = gen;
  fields =
      plain (lit "id") (lit "string")
      ∷ exact (faceted (plain (lit "buyer") (lit "string")))
      ∷ exact (faceted (plain (lit "merchant_id") (lit "string")))
      ∷ plain (lit "number") (lit "string")
      ∷ faceted (plain (lit "status") (lit "string"))
      ∷ may_lack (plain (lit "line_titles") (lit "string[]"))
      ∷ sorted (plain (lit "placed_at") (lit "int64"))
      ∷ sorted (plain (lit "updated_at") (lit "int64"))
      ∷ [];
}

unfoldable pub schema_for : Collection → Generation → Option CollectionSchema
schema_for products gen = some (product_schema gen)
schema_for merchants gen = some (merchant_schema gen)
schema_for orders gen = some (order_schema gen)
schema_for (unnamed s) gen = none

-- The fields and their weights.
unfoldable pub query_fields_for : Collection → Text × Text
query_fields_for products = (lit "title,categories,description", lit "4,2,1")
query_fields_for merchants = (lit "display_name,categories", lit "3,1")
query_fields_for orders = (lit "number,line_titles,status", lit "5,2,1")
query_fields_for (unnamed s) = ([], [])

unfoldable pub facet_fields_for : Collection → Text
facet_fields_for products = lit "categories,merchant_id,currency"
facet_fields_for merchants = lit "categories,status,may_sell"
facet_fields_for orders = lit "status"
facet_fields_for (unnamed s) = []
