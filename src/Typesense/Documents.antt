-- ===== src/Typesense/Documents.antt =====
-- internal/typesense/documents.go: documents on their way into the engine and back.
-- A `map[string]any` is its list of entries. An `any` is one of the values below; in a `[]any` an
-- element that is no string is `none`, and every other value that JSON can hold is `other`.
pub mod RoundTrip
use kinetix_search_service.Common.{
  ℤ, pos, Bool, true, false, Option, none, some, List, [], ◌∷◌, map, Text, lit, text_eq,
  if◌then◌else◌, ok, err, Floats, ◌>>=◌,
}
use kinetix_search_service.Search.Errors.{Result, GoError, errf, corrupt_record}
use kinetix_search_service.Search.Time.{Time, zero_time, unix_milli, time_of_millis}
use kinetix_search_service.Search.Identifier.{
  Identifier, ProductId, MerchantId, OrderId, BuyerId, new_product_id, new_merchant_id,
  new_order_id, new_buyer_id, merchant_identifier, buyer_identifier,
}
use kinetix_search_service.Search.Document.{ProductDoc, MerchantDoc, OrderDoc}

pub data Value (F : Type 0) : Type 0 where
  str : Text → Value F
  int64 : ℤ → Value F
  float64 : F → Value F
  bool : Bool → Value F
  strs : List Text → Value F
  anys : List (Option Text) → Value F
  other : Value F

abbrev pub Document : Type 0 → Type 0
Document F = List (Text × Value F)

-- `m[key]`
abbrev pub get : {F : Type 0} → Document F → Text → Option (Value F)
get [] key = none
get ((k, v) ∷ m) key = if text_eq k key then some v else get m key

abbrev pub strings_in : List (Option Text) → List Text
strings_in [] = []
strings_in (none ∷ vs) = strings_in vs
strings_in (some s ∷ vs) = s ∷ strings_in vs

-- The value of a failed constructor is the zero identifier, and the error is dropped.
abbrev pub or_zero : {T : Type 0} ⦃i : Identifier T⦄ → Result T → T
or_zero (ok t) = t
or_zero ⦃i⦄ (err e) = i.zero_id

unfoldable pub encode_product : {F : Type 0} → ProductDoc → Document F
encode_product d =
    (lit "id", str d.id.v)
    ∷ (lit "merchant_id", str d.merchant_id.v)
    ∷ (lit "title", str d.title)
    ∷ (lit "description", str d.description)
    ∷ (lit "categories", strs d.categories)
    ∷ (lit "price_minor", int64 d.price_minor)
    ∷ (lit "currency", str d.currency)
    ∷ (lit "updated_at", int64 (unix_milli d.updated_at))
    ∷ []

unfoldable pub encode_merchant : {F : Type 0} → MerchantDoc → Document F
encode_merchant d =
    (lit "id", str d.id.v)
    ∷ (lit "display_name", str d.display_name)
    ∷ (lit "status", str d.status)
    ∷ (lit "may_sell", bool d.may_sell)
    ∷ (lit "categories", strs d.categories)
    ∷ (lit "updated_at", int64 (unix_milli d.updated_at))
    ∷ []

unfoldable pub encode_order : {F : Type 0} → OrderDoc → Document F
encode_order d =
    (lit "id", str d.id.v)
    ∷ (lit "buyer", str d.buyer.v)
    ∷ (lit "merchant_id", str d.merchant_id.v)
    ∷ (lit "number", str d.number)
    ∷ (lit "status", str d.status)
    ∷ (lit "line_titles", strs d.line_titles)
    ∷ (lit "placed_at", int64 (unix_milli d.placed_at))
    ∷ (lit "updated_at", int64 (unix_milli d.updated_at))
    ∷ []

module _ {F : Type 0} (fl : Floats F) where
  unfoldable pub time_from_millis : Option (Value F) → Time
  time_from_millis (some (float64 x)) = time_of_millis (fl.to_int64 x)
  time_from_millis (some (int64 n)) = time_of_millis n
  time_from_millis _ = zero_time

  abbrev text_of : Option (Value F) → Text
  text_of (some (str s)) = s
  text_of _ = []

  unfoldable pub text : Document F → Text → Text
  text m key = text_of (get m key)

  abbrev number_of : Option (Value F) → ℤ
  number_of (some (float64 x)) = fl.to_int64 x
  number_of (some (int64 n)) = n
  number_of _ = pos 0

  unfoldable pub number : Document F → Text → ℤ
  number m key = number_of (get m key)

  abbrev boolean_of : Option (Value F) → Bool
  boolean_of (some (bool b)) = b
  boolean_of _ = false

  unfoldable pub boolean : Document F → Text → Bool
  boolean m key = boolean_of (get m key)

  abbrev string_list_of : Option (Value F) → List Text
  string_list_of (some (anys vs)) = strings_in vs
  string_list_of _ = []

  unfoldable pub string_list : Document F → Text → List Text
  string_list m key = string_list_of (get m key)

  abbrev corrupt : {A : Type 0} → Text → Text → Result A → Result A
  corrupt op format (ok a) = ok a
  corrupt op format (err e) = err (errf corrupt_record op (some e) format [])

  unfoldable pub decode_product : Document F → Result ProductDoc
  unfolding text number string_list time_from_millis
  decode_product m = do
    id ←
        corrupt (lit "typesense.DecodeProduct") (lit "indexed product has an unusable id")
          (new_product_id (text m (lit "id")))
    ok (record {
      id = id;
      merchant_id = or_zero (new_merchant_id (text m (lit "merchant_id")));
      title = text m (lit "title");
      description = text m (lit "description");
      categories = string_list m (lit "categories");
      price_minor = number m (lit "price_minor");
      currency = text m (lit "currency");
      updated_at = time_from_millis (get m (lit "updated_at"));
    })

  unfoldable pub decode_merchant : Document F → Result MerchantDoc
  unfolding text boolean string_list time_from_millis
  decode_merchant m = do
    id ←
        corrupt (lit "typesense.DecodeMerchant") (lit "indexed merchant has an unusable id")
          (new_merchant_id (text m (lit "id")))
    ok (record {
      id = id;
      display_name = text m (lit "display_name");
      status = text m (lit "status");
      may_sell = boolean m (lit "may_sell");
      categories = string_list m (lit "categories");
      updated_at = time_from_millis (get m (lit "updated_at"));
    })

  unfoldable pub decode_order : Document F → Result OrderDoc
  unfolding text string_list time_from_millis
  decode_order m = do
    id ←
        corrupt (lit "typesense.DecodeOrder") (lit "indexed order has an unusable id")
          (new_order_id (text m (lit "id")))
    ok (record {
      id = id;
      buyer = or_zero (new_buyer_id (text m (lit "buyer")));
      merchant_id = or_zero (new_merchant_id (text m (lit "merchant_id")));
      number = text m (lit "number");
      status = text m (lit "status");
      line_titles = string_list m (lit "line_titles");
      placed_at = time_from_millis (get m (lit "placed_at"));
      updated_at = time_from_millis (get m (lit "updated_at"));
    })
