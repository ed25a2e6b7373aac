-- ===== src/Search/Identifier.antt =====
-- internal/search/identifier.go, with `isControl` of document.go: the four identifiers and the one
-- function that makes them. A struct with the unexported field `v` is a record here, and the
-- constraint `identifier[T]` is an instance argument with the type's zero value and its `set`.
pub mod Laws
use kinetix_search_service.Common.{
  ℕ, Bool, ◌||◌, none, [], Text, lit, is_empty, any, byte_len, trim_space, ltb, ◌==◌, if◌then◌else◌,
  ok, err,
}
use kinetix_search_service.Search.Errors.{Result, errf, malformed_query}

unfoldable pub is_control : ℕ → Bool
is_control r = ltb r 0x20 || r == 0x7f

pub record ProductId : Type 0 where
  pub v : Text

pub record MerchantId : Type 0 where
  pub v : Text

pub record OrderId : Type 0 where
  pub v : Text

pub record BuyerId : Type 0 where
  pub v : Text

pub record Identifier (T : Type 0) : Type 0 where
  pub zero_id : T
  pub set_id : T → Text → T
  pub string : T → Text

instance abbrev pub product_identifier : Identifier ProductId
product_identifier = record {
  zero_id = record { v = [] };
  set_id = λ p s. record p { v = s };
  string = λ p. p.v;
}

instance abbrev pub merchant_identifier : Identifier MerchantId
merchant_identifier = record {
  zero_id = record { v = [] };
  set_id = λ p s. record p { v = s };
  string = λ p. p.v;
}

instance abbrev pub order_identifier : Identifier OrderId
order_identifier = record {
  zero_id = record { v = [] };
  set_id = λ p s. record p { v = s };
  string = λ p. p.v;
}

instance abbrev pub buyer_identifier : Identifier BuyerId
buyer_identifier = record {
  zero_id = record { v = [] };
  set_id = λ p s. record p { v = s };
  string = λ p. p.v;
}

abbrev pub max_id_length : ℕ
max_id_length = 64

-- `newID`.
module _ {T : Type 0} ⦃i : Identifier T⦄ where
  abbrev id_of_trimmed : Text → Text → Result T
  unfolding is_control
  id_of_trimmed trimmed op =
      if is_empty trimmed
      then err (errf malformed_query op none (lit "empty identifier") [])
      else if ltb max_id_length (byte_len trimmed)
      then err (errf malformed_query op none (lit "identifier too long") [])
      else if any is_control trimmed
      then err (errf malformed_query op none (lit "control byte in identifier") [])
      else ok (i.set_id i.zero_id trimmed)

  unfoldable pub new_id : Text → Text → Result T
  unfolding is_control
  new_id raw op = id_of_trimmed (trim_space raw) op

unfoldable pub new_product_id : Text → Result ProductId
new_product_id raw = new_id raw (lit "search.NewProductID")

unfoldable pub new_merchant_id : Text → Result MerchantId
new_merchant_id raw = new_id raw (lit "search.NewMerchantID")

unfoldable pub new_order_id : Text → Result OrderId
new_order_id raw = new_id raw (lit "search.NewOrderID")

unfoldable pub new_buyer_id : Text → Result BuyerId
new_buyer_id raw = new_id raw (lit "search.NewBuyerID")

-- `IsZero` of each of the four.
abbrev pub is_zero_id : {T : Type 0} ⦃i : Identifier T⦄ → T → Bool
is_zero_id ⦃i⦄ t = is_empty (i.string t)
