-- ===== src/Typesense/Documents/RoundTrip.antt =====
-- What internal/typesense/documents.go writes, the engine's JSON carries, and it reads again.
use kinetix_search_service.Common.{
  if◌then◌else◌, undecodable, any, All, map, false, arith, ◌≡◌, refl, sym, ap, ◌∙◌, ◌⊎◌, inl, inr,
  Option, some, List, [], ◌∷◌, Text, lit, ok, Floats, IsExact, trim_space,
}
use kinetix_search_service.Search.Errors.{Result}
use kinetix_search_service.Search.Time.{Time, unix_milli, time_of_millis}
use kinetix_search_service.Search.Time.Millis.{IsMillis, time_of_millis-unix_milli}
use kinetix_search_service.Search.Identifier.{
  new_id, ProductId, MerchantId, OrderId, BuyerId, new_product_id, new_merchant_id, new_order_id,
  new_buyer_id, product_identifier, merchant_identifier, order_identifier, buyer_identifier,
}
use kinetix_search_service.Search.Identifier.Laws.{
  IsIdText, new_id_complete, product_IsLawful, merchant_IsLawful, order_IsLawful, buyer_IsLawful,
}
use kinetix_search_service.Search.Document.{ProductDoc, MerchantDoc, OrderDoc}
use kinetix_search_service.Typesense.Documents.{
  str, Value, Document, int64, float64, strs, anys, or_zero, strings_in, time_from_millis,
  encode_product, decode_product, encode_merchant, decode_merchant, encode_order, decode_order,
}

-- A list of strings in a `[]any`.
abbrev somes : List Text → List (Option Text)
somes [] = []
somes (s ∷ ss) = some s ∷ somes ss

strings_in-somes : (ss : List Text) → strings_in (somes ss) ≡ ss
strings_in-somes [] = refl
strings_in-somes (s ∷ ss) = ap (λ (x : List Text). s ∷ x) (strings_in-somes ss)

abbrev pub readable : Text → Text
readable [] = []
readable (r ∷ s) = (if undecodable r then 0xfffd else r) ∷ readable s

-- A text of runes only.
abbrev pub IsReadable : Text → Type 0
IsReadable s = any undecodable s ≡ false

readable_id : (s : Text) → IsReadable s → readable s ≡ s
readable_id [] h = refl
readable_id (r ∷ s) h = ground (arith, readable_id s)

readable_all : (ss : List Text) → All IsReadable ss → map readable ss ≡ ss
readable_all [] h = refl
readable_all (s ∷ ss) h = λ i. readable_id s h.0 i ∷ readable_all ss h.1 i

strings_in-carried :
    (ss : List Text) → All IsReadable ss → strings_in (somes (map readable ss)) ≡ ss
strings_in-carried ss h = strings_in-somes (map readable ss) ∙ readable_all ss h

module _ {F : Type 0} (fl : Floats F) where
  -- `json.Marshal` and `json.Unmarshal` into an `any`: every number becomes a `float64`, and every
  -- list a `[]any`; in a string each byte that decodes to no rune becomes U+FFFD. (A nil list becomes
  -- `null`, which is read as an empty list too. The keys are literals of the source.)
  abbrev pub carried_value : Value F → Value F
  carried_value (int64 n) = float64 (fl.of_int64 n)
  carried_value (str s) = str (readable s)
  carried_value (strs ss) = anys (somes (map readable ss))
  carried_value v = v

  abbrev pub carried : Document F → Document F
  carried [] = []
  carried ((k, v) ∷ m) = (k, carried_value v) ∷ carried m

  -- A time that can come back: whole milliseconds, so many that a `float64` holds them.
  pub record IsCarried (t : Time) : Type 0 where
    pub millis : IsMillis t
    pub exact : IsExact (unix_milli t)

  time_comes_back :
      (t : Time)
      → IsCarried t
      → time_from_millis fl (some (float64 (fl.of_int64 (unix_milli t)))) ≡ t
  unfolding time_from_millis
  time_comes_back t v =
      ap time_of_millis (fl.to_int64-of_int64 (unix_milli t) v.exact)
      ∙ time_of_millis-unix_milli t v.millis

abbrev pub IsMaybeId : Text → Type 0
IsMaybeId s = (s ≡ []) ⊎ IsIdText s

merchant_of : Text → MerchantId
merchant_of s = or_zero (new_merchant_id s)

merchant_of_nothing : merchant_of [] ≡ record { v = [] }
unfolding merchant_of new_merchant_id new_id trim_space
merchant_of_nothing = refl

merchant_comes_back : (m : MerchantId) → IsMaybeId m.v → or_zero (new_merchant_id m.v) ≡ m
unfolding new_merchant_id merchant_of
merchant_comes_back m (inl e) =
    ap merchant_of e
    ∙ merchant_of_nothing
    ∙ ap (λ (s : Text). let n : MerchantId = record { v = s } in n) (sym e)
merchant_comes_back m (inr v) =
    ap (λ (r : Result MerchantId). or_zero r)
      (new_id_complete merchant_IsLawful m.v (lit "search.NewMerchantID") v)

product_id_again : (id : ProductId) → IsIdText id.v → new_product_id id.v ≡ ok id
unfolding new_product_id
product_id_again id v = new_id_complete product_IsLawful id.v (lit "search.NewProductID") v

merchant_id_again : (id : MerchantId) → IsIdText id.v → new_merchant_id id.v ≡ ok id
unfolding new_merchant_id
merchant_id_again id v = new_id_complete merchant_IsLawful id.v (lit "search.NewMerchantID") v

order_id_again : (id : OrderId) → IsIdText id.v → new_order_id id.v ≡ ok id
unfolding new_order_id
order_id_again id v = new_id_complete order_IsLawful id.v (lit "search.NewOrderID") v

buyer_comes_back : (b : BuyerId) → IsIdText b.v → or_zero (new_buyer_id b.v) ≡ b
unfolding new_buyer_id
buyer_comes_back b v =
    ap (λ (r : Result BuyerId). or_zero r)
      (new_id_complete buyer_IsLawful b.v (lit "search.NewBuyerID") v)

module _ {F : Type 0} (fl : Floats F) where
  -- What a product has to be for the engine to give it back.
  pub record IsStorableProduct (d : ProductDoc) : Type 0 where
    pub id : IsIdText d.id.v
    pub merchant_id : IsMaybeId d.merchant_id.v
    pub price : IsExact d.price_minor
    pub updated : IsCarried fl d.updated_at
    pub texts :
        All IsReadable
          (d.id.v ∷ d.merchant_id.v ∷ d.title ∷ d.description ∷ d.currency ∷ d.categories)

  -- A product that is storable (its texts are runes only, its id is an identifier's text, its merchant's empty or one, its
  -- price within 2^53, its time in whole milliseconds within 2^53) is read from the engine as it
  -- was written.
  pub decode_product-encode_product :
      (d : ProductDoc)
      → IsStorableProduct d
      → decode_product fl (carried fl (encode_product d)) ≡ ok d
  unfolding encode_product decode_product
  decode_product-encode_product d v =
      let (id, (merchant, (title, (description, (currency, categories))))) = v.texts in
      rw (readable_id d.id.v id, product_id_again d.id v.id)
        λ i. ok (record d {
          merchant_id =
              (ap (λ s. or_zero (new_merchant_id s)) (readable_id d.merchant_id.v merchant)
                  ∙ merchant_comes_back d.merchant_id v.merchant_id)
                i;
          title = readable_id d.title title i;
          description = readable_id d.description description i;
          currency = readable_id d.currency currency i;
          categories = strings_in-carried d.categories categories i;
          price_minor = fl.to_int64-of_int64 d.price_minor v.price i;
          updated_at = time_comes_back fl d.updated_at v.updated i;
        })

  pub record IsStorableMerchant (d : MerchantDoc) : Type 0 where
    pub id : IsIdText d.id.v
    pub updated : IsCarried fl d.updated_at
    pub texts : All IsReadable (d.id.v ∷ d.display_name ∷ d.status ∷ d.categories)

  -- A merchant whose texts are runes only, whose id is an identifier's text, and whose time is in whole milliseconds within
  -- 2^53, is read from the engine as it was written.
  pub decode_merchant-encode_merchant :
      (d : MerchantDoc)
      → IsStorableMerchant d
      → decode_merchant fl (carried fl (encode_merchant d)) ≡ ok d
  unfolding encode_merchant decode_merchant
  decode_merchant-encode_merchant d v =
      let (id, (name, (status, categories))) = v.texts in
      rw (readable_id d.id.v id, merchant_id_again d.id v.id)
        λ i. ok (record d {
          display_name = readable_id d.display_name name i;
          status = readable_id d.status status i;
          categories = strings_in-carried d.categories categories i;
          updated_at = time_comes_back fl d.updated_at v.updated i;
        })

  -- The buyer of an order is never empty.
  pub record IsStorableOrder (d : OrderDoc) : Type 0 where
    pub id : IsIdText d.id.v
    pub buyer : IsIdText d.buyer.v
    pub merchant_id : IsMaybeId d.merchant_id.v
    pub placed : IsCarried fl d.placed_at
    pub updated : IsCarried fl d.updated_at
    pub texts :
        All IsReadable (d.id.v ∷ d.buyer.v ∷ d.merchant_id.v ∷ d.number ∷ d.status ∷ d.line_titles)

  -- An order whose texts are runes only, whose id and buyer are identifiers' texts, its merchant's empty or one, and whose
  -- times are in whole milliseconds within 2^53, is read from the engine as it was written.
  pub decode_order-encode_order :
      (d : OrderDoc) → IsStorableOrder d → decode_order fl (carried fl (encode_order d)) ≡ ok d
  unfolding encode_order decode_order
  decode_order-encode_order d v =
      let (id, (buyer, (merchant, (number, (status, titles))))) = v.texts in
      rw (readable_id d.id.v id, order_id_again d.id v.id)
        λ i. ok (record d {
          buyer =
              (ap (λ s. or_zero (new_buyer_id s)) (readable_id d.buyer.v buyer)
                  ∙ buyer_comes_back d.buyer v.buyer)
                i;
          merchant_id =
              (ap (λ s. or_zero (new_merchant_id s)) (readable_id d.merchant_id.v merchant)
                  ∙ merchant_comes_back d.merchant_id v.merchant_id)
                i;
          number = readable_id d.number number i;
          status = readable_id d.status status i;
          line_titles = strings_in-carried d.line_titles titles i;
          placed_at = time_comes_back fl d.placed_at v.placed i;
          updated_at = time_comes_back fl d.updated_at v.updated i;
        })

  -- Documents come back from the engine as they were written: a product, a merchant and an order whose
  -- texts are runes only, whose identifiers are identifiers' texts (that of a product's or an order's
  -- merchant may be empty), whose times are in whole milliseconds within 2^53, and, of a product, whose
  -- price is within 2^53.
  pub documents_come_back :
      (p : ProductDoc) (m : MerchantDoc) (o : OrderDoc)
      → IsStorableProduct p
      → IsStorableMerchant m
      → IsStorableOrder o
      → (decode_product fl (carried fl (encode_product p)) ≡ ok p)
        × (decode_merchant fl (carried fl (encode_merchant m)) ≡ ok m)
        × (decode_order fl (carried fl (encode_order o)) ≡ ok o)
  documents_come_back p m o vp vm vo = (
    decode_product-encode_product p vp,
    decode_merchant-encode_merchant m vm,
    decode_order-encode_order o vo,
  )
