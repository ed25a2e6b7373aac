-- ===== src/Upstream/Order/Laws.antt =====
-- What internal/orderclient promises to the sync: usable documents, and corrupt records set apart.
use kinetix_search_service.Common.{
  ℤ, true, ◌≡◌, sym, ap, ◌∙◌, [], ok, err, arith, IsInt32, wrap32-id, subst, ok-injective,
}
use kinetix_search_service.Search.Errors.{Result, GoError, errf, kind_of, corrupt_record}
use kinetix_search_service.Search.Call.Rules.{>>=-inv, handling-inv, checked-inv}
use kinetix_search_service.Search.Identifier.{
  OrderId, BuyerId, new_order_id, new_buyer_id, order_identifier, buyer_identifier,
}
use kinetix_search_service.Search.Identifier.Laws.{
  IsIdText, new_id-IsIdText, order_IsLawful, buyer_IsLawful,
}
use kinetix_search_service.Search.Document.{OrderDoc, Cursor, Changes}
use kinetix_search_service.Upstream.{
  Timestamps, carries_transaction, to_proto_cursor, from_proto_cursor,
}
use kinetix_search_service.Upstream.Laws.{IsConversion, collect-IsConversion}
use kinetix_search_service.Upstream.Order.{
  OrderRecord, ChangedSinceResponse, Stub, to_doc, doc_of, to_changes, changed_since, doc_for,
  asking, unpaged, request, outdated,
}

-- What an order of the order service becomes: it always has a buyer.
abbrev pub IsGood : OrderDoc → Type 0
IsGood d = IsIdText d.id.v × IsIdText d.buyer.v

module _ {T : Type 0} (ts : Timestamps T) where
  doc_for-inv :
      (o : OrderRecord T) (id : OrderId) (r : Result BuyerId) (d : OrderDoc)
      → doc_for ts o id r ≡ ok d
      → (id ≡ d.id) × (r ≡ ok d.buyer)
  doc_for-inv o id (ok buyer) d h =
      (ap (λ x. x.id) (ok-injective h), ap ok (ap (λ x. x.buyer) (ok-injective h)))
  doc_for-inv o id (err e) d h = absurd (ground arith)

  doc_of-inv :
      (o : OrderRecord T) (r : Result OrderId) (d : OrderDoc)
      → doc_of ts o r ≡ ok d
      → (r ≡ ok d.id) × (new_buyer_id o.buyer_principal_id ≡ ok d.buyer)
  doc_of-inv o (ok id) d h =
      let (same, buyer) = doc_for-inv o id (new_buyer_id o.buyer_principal_id) d h in
      (ap ok same, buyer)
  doc_of-inv o (err e) d h = absurd (ground arith)

  to_doc-IsGood : (o : OrderRecord T) (d : OrderDoc) → to_doc ts o ≡ ok d → IsGood d
  unfolding to_doc new_order_id new_buyer_id
  to_doc-IsGood o d h =
      let (id, buyer) = doc_of-inv o (new_order_id o.order_number) d h in
      (
        new_id-IsIdText order_IsLawful o.order_number _ id,
        new_id-IsIdText buyer_IsLawful o.buyer_principal_id _ buyer,
      )

  doc_for_corrupt :
      (o : OrderRecord T) (id : OrderId) (r : Result BuyerId) (e : GoError)
      → doc_for ts o id r ≡ err e
      → kind_of e ≡ corrupt_record
  unfolding kind_of errf
  doc_for_corrupt o id (ok buyer) e h = absurd (ground arith)
  doc_for_corrupt o id (err x) e h = ground arith

  doc_of_corrupt :
      (o : OrderRecord T) (r : Result OrderId) (e : GoError)
      → doc_of ts o r ≡ err e
      → kind_of e ≡ corrupt_record
  unfolding kind_of errf
  doc_of_corrupt o (ok id) e h = doc_for_corrupt o id (new_buyer_id o.buyer_principal_id) e h
  doc_of_corrupt o (err x) e h = ground arith

  to_doc_corrupt :
      (o : OrderRecord T) (e : GoError) → to_doc ts o ≡ err e → kind_of e ≡ corrupt_record
  unfolding to_doc
  to_doc_corrupt o e h = doc_of_corrupt o (new_order_id o.order_number) e h

  abbrev pub IsPageOf : ChangedSinceResponse T → Changes OrderDoc → Type 0
  IsPageOf response =
      IsConversion (λ p. p.order_number) (to_doc ts) IsGood response.upserted []
        (from_proto_cursor ts response.next) response.has_more

  to_changes-IsPageOf :
      (response : ChangedSinceResponse T) → IsPageOf response (to_changes ts response)
  unfolding to_changes
  to_changes-IsPageOf response =
      collect-IsConversion (λ p. p.order_number) (to_doc ts) response.upserted []
        (from_proto_cursor ts response.next) response.has_more to_doc-IsGood to_doc_corrupt

module _ {W T : Type 0} (ts : Timestamps T) (stub : Stub W T) where
  -- What changes come from: one answer to one request, made from the cursor and the limit.
  pub record IsOrderAnswer (cur : Cursor) (limit : ℤ) (w : W) (changes : Changes OrderDoc) (w' : W)
      : Type 0 where
    pub response : ChangedSinceResponse T
    pub asked :
        stub.changed_since (record { cursor = to_proto_cursor ts cur; limit = limit }) w
        ≡ (ok response, w')
    pub carried : carries_transaction response.next ≡ true
    pub page : IsPageOf ts response changes

  -- If the limit fits 32 bits, changes that the client returns are one answer of the order service
  -- to the cursor and the limit, which carries a transaction: each of its orders, in order, is a
  -- document with a well-formed identifier and a well-formed buyer or is refused, under its number,
  -- as a corrupt record.
  pub changed_since-IsOrderAnswer :
      (cur : Cursor) (limit : ℤ) (w : W) {changes : Changes OrderDoc} {w' : W}
      → IsInt32 limit
      → changed_since ts stub cur limit w ≡ (ok changes, w')
      → IsOrderAnswer cur limit w changes w'
  unfolding changed_since
  changed_since-IsOrderAnswer cur limit w fits h =
      let (response, w₁, got, last) = >>=-inv (asking ts stub cur limit) _ w h in
      let (carried, same, kept) =
        checked-inv (carries_transaction response.next) (to_changes ts response) (outdated ts stub)
          w₁ last in
      record {
        response = response;
        asked =
            (λ i.
              stub.changed_since
                (record { cursor = to_proto_cursor ts cur; limit = sym (wrap32-id limit fits) i })
                w)
            ∙ handling-inv (unpaged ts stub cur) (stub.changed_since (request ts stub cur limit)) w
                got
            ∙ (λ i. (ok response, kept i));
        carried = carried;
        page = subst (IsPageOf ts response) same (to_changes-IsPageOf ts response);
      }
