-- ===== src/Upstream/Identity/Laws.antt =====
-- What internal/identityclient promises to the sync: usable documents, and corrupt records set
-- apart.
use kinetix_search_service.Common.{
  ℤ, true, ◌≡◌, sym, ap, ◌∙◌, ok, err, arith, IsInt32, wrap32-id, subst, ok-injective,
}
use kinetix_search_service.Search.Errors.{Result, GoError, errf, kind_of, corrupt_record}
use kinetix_search_service.Search.Call.Rules.{>>=-inv, handling-inv, checked-inv}
use kinetix_search_service.Search.Identifier.{MerchantId, new_merchant_id, merchant_identifier}
use kinetix_search_service.Search.Identifier.Laws.{IsIdText, new_id-IsIdText, merchant_IsLawful}
use kinetix_search_service.Search.Document.{MerchantDoc, Cursor, Changes}
use kinetix_search_service.Upstream.{
  Timestamps, carries_transaction, to_proto_cursor, from_proto_cursor,
}
use kinetix_search_service.Upstream.Laws.{IsConversion, collect-IsConversion}
use kinetix_search_service.Upstream.Identity.{
  MerchantRecord, ChangedSinceResponse, Stub, to_doc, doc_of, to_changes, changed_since, asking,
  unpaged, request, outdated,
}

-- What a merchant of the identity service becomes.
abbrev pub IsGood : MerchantDoc → Type 0
IsGood d = IsIdText d.id.v

module _ {T : Type 0} (ts : Timestamps T) where
  doc_of-id :
      (p : MerchantRecord T) (r : Result MerchantId) (d : MerchantDoc)
      → doc_of ts p r ≡ ok d
      → r ≡ ok d.id
  doc_of-id p (ok id) d h = ap ok (ap (λ x. x.id) (ok-injective h))
  doc_of-id p (err e) d h = absurd (ground arith)

  to_doc-IsGood : (p : MerchantRecord T) (d : MerchantDoc) → to_doc ts p ≡ ok d → IsGood d
  unfolding to_doc new_merchant_id
  to_doc-IsGood p d h =
      new_id-IsIdText merchant_IsLawful p.principal_id _
        (doc_of-id p (new_merchant_id p.principal_id) d h)

  doc_of_corrupt :
      (p : MerchantRecord T) (r : Result MerchantId) (e : GoError)
      → doc_of ts p r ≡ err e
      → kind_of e ≡ corrupt_record
  unfolding kind_of errf
  doc_of_corrupt p (ok id) e h = absurd (ground arith)
  doc_of_corrupt p (err x) e h = ground arith

  to_doc_corrupt :
      (p : MerchantRecord T) (e : GoError) → to_doc ts p ≡ err e → kind_of e ≡ corrupt_record
  unfolding to_doc
  to_doc_corrupt p e h = doc_of_corrupt p (new_merchant_id p.principal_id) e h

  abbrev pub IsPageOf : ChangedSinceResponse T → Changes MerchantDoc → Type 0
  IsPageOf response =
      IsConversion (λ p. p.principal_id) (to_doc ts) IsGood response.upserted
        response.removed_principal_ids (from_proto_cursor ts response.next) response.has_more

  to_changes-IsPageOf :
      (response : ChangedSinceResponse T) → IsPageOf response (to_changes ts response)
  unfolding to_changes
  to_changes-IsPageOf response =
      collect-IsConversion (λ p. p.principal_id) (to_doc ts) response.upserted
        response.removed_principal_ids (from_proto_cursor ts response.next) response.has_more
        to_doc-IsGood to_doc_corrupt

module _ {W T : Type 0} (ts : Timestamps T) (stub : Stub W T) where
  -- What changes come from: one answer to one request, made from the cursor and the limit.
  pub record IsMerchantAnswer (cur : Cursor) (limit : ℤ) (w : W) (changes : Changes MerchantDoc)
      (w' : W) : Type 0 where
    pub response : ChangedSinceResponse T
    pub asked :
        stub.changed_since (record { cursor = to_proto_cursor ts cur; limit = limit }) w
        ≡ (ok response, w')
    pub carried : carries_transaction response.next ≡ true
    pub page : IsPageOf ts response changes

  -- If the limit fits 32 bits, changes that the client returns are one answer of the identity
  -- service to the cursor and the limit, which carries a transaction: each of its merchants, in
  -- order, is a document whose identifier is well formed or is refused, under its principal, as a
  -- corrupt record.
  pub changed_since-IsMerchantAnswer :
      (cur : Cursor) (limit : ℤ) (w : W) {changes : Changes MerchantDoc} {w' : W}
      → IsInt32 limit
      → changed_since ts stub cur limit w ≡ (ok changes, w')
      → IsMerchantAnswer cur limit w changes w'
  unfolding changed_since
  changed_since-IsMerchantAnswer cur limit w fits h =
      let (response, w₁, got, last) = >>=-inv (asking ts stub cur limit) _ w h in
      let (carried, same, kept) =
        checked-inv (carries_transaction response.next) (to_changes ts response) (outdated ts stub)
          w₁ last in
      record {
        response = response;
        asked =
            (λ i.
              stub.changed_since
                (record { cursor = to_proto_cursor ts cur; limit = sym (wrap32-id limit fits) i })
                w)
            ∙ handling-inv (unpaged ts stub cur) (stub.changed_since (request ts stub cur limit)) w
                got
            ∙ (λ i. (ok response, kept i));
        carried = carried;
        page = subst (IsPageOf ts response) same (to_changes-IsPageOf ts response);
      }
