-- ===== src/Indexing/Delivered/Indexed.antt =====
-- internal/typesense/index.go over an engine that does what it is asked.
use kinetix_search_service.Common.{
  sym, subst, nonempty, true, false, ℕ, ℤ, suc, ◌≡◌, refl, ap, ◌∙◌, Option, none, some, List, [],
  ◌∷◌, map, length, Text, ok, err, All,
}
use kinetix_search_service.Search.Errors.{Result}
use kinetix_search_service.Search.Call.{Call, when}
use kinetix_search_service.Search.Call.Yields.{Yields, Yields-pure, Yields->>=, Yields-handling}
use kinetix_search_service.Typesense.Schema.{
  CollectionSchema, schema_for, product_schema, merchant_schema, order_schema,
}
use kinetix_search_service.Search.Document.{
  ProductDoc, MerchantDoc, OrderDoc, products, merchants, orders, unnamed, Collection, Generation,
}
use kinetix_search_service.Indexing.Memory.{drops}
use kinetix_search_service.Typesense.Documents.{
  Document, encode_product, encode_merchant, encode_order,
}
use kinetix_search_service.Typesense.Engine.{Engine, ImportResult}
use kinetix_search_service.Typesense.Index.{
  first_refusal, created, create_generation, bulk, import_error, count_in, promote, remove, deleted,
  live, live_of,
}
use kinetix_search_service.Typesense.Index.Laws.{IsAccepted, IsGone}
use kinetix_search_service.Indexing.Delivered.{
  with_generation, Seen, IsNamed, stored, written, Stores,
}

first_refusal-none :
    (n count : ℕ) (g : Generation) (rs : List (Option ImportResult))
    → All IsAccepted rs
    → first_refusal n count g rs ≡ ok tt
unfolding first_refusal
first_refusal-none n count g [] h = refl
first_refusal-none n count g (none ∷ rs) h = first_refusal-none (suc n) count g rs h.1
first_refusal-none n count g (some r ∷ rs) h = rw (h.0) (first_refusal-none (suc n) count g rs h.1)

-- The documents of the three collections carry their ids.
pub product-IsNamed : {F : Type 0} (d : ProductDoc) → IsNamed (encode_product {F = F} d)
unfolding encode_product
product-IsNamed d = refl

pub merchant-IsNamed : {F : Type 0} (d : MerchantDoc) → IsNamed (encode_merchant {F = F} d)
unfolding encode_merchant
merchant-IsNamed d = refl

pub order-IsNamed : {F : Type 0} (d : OrderDoc) → IsNamed (encode_order {F = F} d)
unfolding encode_order
order-IsNamed d = refl

-- A collection with a schema.
abbrev pub IsKnown : Collection → Type 0
IsKnown products = Unit
IsKnown merchants = Unit
IsKnown orders = Unit
IsKnown (unnamed s) = ⊥

schema_for-name :
    (c : Collection) (g : Generation)
    → IsKnown c
    → (schema : CollectionSchema) × (schema_for c g ≡ some schema) × (schema.name ≡ g)
unfolding schema_for product_schema merchant_schema order_schema
schema_for-name products g known = (product_schema g, refl, refl)
schema_for-name merchants g known = (merchant_schema g, refl, refl)
schema_for-name orders g known = (order_schema g, refl, refl)
schema_for-name (unnamed s) g known = absurd known

module _ {W F D : Type 0} (view : W → Seen F) (engine : Engine W F) (c : Collection)
    (encode : D → Document F) {size : (Text → Option (Document F)) → ℤ}
    (stores : Stores view engine c size) where
  pub live-Yields : (s : Seen F) → Yields view s (live engine c encode) s.alias s
  unfolding live
  live-Yields s = record {
    at = λ w seen.
        let (w₁, answer, seen₁) = (stores.points s).at w seen in
        (w₁, ap (λ p. (live_of engine c encode p.0, p.1)) answer, seen₁);
  }

  bulk-Yields :
      (s : Seen F) (g : Generation) (ds : List D)
      → s.made g ≡ true
      → All IsNamed (map encode ds)
      → Yields view s (bulk engine c encode g ds) tt (written g (stored (map encode ds)) s)
  unfolding bulk
  bulk-Yields s g [] made named = Yields-pure view s tt
  bulk-Yields s g (d ∷ ds) made named =
      Yields->>= view _ _
        (Yields-handling view (import_error engine c encode g (d ∷ ds))
          (stores.imports s g (map encode (d ∷ ds)) made named))
        (record {
          at = λ w seen. (
            w,
            ap (λ r. (r, w))
                (first_refusal-none 1 (length (d ∷ ds)) g _ (stores.accepted s _ named)),
            seen,
          );
        })

  deleted-IsGone :
      (rest : Call W (Unit {0})) (g : Generation) (id : Text) (r : Result (Unit {0})) (w : W)
      → IsGone r
      → deleted engine c encode rest g id r w ≡ rest w
  deleted-IsGone rest g id (ok _) w gone = refl
  deleted-IsGone rest g id (err e) w gone = rw gone

  remove-Yields :
      (s : Seen F) (g : Generation) (ids : List Text)
      → s.made g ≡ true
      → Yields view s (remove engine c encode g ids) tt (written g (drops ids) s)
  unfolding remove
  remove-Yields s g [] made = Yields-pure view s tt
  remove-Yields s g (id ∷ ids) made = record {
    at = λ w seen.
        let (r, w₁, answer, gone, seen₁) = stores.deletes s g id w made seen in
        let (w₂, answer₂, seen₂) =
          (remove-Yields (written g ((id, none) ∷ []) s) g ids made).at w₁ seen₁ in
        (
          w₂,
          ap (λ p. deleted engine c encode (remove engine c encode g ids) g id p.0 p.1) answer
              ∙ deleted-IsGone (remove engine c encode g ids) g id r w₁ gone
              ∙ answer₂,
          seen₂,
        );
  }

  pub when_bulk-Yields :
      (s : Seen F) (g : Generation) (ds : List D)
      → s.made g ≡ true
      → All IsNamed (map encode ds)
      → Yields view s
          (when (nonempty ds) (bulk engine c encode g ds))
          tt
          (written g (stored (map encode ds)) s)
  when_bulk-Yields s g [] made named = Yields-pure view s tt
  when_bulk-Yields s g (d ∷ ds) made named = bulk-Yields s g (d ∷ ds) made named

  pub when_remove-Yields :
      (s : Seen F) (g : Generation) (ids : List Text)
      → s.made g ≡ true
      → Yields view s
          (when (nonempty ids) (remove engine c encode g ids))
          tt
          (written g (drops ids) s)
  when_remove-Yields s g [] made = Yields-pure view s tt
  when_remove-Yields s g (id ∷ ids) made = remove-Yields s g (id ∷ ids) made

  pub create-Yields :
      (s : Seen F) (g : Generation)
      → IsKnown c
      → s.made g ≡ false
      → Yields view s (create_generation engine c encode g) tt (with_generation g s)
  unfolding create_generation
  create-Yields s g known fresh =
      let (schema, found, name) = schema_for-name c g known in
      let done : Yields view s (engine.create schema) tt (with_generation g s) =
        subst (λ h. Yields view s (engine.create schema) tt (with_generation h s)) name
          (stores.creates s schema (ap s.made name ∙ fresh)) in
      subst (λ o. Yields view s (created engine c encode g o) tt (with_generation g s)) (sym found)
        (Yields-handling view _ done)

  pub count_in-Yields :
      (s : Seen F) (g : Generation)
      → s.made g ≡ true
      → Yields view s (count_in engine c encode g) (size (s.docs g)) s
  unfolding count_in
  count_in-Yields s g made =
      Yields->>= view _ _ (Yields-handling view _ (stores.counts s g made))
        (Yields-pure view s (size (s.docs g)))

  pub promote-Yields :
      (s : Seen F) (g : Generation)
      → s.made g ≡ true
      → Yields view s (promote engine c encode g) tt (record s { alias = g })
  unfolding promote
  promote-Yields s g made = Yields-handling view _ (stores.moves s g made)
