-- ===== src/Upstream/Laws.antt =====
-- The cursor that goes to a service and comes back, and what the loop of `ToChanges` makes of a
-- response.
use kinetix_search_service.Common.{
  ◌+◌, Bool, true, false, ◌≡◌, refl, sym, ◌∙◌, subst, none, some, List, [], ◌∷◌, ◌++◌, append-nil,
  append_assoc, eq_of_parts, length, All, Text, ok, err, arith, if◌then◌else◌,
}
use kinetix_search_service.Search.Errors.{Result, GoError, kind_of, corrupt_record}
use kinetix_search_service.Search.Time.{Time, zero_time, is_zero_time}
use kinetix_search_service.Search.Document.{Cursor, Refusal, Changes}
use kinetix_search_service.Upstream.{
  Timestamps, carries_transaction, to_proto_cursor, time_at, from_proto_cursor, added, collect,
}

-- What package timestamppb documents: `New` keeps the instant, for every time that it is given.
pub record IsFaithful {T : Type 0} (ts : Timestamps T) : Type 0 where
  pub as_time-new : (t : Time) → ts.as_time (ts.new t) ≡ t

module _ {T : Type 0} (ts : Timestamps T) (faithful : IsFaithful ts) where
  pub time_at-sent :
      (t : Time) (b : Bool)
      → is_zero_time t ≡ b
      → time_at ts (if b then none else some (ts.new t)) ≡ t
  unfolding time_at
  time_at-sent t true h = eq_of_parts zero_time t (ground arith)
  time_at-sent t false h = faithful.as_time-new t

  -- A cursor that is sent to a service and read back from its message is the same cursor, and its
  -- message carries a transaction.
  pub from_proto_cursor-to_proto_cursor :
      (cur : Cursor)
      → (from_proto_cursor ts (some (to_proto_cursor ts cur)) ≡ cur)
        × (carries_transaction (some (to_proto_cursor ts cur)) ≡ true)
  unfolding from_proto_cursor to_proto_cursor carries_transaction
  from_proto_cursor-to_proto_cursor cur =
      let kept = time_at-sent cur.updated_through (is_zero_time cur.updated_through) refl in
      (λ i. record cur { updated_through = kept i }, refl)

-- How a response splits: each record, in order, is converted or refused under its own key.
module _ {R D : Type 0} (key : R → Text) (to_doc : R → Result D) where
  pub data Split : List R → List D → List Refusal → Type 0 where
    all_split : Split [] [] []
    converted :
        {r : R} {rs : List R} {d : D} {ds : List D} {es : List Refusal}
        → to_doc r ≡ ok d
        → Split rs ds es
        → Split (r ∷ rs) (d ∷ ds) es
    refused :
        {r : R} {rs : List R} {e : GoError} {ds : List D} {es : List Refusal}
        → to_doc r ≡ err e
        → Split rs ds es
        → Split (r ∷ rs) ds (record { id = key r; reason = e } ∷ es)

  -- What the loop adds to the changes it starts from.
  pub record Collects (rs : List R) (from to : Changes D) : Type 0 where
    pub docs : List D
    pub refusals : List Refusal
    pub split : Split rs docs refusals
    pub reached :
        to ≡ record from { upserted = from.upserted ++ docs; refused = from.refused ++ refusals }

  Collects-more :
      (r : R) (rs : List R) (changes : Changes D) (res : Result D) {to : Changes D}
      → to_doc r ≡ res
      → Collects rs (added key to_doc changes r res) to
      → Collects (r ∷ rs) changes to
  Collects-more r rs changes (ok d) h c = record {
    docs = d ∷ c.docs;
    refusals = c.refusals;
    split = converted h c.split;
    reached = c.reached ∙ (λ i. record changes {
      upserted = append_assoc changes.upserted (d ∷ []) c.docs i;
      refused = changes.refused ++ c.refusals;
    });
  }
  Collects-more r rs changes (err e) h c =
      let why : Refusal = record { id = key r; reason = e } in
      record {
        docs = c.docs;
        refusals = why ∷ c.refusals;
        split = refused h c.split;
        reached = c.reached ∙ (λ i. record changes {
          upserted = changes.upserted ++ c.docs;
          refused = append_assoc changes.refused (why ∷ []) c.refusals i;
        });
      }

  pub collect-Collects :
      (rs : List R) (changes : Changes D) → Collects rs changes (collect key to_doc changes rs)
  unfolding collect
  collect-Collects [] changes = record {
    docs = [];
    refusals = [];
    split = all_split;
    reached = λ i. record changes {
      upserted = sym (append-nil changes.upserted) i;
      refused = sym (append-nil changes.refused) i;
    };
  }
  collect-Collects (r ∷ rs) changes =
      Collects-more r rs changes (to_doc r) refl
        (collect-Collects rs (added key to_doc changes r (to_doc r)))

  -- Every record of a response is converted or refused.
  pub length-Split :
      {rs : List R} {ds : List D} {es : List Refusal}
      → Split rs ds es
      → length rs ≡ length ds + length es
  length-Split all_split = omega arith
  length-Split (converted h s) = omega (arith, length-Split s)
  length-Split (refused h s) = omega (arith, length-Split s)

  -- What holds of every conversion holds of every document, and of every refusal the like.
  pub All-docs :
      {P : D → Type 0} {rs : List R} {ds : List D} {es : List Refusal}
      → ((r : R) (d : D) → to_doc r ≡ ok d → P d)
      → Split rs ds es
      → All P ds
  All-docs h all_split = tt
  All-docs h (converted {r = r} {d = d} c s) = (h r d c, All-docs h s)
  All-docs h (refused c s) = All-docs h s

  pub All-refusals :
      {P : GoError → Type 0} {rs : List R} {ds : List D} {es : List Refusal}
      → ((r : R) (e : GoError) → to_doc r ≡ err e → P e)
      → Split rs ds es
      → All (λ f. P f.reason) es
  All-refusals h all_split = tt
  All-refusals h (converted c s) = All-refusals h s
  All-refusals h (refused {r = r} {e = e} c s) = (h r e c, All-refusals h s)

  -- What `ToChanges` makes of a response: a split of its records, every document good and every
  -- refusal that of a corrupt record, and the rest of the response.
  pub record IsConversion (Good : D → Type 0) (rs : List R) (gone : List Text) (cur : Cursor)
      (more : Bool) (changes : Changes D) : Type 0 where
    pub split : Split rs changes.upserted changes.refused
    pub good : All Good changes.upserted
    pub corrupt : All (λ f. kind_of f.reason ≡ corrupt_record) changes.refused
    pub rest : changes ≡ record {
      upserted = changes.upserted;
      removed = gone;
      refused = changes.refused;
      next = cur;
      has_more = more;
    }

  abbrev pub blank : List Text → Cursor → Bool → Changes D
  blank gone cur more = record {
    upserted = [];
    removed = gone;
    refused = [];
    next = cur;
    has_more = more;
  }

  pub collect-IsConversion :
      {Good : D → Type 0} (rs : List R) (gone : List Text) (cur : Cursor) (more : Bool)
      → ((r : R) (d : D) → to_doc r ≡ ok d → Good d)
      → ((r : R) (e : GoError) → to_doc r ≡ err e → kind_of e ≡ corrupt_record)
      → IsConversion Good rs gone cur more (collect key to_doc (blank gone cur more) rs)
  collect-IsConversion {Good = Good} rs gone cur more good corrupt =
      let c = collect-Collects rs (blank gone cur more) in
      subst (IsConversion Good rs gone cur more) (sym c.reached) (record {
        split = c.split;
        good = All-docs good c.split;
        corrupt = All-refusals corrupt c.split;
        rest = refl;
      })
