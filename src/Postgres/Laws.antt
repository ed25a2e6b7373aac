-- ===== src/Postgres/Laws.antt =====
-- What the checkpoint of internal/postgres keeps, over its table.
use kinetix_search_service.Common.{
  ◌+ℤ◌, +ℤ_parts, ltb_ℤ, any, lit, sym, ◌⊎◌, pos, ◌≤ℤ◌, ltb, ◌≤◌, true, false, ◌≡◌, refl, ap, ◌∙◌,
  subst, inl, inr, Option, none, some, List, [], ◌∷◌, Text, text_eq, text_eq_refl, eq_of_text_eq,
  ok, err, Bool-cases, arith,
}
use kinetix_search_service.Search.Errors.{
  Result, GoError, errf, kind_of, dependency_unavailable, error_is,
}
use kinetix_search_service.Search.Time.{Time}
use kinetix_search_service.Search.Document.{
  Collection, collection_name, Cursor, Progress, zero_progress,
}
use kinetix_search_service.Postgres.{
  load, save, loaded, progress_of, params_of, max_int64, Pool, hold, release, within, held,
}
use kinetix_search_service.Postgres.Table.{
  SyncCheckpoint, Database, row_for, selected, load_checkpoint, upsert, through, written,
  save_checkpoint, queries, known_collection, unsigned, unstorable,
}

module _ (col : Text) (f : Option SyncCheckpoint → SyncCheckpoint)
    (same : (old : Option SyncCheckpoint) → (f old).collection ≡ col) where
  own : (old : Option SyncCheckpoint) → text_eq (f old).collection col ≡ true
  own old = ap (λ c. text_eq c col) (same old) ∙ text_eq_refl col

  foreign_to :
      (other : Text) (old : Option SyncCheckpoint)
      → text_eq (f old).collection other ≡ text_eq col other
  foreign_to other old = ap (λ c. text_eq c other) (same old)

  pub row_for-upsert :
      (rs : List SyncCheckpoint) → row_for col (upsert col f rs) ≡ some (f (row_for col rs))
  unfolding row_for upsert
  row_for-upsert [] = ground (arith, own none)
  row_for-upsert (r ∷ rs) = elim (Bool-cases (text_eq r.collection col)) [
    | inl found ↦ rw (found, own (some r)) (refl)
    | inr not_yet ↦ rw (not_yet, row_for-upsert rs, not_yet) (refl)
  ]

  row_for-upsert_other :
      (other : Text) (rs : List SyncCheckpoint)
      → text_eq col other ≡ false
      → row_for other (upsert col f rs) ≡ row_for other rs
  unfolding row_for upsert
  row_for-upsert_other other [] k = rw (foreign_to other none, k) (refl)
  row_for-upsert_other other (r ∷ rs) k = elim (Bool-cases (text_eq r.collection col)) [
    | inl found ↦
        let skip : text_eq r.collection other ≡ false =
          ap (λ c. text_eq c other) (eq_of_text_eq r.collection col found) ∙ k in
        rw (found, skip, foreign_to other (some r), k) (refl)
    | inr not_yet ↦ rw (not_yet, row_for-upsert_other other rs k) (refl)
  ]

-- The progress that a row stands for; without a row nothing was saved.
abbrev pub progress_of_row : Option SyncCheckpoint → Progress
progress_of_row none = zero_progress
progress_of_row (some r) = progress_of (record {
  transaction_id = r.transaction_id;
  updated_through = some r.updated_through;
  last_id = r.last_id;
  saved_at = some r.saved_at;
})

abbrev pub row_in : Database → Collection → Option SyncCheckpoint
row_in db col = row_for (collection_name col) db.rows

-- An instant that is another one to the microsecond below.
abbrev pub IsNear : Time → Time → Type 0
IsNear t u = (u ≤ℤ t) × (t ≤ℤ (u +ℤ pos 999))

-- A cursor that the table can hold.
abbrev pub IsStorable : Cursor → Type 0
IsStorable cur = (cur.transaction_id ≤ max_int64) × (any unstorable cur.last_id ≡ false)

known_text : (s : Text) → known_collection s ≡ true → any unstorable s ≡ false
known_text s h = elim (Bool-cases (text_eq s (lit "products"))) [
  | inl e ↦ ap (any unstorable) (eq_of_text_eq s (lit "products") e)
  | inr e ↦ elim (Bool-cases (text_eq s (lit "merchants"))) [
    | inl e' ↦ ap (any unstorable) (eq_of_text_eq s (lit "merchants") e')
    | inr e' ↦ ap (any unstorable) (eq_of_text_eq s (lit "orders") (ground arith))
  ]
]

loaded-selected :
    (col : Collection) (o : Option SyncCheckpoint)
    → loaded col (selected o) ≡ ok (progress_of_row o)
unfolding error_is
loaded-selected col none = refl
loaded-selected col (some r) = refl

module _ (stored : Time → Time) where
  pub load-progress :
      (col : Collection) (db : Database)
      → load (queries stored) col db ≡ (ok (progress_of_row (row_in db col)), db)
  unfolding load load_checkpoint
  load-progress col db = λ i. (loaded-selected col (row_in db col) i, db)

  -- What a save has done to the table.
  pub record IsKept (col : Collection) (cur : Cursor) (db db' : Database) : Type 0 where
    pub through : Time
    pub read : load (queries stored) col db' ≡ (
      ok (record { cursor = record cur { updated_through = through }; saved_at = db.now }),
      db',
    )
    pub from :
        IsNear cur.updated_through through
        ⊎ ((r : SyncCheckpoint) × (row_in db col ≡ some r) × (through ≡ r.updated_through))
    pub covers : cur.updated_through ≤ℤ (through +ℤ pos 999)
    pub forward : (r : SyncCheckpoint) → row_in db col ≡ some r → r.updated_through ≤ℤ through
    pub others :
        (other : Collection)
        → text_eq (collection_name col) (collection_name other) ≡ false
        → row_in db' other ≡ row_in db other

  abbrev pub kept : Collection → Cursor → Database → Database
  kept col cur db = record db {
    rows =
        upsert (collection_name col) (written stored (params_of col cur) cur.updated_through db.now)
          db.rows;
  }

  through-covers : (o : Option SyncCheckpoint) (t : Time) → stored t ≤ℤ through stored o t
  through-covers none t = ground arith
  through-covers (some r) t = ground arith

  through-forward :
      (o : Option SyncCheckpoint) (t : Time) (r : SyncCheckpoint)
      → o ≡ some r
      → r.updated_through ≤ℤ through stored o t
  through-forward none t r h = absurd (ground arith)
  through-forward (some q) t r h =
      let same : q ≡ r = cc h in
      subst (λ s. s.updated_through ≤ℤ through stored (some q) t) same (ground arith)

  pub save-kept :
      (col : Collection) (cur : Cursor) (db : Database)
      → known_collection (collection_name col) ≡ true
      → IsStorable cur
      → save (queries stored) col cur db ≡ (ok tt, kept col cur db)
  unfolding save save_checkpoint
  save-kept col cur db known fits =
      let small : ltb max_int64 cur.transaction_id ≡ false = ground (arith, fits.0) in
      let signed : unsigned (some (pos cur.transaction_id)) ≡ true = ground arith in
      let inserted : save_checkpoint stored (params_of col cur) db ≡ (ok tt, kept col cur db) =
        rw (known_text (collection_name col) known, fits.1, known, signed) (refl) in
      rw (small, inserted) (refl)

  -- The instant that a save leaves is the cursor's, as the column keeps it, or that of the row which
  -- was there.
  through-from :
      (o : Option SyncCheckpoint) (t : Time)
      → (through stored o t ≡ stored t)
        ⊎ ((r : SyncCheckpoint) × (o ≡ some r) × (through stored o t ≡ r.updated_through))
  through-from none t = inl refl
  through-from (some r) t = elim (Bool-cases (ltb_ℤ r.updated_through (stored t))) [
    | inl later ↦ inl (rw later refl)
    | inr earlier ↦ inr (r, refl, rw earlier refl)
  ]

-- A column of whole microseconds.
pub record IsMicros (stored : Time → Time) : Type 0 where
  pub below : (t : Time) → stored t ≤ℤ t
  pub near : (t : Time) → t ≤ℤ (stored t +ℤ pos 999)

module _ (stored : Time → Time) (micros : IsMicros stored) where
  IsNear-or_old :
      (t : Time) (o : Option SyncCheckpoint) (u : Time)
      → (u ≡ stored t) ⊎ ((r : SyncCheckpoint) × (o ≡ some r) × (u ≡ r.updated_through))
      → IsNear t u ⊎ ((r : SyncCheckpoint) × (o ≡ some r) × (u ≡ r.updated_through))
  IsNear-or_old t o u (inl e) = inl (subst (IsNear t) (sym e) (micros.below t, micros.near t))
  IsNear-or_old t o u (inr r) = inr r

  -- The checkpoint keeps what it is told of a collection of the table, if the transaction fits 64
  -- signed bits, the last identifier is a text that the server can hold, and the column keeps an
  -- instant to the microsecond: the save succeeds, and a load then reads the cursor's transaction and
  -- last identifier and the time of the save. The instant that it reads is the cursor's to the
  -- microsecond, or that of the row which was there; it is not before either, but for what the
  -- microsecond cuts off the cursor's. The rows of other collections stay.
  pub save-IsKept :
      (col : Collection) (cur : Cursor) (db : Database)
      → known_collection (collection_name col) ≡ true
      → IsStorable cur
      → (db' : Database) × (save (queries stored) col cur db ≡ (ok tt, db'))
        × IsKept stored col cur db db'
  save-IsKept col cur db known fits =
      let f = written stored (params_of col cur) cur.updated_through db.now in
      let row = row_for-upsert (collection_name col) f (λ old. refl) db.rows in
      let instant = through stored (row_in db col) cur.updated_through in
      let above = through-covers stored (row_in db col) cur.updated_through in
      (
        kept stored col cur db,
        save-kept stored col cur db known fits,
        record {
          through = instant;
          read =
              load-progress stored col (kept stored col cur db)
              ∙ (λ i. (ok (progress_of_row (row i)), kept stored col cur db));
          from =
              IsNear-or_old cur.updated_through (row_in db col) instant
                (through-from stored (row_in db col) cur.updated_through);
          covers = omega (
            arith,
            +ℤ_parts instant (pos 999),
            +ℤ_parts (stored cur.updated_through) (pos 999),
            micros.near cur.updated_through,
            above,
          );
          forward = λ r h. through-forward stored (row_in db col) cur.updated_through r h;
          others = λ other k.
              row_for-upsert_other (collection_name col) f (λ old. refl) (collection_name other)
                db.rows k;
        },
      )

-- How taking a lock ends: with the transaction that holds it, or with none left open.
pub data Locks {W X : Type 0} (pool : Pool W X) (col : Collection) (w : W)
    : Result X → W → Type 0 where
  locked :
      {tx : X} {w₁ w' : W}
      → pool.begin w ≡ (ok tx, w₁)
      → pool.hold_collection tx (collection_name col) w₁ ≡ (ok tt, w')
      → Locks pool col w (ok tx) w'
  unopened :
      {e e' : GoError} {w' : W}
      → pool.begin w ≡ (err e, w')
      → kind_of e' ≡ dependency_unavailable
      → Locks pool col w (err e') w'
  given_back :
      {tx : X} {e e' : GoError} {w₁ w₂ : W}
      → pool.begin w ≡ (ok tx, w₁)
      → pool.hold_collection tx (collection_name col) w₁ ≡ (err e, w₂)
      → kind_of e' ≡ dependency_unavailable
      → Locks pool col w (err e') (pool.rollback tx w₂)

module _ {W X : Type 0} (pool : Pool W X) (col : Collection) (w : W) where
  held-Locks :
      (tx : X) (w₁ : W) (r : Result (Unit {0})) (w₂ : W)
      → pool.begin w ≡ (ok tx, w₁)
      → pool.hold_collection tx (collection_name col) w₁ ≡ (r, w₂)
      → Locks pool col w (held pool col tx r w₂).0 (held pool col tx r w₂).1
  unfolding held release errf kind_of
  held-Locks tx w₁ (ok _) w₂ began took = locked began took
  held-Locks tx w₁ (err e) w₂ began took = given_back began took refl

  within-Locks :
      (r : Result X) (w₁ : W)
      → pool.begin w ≡ (r, w₁)
      → Locks pool col w (within pool col r w₁).0 (within pool col r w₁).1
  unfolding errf kind_of
  within-Locks (ok tx) w₁ began = held-Locks tx w₁ _ _ began refl
  within-Locks (err e) w₁ began = unopened began refl

  -- Taking the lock of a collection ends with a transaction that holds it, or with an error that
  -- says that a dependency is unavailable; if the transaction was begun but did not get the lock,
  -- it was rolled back.
  pub hold-Locks : Locks pool col w (hold pool col w).0 (hold pool col w).1
  unfolding hold
  hold-Locks = within-Locks (pool.begin w).0 (pool.begin w).1 refl
