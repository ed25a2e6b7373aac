-- ===== src/Commands/Migrate/Laws.antt =====
-- What a run of cmd/migrate/main.go has done.
use kinetix_search_service.Common.{
  ℤ, ◌≡◌, refl, ap, false, [], ◌∷◌, Text, lit, is_empty, Bool-cases, inl, inr, ok, err, Fails,
  ok-injective, subst, ◌∙◌,
}
use kinetix_search_service.Search.Errors.{Result, GoError, errf, kind_of, dependency_unavailable}
use kinetix_search_service.Search.Call.{Call, continue, handling, settled, ◌>>=◌}
use kinetix_search_service.Search.Call.Rules.{>>=-inv, handling-inv}
use kinetix_search_service.Commands.Migrate.{Goose, unavailable, migrated, closing, run}

abbrev pub IsUnavailable : GoError → Type 0
IsUnavailable e = kind_of e ≡ dependency_unavailable

-- Whatever error the call answers with, it is that of a dependency that is unavailable.
abbrev Refuses : {W A : Type 0} → Call W A → Type 0
Refuses {W} m = (w : W) → Fails IsUnavailable (m w).0

Fails-settled :
    {A : Type 0} (op what : Text) (r : Result A)
    → Fails IsUnavailable (settled (unavailable op what) r)
unfolding errf kind_of
Fails-settled op [] (err e) = refl
Fails-settled op (c ∷ what) (err e) = refl
Fails-settled op what (ok a) = tt

Refuses-continue :
    {W A B : Type 0} (r : Result A) (f : A → Call W B) (w : W)
    → Fails IsUnavailable r
    → ((a : A) → Refuses (f a))
    → Fails IsUnavailable (continue r f w).0
Refuses-continue (ok a) f w h k = k a w
Refuses-continue (err e) f w h k = h

Refuses->>= :
    {W A B : Type 0} (op what : Text) (m : Call W A) (f : A → Call W B)
    → ((a : A) → Refuses (f a))
    → Refuses (handling (unavailable op what) m >>= f)
Refuses->>= op what m f k w =
    Refuses-continue (settled (unavailable op what) (m w).0) f (m w).1
      (Fails-settled op what (m w).0) k

module _ {W Db : Type 0} (goose : Goose W Db) where
  Refuses-migrated : (db : Db) → Refuses (migrated goose db)
  unfolding migrated
  Refuses-migrated db = Refuses->>= _ _ goose.set_dialect _ (λ _.
      Refuses->>= _ _ (goose.version db) _ (λ before.
        Refuses->>= _ _ (goose.up db) _
          (λ _. Refuses->>= _ _ (goose.version db) _ (λ after w. tt))))

  -- The calls of a run that succeeds, in order.
  pub record Migrated (url : Text) (w : W) (versions : ℤ × ℤ) (w' : W) : Type 0 where
    pub db : Db
    pub opened : W
    pub with_dialect : W
    pub read : W
    pub migrated_to : W
    pub reread : W
    pub opens : goose.open_database url w ≡ (ok db, opened)
    pub dialect : goose.set_dialect opened ≡ (ok tt, with_dialect)
    pub before : goose.version db with_dialect ≡ (ok versions.0, read)
    pub up : goose.up db read ≡ (ok tt, migrated_to)
    pub after : goose.version db migrated_to ≡ (ok versions.1, reread)
    pub closes : goose.close db reread ≡ w'

  steps-Migrated :
      (url : Text) (w opened : W) (db : Db) {v : ℤ × ℤ} {w' : W}
      → goose.open_database url w ≡ (ok db, opened)
      → closing goose db (migrated goose db opened) ≡ (ok v, w')
      → Migrated url w v w'
  unfolding migrated
  steps-Migrated url w opened db {v = v} {w' = w'} opens h =
      let ran : migrated goose db opened ≡ (ok v, (migrated goose db opened).1) =
        λ i. ((h i).0, (migrated goose db opened).1) in
      let (_, w₁, dialect, h₁) =
        >>=-inv (handling (unavailable _ _) goose.set_dialect) _ opened ran in
      let (before, w₂, read, h₂) =
        >>=-inv (handling (unavailable _ _) (goose.version db)) _ w₁ h₁ in
      let (_, w₃, up, h₃) = >>=-inv (handling (unavailable _ _) (goose.up db)) _ w₂ h₂ in
      let (after, w₄, reread, h₄) =
        >>=-inv (handling (unavailable _ _) (goose.version db)) _ w₃ h₃ in
      let same : (before, after) ≡ v = ok-injective (ap (λ p. p.0) h₄) in
      let left : w₄ ≡ (migrated goose db opened).1 = ap (λ p. p.1) h₄ in
      record {
        db = db;
        opened = opened;
        with_dialect = w₁;
        read = w₂;
        migrated_to = w₃;
        reread = w₄;
        opens = opens;
        dialect = handling-inv (unavailable _ _) goose.set_dialect opened dialect;
        before =
            subst (λ (p : ℤ × ℤ). goose.version db w₁ ≡ (ok p.0, w₂)) same
              (handling-inv (unavailable _ _) (goose.version db) w₁ read);
        up = handling-inv (unavailable _ _) (goose.up db) w₂ up;
        after =
            subst (λ (p : ℤ × ℤ). goose.version db w₃ ≡ (ok p.1, w₄)) same
              (handling-inv (unavailable _ _) (goose.version db) w₃ reread);
        closes = ap (goose.close db) left ∙ ap (λ p. p.1) h;
      }

  abbrev pub Ends : Text → W → Result (ℤ × ℤ) × W → Type 0
  Ends url w (ok v, w') = (is_empty url ≡ false) × Migrated url w v w'
  Ends url w (err e, w') = IsUnavailable e

  ended :
      (url : Text) (w : W) (r : Result (ℤ × ℤ)) (w' : W)
      → is_empty url ≡ false
      → run goose url w ≡ (r, w')
      → Fails IsUnavailable r
      → Ends url w (r, w')
  unfolding run
  ended url w (err e) w' given h unavailable_ = unavailable_
  ended url w (ok v) w' given h _ =
      let (db, opened, opens, rest) =
        >>=-inv
          (handling (unavailable (lit "migrate.open") (lit "opening")) (goose.open_database url))
          (λ db w. closing goose db (migrated goose db w)) w (rw given at h) in
      (
        given,
        steps-Migrated url w opened db
            (handling-inv (unavailable _ _) (goose.open_database url) w opens) rest,
      )

  Refuses-run : (url : Text) → is_empty url ≡ false → Refuses (run goose url)
  unfolding run
  Refuses-run url given w = rw given (
      Refuses->>= _ _ (goose.open_database url) (λ db w. closing goose db (migrated goose db w))
        (λ db w. Refuses-migrated db w) w)

  -- A run that succeeds was given a URL, and has opened the database, set the dialect, read the
  -- version, applied the migrations, read the version again, each successfully and in this order, and
  -- closed the database; it reports the two versions. A run that fails, at whatever step, fails as a
  -- dependency that is unavailable.
  pub run-Ends : (url : Text) (w : W) → Ends url w (run goose url w)
  unfolding run errf kind_of
  run-Ends url w = elim (Bool-cases (is_empty url)) [
    | inl blank ↦ rw blank refl
    | inr given ↦
        ended url w (run goose url w).0 (run goose url w).1 given refl (Refuses-run url given w)
  ]
