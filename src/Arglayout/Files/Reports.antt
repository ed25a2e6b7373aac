-- ===== src/Arglayout/Files/Reports.antt =====
-- `main` of tools/arglayout/main.go without -fix: the status of the exit says whether the files of the
-- roots are well laid out.
use kinetix_search_service.Common.{
  Bool, true, false, ◌||◌, ◌≡◌, ◌≢◌, refl, sym, ◌∙◌, ◌⊎◌, inl, inr, List, [], ◌∷◌, Text, lit, ok,
  err, subst, Bool-cases, arith, ℕ, ok-injective,
}
use kinetix_search_service.Search.Errors.{Result}
use kinetix_search_service.Arglayout.Files.{
  Tools, Entry, Listing, file, directory, unreadable, end, entry, has_suffix, skipped, walk,
  walk_listing, walk_roots, main, visit, status,
}
use kinetix_search_service.Arglayout.Files.Judgement.{
  Visited, Listed, here, within, first, later, Clean, Faulty, Says, Keeps, Keeps-continue,
  Keeps-weaken, Judged, Judged-nothing, Judged-join, Judged-map, Says-any,
}
use kinetix_search_service.Arglayout.Files.Tells.{Tells, process-Tells}

visited_file : {p q : Text} → Visited p (file q) → (q ≡ p) × (has_suffix q (lit ".go") ≡ true)
visited_file (here e named) = (e, named)

visited_directory :
    {p dir : Text} {es : Listing}
    → Visited p (directory dir es)
    → (skipped dir ≡ false) × Listed p es
visited_directory (within kept m) = (kept, m)

listed_entry :
    {p : Text} {e : Entry} {es : Listing} → Listed p (entry e es) → Visited p e ⊎ Listed p es
listed_entry (first m) = inl m
listed_entry (later m) = inr m

module _ {W : Type 0} (t : Tools W) (w : W) where
  AllClean : Text → (Text → Type 0) → Type 0
  AllClean root Within = (p : Text) → Within p → Clean t w root p

  SomeFaulty : Text → (Text → Type 0) → Type 0
  SomeFaulty root Within = (p : Text) × Within p × Faulty t w root p

  -- What `failed` says of the files of a part of a tree.
  abbrev Flags : Text → (Text → Type 0) → Bool → Bool → Type 0
  Flags root Within = Judged (AllClean root Within) (SomeFaulty root Within)

  Flags-file :
      (root path : Text) (before bad : Bool)
      → has_suffix path (lit ".go") ≡ true
      → Tells t w root path bad
      → Flags root (λ p. Visited p (file path)) before (before || bad)
  unfolding AllClean SomeFaulty
  Flags-file root path true bad named told = ((λ h. absurd (cc h)), λ h. inl refl)
  Flags-file root path false bad named told = (
    (λ h. (refl, λ p m. subst (Clean t w root) (visited_file m).0 (told.0 h))),
    λ h. inr (path, here refl named, told.1 h),
  )

  visit-Flags :
      (root path : Text) (before : Bool)
      → Keeps w (Flags root (λ p. Visited p (file path)) before) (visit t root path false before w)
  unfolding AllClean
  visit-Flags root path before = elim (Bool-cases (has_suffix path (lit ".go"))) [
    | inl named ↦ rw named (
        let (same, told) = process-Tells t w root path in
        Keeps-continue w (Tells t w root path) _ _ _ (λ bad v. (ok (before || bad), v)) same told
          (λ bad _ h. (refl, Flags-file root path before bad named h)))
    | inr other ↦
        rw other
          (refl, Judged-nothing _ _ before (λ p m. absurd (cc (sym other ∙ (visited_file m).1))))
  ]

  Flags-directory :
      (root path : Text) (listing : Listing) (before after : Bool)
      → skipped path ≡ false
      → Flags root (λ p. Listed p listing) before after
      → Flags root (λ p. Visited p (directory path listing)) before after
  unfolding AllClean SomeFaulty
  Flags-directory root path listing before after kept j =
      Judged-map before after j (λ clean p m. clean p (visited_directory m).1)
        (λ (p, m, bad). (p, within kept m, bad))

  Flags-entry :
      (root : Text) (e : Entry) (es : Listing) (before between after : Bool)
      → Flags root (λ p. Visited p e) before between
      → Flags root (λ p. Listed p es) between after
      → Flags root (λ p. Listed p (entry e es)) before after
  unfolding AllClean SomeFaulty
  Flags-entry root e es before between after ja jb =
      Judged-join before between after ja jb
        (λ here_clean there_clean p m. elim (listed_entry m) [
          | inl v ↦ here_clean p v
          | inr l ↦ there_clean p l
        ])
        (λ (p, m, bad). (p, first m, bad)) (λ (p, m, bad). (p, later m, bad))

  mutual
    unfolding walk AllClean

    walk-Flags :
        (root : Text) (e : Entry) (before : Bool)
        → Keeps w (Flags root (λ p. Visited p e) before) (walk t root false e before w)
    walk-Flags root (file path) before = visit-Flags root path before
    walk-Flags root (directory path listing) before = elim (Bool-cases (skipped path)) [
      | inl skip ↦ rw skip (
        refl,
        Judged-nothing _ _ before (λ p m. absurd (cc (sym skip ∙ (visited_directory m).0))),
      )
      | inr kept ↦ rw kept (
          Keeps-weaken w (Flags root (λ p. Listed p listing) before)
            (Flags root (λ p. Visited p (directory path listing)) before)
            (walk_listing t root false listing before w) (listing-Flags root listing before)
            (λ after j. Flags-directory root path listing before after kept j))
    ]

    listing-Flags :
        (root : Text) (es : Listing) (before : Bool)
        → Keeps w (Flags root (λ p. Listed p es) before) (walk_listing t root false es before w)
    listing-Flags root (unreadable e) before = (refl, tt)
    listing-Flags root end before = (refl, Judged-nothing _ _ before (λ p m. elim m [ ]))
    listing-Flags root (entry e es) before =
        let (same, told) = walk-Flags root e before in
        Keeps-continue w (Flags root (λ p. Visited p e) before)
          (Flags root (λ p. Listed p (entry e es)) before) _ _
          (λ bad. walk_listing t root false es bad) same told
          (λ between _ ja.
            Keeps-weaken w (Flags root (λ p. Listed p es) between)
              (Flags root (λ p. Listed p (entry e es)) before)
              (walk_listing t root false es between w) (listing-Flags root es between)
              (λ after jb. Flags-entry root e es before between after ja jb))

  -- A file of Go that the walk of one of the roots visits.
  pub data Within (root path : Text) : List Text → Type 0 where
    of_root :
        {r : Text} {roots : List Text} (tree : Entry)
        → r ≡ root
        → t.open_root r w ≡ ok tree
        → Visited path tree
        → Within root path (r ∷ roots)
    of_later :
        {r : Text} {roots : List Text} → Within root path roots → Within root path (r ∷ roots)

  abbrev Flagged : List Text → Bool → Bool → Type 0
  Flagged roots =
      Judged ((root path : Text) → Within root path roots → Clean t w root path)
        ((root : Text) × (path : Text) × Within root path roots × Faulty t w root path)

  Within-cons :
      {root path r : Text} {roots : List Text} (tree : Entry)
      → t.open_root r w ≡ ok tree
      → Within root path (r ∷ roots)
      → ((r ≡ root) × Visited path tree) ⊎ Within root path roots
  Within-cons {path = path} tree opened (of_root tree' same opened' m) =
      inl (same, subst (Visited path) (ok-injective (sym opened' ∙ opened)) m)
  Within-cons tree opened (of_later m) = inr m

  Flagged-cons :
      (root : Text) (roots : List Text) (tree : Entry) (before between after : Bool)
      → t.open_root root w ≡ ok tree
      → Flags root (λ p. Visited p tree) before between
      → Flagged roots between after
      → Flagged (root ∷ roots) before after
  unfolding AllClean SomeFaulty
  Flagged-cons root roots tree before between after opened ja jb =
      Judged-join before between after ja jb
        (λ here_clean there_clean r p m. elim (Within-cons tree opened m) [
          | inl (same, v) ↦ subst (λ (x : Text). Clean t w x p) same (here_clean p v)
          | inr l ↦ there_clean r p l
        ])
        (λ (p, m, bad). (root, p, of_root tree refl opened m, bad))
        (λ (r, p, m, bad). (r, p, of_later m, bad))

  roots-Flagged :
      (roots : List Text) (before : Bool)
      → Keeps w (Flagged roots before) (walk_roots t false roots before w)
  unfolding walk_roots
  roots-Flagged [] before = (refl, Judged-nothing _ _ before (λ r p m. elim m [ ]))
  roots-Flagged (root ∷ roots) before =
      Keeps-continue w (λ _. Unit {0}) (Flagged (root ∷ roots) before) (t.open_root root w) w _ refl
        (Says-any (t.open_root root w))
        (λ tree opened _.
          let (same, told) = walk-Flags root tree before in
          Keeps-continue w (Flags root (λ p. Visited p tree) before) (Flagged (root ∷ roots) before)
            _ _ (λ bad. walk_roots t false roots bad) same told
            (λ between _ ja.
              Keeps-weaken w (Flagged roots between) (Flagged (root ∷ roots) before)
                (walk_roots t false roots between w) (roots-Flagged roots between)
                (λ after jb. Flagged-cons root roots tree before between after opened ja jb)))

  -- What the status of the exit means.
  pub record Means (roots : List Text) (status : ℕ) : Type 0 where
    pub passes : status ≡ 0 → (root path : Text) → Within root path roots → Clean t w root path
    pub fails :
        status ≡ 1 → (root : Text) × (path : Text) × Within root path roots × Faulty t w root path
    pub other : status ≢ 0 → status ≢ 1 → status ≡ 2

  status-Means :
      (roots : List Text) (r : Result Bool) → Says (Flagged roots false) r → Means roots (status r)
  status-Means roots (ok false) h = record {
    passes = λ _. (h.0 refl).1;
    fails = λ e. absurd (omega arith);
    other = λ n _. absurd (n refl);
  }
  status-Means roots (ok true) h = record {
    passes = λ e. absurd (omega arith);
    fails = λ _. elim (h.1 refl) [ inl e ↦ absurd (cc e) | inr bad ↦ bad ];
    other = λ _ n. absurd (n refl);
  }
  status-Means roots (err e) h = record {
    passes = λ e. absurd (omega arith);
    fails = λ e. absurd (omega arith);
    other = λ _ _. refl;
  }

  -- Without -fix the tool changes nothing. It exits with 0 only if every file of Go in the roots,
  -- outside the directories that are skipped, reads as generated code or as a tree whose every group
  -- has an allowed layout; with 1 only if one of them reads as a tree, not generated, with a group
  -- whose layout is not allowed; and otherwise with 2.
  pub main-Means :
      (roots : List Text) → ((main t false roots w).1 ≡ w) × Means roots (main t false roots w).0
  unfolding main
  main-Means roots =
      let (same, told) = roots-Flagged roots false in
      (same, status-Means roots (walk_roots t false roots false w).0 told)
