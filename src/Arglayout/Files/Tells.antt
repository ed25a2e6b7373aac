-- ===== src/Arglayout/Files/Tells.antt =====
-- `process` of tools/arglayout/main.go without -fix, on one file.
use kinetix_search_service.Common.{
  Bool, true, false, ◌≡◌, refl, inl, inr, List, [], ◌∷◌, Text, Memᴰ, ok, err, nonempty, Bool-cases,
  arith, if◌then◌else◌, ◌>>=◌,
}
use mathlib.Core.List.Memᴰ.{head}
use kinetix_search_service.Search.Errors.{Result}
use kinetix_search_service.Search.Call.{continue, settled}
use kinetix_search_service.Arglayout.Syntax.{Node, FileSet, Group}
use kinetix_search_service.Arglayout.Check.{violations_in}
use kinetix_search_service.Arglayout.Check.Laws.{violations_in_iff, check-Settles}
use kinetix_search_service.Arglayout.Files.{
  Tools, generated, violations, report, process, reading, parsing, found_in,
}
use kinetix_search_service.Arglayout.Files.Judgement.{
  WellLaid, Clean, is_generated, is_laid_out, Faulty, is_crowded, Keeps,
}

some_group : (gs : List Group) → nonempty gs ≡ true → (g : Group) × Memᴰ g gs
some_group [] h = absurd (ground arith)
some_group (g ∷ gs) h = (g, head refl)

no_group : (gs : List Group) (g : Group) → nonempty gs ≡ false → Memᴰ g gs → ⊥
no_group [] g h m = elim m [ ]
no_group (x ∷ gs) g h m = absurd (ground arith)

WellLaid-of_none :
    (fset : FileSet) (source : Text) (tree : Node)
    → nonempty (violations_in fset source tree) ≡ false
    → WellLaid fset source tree
WellLaid-of_none fset source tree h n visited c of_node = elim (check-Settles fset.line c) [
  | inl (_, fine) ↦ fine
  | inr (_, bad) ↦ absurd (
      no_group _ c.group h
        ((violations_in_iff fset source tree c.group).1 (n, visited, c, of_node, refl, bad)))
]

not-WellLaid-of_some :
    (fset : FileSet) (source : Text) (tree : Node)
    → nonempty (violations_in fset source tree) ≡ true
    → ¬ WellLaid fset source tree
not-WellLaid-of_some fset source tree h all =
    let (g, m) = some_group _ h in
    let (n, visited, c, of_node, _, bad) = (violations_in_iff fset source tree g).0 m in
    bad (all n visited c of_node)

module _ {W : Type 0} (t : Tools W) (w : W) where
  -- What `failed` says of one file.
  abbrev pub Tells : Text → Text → Bool → Type 0
  Tells root path bad = (bad ≡ false → Clean t w root path) × (bad ≡ true → Faulty t w root path)

  report-Tells :
      (root path source : Text)
      → t.read_file root path w ≡ ok source
      → generated source ≡ false
      → Keeps w (Tells root path) (report t (t.join root path) source w)
  unfolding report violations
  report-Tells root path source readable written =
      told (t.parse_file (t.join root path) source) refl
    where
      told :
          (p : Result (FileSet × Node))
          → t.parse_file (t.join root path) source ≡ p
          → Keeps w (Tells root path) (
            (settled (parsing (t.join root path)) p >>= λ q. ok (found_in source q)) >>= λ found.
                ok (nonempty (found.1)),
            w,
          )
      told (ok (fset, tree)) parsed = (
        refl,
        (
          (λ h. is_laid_out source fset tree readable parsed (WellLaid-of_none fset source tree h)),
          λ h.
              is_crowded source fset tree readable written parsed
                (not-WellLaid-of_some fset source tree h),
        ),
      )
      told (err e) parsed = (refl, tt)

  pub process-Tells : (root path : Text) → Keeps w (Tells root path) (process t root path false w)
  unfolding process
  process-Tells root path = from (t.read_file root path w) refl
    where
      from :
          (r : Result Text)
          → t.read_file root path w ≡ r
          → Keeps w (Tells root path) (
              continue
                (settled (reading (t.join root path)) r)
                (λ source.
                  if generated source
                  then (λ v. (ok false, v))
                  else report t (t.join root path) source)
                w)
      from (ok source) readable = elim (Bool-cases (generated source)) [
        | inl h ↦ rw h (refl, ((λ _. is_generated source readable h), λ e. absurd (ground arith)))
        | inr h ↦ rw h (report-Tells root path source readable h)
      ]
      from (err e) readable = (refl, tt)
