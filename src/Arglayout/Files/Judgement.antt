-- ===== src/Arglayout/Files/Judgement.antt =====
-- tools/arglayout/main.go: what makes a file well laid out, which files of a directory the walk
-- visits, and what the variable `failed` says of them.
use kinetix_search_service.Common.{
  Bool, true, false, ◌≡◌, refl, sym, ◌⊎◌, inl, inr, Text, lit, Memᴰ, ok, err, subst,
}
use kinetix_search_service.Search.Errors.{Result}
use kinetix_search_service.Search.Call.{Call, continue}
use kinetix_search_service.Arglayout.Syntax.{Node, FileSet, inspect}
use kinetix_search_service.Arglayout.Check.{Candidate, candidates}
use kinetix_search_service.Arglayout.Check.Layout.{Allowed}
use kinetix_search_service.Arglayout.Files.{
  Tools, Entry, Listing, file, directory, entry, has_suffix, skipped, generated,
}

-- A file of Go at a path, below an entry, in no directory that is skipped.
mutual
  pub data Visited (path : Text) : Entry → Type 0 where
    here : {q : Text} → q ≡ path → has_suffix q (lit ".go") ≡ true → Visited path (file q)
    within :
        {dir : Text} {listing : Listing}
        → skipped dir ≡ false
        → Listed path listing
        → Visited path (directory dir listing)

  pub data Listed (path : Text) : Listing → Type 0 where
    first : {e : Entry} {es : Listing} → Visited path e → Listed path (entry e es)
    later : {e : Entry} {es : Listing} → Listed path es → Listed path (entry e es)

-- Every group of every node has an allowed layout.
abbrev pub WellLaid : FileSet → Text → Node → Type 0
WellLaid fset source tree =
    (n : Node)
    → Memᴰ n (inspect tree)
    → (c : Candidate) → Memᴰ c (candidates fset source n)
    → Allowed fset.line c

module _ {W : Type 0} (t : Tools W) (w : W) (root : Text) where
  -- The file reads as generated code, or as a tree that is well laid out.
  pub data Clean (path : Text) : Type 0 where
    is_generated :
        (source : Text) → t.read_file root path w ≡ ok source → generated source ≡ true → Clean path
    is_laid_out :
        (source : Text) (fset : FileSet) (tree : Node)
        → t.read_file root path w ≡ ok source
        → t.parse_file (t.join root path) source ≡ ok (fset, tree)
        → WellLaid fset source tree
        → Clean path

  -- The file reads as a tree, not of generated code, that is not well laid out.
  pub data Faulty (path : Text) : Type 0 where
    is_crowded :
        (source : Text) (fset : FileSet) (tree : Node)
        → t.read_file root path w ≡ ok source
        → generated source ≡ false
        → t.parse_file (t.join root path) source ≡ ok (fset, tree)
        → ¬ WellLaid fset source tree
        → Faulty path

-- A call that leaves the state as it is, and whose value, if it has one, satisfies `P`.
abbrev pub Says : {A : Type 0} → (A → Type 0) → Result A → Type 0
Says P (ok a) = P a
Says P (err e) = Unit

abbrev pub Keeps : {W A : Type 0} → W → (A → Type 0) → Result A × W → Type 0
Keeps w P (r, w') = (w' ≡ w) × Says P r

pub Keeps-continue :
    {W A B : Type 0} (w : W) (P : A → Type 0) (Q : B → Type 0) (r : Result A) (w' : W)
    (f : A → Call W B)
    → w' ≡ w
    → Says P r
    → ((a : A) → r ≡ ok a → P a → Keeps w Q (f a w))
    → Keeps w Q (continue r f w')
Keeps-continue w P Q (ok a) w' f same h k = subst (λ v. Keeps w Q (f a v)) (sym same) (k a refl h)
Keeps-continue w P Q (err e) w' f same h k = (same, tt)

pub Keeps-weaken :
    {W A : Type 0} (w : W) (P Q : A → Type 0) (m : Result A × W)
    → Keeps w P m
    → ((a : A) → P a → Q a)
    → Keeps w Q m
Keeps-weaken w P Q (ok a, w') (same, h) k = (same, k a h)
Keeps-weaken w P Q (err e, w') (same, h) k = (same, tt)

-- What a flag says that was `before` and is `after`: it stays false only where all is good, and it
-- turns true only where something is bad.
abbrev pub Judged : Type 0 → Type 0 → Bool → Bool → Type 0
Judged Good Bad before after =
    (after ≡ false → (before ≡ false) × Good) × (after ≡ true → (before ≡ true) ⊎ Bad)

pub Judged-nothing : (Good Bad : Type 0) (b : Bool) → Good → Judged Good Bad b b
Judged-nothing Good Bad b good = ((λ h. (h, good)), λ h. inl h)

pub Judged-join :
    {A S B T C U : Type 0} (before between after : Bool)
    → Judged A S before between
    → Judged B T between after
    → (A → B → C)
    → (S → U)
    → (T → U)
    → Judged C U before after
Judged-join before between after ja jb good bad_first bad_later = (
  (λ h. let (h', b) = jb.0 h in let (h'', a) = ja.0 h' in (h'', good a b)),
  λ h. elim (jb.1 h) [
    | inl h' ↦ elim (ja.1 h') [ inl h'' ↦ inl h'' | inr s ↦ inr (bad_first s) ]
    | inr t ↦ inr (bad_later t)
  ],
)

pub Judged-map :
    {A S C U : Type 0} (before after : Bool)
    → Judged A S before after
    → (A → C)
    → (S → U)
    → Judged C U before after
Judged-map before after j good bad = (
  (λ h. let (h', a) = j.0 h in (h', good a)),
  λ h. elim (j.1 h) [ inl h' ↦ inl h' | inr s ↦ inr (bad s) ],
)

pub Says-any : {A : Type 0} (r : Result A) → Says (λ _. Unit {0}) r
Says-any (ok a) = tt
Says-any (err e) = tt
