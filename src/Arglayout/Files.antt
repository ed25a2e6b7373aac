-- ===== src/Arglayout/Files.antt =====
-- tools/arglayout/main.go: `skipped`, `process`, the walk over the directories and `main`. The file
-- system, the parser and the formatter are parameters; what is printed is not modelled. A directory
-- is its listing as the walk reads it, which the repair of a file does not change.
pub mod Judgement
pub mod Tells
pub mod Reports
pub mod Repair
use kinetix_search_service.Common.{
  ℕ, zero, suc, ◌-◌, leb, Bool, true, false, not, ◌&&◌, ◌||◌, List, [], ◌∷◌, Option, none, some,
  Text, lit, any, length, nonempty, drop, text_eq, has_prefix, without, split, if◌then◌else◌, ok,
  err, ◌>>=◌,
}
use kinetix_search_service.Search.Errors.{Result, GoError, wrapping, str}
use kinetix_search_service.Search.Call.{Call, pure, raise, continue, settled}
use kinetix_search_service.Search.Call as Call
use kinetix_search_service.Arglayout.Syntax.{FileSet, Node, Group}
use kinetix_search_service.Arglayout.Check.{violations_in}
use kinetix_search_service.Arglayout.Rewrite.{rewrite, outermost}

abbrev pub has_suffix : Text → Text → Bool
has_suffix s p = leb (length p) (length s) && text_eq (drop (length s - length p) s) p

-- `generated.Match`: a line that begins and ends so.
abbrev pub marks_generated : Text → Bool
marks_generated line =
    has_prefix line (lit "// Code generated ")
    && has_suffix (without line (lit "// Code generated ")) (lit " DO NOT EDIT.")

unfoldable pub generated : Text → Bool
generated source = any marks_generated (split 10 source)

abbrev pub last_of : List Text → Text
last_of [] = []
last_of (t ∷ []) = t
last_of (t ∷ u ∷ ts) = last_of (u ∷ ts)

-- `skipped`; the base of a path of the walk is its last element.
unfoldable pub skipped : Text → Bool
skipped path =
    any (text_eq (last_of (split 47 path)))
      (lit "contractgen" ∷ lit "protogen" ∷ lit "storegen" ∷ [])

mutual
  -- What the walk finds at a path below the root.
  pub data Entry : Type 0 where
    file : Text → Entry
    directory : Text → Listing → Entry

  pub data Listing : Type 0 where
    -- The directory cannot be read.
    unreadable : GoError → Listing
    end : Listing
    entry : Entry → Listing → Listing

pub record Tools (W : Type 0) : Type 0 where
  pub open_root : Text → W → Result Entry
  -- By root and path.
  pub read_file : Text → Text → W → Result Text
  pub write_file : Text → Text → Text → Call W (Unit {0})
  pub parse_file : Text → Text → Result (FileSet × Node)
  pub format : Text → Result Text
  -- `filepath.Join`
  pub join : Text → Text → Text

abbrev pub reading : Text → GoError → GoError
reading name = wrapping (lit "reading %s: %w") (str name ∷ [])

abbrev pub parsing : Text → GoError → GoError
parsing name = wrapping (lit "parsing %s: %w") (str name ∷ [])

abbrev pub writing : Text → GoError → GoError
writing name = wrapping (lit "writing %s: %w") (str name ∷ [])

abbrev pub at_path : Text → GoError → GoError
at_path path = wrapping (lit "%s: %w") (str path ∷ [])

abbrev pub found_in : Text → FileSet × Node → FileSet × List Group
found_in source (fset, tree) = (fset, violations_in fset source tree)

-- The status of the exit.
abbrev pub status : Result Bool → ℕ
status (ok false) = 0
status (ok true) = 1
status (err e) = 2

module _ {W : Type 0} (t : Tools W) where
  unfoldable pub violations : Text → Text → Result (FileSet × List Group)
  violations name source =
      settled (parsing name) (t.parse_file name source) >>= λ parsed. ok (found_in source parsed)

  -- `for range 20`, with this many rounds left.
  unfoldable pub rounds : ℕ → Text → Text → Text → Result Text
  unfolding violations
  rounds zero name path source = ok source
  rounds (suc k) name path source = violations name source >>= λ (fset, groups).
      let next =
        settled (at_path path) (rewrite t.format source fset (outermost groups))
        >>= rounds k name path in
      if not (nonempty groups) then ok source else next

  -- The file is written if it differs.
  abbrev pub store : Text → Text → Text → Text → Call W Bool
  store root path source original =
      if text_eq original source
      then pure false
      else Call.◌>>=◌ (Call.handling (writing (t.join root path)) (t.write_file root path source))
          (λ _. pure false)

  abbrev pub read : Text → Text → W → Result Text
  read root path w = settled (reading (t.join root path)) (t.read_file root path w)

  -- The repair, past the test for generated code.
  unfoldable pub repair : Text → Text → Text → Call W Bool
  unfolding rounds
  repair root path source w =
      continue (rounds 20 (t.join root path) path source)
        (λ repaired w.
          continue (read root path w) (λ original. store root path repaired original) w)
        w

  -- The report, past the test for generated code.
  unfoldable pub report : Text → Text → Call W Bool
  unfolding violations
  report name source w = (violations name source >>= λ found. ok (nonempty (found.1)), w)

  -- `process` past the reading of the file.
  abbrev pub processed : Text → Text → Bool → Text → Call W Bool
  processed root path fix source =
      if generated source
      then pure false
      else if not fix
      then report (t.join root path) source
      else repair root path source

  unfoldable pub process : Text → Text → Bool → Call W Bool
  unfolding repair report generated
  process root path fix w = continue (read root path w) (processed root path fix) w

  -- The function given to `fs.WalkDir`, at a file.
  abbrev pub visit : Text → Text → Bool → Bool → Call W Bool
  visit root path fix failed =
      if not (has_suffix path (lit ".go"))
      then pure failed
      else Call.◌>>=◌ (process root path fix) (λ bad. pure (failed || bad))

  -- `fs.WalkDir` with that function, and the variable `failed`.
  unfoldable mutual
    unfolding process skipped

    pub walk : Text → Bool → Entry → Bool → Call W Bool
    walk root fix (file path) failed w = visit root path fix failed w
    walk root fix (directory path listing) failed w =
        let inside = walk_listing root fix listing failed w in
        if skipped path then (ok failed, w) else inside

    pub walk_listing : Text → Bool → Listing → Bool → Call W Bool
    walk_listing root fix (unreadable e) failed w = raise e w
    walk_listing root fix end failed w = pure failed w
    walk_listing root fix (entry e es) failed w =
        let (r, w') = walk root fix e failed w in
        continue r (λ bad. walk_listing root fix es bad) w'

  unfoldable pub walk_roots : Bool → List Text → Bool → Call W Bool
  unfolding walk
  walk_roots fix [] failed w = pure failed w
  walk_roots fix (root ∷ roots) failed w =
      continue (t.open_root root w)
        (λ tree. Call.◌>>=◌ (walk root fix tree failed) (λ bad. walk_roots fix roots bad)) w

  unfoldable pub main : Bool → List Text → W → ℕ × W
  unfolding walk_roots
  main fix roots w = let (r, w') = walk_roots fix roots false w in (status r, w')
