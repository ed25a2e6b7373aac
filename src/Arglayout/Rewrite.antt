-- ===== src/Arglayout/Rewrite.antt =====
-- tools/arglayout/main.go: `outermost` and `rewrite`. The formatter is a parameter.
pub mod Outermost
pub mod Splice
use kinetix_search_service.Common.{
  ℕ, ◌+◌, leb, ltb, Bool, true, false, List, [], ◌∷◌, ◌++◌, Text, lit, trim_space, drop,
  if◌then◌else◌,
}
use kinetix_search_service.Search.Errors.{Result, GoError, wrapping}
use kinetix_search_service.Search.Call.{settled}
use kinetix_search_service.Arglayout.Syntax.{FileSet, slice, Item, Group}

unfoldable pub insert : Group → List Group → List Group
insert g [] = g ∷ []
insert g (h ∷ hs) = if ltb h.opening g.opening then h ∷ insert g hs else g ∷ h ∷ hs

-- `sort.Slice` by the opening. No two groups of a file open at one position, so there is one
-- sorted list of them.
unfoldable pub sorted : List Group → List Group
unfolding insert
sorted [] = []
sorted (g ∷ gs) = insert g (sorted gs)

-- The loop of `outermost`, past the group that was kept last, if one was: the groups that it keeps.
unfoldable pub kept_after : Group → List Group → List Group
kept_after last [] = []
kept_after last (g ∷ gs) =
    let skipping = kept_after last gs in
    let keeping = g ∷ kept_after g gs in if ltb g.opening last.closing then skipping else keeping

unfoldable pub kept : List Group → List Group
unfolding kept_after
kept [] = []
kept (g ∷ gs) = g ∷ kept_after g gs

unfoldable pub outermost : List Group → List Group
unfolding sorted kept
outermost gs = kept (sorted gs)

-- The items of a group, each on a line of its own.
unfoldable pub laid_out : List Item → Text
laid_out [] = []
laid_out (it ∷ its) = trim_space it.text ++ (lit ",\n" ++ laid_out its)

module _ (source : Text) (fset : FileSet) where
  -- The loop of `rewrite` from a value of `cursor`, and the write past it.
  unfoldable pub spliced : ℕ → List Group → Text
  unfolding laid_out
  spliced cursor [] = drop cursor source
  spliced cursor (g ∷ gs) =
      slice source cursor (fset.offset g.opening + 1)
      ++ (lit "\n" ++ (laid_out g.items ++ spliced (fset.offset g.closing) gs))

-- What `format.Source` returns.
abbrev pub Formatter : Type 0
Formatter = Text → Result Text

abbrev pub formatting : GoError → GoError
formatting = wrapping (lit "formatting: %w") []

unfoldable pub rewrite : Formatter → Text → FileSet → List Group → Result Text
unfolding spliced
rewrite format source fset groups = settled formatting (format (spliced source fset 0 groups))
