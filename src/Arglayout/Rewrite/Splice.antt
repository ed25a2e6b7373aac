-- ===== src/Arglayout/Rewrite/Splice.antt =====
-- `rewrite` of tools/arglayout/main.go: what it writes before it formats.
use kinetix_search_service.Common.{
  ℕ, ◌+◌, ◌-◌, ◌≡◌, refl, ap, ◌∙◌, List, [], ◌∷◌, ◌++◌, append_assoc, map, Text, lit, length,
  length-append, take-append, drop-append, arith,
}
use kinetix_search_service.Arglayout.Syntax.{FileSet, slice, Item, Group}
use kinetix_search_service.Arglayout.Rewrite.{laid_out, spliced, rewrite, Formatter, formatting}
use kinetix_search_service.Common.Strings.Trim.{IsTrimmed, trim_space-IsTrimmed}
use kinetix_search_service.Search.Call.{settled}

-- A piece of the source that ends with the bracket that opens a group, and what stands between the
-- brackets.
pub record Segment : Type 0 where
  pub before : Text
  pub inside : Text
  pub group : Group

-- The source: the segments, each followed by the closing bracket of its group, which begins the next
-- piece, and the rest.
abbrev pub assembled : List Segment → Text → Text
assembled [] rest = rest
assembled (s ∷ segments) rest = s.before ++ (s.inside ++ assembled segments rest)

-- The items of a group as lines: each without the spaces around it, followed by a comma and the end
-- of the line.
pub data Lines : List Item → Text → Type 0 where
  no_items : Lines [] []
  line :
      {it : Item} {its : List Item} {core rest : Text}
      → IsTrimmed it.text core
      → Lines its rest
      → Lines (it ∷ its) (core ++ (lit ",\n" ++ rest))

-- The source with the items of each group between its brackets, each on a line of its own.
pub data Relaid (rest : Text) : List Segment → Text → Type 0 where
  untouched : Relaid rest [] rest
  relaid_one :
      {s : Segment} {segments : List Segment} {lines later : Text}
      → Lines s.group.items lines
      → Relaid rest segments later
      → Relaid rest (s ∷ segments) (s.before ++ (lit "\n" ++ (lines ++ later)))

abbrev relaid : List Segment → Text → Text
relaid [] rest = rest
relaid (s ∷ segments) rest =
    s.before ++ (lit "\n" ++ (laid_out s.group.items ++ relaid segments rest))

laid_out-Lines : (its : List Item) → Lines its (laid_out its)
unfolding laid_out
laid_out-Lines [] = no_items
laid_out-Lines (it ∷ its) = line (trim_space-IsTrimmed it.text) (laid_out-Lines its)

relaid-Relaid :
    (segments : List Segment) (rest : Text) → Relaid rest segments (relaid segments rest)
relaid-Relaid [] rest = untouched
relaid-Relaid (s ∷ segments) rest =
    relaid_one (laid_out-Lines s.group.items) (relaid-Relaid segments rest)

-- The brackets stand where the segments, from this offset on, put them.
abbrev pub Places : FileSet → ℕ → List Segment → Type 0
Places fset at [] = Unit
Places fset at (s ∷ segments) =
    (fset.offset s.group.opening + 1 ≡ at + length s.before)
    × (fset.offset s.group.closing ≡ at + length s.before + length s.inside)
    × Places fset (at + length s.before + length s.inside) segments

slice-append :
    (done middle rest : Text) (from to : ℕ)
    → from ≡ length done
    → to ≡ length done + length middle
    → slice (done ++ (middle ++ rest)) from to ≡ middle
slice-append done middle rest from to begins ends =
    let count : to - from ≡ length middle = omega arith in
    rw (count, begins, drop-append done (middle ++ rest)) (take-append middle rest)

spliced-relaid :
    (fset : FileSet) (segments : List Segment) (done rest : Text) (at : ℕ)
    → at ≡ length done
    → Places fset at segments
    → spliced (done ++ assembled segments rest) fset at (map (λ (s : Segment). s.group) segments)
      ≡ relaid segments rest
unfolding spliced
spliced-relaid fset [] done rest at begins placed = rw begins (drop-append done rest)
spliced-relaid fset (s ∷ segments) done rest at begins placed =
    let (opens, closes, later) = placed in
    let done' = done ++ (s.before ++ s.inside) in
    let size : fset.offset s.group.closing ≡ length done' = omega (
      arith,
      closes,
      begins,
      length-append done (s.before ++ s.inside),
      length-append s.before s.inside,
    ) in
    let same : done ++ (s.before ++ (s.inside ++ assembled segments rest))
        ≡ done' ++ assembled segments rest =
      simp append_assoc in
    let after =
      spliced-relaid fset segments done' rest (fset.offset s.group.closing) size
        (rw closes later) in
    let first =
      slice-append done s.before (s.inside ++ assembled segments rest) at
        (fset.offset s.group.opening + 1) begins (omega (arith, opens, begins)) in
    rw first (
      ap (λ t. s.before ++ (lit "\n" ++ (laid_out s.group.items ++ t)))
        (ap
            (λ source.
              spliced source fset (fset.offset s.group.closing)
                (map (λ (s : Segment). s.group) segments))
            same
          ∙ after))

-- A round of the repair formats the source with nothing changed outside the brackets of its groups,
-- and between them the items of each, in order, without the spaces around them, each followed by a
-- comma and the end of a line.
pub rewrite-Relaid :
    (format : Formatter) (fset : FileSet) (segments : List Segment) (rest : Text)
    → Places fset 0 segments
    → (text : Text) × Relaid rest segments text
      × (rewrite format (assembled segments rest) fset (map (λ (s : Segment). s.group) segments)
          ≡ settled formatting (format text))
unfolding rewrite
rewrite-Relaid format fset segments rest placed = (
  relaid segments rest,
  relaid-Relaid segments rest,
  ap (λ t. settled formatting (format t)) (spliced-relaid fset segments [] rest 0 refl placed),
)
