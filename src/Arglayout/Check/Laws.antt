-- ===== src/Arglayout/Check/Laws.antt =====
-- `violations` of tools/arglayout/main.go against an independent account of the layout.
use kinetix_search_service.Common.{
  ℕ, ◌==◌, ◌&&◌, true, false, ◌≡◌, sym, ◌∙◌, subst, ◌↔◌, ◌⊎◌, inl, inr, List, [], ◌∷◌, Text, arith,
  Bool-cases, &&_both, ==_iff, Memᴰ, flat_map, Memᴰ-flat_map, Memᴰ-flat_map_inv,
}
use mathlib.Core.List.Memᴰ.{head, tail}
use kinetix_search_service.Arglayout.Syntax.{Node, inspect, FileSet, Item, Group}
use kinetix_search_service.Arglayout.Check.{
  Candidate, candidates, same_line_head, crowded, check, violations_in,
}
use kinetix_search_service.Arglayout.Check.Layout.{
  at, Allowed, no_items, one_line, hugging, one_per_line, Separate-Chain, Chain-Separate,
  crowded_iff, test-of_Hugs, Hugs-of_test, Items-cases,
}

module _ (line : ℕ → ℕ) where
  -- `check` adds nothing for an allowed layout, and the group itself for any other.
  abbrev pub Settles : Candidate → List Group → Type 0
  Settles c found = ((found ≡ []) × Allowed line c) ⊎ ((found ≡ c.group ∷ []) × ¬ Allowed line c)

  module _ (c : Candidate) (x : Item) (its : List Item) (filled : c.group.items ≡ x ∷ its)
      (several : (line c.group.opening == line c.group.closing) ≡ false)
      (apart : (c.trailing && same_line_head line c.group) ≡ false) where
    not_Allowed :
        crowded line (line c.group.opening) c.group.items c.group.closing ≡ true → ¬ Allowed line c
    not_Allowed h (no_items e) = absurd (cc (sym filled ∙ e))
    not_Allowed h (one_line e) = ground arith
    not_Allowed h (hugging t hugs) = ground (arith, test-of_Hugs line c.group x its filled hugs)
    not_Allowed h (one_per_line s) =
        let clear =
          (crowded_iff line (at c.group.opening) c.group.items c.group.closing).1
            (Separate-Chain line _ s) in
        ground arith

    check_spread : Settles c (check line c)
    unfolding check
    check_spread =
        elim (Bool-cases (crowded line (line c.group.opening) c.group.items c.group.closing)) [
          | inl h ↦ inr (ground (arith, several, apart, h, filled), not_Allowed h)
          | inr h ↦
              let clear =
                (crowded_iff line (at c.group.opening) c.group.items c.group.closing).0 h in
              inl (
                ground (arith, several, apart, h, filled),
                one_per_line (Chain-Separate line _ clear),
              )
        ]

  check_filled :
      (c : Candidate) (x : Item) (its : List Item)
      → c.group.items ≡ x ∷ its
      → Settles c (check line c)
  unfolding check
  check_filled c x its filled = elim (Bool-cases (line c.group.opening == line c.group.closing)) [
    | inl h ↦ inl (ground (arith, h), one_line ((==_iff _ _).0 h))
    | inr several ↦ elim (Bool-cases (c.trailing && same_line_head line c.group)) [
      | inl h ↦
          let (t, hugs) = &&_both _ _ h in
          inl (ground (arith, h, several), hugging t (Hugs-of_test line c.group hugs))
      | inr apart ↦ check_spread c x its filled several apart
    ]
  ]

  pub check-Settles : (c : Candidate) → Settles c (check line c)
  unfolding check
  check-Settles c = elim (Items-cases c.group.items) [
    | inl e ↦ inl (ground (arith, e), no_items e)
    | inr (x, its, e) ↦ check_filled c x its e
  ]

  reported_by :
      (c : Candidate) (g : Group) → Memᴰ g (check line c) → (g ≡ c.group) × ¬ Allowed line c
  reported_by c g m = elim (check-Settles c) [
    | inl (e, fine) ↦ elim (subst (Memᴰ g) e m) [ ]
    | inr (e, bad) ↦ (only (subst (Memᴰ g) e m), bad)
  ]
    where
      only : Memᴰ g (c.group ∷ []) → g ≡ c.group
      only (head e) = e
      only (tail m) = elim m [ ]

  reporting : (c : Candidate) (g : Group) → g ≡ c.group → ¬ Allowed line c → Memᴰ g (check line c)
  reporting c g e bad = elim (check-Settles c) [
    | inl (none_found, fine) ↦ absurd (bad fine)
    | inr (found, _) ↦ subst (Memᴰ g) (sym found) (head e)
  ]

-- The group is one of a node of the file, and its layout is not allowed.
abbrev pub IsReported : FileSet → Text → Node → Group → Type 0
IsReported fset source file g =
    (n : Node) × Memᴰ n (inspect file)
    × (c : Candidate) × Memᴰ c (candidates fset source n)
    × (g ≡ c.group)
    × ¬ Allowed fset.line c

-- The groups that are reported are exactly those of the nodes of the file whose layout is not
-- allowed: they have items, open and close on different lines, do not end in a block that opens on
-- their first line, and have some two neighbours, the brackets counted, of which the second begins
-- no lower than the first ends.
pub violations_in_iff :
    (fset : FileSet) (source : Text) (file : Node) (g : Group)
    → Memᴰ g (violations_in fset source file) ↔ IsReported fset source file g
unfolding violations_in
violations_in_iff fset source file g = (
  λ m.
      let (n, visited, reported) =
        Memᴰ-flat_map_inv (λ n. flat_map (check fset.line) (candidates fset source n))
          (inspect file) m in
      let (c, of_node, checked) =
        Memᴰ-flat_map_inv (check fset.line) (candidates fset source n) reported in
      let (same, bad) = reported_by fset.line c g checked in (n, visited, c, of_node, same, bad),
  λ (n, visited, c, of_node, e, bad).
      Memᴰ-flat_map (λ n. flat_map (check fset.line) (candidates fset source n)) visited
        (Memᴰ-flat_map (check fset.line) of_node (reporting fset.line c g e bad)),
)
