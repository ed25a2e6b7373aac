-- ===== src/Arglayout/Check/Layout.antt =====
-- The layouts that tools/arglayout/main.go leaves alone, apart from the code that looks for them, and
-- the two tests of `check` against this account.
use kinetix_search_service.Common.{
  ℕ, ◌==◌, ◌<◌, true, false, ◌≡◌, refl, ap, ◌∙◌, ◌↔◌, ◌⊎◌, inl, inr, List, [], ◌∷◌, ◌++◌, map, all,
  arith, &&_both, ==_iff, Memᴰ,
}
use mathlib.Core.List.Memᴰ.{head, tail}
use kinetix_search_service.Arglayout.Syntax.{Span, Item, Group}
use kinetix_search_service.Arglayout.Check.{Candidate, last_line, same_line_head, crowded}

abbrev pub at : ℕ → Span
at p = record { start = p; stop = p }

abbrev pub extent : Item → Span
extent it = record { start = it.start; stop = it.stop }

-- The opening, the items and the closing, in order.
abbrev pub pieces : Group → List Span
pieces g = at g.opening ∷ (map extent g.items ++ (at g.closing ∷ []))

pub Items-cases :
    (its : List Item) → (its ≡ []) ⊎ ((x : Item) × (rest : List Item) × (its ≡ x ∷ rest))
Items-cases [] = inl refl
Items-cases (x ∷ rest) = inr (x, rest, refl)

module _ (line : ℕ → ℕ) where
  -- Each piece begins below the line on which the one before it ends.
  abbrev pub Separate : List Span → Type 0
  Separate l =
      (before : List Span) (a b : Span) (after : List Span)
      → l ≡ before ++ (a ∷ b ∷ after)
      → line a.stop < line b.start

  -- The items begin on the line of the opening, and the closing is on the line where they end.
  pub record Hugs (g : Group) : Type 0 where
    pub on_opening : (it : Item) → Memᴰ it g.items → line it.start ≡ line g.opening
    pub on_end :
        (before : List Item) (it : Item)
        → g.items ≡ before ++ (it ∷ [])
        → line g.closing ≡ line it.stop

  -- The layouts that are left alone.
  pub data Allowed (c : Candidate) : Type 0 where
    no_items : c.group.items ≡ [] → Allowed c
    one_line : line c.group.opening ≡ line c.group.closing → Allowed c
    hugging : c.trailing ≡ true → Hugs c.group → Allowed c
    one_per_line : Separate (pieces c.group) → Allowed c

  pub Chain : List Span → Type 0
  Chain [] = Unit
  Chain (a ∷ []) = Unit
  Chain (a ∷ b ∷ l) = (line a.stop < line b.start) × Chain (b ∷ l)

  pub Chain-Separate : (l : List Span) → Chain l → Separate l
  unfolding Chain
  Chain-Separate [] h [] a b after e = absurd (cc e)
  Chain-Separate [] h (x ∷ before) a b after e = absurd (cc e)
  Chain-Separate (x ∷ []) h [] a b after e = absurd (cc e)
  Chain-Separate (x ∷ []) h (y ∷ []) a b after e = absurd (cc e)
  Chain-Separate (x ∷ []) h (y ∷ z ∷ before) a b after e = absurd (cc e)
  Chain-Separate (x ∷ y ∷ l) h [] a b after e = ground (arith, h, e)
  Chain-Separate (x ∷ y ∷ l) h (z ∷ before) a b after e =
      Chain-Separate (y ∷ l) h.1 before a b after (cc e)

  pub Separate-Chain : (l : List Span) → Separate l → Chain l
  unfolding Chain
  Separate-Chain [] s = tt
  Separate-Chain (a ∷ []) s = tt
  Separate-Chain (a ∷ b ∷ l) s = (
    s [] a b l refl,
    Separate-Chain (b ∷ l) (λ before c d after e. s (a ∷ before) c d after (ap (◌∷◌ a) e)),
  )

  abbrev pub up_to : List Item → ℕ → List Span
  up_to its closing = map extent its ++ (at closing ∷ [])

  pub crowded_iff :
      (p : Span) (its : List Item) (closing : ℕ)
      → (crowded line (line p.stop) its closing ≡ false) ↔ Chain (p ∷ up_to its closing)
  unfolding Chain crowded
  crowded_iff p [] closing = (λ h. ground arith, λ h. ground arith)
  crowded_iff p (it ∷ its) closing =
      let (ahead, back) = crowded_iff (extent it) its closing in
      (λ h. (ground arith, ahead (ground arith)), λ h. ground (arith, back h.1))

  all_on :
      (l : ℕ) (its : List Item)
      → all (λ (it : Item). line it.start == l) its ≡ true
      → (it : Item) → Memᴰ it its
      → line it.start ≡ l
  all_on l [] h it m = elim m [ ]
  all_on l (x ∷ its) h it (head e) = ground (arith, ap (λ (i : Item). line i.start) e)
  all_on l (x ∷ its) h it (tail m) = all_on l its (ground arith) it m

  on_all :
      (l : ℕ) (its : List Item)
      → ((it : Item) → Memᴰ it its → line it.start ≡ l)
      → all (λ (it : Item). line it.start == l) its ≡ true
  on_all l [] h = refl
  on_all l (x ∷ its) h = ground (arith, h x (head refl), on_all l its (λ it m. h it (tail m)))

  last_line-append :
      (l : ℕ) (before : List Item) (it : Item)
      → last_line line l (before ++ (it ∷ [])) ≡ line it.stop
  last_line-append l [] it = refl
  last_line-append l (x ∷ before) it = last_line-append (line x.stop) before it

  last_split :
      (x : Item) (its : List Item)
      → (before : List Item) × (it : Item) × (x ∷ its ≡ before ++ (it ∷ []))
  last_split x [] = ([], x, refl)
  last_split x (y ∷ its) = let (before, it, e) = last_split y its in (x ∷ before, it, ap (◌∷◌ x) e)

  pub Hugs-of_test : (g : Group) → same_line_head line g ≡ true → Hugs g
  unfolding same_line_head
  Hugs-of_test g h =
      let (heads, ends) = &&_both _ _ h in
      record {
        on_opening = all_on (line g.opening) g.items heads;
        on_end = λ before it e.
            (==_iff _ _).0 ends ∙ (ap (last_line line 0) e ∙ last_line-append 0 before it);
      }

  pub test-of_Hugs :
      (g : Group) (x : Item) (its : List Item)
      → g.items ≡ x ∷ its
      → Hugs g
      → same_line_head line g ≡ true
  unfolding same_line_head
  test-of_Hugs g x its filled h =
      let (before, it, e) = last_split x its in
      let same : last_line line 0 g.items ≡ line it.stop =
        ap (last_line line 0) (filled ∙ e) ∙ last_line-append 0 before it in
      ground
        (arith, on_all (line g.opening) g.items h.on_opening, h.on_end before it (filled ∙ e), same)
