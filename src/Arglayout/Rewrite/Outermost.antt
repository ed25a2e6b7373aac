-- ===== src/Arglayout/Rewrite/Outermost.antt =====
-- `outermost` of tools/arglayout/main.go.
use kinetix_search_service.Common.{
  ℕ, ◌≤◌, ◌<◌, ltb, refl, sym, ◌⊎◌, inl, inr, List, [], ◌∷◌, arith, Bool-cases, Memᴰ, All, subst,
}
use mathlib.Core.List.Memᴰ.{head, tail}
use kinetix_search_service.Arglayout.Syntax.{Group}
use kinetix_search_service.Arglayout.Rewrite.{insert, sorted, kept_after, kept, outermost}

-- Each of the groups but the first opens no earlier than the one before it closes.
abbrev pub Disjoint : List Group → Type 0
Disjoint [] = Unit
Disjoint (g ∷ []) = Unit
Disjoint (g ∷ h ∷ gs) = (g.closing ≤ h.opening) × Disjoint (h ∷ gs)

-- The group opens within another one.
abbrev pub OpensIn : Group → Group → Type 0
OpensIn g k = (k.opening ≤ g.opening) × (g.opening < k.closing)

Ascending : List Group → Type 0
Ascending [] = Unit
Ascending (g ∷ gs) = All (λ (h : Group). g.opening ≤ h.opening) gs × Ascending gs

All-insert :
    (b : ℕ) (g : Group) (gs : List Group)
    → b ≤ g.opening
    → All (λ (h : Group). b ≤ h.opening) gs
    → All (λ (h : Group). b ≤ h.opening) (insert g gs)
unfolding insert
All-insert b g [] low h = (low, tt)
All-insert b g (x ∷ gs) low h = elim (Bool-cases (ltb x.opening g.opening)) [
  | inl later ↦ rw later (h.0, All-insert b g gs low h.1)
  | inr first ↦ rw first (low, h)
]

All-weaken :
    (b c : ℕ) (gs : List Group)
    → b ≤ c
    → All (λ (h : Group). c ≤ h.opening) gs
    → All (λ (h : Group). b ≤ h.opening) gs
All-weaken b c [] low h = tt
All-weaken b c (g ∷ gs) low h = (omega (arith, h.0), All-weaken b c gs low h.1)

Ascending-insert : (g : Group) (gs : List Group) → Ascending gs → Ascending (insert g gs)
unfolding insert Ascending
Ascending-insert g [] h = (tt, tt)
Ascending-insert g (x ∷ gs) h = elim (Bool-cases (ltb x.opening g.opening)) [
  | inl later ↦ rw later (All-insert x.opening g gs (ground arith) h.0, Ascending-insert g gs h.1)
  | inr first ↦
      let low : g.opening ≤ x.opening = ground arith in
      rw first ((low, All-weaken g.opening x.opening gs low h.0), h)
]

Ascending-sorted : (gs : List Group) → Ascending (sorted gs)
unfolding sorted Ascending
Ascending-sorted [] = tt
Ascending-sorted (g ∷ gs) = Ascending-insert g (sorted gs) (Ascending-sorted gs)

Memᴰ-past :
    {g k x : Group} {gs hs : List Group}
    → (Memᴰ k (g ∷ gs) → Memᴰ k hs)
    → Memᴰ k (g ∷ x ∷ gs)
    → Memᴰ k (x ∷ hs)
Memᴰ-past f (head e) = tail (f (head e))
Memᴰ-past f (tail (head e)) = head e
Memᴰ-past f (tail (tail n)) = tail (f (tail n))

Memᴰ-under : {g k x : Group} {gs : List Group} → Memᴰ k (g ∷ gs) → Memᴰ k (g ∷ x ∷ gs)
Memᴰ-under (head e) = head e
Memᴰ-under (tail n) = tail (tail n)

Memᴰ-past_inv :
    {g k x : Group} {gs hs : List Group}
    → (Memᴰ k hs → Memᴰ k (g ∷ gs))
    → Memᴰ k (x ∷ hs)
    → Memᴰ k (g ∷ x ∷ gs)
Memᴰ-past_inv f (head e) = tail (head e)
Memᴰ-past_inv f (tail n) = Memᴰ-under (f n)

Memᴰ-insert : (g k : Group) (gs : List Group) → Memᴰ k (g ∷ gs) → Memᴰ k (insert g gs)
unfolding insert
Memᴰ-insert g k [] m = m
Memᴰ-insert g k (x ∷ gs) m = elim (Bool-cases (ltb x.opening g.opening)) [
  | inl later ↦ rw later (Memᴰ-past (Memᴰ-insert g k gs) m)
  | inr first ↦ rw first m
]

Memᴰ-insert_inv : (g k : Group) (gs : List Group) → Memᴰ k (insert g gs) → Memᴰ k (g ∷ gs)
unfolding insert
Memᴰ-insert_inv g k [] m = m
Memᴰ-insert_inv g k (x ∷ gs) m = elim (Bool-cases (ltb x.opening g.opening)) [
  | inl later ↦ Memᴰ-past_inv (Memᴰ-insert_inv g k gs) (rw later at m)
  | inr first ↦ rw first at m
]

Memᴰ-cons :
    {g k : Group} {gs hs : List Group} → (Memᴰ k gs → Memᴰ k hs) → Memᴰ k (g ∷ gs) → Memᴰ k (g ∷ hs)
Memᴰ-cons f (head e) = head e
Memᴰ-cons f (tail n) = tail (f n)

Memᴰ-sorted : (k : Group) (gs : List Group) → Memᴰ k gs → Memᴰ k (sorted gs)
unfolding sorted
Memᴰ-sorted k [] m = m
Memᴰ-sorted k (g ∷ gs) m = Memᴰ-insert g k (sorted gs) (Memᴰ-cons (Memᴰ-sorted k gs) m)

Memᴰ-sorted_inv : (k : Group) (gs : List Group) → Memᴰ k (sorted gs) → Memᴰ k gs
unfolding sorted
Memᴰ-sorted_inv k [] m = m
Memᴰ-sorted_inv k (g ∷ gs) m = Memᴰ-cons (Memᴰ-sorted_inv k gs) (Memᴰ-insert_inv g k (sorted gs) m)

Memᴰ-kept_after_inv : (k last : Group) (gs : List Group) → Memᴰ k (kept_after last gs) → Memᴰ k gs
unfolding kept_after
Memᴰ-kept_after_inv k last [] m = m
Memᴰ-kept_after_inv k last (g ∷ gs) m = elim (Bool-cases (ltb g.opening last.closing)) [
  | inl inside ↦ tail (Memᴰ-kept_after_inv k last gs (rw inside at m))
  | inr past ↦ Memᴰ-cons (Memᴰ-kept_after_inv k g gs) (rw past at m)
]

Disjoint-kept_after : (last : Group) (gs : List Group) → Disjoint (last ∷ kept_after last gs)
unfolding kept_after
Disjoint-kept_after last [] = tt
Disjoint-kept_after last (g ∷ gs) = elim (Bool-cases (ltb g.opening last.closing)) [
  | inl inside ↦ rw inside (Disjoint-kept_after last gs)
  | inr past ↦ rw past (ground arith, Disjoint-kept_after g gs)
]

-- Kept, or opening within one that is kept.
abbrev pub Covered : Group → List Group → Type 0
Covered g gs = Memᴰ g gs ⊎ ((k : Group) × Memᴰ k gs × OpensIn g k)

Covered-tail : {g k : Group} {gs : List Group} → Covered g gs → Covered g (k ∷ gs)
Covered-tail (inl m) = inl (tail m)
Covered-tail (inr (k, m, h)) = inr (k, tail m, h)

Covered-dropped :
    {g last x : Group} {gs hs : List Group}
    → OpensIn x last
    → (Memᴰ g gs → Covered g (last ∷ hs))
    → Memᴰ g (x ∷ gs)
    → Covered g (last ∷ hs)
Covered-dropped {last = last} inside f (head e) =
    inr (last, head refl, subst (λ (y : Group). OpensIn y last) (sym e) inside)
Covered-dropped inside f (tail n) = f n

Covered-going :
    {g x : Group} {gs hs : List Group}
    → (Memᴰ g gs → Covered g (x ∷ hs))
    → Memᴰ g (x ∷ gs)
    → Covered g (x ∷ hs)
Covered-going f (head e) = inl (head e)
Covered-going f (tail n) = f n

Covered-kept_after :
    (g last : Group) (gs : List Group)
    → All (λ (h : Group). last.opening ≤ h.opening) gs
    → Ascending gs
    → Memᴰ g gs
    → Covered g (last ∷ kept_after last gs)
unfolding kept_after Ascending
Covered-kept_after g last [] low h m = elim m [ ]
Covered-kept_after g last (x ∷ gs) low h m = elim (Bool-cases (ltb x.opening last.closing)) [
  | inl inside ↦
      rw inside (Covered-dropped (low.0, ground arith) (Covered-kept_after g last gs low.1 h.1) m)
  | inr past ↦ rw past (Covered-tail (Covered-going (Covered-kept_after g x gs h.0 h.1) m))
]

Covered-kept : (g : Group) (gs : List Group) → Ascending gs → Memᴰ g gs → Covered g (kept gs)
unfolding kept Ascending
Covered-kept g [] h m = elim m [ ]
Covered-kept g (x ∷ gs) h (head e) = inl (head e)
Covered-kept g (x ∷ gs) h (tail n) = Covered-kept_after g x gs h.0 h.1 n

Disjoint-kept : (gs : List Group) → Disjoint (kept gs)
unfolding kept
Disjoint-kept [] = tt
Disjoint-kept (g ∷ gs) = Disjoint-kept_after g gs

Memᴰ-kept_inv : (k : Group) (gs : List Group) → Memᴰ k (kept gs) → Memᴰ k gs
unfolding kept
Memᴰ-kept_inv k [] m = m
Memᴰ-kept_inv k (g ∷ gs) m = Memᴰ-cons (Memᴰ-kept_after_inv k g gs) m

-- What `outermost` makes of some groups.
pub record IsOutermost (gs kept_groups : List Group) : Type 0 where
  pub disjoint : Disjoint kept_groups
  pub found : (g : Group) → Memᴰ g kept_groups → Memᴰ g gs
  pub covered : (g : Group) → Memᴰ g gs → Covered g kept_groups

-- The groups that are rewritten in one round are some of those found, in order, each opening no
-- earlier than the one before it closes; every group found is one of them or opens within one of
-- them.
pub outermost-IsOutermost : (gs : List Group) → IsOutermost gs (outermost gs)
unfolding outermost
outermost-IsOutermost gs = record {
  disjoint = Disjoint-kept (sorted gs);
  found = λ g m. Memᴰ-sorted_inv g gs (Memᴰ-kept_inv g (sorted gs) m);
  covered = λ g m. Covered-kept g (sorted gs) (Ascending-sorted gs) (Memᴰ-sorted g gs m);
}
