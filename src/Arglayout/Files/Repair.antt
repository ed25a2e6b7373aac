-- ===== src/Arglayout/Files/Repair.antt =====
-- `process` of tools/arglayout/main.go with -fix: a repaired file passes the check, unless twenty rounds
-- were not enough.
use kinetix_search_service.Common.{
  ℕ, zero, suc, Bool, true, false, not, ◌≡◌, refl, sym, ap, ◌∙◌, ◌⊎◌, inl, inr, List, [], ◌∷◌, Text,
  text_eq, eq_of_text_eq, ok, err, subst, nonempty, Bool-cases, if◌then◌else◌, ◌>>=◌, >>=-eq_ok,
  ok-injective,
}
use kinetix_search_service.Search.Errors.{Result, GoError}
use kinetix_search_service.Search.Call.{Call, continue, settled, handling, pure}
use kinetix_search_service.Search.Call as Call
use kinetix_search_service.Search.Call.Rules.{>>=-inv, handling-inv}
use kinetix_search_service.Arglayout.Syntax.{FileSet, Group}
use kinetix_search_service.Arglayout.Rewrite.{rewrite, outermost}
use kinetix_search_service.Arglayout.Files.{
  Tools, generated, violations, rounds, report, repair, process, processed, store, read, reading,
  writing, at_path,
}

-- A file that was written is read as it was written.
pub record IsFaithful {W : Type 0} (t : Tools W) : Type 0 where
  pub reads_written :
      (root path source : Text) (w w' : W)
      → t.write_file root path source w ≡ (ok tt, w')
      → t.read_file root path w' ≡ ok source

settled_inv :
    {A : Type 0} (h : GoError → GoError) (r : Result A) {a : A} → settled h r ≡ ok a → r ≡ ok a
settled_inv h (ok a) e = e
settled_inv h (err x) e = absurd (cc e)

module _ {W : Type 0} (t : Tools W) (root path : Text) where
  -- That many rounds, each of which found a group to rewrite.
  pub data Spends : ℕ → Text → Text → Type 0 where
    none_left : {s : Text} → Spends zero s s
    one_more :
        {k : ℕ} {s s' u : Text} {fset : FileSet} {g : Group} {gs : List Group}
        → violations t (t.join root path) s ≡ ok (fset, g ∷ gs)
        → rewrite t.format s fset (outermost (g ∷ gs)) ≡ ok s'
        → Spends k s' u
        → Spends (suc k) s u

  -- The source has no violations.
  abbrev Settled : Text → Type 0
  Settled u = (fset : FileSet) × (violations t (t.join root path) u ≡ ok (fset, []))

  round-inv :
      (k : ℕ) (s : Text) (fset : FileSet) (groups : List Group) {u : Text}
      → ((s' : Text) → rounds t k (t.join root path) path s' ≡ ok u → Settled u ⊎ Spends k s' u)
      → violations t (t.join root path) s ≡ ok (fset, groups)
      → (if not (nonempty groups)
          then ok s
          else settled (at_path path) (rewrite t.format s fset (outermost groups))
            >>= rounds t k (t.join root path) path)
        ≡ ok u
      → Settled u ⊎ Spends (suc k) s u
  round-inv k s fset [] ih found h = inl (
    fset,
    subst (λ (v : Text). violations t (t.join root path) v ≡ ok (fset, [])) (ok-injective h) found,
  )
  round-inv k s fset (g ∷ gs) ih found h =
      let (s', rewritten, rest) = >>=-eq_ok _ (rounds t k (t.join root path) path) h in
      elim (ih s' rest) [
        | inl done ↦ inl done
        | inr spent ↦ inr (one_more found (settled_inv (at_path path) _ rewritten) spent)
      ]

  rounds-inv :
      (k : ℕ) (s : Text) {u : Text}
      → rounds t k (t.join root path) path s ≡ ok u
      → Settled u ⊎ Spends k s u
  unfolding rounds
  rounds-inv zero s h = inr (subst (Spends zero s) (ok-injective h) none_left)
  rounds-inv (suc k) s h =
      let ((fset, groups), found, rest) = >>=-eq_ok (violations t (t.join root path) s) _ h in
      round-inv k s fset groups (λ s' e. rounds-inv k s' e) found rest

  -- What a file that reads so is checked to.
  passes_generated :
      (w : W) (u : Text)
      → t.read_file root path w ≡ ok u
      → generated u ≡ true
      → process t root path false w ≡ (ok false, w)
  unfolding process
  passes_generated w u readable h = rw (readable, h) (refl)

  passes-Settled :
      (w : W) (u : Text)
      → t.read_file root path w ≡ ok u
      → Settled u
      → process t root path false w ≡ (ok false, w)
  unfolding process report
  passes-Settled w u readable (fset, found) = elim (Bool-cases (generated u)) [
    | inl h ↦ passes_generated w u readable h
    | inr h ↦ rw (readable, h, found) (refl)
  ]

  -- The repair began with a source of the file, found groups to rewrite in each of twenty rounds, and
  -- left what the last of them made.
  pub record Exhausted (w w' : W) : Type 0 where
    pub source : Text
    pub repaired : Text
    pub began : t.read_file root path w ≡ ok source
    pub spent : Spends 20 source repaired
    pub left : t.read_file root path w' ≡ ok repaired

  abbrev pub Repaired : W → W → Bool → Type 0
  Repaired w w' bad =
      (bad ≡ false) × ((process t root path false w' ≡ (ok false, w')) ⊎ Exhausted w w')

  ends-Repaired :
      (w w' : W) (source u : Text) {bad : Bool}
      → bad ≡ false
      → t.read_file root path w ≡ ok source
      → Settled u ⊎ Spends 20 source u
      → t.read_file root path w' ≡ ok u
      → Repaired w w' bad
  ends-Repaired w w' source u same readable (inl done) left =
      (same, inl (passes-Settled w' u left done))
  ends-Repaired w w' source u same readable (inr spent) left = (
    same,
    inr (record { source = source; repaired = u; began = readable; spent = spent; left = left }),
  )

  -- The write, or its absence, by the test that it stands under.
  store_by :
      IsFaithful t
      → (b : Bool) (u original : Text) (w : W) {w' : W} {bad : Bool} → text_eq original u ≡ b
      → t.read_file root path w ≡ ok original
      → (if b
            then pure false
            else Call.◌>>=◌
                (handling (writing (t.join root path)) (t.write_file root path u))
                (λ _. pure false))
          w
        ≡ (ok bad, w')
      → (bad ≡ false) × (t.read_file root path w' ≡ ok u)
  store_by faithful true u original w same readable h = (
    sym (ok-injective (ap (λ p. p.0) h)),
    subst (λ v. t.read_file root path v ≡ ok u) (ap (λ p. p.1) h)
        (readable ∙ ap (λ (s : Text). ok s) (eq_of_text_eq original u same)),
  )
  store_by faithful false u original w differs readable h =
      let (_, w₁, wrote, ends) =
        >>=-inv (handling (writing (t.join root path)) (t.write_file root path u)) (λ _. pure false)
          w h in
      (
        sym (ok-injective (ap (λ p. p.0) ends)),
        subst (λ v. t.read_file root path v ≡ ok u) (ap (λ p. p.1) ends)
            (faithful.reads_written root path u w w₁
              (handling-inv (writing (t.join root path)) (t.write_file root path u) w wrote)),
      )

  repair-Repaired :
      IsFaithful t
      → (source : Text) (w : W) {w' : W} {bad : Bool} → t.read_file root path w ≡ ok source
      → repair t root path source w ≡ (ok bad, w')
      → Repaired w w' bad
  unfolding repair
  repair-Repaired faithful source w readable h =
      let (u, w₁, repaired, rest) =
        >>=-inv (λ v. (rounds t 20 (t.join root path) path source, v))
          (λ u v. continue (read t root path v) (λ original. store t root path u original) v) w h in
      let (original, w₂, readable', stored) =
        >>=-inv (λ v. (read t root path v, v)) (λ original. store t root path u original) w₁ rest in
      let (same, left) =
        store_by faithful (text_eq original u) u original w₂ refl
          (subst (λ v. t.read_file root path v ≡ ok original) (ap (λ p. p.1) readable')
            (settled_inv (reading (t.join root path)) (t.read_file root path w₁)
              (ap (λ p. p.0) readable')))
          stored in
      ends-Repaired w _ source u same readable (rounds-inv 20 source (ap (λ p. p.0) repaired)) left

  by_mark :
      IsFaithful t
      → (b : Bool) (source : Text) (w : W) {w' : W} {bad : Bool} → generated source ≡ b
      → t.read_file root path w ≡ ok source
      → (if b
            then pure false
            else if not true
            then report t (t.join root path) source
            else repair t root path source)
          w
        ≡ (ok bad, w')
      → Repaired w w' bad
  by_mark faithful true source w marked readable h = (
    sym (ok-injective (ap (λ p. p.0) h)),
    inl (
        subst (λ v. process t root path false v ≡ (ok false, v)) (ap (λ p. p.1) h)
          (passes_generated w source readable marked)),
  )
  by_mark faithful false source w marked readable h = repair-Repaired faithful source w readable h

  -- If files are read as they were written, a repair that ends well reports nothing, and either the
  -- check passes on the file as it now is, or twenty rounds were spent, in each of which there was a
  -- group to rewrite, and the file holds what the last one made.
  pub process_fix-Repaired :
      IsFaithful t
      → (w : W) {w' : W} {bad : Bool} → process t root path true w ≡ (ok bad, w')
      → Repaired w w' bad
  unfolding process
  process_fix-Repaired faithful w {w' = w'} {bad = bad} h =
      let (source, w₁, reads, rest) =
        >>=-inv (λ v. (read t root path v, v)) (processed t root path true) w h in
      let stays : w₁ ≡ w = sym (ap (λ p. p.1) reads) in
      let readable =
        settled_inv (reading (t.join root path)) (t.read_file root path w) (ap (λ p. p.0) reads) in
      by_mark faithful (generated source) source w refl readable
        (subst (λ v. processed t root path true source v ≡ (ok bad, w')) stays rest)
