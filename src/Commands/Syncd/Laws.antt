-- ===== src/Commands/Syncd/Laws.antt =====
-- The daemon of cmd/syncd/main.go: a failure stops neither the round nor the rounds after it.
use kinetix_search_service.Common.{pos, ltb_ℤ, true, ℕ, zero, suc, ◌≡◌, refl, some, List, [], ◌∷◌}
use kinetix_search_service.Search.Errors.{Result}
use kinetix_search_service.Search.Document.{products, merchants, orders}
use kinetix_search_service.Indexing.Syncer.{once}
use kinetix_search_service.Commands.Syncd.{
  Once, CollectionSync, Syncd, Event, tick, done, drained, run_once, round, rounds, runs_of, loop,
}

-- The ticker goes off so many times, and then the signal comes.
abbrev pub ticks_then_done : ℕ → List Event
ticks_then_done zero = done ∷ []
ticks_then_done (suc n) = tick ∷ ticks_then_done n

module _ {W : Type 0} where
  -- A run returns whatever state it starts from, with an error or without.
  abbrev pub Returns : Once W → Type 0
  Returns m = (w : W) → (r : Result (Unit {0})) × (w' : W) × (m w ≡ some (r, w'))

  abbrev pub AllReturn : List (CollectionSync W) → Type 0
  AllReturn [] = Unit
  AllReturn (r ∷ rs) = Returns r.once × AllReturn rs

  -- One run of each collection, in order, each with an error or without, from one state to another.
  pub data Ran : List (CollectionSync W) → W → W → Type 0 where
    none_left : {w : W} → Ran [] w w
    then_ran :
        {s : CollectionSync W} {rest : List (CollectionSync W)} {w w₁ w' : W}
        (r : Result (Unit {0}))
        → s.once w ≡ some (r, w₁)
        → Ran rest w₁ w'
        → Ran (s ∷ rest) w w'

  -- So many rounds of runs, one after the other.
  pub data Rounds (runs : List (CollectionSync W)) : ℕ → W → W → Type 0 where
    none_more : {w : W} → Rounds runs zero w w
    one_more :
        {n : ℕ} {w w₁ w' : W} → Ran runs w w₁ → Rounds runs n w₁ w' → Rounds runs (suc n) w w'

  round-Ran :
      (runs : List (CollectionSync W)) (w : W)
      → AllReturn runs
      → (w' : W) × (round runs w ≡ some w') × Ran runs w w'
  unfolding round run_once
  round-Ran [] w h = (w, refl, none_left)
  round-Ran (s ∷ runs) w h =
      let (r, w₁, ran) = h.0 w in
      let (w', rest, all_ran) = round-Ran runs w₁ h.1 in (w', rw (ran) rest, then_ran r ran all_ran)

  rounds-Rounds :
      (runs : List (CollectionSync W)) (n : ℕ) (w : W)
      → AllReturn runs
      → (w' : W) × (rounds runs (ticks_then_done n) w ≡ drained w') × Rounds runs (suc n) w w'
  unfolding rounds
  rounds-Rounds runs zero w h =
      let (w', ends, ran) = round-Ran runs w h in (w', rw ends refl, one_more ran none_more)
  rounds-Rounds runs (suc n) w h =
      let (w₁, ends, ran) = round-Ran runs w h in
      let (w', drains, later) = rounds-Rounds runs n w₁ h in
      (w', rw ends drains, one_more ran later)

  -- If the interval is positive and every run returns, with whatever error, then the daemon drains at the signal, after one round
  -- more than the ticker went off, and in each round products, merchants and orders had a run each, in
  -- that order, on the state that the run before left.
  pub loop-Rounds :
      (fuel : ℕ) (d : Syncd W) (n : ℕ) (w : W)
      → ltb_ℤ (pos 0) d.sync_interval ≡ true
      → Returns (once d.for_products fuel)
      → Returns (once d.for_merchants fuel)
      → Returns (once d.placed fuel)
      → (w' : W) × (loop fuel d (ticks_then_done n) w ≡ drained w')
        × Rounds
            (record { collection = products; once = once d.for_products fuel }
              ∷ record { collection = merchants; once = once d.for_merchants fuel }
              ∷ record { collection = orders; once = once d.placed fuel }
              ∷ [])
            (suc n)
            w
            w'
  unfolding loop runs_of
  loop-Rounds fuel d n w positive of_products of_merchants of_orders =
      rw positive
        (rounds-Rounds (runs_of fuel d) n w (of_products, (of_merchants, (of_orders, tt))))
