-- ===== src/Querying/Laws.antt =====
-- What a result of internal/querying/finder.go says of its own age.
use kinetix_search_service.Common.{
  ◌≤ℤ◌, true, false, ◌≡◌, refl, ap, ok, arith, Bool-cases, ok-injective, ◌&&◌, inl, inr,
  if◌then◌else◌, subst,
}
use kinetix_search_service.Search.Errors.{Result, GoError}
use kinetix_search_service.Search.Time.{Time, Duration, is_zero_time, time_sub}
use kinetix_search_service.Search.Call.Rules.{Holds, >>=-inv}
use kinetix_search_service.Search.Identifier.{is_zero_id, merchant_identifier}
use kinetix_search_service.Search.Document.{Progress, Freshness, Results}
use kinetix_search_service.Search.Query.{Query}
use kinetix_search_service.Querying.{Finder, aged, freshness, found, find, is_orders}

-- What `freshness` reports of a progress and a reading of the clock: that nothing was ever saved, or
-- how long before the reading it was saved, and whether that is longer than allowed.
pub record IsFaithful (stale_after : Duration) (p : Progress) (now : Time) (fr : Freshness)
    : Type 0 where
  pub synced_iff : fr.synced ≡ (if is_zero_time p.saved_at then false else true)
  pub never : fr.synced ≡ false → fr.stale ≡ true
  pub through : fr.synced ≡ true → fr.indexed_through ≡ p.cursor.updated_through
  pub age : fr.synced ≡ true → fr.age ≡ time_sub now p.saved_at
  pub within : fr.stale ≡ false → fr.age ≤ℤ stale_after
  pub beyond : fr.synced ≡ true → fr.stale ≡ true → ¬ (fr.age ≤ℤ stale_after)

module _ {F W D : Type 0} (f : Finder F W D) where
  aged-IsFaithful :
      (p : Progress) (now : Time)
      → is_zero_time p.saved_at ≡ false
      → IsFaithful f.stale_after p now (aged p f.stale_after (time_sub now p.saved_at))
  aged-IsFaithful p now saved = record {
    synced_iff = rw saved;
    never = λ h. ground arith;
    through = λ h. refl;
    age = λ h. refl;
    within = λ h. ground arith;
    beyond = λ h k. ground arith;
  }

  freshness-IsFaithful :
      (p : Progress) (w : W)
      → Holds
          (λ fr _. IsFaithful f.stale_after p (f.clock.now w).0 fr)
          (λ _. Unit)
          (freshness f p w).0
          (freshness f p w).1
  unfolding freshness
  freshness-IsFaithful p w = elim (Bool-cases (is_zero_time p.saved_at)) [
    | inl unsaved ↦ rw unsaved (record {
      synced_iff = rw unsaved;
      never = λ h. refl;
      through = λ h. absurd (ground arith);
      age = λ h. absurd (ground arith);
      within = λ h. absurd (ground arith);
      beyond = λ h k. ground arith;
    })
    | inr saved ↦ rw saved (aged-IsFaithful p _ saved)
  ]

  -- Where a result comes from.
  pub record IsFoundBy (q : Query) (w : W) (r : Results F D) : Type 0 where
    pub answer : Results F D
    pub world : W
    pub searched : f.searcher.search_docs q w ≡ (ok answer, world)
    pub progress : Progress
    pub later : W
    pub loaded : f.checkpoint.load f.collection world ≡ (ok progress, later)
    pub faithful : IsFaithful f.stale_after progress (f.clock.now later).0 r.freshness
    pub kept : record answer { freshness = r.freshness } ≡ r

  freshness_of :
      (p : Progress) (w : W) {fr : Freshness} {w' : W}
      → freshness f p w ≡ (ok fr, w')
      → IsFaithful f.stale_after p (f.clock.now w).0 fr
  freshness_of p w h =
      subst
        (λ (a : Result Freshness × W).
          Holds (λ fr _. IsFaithful f.stale_after p (f.clock.now w).0 fr) (λ _. Unit) a.0 a.1)
        h (freshness-IsFaithful p w)

  found-IsFoundBy :
      (q : Query) (w : W) {r : Results F D} {w' : W} → found f q w ≡ (ok r, w') → IsFoundBy q w r
  unfolding found
  found-IsFoundBy q w h =
      let (answer, w₁, searched, h₁) = >>=-inv (f.searcher.search_docs q) _ w h in
      let (progress, w₂, loaded, h₂) = >>=-inv (f.checkpoint.load f.collection) _ w₁ h₁ in
      let (fresh, w₃, timed, last) = >>=-inv (freshness f progress) _ w₂ h₂ in
      subst (IsFoundBy q w)
        (ok-injective {E = GoError} (ap (λ (a : Result (Results F D) × W). a.0) last))
        (record {
          answer = answer;
          world = w₁;
          searched = searched;
          progress = progress;
          later = w₂;
          loaded = loaded;
          faithful = freshness_of progress w₂ timed;
          kept = refl;
        })

  -- A search that answers has the hits, the total and the facets of the engine's answer, and a
  -- freshness that is true of the progress which the checkpoint then held: not synced and stale if
  -- nothing was ever saved; otherwise synced, through the instant of the saved cursor, of the age from
  -- the time of the save to the reading of the clock after it was loaded, and stale exactly if that is
  -- more than is allowed.
  pub find-IsFoundBy :
      (q : Query) (w : W) {r : Results F D} {w' : W} → find f q w ≡ (ok r, w') → IsFoundBy q w r
  unfolding find
  find-IsFoundBy q w h = elim (Bool-cases (is_orders f.collection && is_zero_id q.on_behalf_of)) [
    | inl refused ↦ absurd (ground arith)
    | inr allowed ↦ found-IsFoundBy q w (rw (allowed, find) at h)
  ]
