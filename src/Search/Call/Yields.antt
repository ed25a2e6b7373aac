-- ===== src/Search/Call/Yields.antt =====
-- What a call answers where the world is known by a view of it alone, one rule for each way to
-- build one.
use kinetix_search_service.Common.{ok, ◌≡◌, refl, ap, ◌∙◌}
use kinetix_search_service.Search.Errors.{GoError}
use kinetix_search_service.Search.Call.{Call, pure, continue, ◌>>=◌, settled, handling}

module _ {W V : Type 0} (view : W → V) where
  -- In a world that is seen as `s` the call answers with `a`, and leaves one that is seen as `t`.
  pub record Yields {A : Type 0} (s : V) (m : Call W A) (a : A) (t : V) : Type 0 where
    pub at : (w : W) → view w ≡ s → (w' : W) × (m w ≡ (ok a, w')) × (view w' ≡ t)

  pub Yields-pure : {A : Type 0} (s : V) (a : A) → Yields s (pure a) a s
  Yields-pure s a = record { at = λ w seen. (w, refl, seen) }

  pub Yields->>= :
      {A B : Type 0} (m : Call W A) (f : A → Call W B) {s t u : V} {a : A} {b : B}
      → Yields s m a t
      → Yields t (f a) b u
      → Yields s (m >>= f) b u
  Yields->>= m f first second = record {
    at = λ w seen.
        let (w₁, answer, seen₁) = first.at w seen in
        let (w₂, answer₂, seen₂) = second.at w₁ seen₁ in
        (w₂, ap (λ p. continue p.0 f p.1) answer ∙ answer₂, seen₂);
  }

  pub Yields-handling :
      {A : Type 0} (handle : GoError → GoError) {s t : V} {m : Call W A} {a : A}
      → Yields s m a t
      → Yields s (handling handle m) a t
  Yields-handling handle h = record {
    at = λ w seen.
        let (w₁, answer, seen₁) = h.at w seen in
        (w₁, ap (λ p. (settled handle p.0, p.1)) answer, seen₁);
  }
