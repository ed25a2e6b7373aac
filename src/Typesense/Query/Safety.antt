-- ===== src/Typesense/Query/Safety.antt =====
-- No text that a caller supplies can change the filter around it: FilterFor of
-- internal/typesense/query.go, read back by Reading.antt.
use kinetix_search_service.Common.{
  false, ◌≡◌, refl, sym, ◌∙◌, subst, List, [], ◌∷◌, ◌++◌, append_assoc, append-nil, Text, lit, any,
  join, join_rest, ok, >>=-eq_ok, ◌>>=◌, arith, Bool-cases, inl, inr, if◌then◌else◌,
}
use kinetix_search_service.Search.Errors.{Result}
use kinetix_search_service.Search.Identifier.{is_zero_id, merchant_identifier}
use kinetix_search_service.Search.Document.{Collection}
use kinetix_search_service.Search.Query.{Query}
use kinetix_search_service.Typesense.Query.{
  quote, is_breaking, wants_principal, principal_clauses, merchant_clauses, quote_all,
  category_clauses, filter_for,
}
use kinetix_search_service.Typesense.Query.Reading.{
  Reads, IsPlain, Reads-plain, Reads-quoted, Reads-append, outline, values, outline-Reads,
  values-Reads,
}

abbrev pub empty_quotes : Text
empty_quotes = lit "``"

IsPlain-of_unbroken : (v : Text) → any is_breaking v ≡ false → IsPlain v
IsPlain-of_unbroken [] h = refl
IsPlain-of_unbroken (c ∷ v) h = ground (arith, IsPlain-of_unbroken v)

pub quote-inv :
    (v : Text) {s : Text}
    → quote v ≡ ok s
    → (any is_breaking v ≡ false) × ((96 ∷ (v ++ 96 ∷ [])) ≡ s)
unfolding quote
quote-inv v h = ground arith

Reads-quote : (v : Text) {s : Text} → quote v ≡ ok s → Reads s empty_quotes (v ∷ [])
Reads-quote v h =
    let (whole, same) = quote-inv v h in
    subst (λ (s : Text). Reads s empty_quotes (v ∷ [])) same
      (Reads-quoted v (IsPlain-of_unbroken v whole))

-- Pieces of a filter, each with its outline, and the values of all.
pub data ReadsAll : List Text → List Text → List Text → Type 0 where
  nil : ReadsAll [] [] []
  cons :
      {s o : Text} {ss os vs ws : List Text}
      → Reads s o vs
      → ReadsAll ss os ws
      → ReadsAll (s ∷ ss) (o ∷ os) (vs ++ ws)

ReadsAll-append :
    {ss os ts ps vs ws : List Text}
    → ReadsAll ss os vs
    → ReadsAll ts ps ws
    → ReadsAll (ss ++ ts) (os ++ ps) (vs ++ ws)
ReadsAll-append nil k = k
ReadsAll-append {ts = ts} {ps = ps} {ws = ws}
      (cons {s = s} {o = o} {ss = ss} {os = os} {vs = us} {ws = rest} r h) k =
    subst (ReadsAll ((s ∷ ss) ++ ts) ((o ∷ os) ++ ps)) (sym (append_assoc us rest ws))
      (cons r (ReadsAll-append h k))

Reads-join_rest :
    (sep : Text) {ss os vs : List Text}
    → IsPlain sep
    → ReadsAll ss os vs
    → Reads (join_rest sep ss) (join_rest sep os) vs
Reads-join_rest sep p nil = Reads-plain [] refl
Reads-join_rest sep p (cons {s = s} {o = o} {vs = us} {ws = ws} r h) =
    Reads-append sep _ sep _ [] (us ++ ws) (Reads-plain sep p)
      (Reads-append s _ o _ us ws r (Reads-join_rest sep p h))

Reads-join :
    (sep : Text) {ss os vs : List Text}
    → IsPlain sep
    → ReadsAll ss os vs
    → Reads (join ss sep) (join os sep) vs
Reads-join sep p nil = Reads-plain [] refl
Reads-join sep p (cons {s = s} {o = o} {vs = us} {ws = ws} r h) =
    Reads-append s _ o _ us ws r (Reads-join_rest sep p h)

ok_eq : {a b : Text} → ◌≡◌ {A = Result Text} (ok a) (ok b) → a ≡ b
ok_eq h = cc h

ReadsAll-ok :
    {a b os vs : List Text}
    → ◌≡◌ {A = Result (List Text)} (ok a) (ok b)
    → ReadsAll a os vs
    → ReadsAll b os vs
ReadsAll-ok {os = os} {vs = vs} h r = subst (λ (x : List Text). ReadsAll x os vs) (cc h) r

ReadsAll-values : {a os vs ws : List Text} → vs ≡ ws → ReadsAll a os vs → ReadsAll a os ws
ReadsAll-values {a = a} {os = os} e r = subst (ReadsAll a os) e r

-- What each part contributes to the outline.
abbrev pub principal_outline : Collection → Query → List Text
principal_outline c q =
    if wants_principal c q then lit "(buyer:=`` || merchant_id:=``)" ∷ [] else []

abbrev pub merchant_outline : Query → List Text
merchant_outline q = if is_zero_id q.merchant_id then [] else lit "merchant_id:=``" ∷ []

abbrev pub blanks : List Text → List Text
blanks [] = []
blanks (c ∷ cs) = empty_quotes ∷ blanks cs

abbrev pub category_outline : List Text → List Text
category_outline [] = []
category_outline (c ∷ cs) =
    (lit "categories:=[" ++ (join (blanks (c ∷ cs)) (lit ",") ++ lit "]")) ∷ []

-- What each part contributes to the values.
abbrev pub principal_values : Collection → Query → List Text
principal_values c q = if wants_principal c q then q.on_behalf_of.v ∷ q.on_behalf_of.v ∷ [] else []

abbrev pub merchant_values : Query → List Text
merchant_values q = if is_zero_id q.merchant_id then [] else q.merchant_id.v ∷ []

principal_part :
    (v : Text) {cs : List Text}
    → (quote v >>= λ p.
        ok ((lit "(buyer:=" ++ (p ++ (lit " || merchant_id:=" ++ (p ++ lit ")")))) ∷ []))
      ≡ ok cs
    → ReadsAll cs (lit "(buyer:=`` || merchant_id:=``)" ∷ []) (v ∷ v ∷ [])
principal_part v h =
    let (p, quoted, last) = >>=-eq_ok (quote v) _ h in
    let value = Reads-quote v quoted in
    ReadsAll-ok last (
      cons
        (Reads-append _ _ _ _ _ _ (Reads-plain (lit "(buyer:=") refl) (
          Reads-append _ _ _ _ _ _ value (
            Reads-append _ _ _ _ _ _ (Reads-plain (lit " || merchant_id:=") refl)
              (Reads-append _ _ _ _ _ _ value (Reads-plain (lit ")") refl)))))
        nil)

principal_reads :
    (c : Collection) (q : Query) {cs : List Text}
    → principal_clauses c q ≡ ok cs
    → ReadsAll cs (principal_outline c q) (principal_values c q)
unfolding principal_clauses
principal_reads c q {cs} h = elim (Bool-cases (wants_principal c q)) [
  | inl wanted ↦ rw wanted (principal_part q.on_behalf_of.v (rw (wanted, principal_clauses) at h))
  | inr unwanted ↦ rw unwanted (subst (λ (x : List Text). ReadsAll x [] []) (ground arith) nil)
]

merchant_part :
    (v : Text) {cs : List Text}
    → (quote v >>= λ m. ok ((lit "merchant_id:=" ++ m) ∷ [])) ≡ ok cs
    → ReadsAll cs (lit "merchant_id:=``" ∷ []) (v ∷ [])
merchant_part v h =
    let (m, quoted, last) = >>=-eq_ok (quote v) _ h in
    ReadsAll-ok last (
      cons
        (Reads-append _ _ _ _ _ _ (Reads-plain (lit "merchant_id:=") refl) (Reads-quote v quoted))
        nil)

pub merchant_reads :
    (q : Query) {cs : List Text}
    → merchant_clauses q ≡ ok cs
    → ReadsAll cs (merchant_outline q) (merchant_values q)
unfolding merchant_clauses
merchant_reads q {cs} h = elim (Bool-cases (is_zero_id q.merchant_id)) [
  | inl zero_id ↦ rw zero_id (subst (λ (x : List Text). ReadsAll x [] []) (ground arith) nil)
  | inr set ↦ rw set (merchant_part q.merchant_id.v (rw (set, merchant_clauses) at h))
]

quote_all_reads :
    (cs : List Text) {qs : List Text} → quote_all cs ≡ ok qs → ReadsAll qs (blanks cs) cs
unfolding quote_all
quote_all_reads [] h = ReadsAll-ok h nil
quote_all_reads (c ∷ cs) h =
    let (value, quoted, h') = >>=-eq_ok (quote c) _ h in
    let (rest, others, last) = >>=-eq_ok (quote_all cs) _ h' in
    ReadsAll-ok last (cons (Reads-quote c quoted) (quote_all_reads cs others))

pub category_reads :
    (cs : List Text) {ss : List Text}
    → category_clauses cs ≡ ok ss
    → ReadsAll ss (category_outline cs) cs
unfolding category_clauses
category_reads [] h = ReadsAll-ok h nil
category_reads (c ∷ cs) h =
    let (quoted, all_quoted, last) = >>=-eq_ok (quote_all (c ∷ cs)) _ h in
    let listed = Reads-join (lit ",") refl (quote_all_reads (c ∷ cs) all_quoted) in
    ReadsAll-ok last (
      ReadsAll-values (append-nil ((c ∷ cs) ++ []) ∙ append-nil (c ∷ cs)) (
        cons
          (Reads-append _ _ _ _ _ _ (Reads-plain (lit "categories:=[") refl)
            (Reads-append _ _ _ _ _ _ listed (Reads-plain (lit "]") refl)))
          nil))

-- The outline of a query's filter, and its values.
abbrev pub query_outline : Collection → Query → Text
query_outline c q =
    join (principal_outline c q ++ (merchant_outline q ++ category_outline q.categories))
      (lit " && ")

abbrev pub query_values : Collection → Query → List Text
query_values c q = principal_values c q ++ (merchant_values q ++ q.categories)

-- A filter that was made reads back as what it was made for: outside of backticks stand the clauses
-- of the query and nothing else, and the values between backticks are, in order, the principal
-- twice (for orders sought on behalf of one), the merchant, if there is one, and every category.
pub filter_for-reads :
    (c : Collection) (q : Query) {f : Text}
    → filter_for c q ≡ ok f
    → (outline f ≡ query_outline c q) × (values f ≡ query_values c q)
unfolding filter_for
filter_for-reads c q h =
    let (first, principal, h₁) = >>=-eq_ok (principal_clauses c q) _ h in
    let (second, merchant, h₂) = >>=-eq_ok (merchant_clauses q) _ h₁ in
    let (third, cats, last) = >>=-eq_ok (category_clauses q.categories) _ h₂ in
    let read =
      subst (λ (x : Text). Reads x (query_outline c q) (query_values c q)) (ok_eq last)
        (Reads-join (lit " && ") refl (
          ReadsAll-append (principal_reads c q principal)
            (ReadsAll-append (merchant_reads q merchant) (category_reads q.categories cats)))) in
    (outline-Reads _ _ _ read, values-Reads _ _ _ read)
