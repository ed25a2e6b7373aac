-- ===== src/Typesense/Query/Clauses.antt =====
-- The clauses of a filter of internal/typesense/query.go past the first are single conditions: outside
-- of backticks they have no connective and no parenthesis.
use kinetix_search_service.Common.{
  ℕ, ◌==◌, ◌||◌, Bool, false, ◌≡◌, refl, List, [], ◌∷◌, ◌++◌, Text, lit, any, any-append, join_rest,
  ok, All, All-append, Bool-cases, inl, inr, arith,
}
use kinetix_search_service.Search.Identifier.{is_zero_id, merchant_identifier}
use kinetix_search_service.Search.Query.{Query}
use kinetix_search_service.Typesense.Query.{merchant_clauses, category_clauses}
use kinetix_search_service.Typesense.Query.Reading.{Reads}
use kinetix_search_service.Typesense.Query.Safety.{
  ReadsAll, nil, cons, merchant_outline, category_outline, blanks, merchant_reads, category_reads,
}

-- `&`, `|` and the parentheses.
abbrev pub connects : ℕ → Bool
connects c = c == 38 || c == 124 || c == 40 || c == 41

-- A condition that ends outside of backticks, whatever its values are.
pub record IsSingle (clause : Text) : Type 0 where
  pub outlined : Text
  pub values : List Text
  pub reads : Reads clause outlined values
  pub single : any connects outlined ≡ false

abbrev IsBare : Text → Type 0
IsBare o = any connects o ≡ false

all-IsSingle : {ss os vs : List Text} → ReadsAll ss os vs → All IsBare os → All IsSingle ss
all-IsSingle nil bare = tt
all-IsSingle (cons {o = o} {vs = vs} r rest) bare =
    (record { outlined = o; values = vs; reads = r; single = bare.0 }, all-IsSingle rest bare.1)

merchant-IsBare : (q : Query) → All IsBare (merchant_outline q)
merchant-IsBare q = elim (Bool-cases (is_zero_id q.merchant_id)) [
  | inl zero_id ↦ rw zero_id tt
  | inr set ↦ rw set (refl, tt)
]

blanks-IsBare : (cs : List Text) → IsBare (join_rest (lit ",") (blanks cs))
blanks-IsBare [] = refl
blanks-IsBare (c ∷ cs) = blanks-IsBare cs

category-IsBare : (cs : List Text) → All IsBare (category_outline cs)
category-IsBare [] = tt
category-IsBare (c ∷ cs) =
    let inner = join_rest (lit ",") (blanks cs) in
    let closed : IsBare (inner ++ lit "]") =
      ground (arith, any-append connects inner (lit "]"), blanks-IsBare cs) in
    (closed, tt)

pub others-IsSingle :
    (q : Query) {second third : List Text}
    → merchant_clauses q ≡ ok second
    → category_clauses q.categories ≡ ok third
    → All IsSingle (second ++ third)
others-IsSingle q {second} {third} merchant cats =
    All-append IsSingle second third (all-IsSingle (merchant_reads q merchant) (merchant-IsBare q))
      (all-IsSingle (category_reads q.categories cats) (category-IsBare q.categories))
