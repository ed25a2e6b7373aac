-- ===== src/Mesh.antt =====
-- internal/mesh/spiffe.go: the service that a certificate names. A certificate is the list of its
-- URIs, each as `String` prints it; the environment variable is an argument.
pub mod Credentials
pub mod Laws
use kinetix_search_service.Common.{
  ◌==◌, ◌||◌, Bool, true, false, not, ◌&&◌, List, [], ◌∷◌, ◌++◌, ℕ, Text, lit, is_empty, trim_space,
  has_prefix, without, contains, split, if◌then◌else◌,
}

abbrev pub slash : ℕ
slash = 47

abbrev pub comma : ℕ
comma = 44

-- The loop over the parts of a list in a variable.
unfoldable pub filled : List Text → List Text
filled [] = []
filled (value ∷ values) =
    let rest = filled values in
    let trimmed = trim_space value in if is_empty trimmed then rest else trimmed ∷ rest

abbrev pub or_default : List Text → List Text
or_default [] = lit "kinetix.local" ∷ []
or_default (d ∷ ds) = d ∷ ds

unfoldable pub trust_domains : Text → List Text
unfolding filled
trust_domains variable = or_default (filled (split comma variable))

abbrev pub prefix_of : Text → Text
prefix_of domain = lit "spiffe://" ++ (domain ++ lit "/service/")

abbrev pub whole_name : Text → Text
whole_name name = if is_empty name || contains slash name then [] else name

-- `ServiceOf` past its first line.
abbrev pub name_after : Text → Text → Text
name_after prefix id = if not (has_prefix id prefix) then [] else whole_name (without id prefix)

unfoldable pub service_of : Text → Text → Text
service_of id domain = name_after (prefix_of domain) id

unfoldable pub service_in : Text → List Text → Text
unfolding service_of
service_in id [] = []
service_in id (domain ∷ domains) =
    let rest = service_in id domains in
    let name = service_of id domain in if is_empty name then rest else name

unfoldable pub service_among : List Text → List Text → Text
unfolding service_in
service_among [] domains = []
service_among (uri ∷ uris) domains =
    let rest = service_among uris domains in
    let name = service_in uri domains in if is_empty name then rest else name

-- Only the first certificate of the chain is asked.
unfoldable pub peer_service : List (List Text) → List Text → Text
unfolding service_among
peer_service [] domains = []
peer_service (uris ∷ certificates) domains = service_among uris domains
