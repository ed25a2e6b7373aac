-- ===== src/Search/Errors/Laws.antt =====
-- What `Errf` and `KindOf` of internal/search/errors.go have to do with each other.
use kinetix_search_service.Common.{◌≡◌, refl, Option, none, some, List, [], ◌∷◌, Text}
use kinetix_search_service.Search.Errors.{Kind, Arg, GoError, errf, kind_of, http_status, error_is}

pub kind_of-errf :
    (kind : Kind) (op : Text) (cause : Option GoError) (format : Text) (args : List Arg)
    → kind_of (errf kind op cause format args) ≡ kind
unfolding kind_of errf
kind_of-errf kind op none [] args = refl
kind_of-errf kind op none (c ∷ f) args = refl
kind_of-errf kind op (some e) [] args = refl
kind_of-errf kind op (some e) (c ∷ f) args = refl

-- A cause stays in reach of the walk, whatever kind it is tagged with.
pub http_status-errf :
    (kind : Kind) (op : Text) (cause : GoError) (format : Text) (args : List Arg)
    → http_status (errf kind op (some cause) format args) ≡ http_status cause
unfolding http_status errf
http_status-errf kind op cause [] args = refl
http_status-errf kind op cause (c ∷ f) args = refl

pub error_is-errf :
    (target : Text) (kind : Kind) (op : Text) (cause : GoError) (format : Text) (args : List Arg)
    → error_is target (errf kind op (some cause) format args) ≡ error_is target cause
unfolding error_is errf
error_is-errf target kind op cause [] args = refl
error_is-errf target kind op cause (c ∷ f) args = refl
