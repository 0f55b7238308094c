-- ===== src/Jaxrs/Paths.antt =====
-- Paths as the code splits them, and the templates of RequestRouterBuilder.java and
-- MethodInfoBuilder.java.
pub mod Matching
pub mod Parameters
use Prim.Native.Char.{Char, code}
use Prim.Native.String as Text
use mathlib.Core.Option
use xenon_ext.Prelude.{
  ℕ, zero, suc, Bool, true, false, ◌&&◌, ◌||◌, Option, none, some, List, [], ◌∷◌, ◌++◌, String,
  str_eq, if◌then◌else◌, ◌==◌, length,
}
use xenon_ext.HashMap.{HashMap, put}

abbrev slash : ℕ
slash = 47

abbrev open_brace : ℕ
open_brace = 123

abbrev close_brace : ℕ
close_brace = 125

-- A character before the first of some pieces.
unfoldable pub onto_first : Char → List String → List String
onto_first c [] = Text.◌∷◌ c "" ∷ []
onto_first c (piece ∷ pieces) = Text.◌∷◌ c piece ∷ pieces

-- The pieces between the slashes, the empty ones included.
unfoldable pub pieces : String → List String
unfolding onto_first
pieces Text.[] = "" ∷ []
pieces (Text.◌∷◌ c s) =
    let rest = pieces s in if code c == slash then "" ∷ rest else onto_first c rest

unfoldable pub is_blank : String → Bool
is_blank Text.[] = true
is_blank (Text.◌∷◌ c s) = false

unfoldable pub onto_kept : String → List String → List String
unfolding is_blank
onto_kept piece [] = if is_blank piece then [] else piece ∷ []
onto_kept piece (next ∷ kept) = piece ∷ next ∷ kept

unfoldable pub without_trailing : List String → List String
unfolding onto_kept
without_trailing [] = []
without_trailing (piece ∷ pieces) = onto_kept piece (without_trailing pieces)

-- `s.split("/")`: a text without a slash is its one piece, and trailing empty pieces are dropped.
unfoldable pub split : String → List String
unfolding pieces without_trailing
split Text.[] = "" ∷ []
split (Text.◌∷◌ c s) = without_trailing (pieces (Text.◌∷◌ c s))

unfoldable pub contains_char : ℕ → String → Bool
contains_char n Text.[] = false
contains_char n (Text.◌∷◌ c s) = code c == n || contains_char n s

unfoldable pub has_braces : String → Bool
unfolding contains_char
has_braces s = contains_char open_brace s && contains_char close_brace s

-- What stands before a closing brace at the end.
unfoldable pub before_brace : String → Option String
before_brace Text.[] = none
before_brace (Text.◌∷◌ c Text.[]) = if code c == close_brace then some "" else none
before_brace (Text.◌∷◌ c (Text.◌∷◌ d s)) = Option.map (Text.◌∷◌ c) (before_brace (Text.◌∷◌ d s))

-- The name of a piece that stands in braces.
unfoldable pub placeholder : String → Option String
unfolding before_brace
placeholder Text.[] = none
placeholder (Text.◌∷◌ c s) = if code c == open_brace then before_brace s else none

unfoldable pub is_placeholder : String → Bool
unfolding placeholder
is_placeholder token = elim (placeholder token) [ none ↦ false | some name ↦ true ]

-- The loop of `test` over two arrays of the same length.
unfoldable pub tokens_match : List String → List String → Bool
unfolding is_placeholder
tokens_match (e ∷ expected) (a ∷ actual) =
    let rest = tokens_match expected actual in
    if str_eq e a then rest else if is_placeholder e then rest else false
tokens_match _ _ = true

-- `DynamicPathParamMatcher.test` on the path of the operation.
unfoldable pub dynamic_match : List String → String → Bool
unfolding split tokens_match
dynamic_match expected path =
    let actual = split path in
    if length actual == length expected then tokens_match expected actual else false

-- `normalize` is `UriUtils.normalizeUriPath`.
unfoldable pub new_uri_matcher : (String → String) → String → String → Bool
unfolding has_braces dynamic_match
new_uri_matcher normalize path_with_params path =
    if has_braces path_with_params
    then dynamic_match (split path_with_params) path
    else str_eq (normalize path) path_with_params

-- The body of the loop of `parsePathParams`.
unfoldable pub put_named : Option String → ℕ → HashMap ℕ → HashMap ℕ
put_named none i params = params
put_named (some name) i params = put name i params

-- The loop of `parsePathParams` from an index on.
unfoldable pub path_params_from : ℕ → List String → HashMap ℕ → HashMap ℕ
unfolding placeholder put_named
path_params_from i [] params = params
path_params_from i (token ∷ tokens) params =
    path_params_from (suc i) tokens (put_named (placeholder token) i params)

unfoldable pub parse_path_params : Option String → HashMap ℕ
unfolding has_braces path_params_from split
parse_path_params none = []
parse_path_params (some uri) = if has_braces uri then path_params_from 0 (split uri) [] else []
