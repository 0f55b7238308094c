-- ===== src/Jaxrs/Paths/Parameters.antt =====
-- Where the placeholders of a template stand.
use xenon_ext.Prelude.{
  ℕ, suc, ◌≡◌, refl, ap, ◌∙◌, Bool, true, false, Option, none, some, List, [], ◌∷◌, String, str_eq,
  if◌then◌else◌,
}
use xenon_ext.HashMap.{HashMap, get, get-put}
use xenon_ext.Jaxrs.Paths.{
  placeholder, put_named, path_params_from, parse_path_params, has_braces, split,
}

abbrev pub is_placeholder_of : String → Option String → Bool
is_placeholder_of name none = false
is_placeholder_of name (some other) = str_eq other name

-- The last index, counted from the first argument on, of a piece that is the placeholder of the
-- name, or else a default.
abbrev pub last_placeholder : ℕ → String → List String → Option ℕ → Option ℕ
last_placeholder i name [] found = found
last_placeholder i name (token ∷ tokens) found =
    last_placeholder (suc i) name tokens
      (if is_placeholder_of name (placeholder token) then some i else found)

get-put_named :
    (o : Option String) (i : ℕ) (params : HashMap ℕ) (name : String)
    → get name (put_named o i params)
      ≡ (if is_placeholder_of name o then some i else get name params)
unfolding put_named
get-put_named none i params name = refl
get-put_named (some other) i params name = get-put other name i params

get-path_params_from :
    (i : ℕ) (tokens : List String) (params : HashMap ℕ) (name : String)
    → get name (path_params_from i tokens params) ≡ last_placeholder i name tokens (get name params)
unfolding path_params_from put_named
get-path_params_from i [] params name = refl
get-path_params_from i (token ∷ tokens) params name =
    get-path_params_from (suc i) tokens (put_named (placeholder token) i params) name
    ∙ ap (last_placeholder (suc i) name tokens) (get-put_named (placeholder token) i params name)

-- The index of a path parameter.
pub get-parse_path_params :
    (uri name : String)
    → has_braces uri ≡ true
    → get name (parse_path_params (some uri)) ≡ last_placeholder 0 name (split uri) none
unfolding get parse_path_params
get-parse_path_params uri name braces = rw braces (get-path_params_from 0 (split uri) [] name)
