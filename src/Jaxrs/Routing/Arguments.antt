-- ===== src/Jaxrs/Routing/Arguments.antt =====
-- Which piece of the path of a request a path parameter receives.
use xenon_ext.Prelude.{
  ℕ, zero, suc, ◌+◌, ◌≤◌, ◌≡◌, refl, sym, ap, ◌∙◌, true, Option, none, some, List, [], ◌∷◌, ◌++◌,
  String, arith, length, length-append, get_elem?,
}
use xenon_ext.HashMap.{get}
use xenon_ext.Jaxrs.Paths.{split, has_braces, parse_path_params}
use xenon_ext.Jaxrs.Paths.Parameters.{last_placeholder, get-parse_path_params}
use xenon_ext.Jaxrs.Metadata.{MethodInfo}
use xenon_ext.Jaxrs.Routing.{shifted, own_pieces, value_at, path_argument}

pub get_elem?-append :
    {A : Type 0} (xs ys : List A) (i j : ℕ)
    → j ≡ length xs + i
    → get_elem? (xs ++ ys) j ≡ get_elem? ys i
get_elem?-append [] ys i j e = ap (get_elem? ys) (omega arith)
get_elem?-append (x ∷ xs) ys i zero e = ground arith
get_elem?-append (x ∷ xs) ys i (suc j) e = get_elem?-append xs ys i j (ground arith)

index_of :
    (info : MethodInfo) (uri name : String)
    → info.uri_path ≡ some uri
    → info.path_params_vs_uri_index ≡ parse_path_params info.uri_path
    → has_braces uri ≡ true
    → get name info.path_params_vs_uri_index ≡ last_placeholder 0 name (split uri) none
index_of info uri name own params braces =
    ap (get name) (params ∙ ap parse_path_params own) ∙ get-parse_path_params uri name braces

shifted-some : (k s l o : ℕ) → shifted (some (l + k)) (s + o) (l + o) ≡ some (s + k)
unfolding shifted
shifted-some k s l o = ground arith

shifted-none : (n l o : ℕ) → shifted none (suc n + l + o) (l + o) ≡ some n
unfolding shifted
shifted-none n l o = ground arith

-- The pieces of two paths that end alike: the one a method is registered with, after the pieces of
-- its service, and the method's own, after the empty piece before its first slash, if it has one.
pub record EndsAlike (full_path uri : String) (service lead own : List String) : Type 0 where
  pub full_pieces : split full_path ≡ service ++ own
  pub uri_pieces : split uri ≡ lead ++ own

shifted_at :
    (info : MethodInfo) (uri full_path : String) (service lead own : List String) (index : Option ℕ)
    (name : String) (i : ℕ)
    → info.uri_path ≡ some uri
    → EndsAlike full_path uri service lead own
    → get name info.path_params_vs_uri_index ≡ index
    → shifted index (length service + length own) (length lead + length own) ≡ some i
    → (tokens : List String) → path_argument info full_path tokens name ≡ get_elem? tokens i
unfolding path_argument own_pieces value_at
shifted_at info uri full_path service lead own index name i uri_is alike at shift tokens =
    let all : length (split full_path) ≡ length service + length own =
      ap length alike.full_pieces ∙ length-append service own in
    let mine : length (split uri) ≡ length lead + length own =
      ap length alike.uri_pieces ∙ length-append lead own in
    let whole : shifted (get name info.path_params_vs_uri_index) (length (split full_path))
          (own_pieces info.uri_path)
        ≡ some i =
      rw (at, all, uri_is, mine) shift in
    ap (value_at tokens) whole

-- If the path that a method is registered with and the method's own path end alike, then a path
-- parameter receives the piece of the operation's path that stands where the registered path has
-- the last placeholder of its name.
pub path_argument-named :
    (info : MethodInfo) (uri full_path name : String) (service lead own : List String) (k : ℕ)
    (tokens : List String)
    → info.uri_path ≡ some uri
    → info.path_params_vs_uri_index ≡ parse_path_params info.uri_path
    → has_braces uri ≡ true
    → EndsAlike full_path uri service lead own
    → last_placeholder 0 name (split uri) none ≡ some (length lead + k)
    → (path_argument info full_path tokens name ≡ get_elem? tokens (length service + k))
      × (get_elem? (split full_path) (length service + k) ≡ get_elem? (split uri) (length lead + k))
path_argument-named info uri full_path name service lead own k tokens uri_is params braces alike
      at =
    (
      shifted_at info uri full_path service lead own (some (length lead + k)) name
          (length service + k) uri_is alike (index_of info uri name uri_is params braces ∙ at)
          (shifted-some k (length service) (length lead) (length own)) tokens,
      ap (λ l. get_elem? l (length service + k)) alike.full_pieces
          ∙ get_elem?-append service own k (length service + k) refl
          ∙ sym (get_elem?-append lead own k (length lead + k) refl)
          ∙ sym (ap (λ l. get_elem? l (length lead + k)) alike.uri_pieces),
    )

get_elem?-some :
    {A : Type 0} (xs : List A) (i : ℕ) → suc i ≤ length xs → (x : A) × (get_elem? xs i ≡ some x)
get_elem?-some [] i h = ground arith
get_elem?-some (x ∷ xs) zero h = (x, refl)
get_elem?-some (x ∷ xs) (suc i) h = get_elem?-some xs i (omega arith)

-- If in addition the service has n + 1 pieces more than the method has before the common end, and
-- the operation's path has more than n pieces, then a path parameter whose name is no placeholder
-- of the method's path receives the piece of the operation's path with index n, and not null.
pub path_argument-unnamed :
    (info : MethodInfo) (uri full_path name : String) (service lead own : List String) (n : ℕ)
    (tokens : List String)
    → info.uri_path ≡ some uri
    → info.path_params_vs_uri_index ≡ parse_path_params info.uri_path
    → has_braces uri ≡ true
    → EndsAlike full_path uri service lead own
    → length service ≡ suc n + length lead
    → last_placeholder 0 name (split uri) none ≡ none
    → suc n ≤ length tokens
    → (piece : String) × (get_elem? tokens n ≡ some piece)
      × (path_argument info full_path tokens name ≡ some piece)
path_argument-unnamed info uri full_path name service lead own n tokens uri_is params braces alike
      longer at enough =
    let (piece, there) = get_elem?-some tokens n enough in
    (
      piece,
      there,
      shifted_at info uri full_path service lead own none name n uri_is alike
            (index_of info uri name uri_is params braces ∙ at)
            (rw longer (shifted-none n (length lead) (length own))) tokens
          ∙ there,
    )
