-- ===== src/Jaxrs/Client/Gathering.antt =====
-- The headers, the cookies and the query that buildOperation of ProxyHandler.java gathers.
use xenon_ext.Prelude.{
  ◌≡◌, refl, sym, ap, ◌∙◌, subst, Bool, true, false, ◌&&◌, Option, none, some, List, [], ◌∷◌, ◌++◌,
  String, str_eq, arith, if◌then◌else◌, get_elem?,
}
use xenon_ext.HashMap.{HashMap, get, put, get-put}
use xenon_ext.Effect.{Attempt, value, raise}
use xenon_ext.Jaxrs.Metadata.{
  ParamType, path, query, body, operation, header, cookie, ParamMetadata, and_then,
}
use xenon_ext.Jaxrs.Metadata.Methods.{and_then-value}
use xenon_ext.Jaxrs.Routing.{name_of}
use xenon_ext.Jaxrs.Client.{Gathered, replace_path, add_argument, add_parameter, gather}

abbrev pub is_header : ParamType → Bool
is_header header = true
is_header _ = false

abbrev pub is_cookie : ParamType → Bool
is_cookie cookie = true
is_cookie _ = false

abbrev pub is_query : ParamType → Bool
is_query query = true
is_query _ = false

-- A map after the pairs of a query have been put into it.
abbrev pub put_pairs : List (String × String) → HashMap String → HashMap String
put_pairs [] m = m
put_pairs ((name, v) ∷ rest) m = put_pairs rest (put name v m)

put_pairs-append :
    (l : List (String × String)) (name v : String) (m : HashMap String)
    → put_pairs (l ++ (name, v) ∷ []) m ≡ put name v (put_pairs l m)
put_pairs-append [] name v m = refl
put_pairs-append ((k, w) ∷ l) name v m = put_pairs-append l name v (put k w m)

abbrev or_found : Option String → Option String → Option String
or_found none found = found
or_found (some t) found = some t

if_same : {A : Type 0} (b : Bool) (a : A) → (if b then a else a) ≡ a
if_same true a = refl
if_same false a = refl

module _ {V : Type 0} (text_of : V → String) where
  abbrev pub text_at : Option (Option V) → Option String
  text_at (some (some arg)) = some (text_of arg)
  text_at _ = none

  -- The text of the last argument that is not null and whose parameter is of the kind and has the
  -- name, or else a default.
  abbrev pub last_argument :
      (ParamType → Bool)
      → String
      → List (Option V)
      → List ParamMetadata
      → Option String
      → Option String
  last_argument kind name args [] found = found
  last_argument kind name args (p ∷ ps) found = last_argument kind name args ps (
      if kind p.type_ && str_eq (name_of p) name
      then or_found (text_at (get_elem? args p.parameter_index)) found
      else found)

  and_then-field :
      {A C : Type 0} (f : A → Gathered V) (field : Gathered V → C) (c : C) (r : Attempt A)
      (g : Gathered V)
      → ((a : A) → field (f a) ≡ c)
      → and_then (λ a. value (f a)) r ≡ value g
      → field g ≡ c
  and_then-field f field c (value a) g same h =
      let made : f a ≡ g = ground arith in subst (λ x. field x ≡ c) made (same a)
  and_then-field f field c (raise e) g same h = ground arith

  -- How a field changes with a parameter, if it is changed by one kind of parameters only.
  abbrev Tracks : (ParamType → Bool) → (Gathered V → HashMap String) → Type 0
  Tracks kind field =
      (type_ : ParamType) (name : String) (arg : V) (g after : Gathered V) (key : String)
      → add_argument text_of type_ name arg g ≡ value after
      → get key (field after)
        ≡ (if kind type_ && str_eq name key then some (text_of arg) else get key (field g))

  pub headers-Tracks : Tracks is_header (λ g. g.headers)
  unfolding add_argument
  headers-Tracks path name arg g after key h =
      and_then-field (λ u. record g { method_uri = u }) (λ x. get key (x.headers))
        (get key (g.headers)) (replace_path name (text_of arg) g.method_uri) after (λ a. refl) h
  headers-Tracks query name arg g after key h = ground arith
  headers-Tracks body name arg g after key h = ground arith
  headers-Tracks header name arg g after key h =
      ground (arith, get-put name key (text_of arg) g.headers)
  headers-Tracks cookie name arg g after key h = ground arith
  headers-Tracks operation name arg g after key h = ground arith

  pub cookies-Tracks : Tracks is_cookie (λ g. g.cookies)
  unfolding add_argument
  cookies-Tracks path name arg g after key h =
      and_then-field (λ u. record g { method_uri = u }) (λ x. get key (x.cookies))
        (get key (g.cookies)) (replace_path name (text_of arg) g.method_uri) after (λ a. refl) h
  cookies-Tracks query name arg g after key h = ground arith
  cookies-Tracks body name arg g after key h = ground arith
  cookies-Tracks header name arg g after key h = ground arith
  cookies-Tracks cookie name arg g after key h =
      ground (arith, get-put name key (text_of arg) g.cookies)
  cookies-Tracks operation name arg g after key h = ground arith

  pub query-Tracks : Tracks is_query (λ g. put_pairs g.query_uri [])
  unfolding add_argument
  query-Tracks path name arg g after key h =
      and_then-field (λ u. record g { method_uri = u }) (λ x. get key (put_pairs x.query_uri []))
        (get key (put_pairs g.query_uri [])) (replace_path name (text_of arg) g.method_uri) after
        (λ a. refl) h
  query-Tracks query name arg g after key h = ground (
    arith,
    put_pairs-append g.query_uri name (text_of arg) [],
    get-put name key (text_of arg) (put_pairs g.query_uri []),
  )
  query-Tracks body name arg g after key h = ground arith
  query-Tracks header name arg g after key h = ground arith
  query-Tracks cookie name arg g after key h = ground arith
  query-Tracks operation name arg g after key h = ground arith

  add_parameter-field :
      (kind : ParamType → Bool) (field : Gathered V → HashMap String)
      → Tracks kind field
      → (p : ParamMetadata) (o : Option (Option V)) (g after : Gathered V) (key : String)
      → add_parameter text_of p o g ≡ value after
      → get key (field after) ≡ (
          if kind p.type_ && str_eq (name_of p) key
          then or_found (text_at o) (get key (field g))
          else get key (field g))
  unfolding add_parameter
  add_parameter-field kind field tracks p none g after key h = ground arith
  add_parameter-field kind field tracks p (some none) g after key h =
      let same : g ≡ after = ground arith in
      ap (λ x. get key (field x)) (sym same)
      ∙ sym (if_same (kind p.type_ && str_eq (name_of p) key) (get key (field g)))
  add_parameter-field kind field tracks p (some (some arg)) g after key h =
      tracks p.type_ (name_of p) arg g after key h

  pub gather-field :
      (kind : ParamType → Bool) (field : Gathered V → HashMap String)
      → Tracks kind field
      → (args : List (Option V)) (ps : List ParamMetadata) (g after : Gathered V) (key : String)
      → gather text_of args ps g ≡ value after
      → get key (field after) ≡ last_argument kind key args ps (get key (field g))
  unfolding gather
  gather-field kind field tracks args [] g after key h =
      let same : g ≡ after = ground arith in ap (λ x. get key (field x)) (sym same)
  gather-field kind field tracks args (p ∷ ps) g after key h =
      let o = get_elem? args p.parameter_index in
      let (mid, at_mid, h₁) =
        and_then-value (gather text_of args ps) (add_parameter text_of p o g) after h in
      gather-field kind field tracks args ps mid after key h₁
      ∙ ap (last_argument kind key args ps)
          (add_parameter-field kind field tracks p o g mid key at_mid)
