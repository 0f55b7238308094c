-- ===== src/Jaxrs/Template/RoundTrip.antt =====
-- A path argument, from the client to the service.
use mathlib.Core.Option
use package.text.Mathlib.TextLemmas as TextLemmas
use xenon_ext.Prelude.{
  ℕ, ◌+◌, ◌≡◌, refl, sym, ap, ◌∙◌, subst, Option, none, some, List, [], ◌∷◌, ◌++◌, map, String, All,
  All-append, get_elem?, length,
}
use xenon_ext.Effect.{value}
use xenon_ext.Fsm.Representation.{◌<>◌}
use xenon_ext.Jaxrs.Paths.{split, parse_path_params}
use xenon_ext.Jaxrs.Paths.Parameters.{last_placeholder}
use xenon_ext.Jaxrs.Metadata.{path, ParamMetadata, MethodInfo, and_then}
use xenon_ext.Jaxrs.Routing.{Argument, text, Tried, got, Request, path_argument, argument_of}
use xenon_ext.Jaxrs.Routing.Arguments.{EndsAlike, path_argument-named, get_elem?-append}
use xenon_ext.Jaxrs.Client.{Gathered, Sent, build_operation}
use xenon_ext.Jaxrs.Client.Building.{named}
use xenon_ext.Jaxrs.Template.{Piece, word, hole, show, path_of, words, IsWord, IsPiece}
use xenon_ext.Jaxrs.Template.Splitting.{split-path_of}
use xenon_ext.Jaxrs.Template.Filling.{fill, fill_piece}
use xenon_ext.Jaxrs.Template.Built.{
  IsFilling, fill_all, fill-IsPiece, fillings_of, InRange, gather-Leaves,
}
use xenon_ext.Jaxrs.Template.Placing.{
  OtherHole, last_placeholder-path, has_braces-path, first_of, fill-middle, fill_all-hole,
}

pub path_of-append : (xs ys : List Piece) → path_of xs <> path_of ys ≡ path_of (xs ++ ys)
path_of-append [] ys = TextLemmas.nil-append (path_of ys)
path_of-append (x ∷ xs) ys =
    TextLemmas.append_assoc "/" (show x <> path_of xs) (path_of ys)
    ∙ ap (λ t. "/" <> t)
        (TextLemmas.append_assoc (show x) (path_of xs) (path_of ys)
          ∙ ap (λ t. show x <> t) (path_of-append xs ys))

words-IsPiece : (service : List String) → All IsWord service → All IsPiece (words service)
words-IsPiece [] h = tt
words-IsPiece (s ∷ service) (one, more) = (one, words-IsPiece service more)

show-words :
    (service : List String) (ps : List Piece)
    → map show (words service ++ ps) ≡ service ++ map show ps
show-words [] ps = refl
show-words (s ∷ service) ps = ap (λ l. s ∷ l) (show-words service ps)

-- The pieces of a path below a service.
split_below :
    (service : List String) (before : List Piece) (p : Piece) (after : List Piece)
    → All IsWord service
    → All IsPiece (before ++ p ∷ after)
    → split (path_of (words service ++ (before ++ p ∷ after)))
      ≡ ("" ∷ service) ++ map show (before ++ p ∷ after)
split_below [] [] p after w h = split-path_of p after h
split_below [] (b ∷ before) p after w h = split-path_of b (before ++ p ∷ after) h
split_below (s ∷ service) before p after (one, more) h =
    split-path_of (word s) (words service ++ (before ++ p ∷ after))
      (one, All-append IsPiece (words service) _ (words-IsPiece service more) h)
    ∙ ap (λ l. "" ∷ s ∷ l) (show-words service (before ++ p ∷ after))

-- The pieces of a path below a service, once it is filled.
split_filled :
    (service : List String) (fillings : List (String × String)) (before : List Piece) (p : Piece)
    (after : List Piece)
    → All IsWord service
    → All IsPiece (before ++ p ∷ after)
    → All IsFilling fillings
    → split (path_of (words service ++ fill_all fillings (before ++ p ∷ after)))
      ≡ ("" ∷ service) ++ map show (fill_all fillings (before ++ p ∷ after))
split_filled service [] before p after w h fs = split_below service before p after w h
split_filled service ((name, replacement) ∷ fillings) before p after w h (one, more) =
    let parts = fill-middle name replacement before p after in
    subst
      (λ l.
        split (path_of (words service ++ fill_all fillings l))
        ≡ ("" ∷ service) ++ map show (fill_all fillings l))
      (sym parts)
      (split_filled service fillings (fill name replacement before) (fill_piece name replacement p)
        (fill name replacement after) w
        (subst (All IsPiece) parts (fill-IsPiece name replacement (before ++ p ∷ after) one.1 h))
        more)

module _ {V : Type 0} (text_of : V → String) (service : List String) (before : List Piece)
    (name : String) (after : List Piece) where
  abbrev pub own : List Piece
  own = before ++ hole name ∷ after

  -- The text that a path parameter of the name is to receive: the one of the first argument for it
  -- that is not null, or its placeholder if there is none.
  abbrev pub expected : List (Option V) → List ParamMetadata → String
  expected args ps =
      Option.get_or (first_of name (fillings_of text_of args ps)) ("{" <> (name <> "}"))

  path_argument-filled :
      (info : MethodInfo) (args : List (Option V))
      → All IsWord service
      → All IsPiece own
      → All IsPiece after
      → All (OtherHole name) after
      → info.uri_path ≡ some (path_of own)
      → info.path_params_vs_uri_index ≡ parse_path_params info.uri_path
      → All IsFilling (fillings_of text_of args info.parameters)
      → path_argument info
          (path_of (words service ++ own))
          (split
            (path_of (words service ++ fill_all (fillings_of text_of args info.parameters) own)))
          name
        ≡ some (expected args info.parameters)
  path_argument-filled info args w h ha others uri params fs =
      let alike : EndsAlike (path_of (words service ++ own)) (path_of own) ("" ∷ service) ("" ∷ [])
          (map show own) =
        record {
          full_pieces = split_below service before (hole name) after w h;
          uri_pieces = split_below [] before (hole name) after tt h;
        } in
      let found =
        ap (λ l. last_placeholder 0 name l none) alike.uri_pieces
        ∙ last_placeholder-path name before after ha others in
      let fillings : List (String × String) = fillings_of text_of args info.parameters in
      (path_argument-named info (path_of own) (path_of (words service ++ own)) name ("" ∷ service)
        ("" ∷ []) (map show own) (length before) _ uri params (has_braces-path name before after)
        alike found).0
      ∙ ap (λ l. get_elem? l (length ("" ∷ service) + length before))
          (split_filled service fillings before (hole name) after w h fs)
      ∙ get_elem?-append ("" ∷ service) (map show (fill_all fillings own)) (length before) _ refl
      ∙ fill_all-hole fillings before name after

-- A path of pieces starts with a slash, also when it has been filled.
filled_slash :
    (fillings : List (String × String)) (p : Piece) (ps : List Piece)
    → (rest : String) × (path_of (fill_all fillings (p ∷ ps)) ≡ "/" <> rest)
filled_slash [] p ps = (show p <> path_of ps, refl)
filled_slash ((name, replacement) ∷ fillings) p ps =
    filled_slash fillings (fill_piece name replacement p) (fill name replacement ps)

filled_slash_around :
    (fillings : List (String × String)) (before : List Piece) (p : Piece) (after : List Piece)
    → (rest : String) × (path_of (fill_all fillings (before ++ p ∷ after)) ≡ "/" <> rest)
filled_slash_around fillings [] p after = filled_slash fillings p after
filled_slash_around fillings (b ∷ before) p after = filled_slash fillings b (before ++ p ∷ after)

-- `path` is the path of a URI, and `deliver` the request that the framework makes of an operation.
module _ {U V B E W : Type 0} (text_of : V → String) (extend : Option String → U)
    (extend_with_query : U → List (String × String) → U) (uri_path : U → String)
    (deliver : Sent U V → Request B E) (normalize : String → String) (service : List String)
    (extended : (p : String) (q : List (String × String))
      → uri_path (extend_with_query (extend (some ("/" <> p))) q)
        ≡ path_of (words service) <> ("/" <> p))
    (delivered : (sent : Sent U V) → normalize (deliver sent).uri_path ≡ uri_path sent.uri) where
  -- The base URI of a client has a path of words, a path that starts with a slash is appended to
  -- it, and the framework delivers an operation at the path of its URI. If the path of a method is
  -- a template, with a placeholder of some name that no later one has, and every argument for a
  -- path parameter is a word without backslashes and dollars, then the client builds an operation
  -- of arguments that are not out of bounds; and the service, which has the method registered below
  -- the same words, reads as the path parameter of the name the text of the client's first argument
  -- for it that is not null, or the placeholder itself if there is none.
  pub path_argument-build_operation :
      (referrer : String) (info : MethodInfo) (args : List (Option V)) (validate : B → List W)
      (before : List Piece) (name : String) (after : List Piece) (i : ℕ) (c : Option String)
      → All IsWord service
      → All IsPiece (own text_of service before name after)
      → All IsPiece after
      → All (OtherHole name) after
      → info.uri_path ≡ some (path_of (own text_of service before name after))
      → info.path_params_vs_uri_index ≡ parse_path_params info.uri_path
      → All (InRange text_of args) info.parameters
      → All IsFilling (fillings_of text_of args info.parameters)
      → (sent : Sent U V) × (build_operation text_of extend extend_with_query referrer info args
          ≡ value sent)
        × (argument_of validate normalize info
              (path_of (words service ++ own text_of service before name after))
              (deliver sent)
              (named path name i c)
            ≡ got
                (text (some (expected text_of service before name after args info.parameters)), []))
  unfolding build_operation argument_of
  path_argument-build_operation referrer info args validate before name after i c w h ha others uri
        params ranges fs =
      let start : Gathered V = record {
        method_uri = info.uri_path;
        query_uri = [];
        body = none;
        headers = [];
        cookies = [];
      } in
      let template = before ++ hole name ∷ after in
      let (g, gathered, filled_uri) =
        gather-Leaves text_of args info.parameters start template uri h ranges fs in
      let fillings : List (String × String) = fillings_of text_of args info.parameters in
      let sent : Sent U V = record {
        uri = extend_with_query (extend g.method_uri) g.query_uri;
        body = g.body;
        headers = g.headers;
        cookies = g.cookies;
        action = info.action;
        referer = referrer;
      } in
      let (rest, starts) = filled_slash_around fillings before (hole name) after in
      let arrives =
        delivered sent
        ∙ ap (λ p. uri_path (extend_with_query (extend p) g.query_uri)) filled_uri
        ∙ subst
            (λ p.
              uri_path (extend_with_query (extend (some p)) g.query_uri)
              ≡ path_of (words service) <> p)
            (sym starts) (extended rest g.query_uri)
        ∙ path_of-append (words service) (fill_all fillings template) in
      let as_text : Option String → Tried E (Argument B × List W) = λ o. got (text o, []) in
      (
        sent,
        ap (and_then _) gathered,
        ap (λ p. as_text (path_argument info (path_of (words service ++ template)) (split p) name))
              arrives
            ∙ ap as_text (
                path_argument-filled text_of service before name after info args w h ha others uri
                  params fs),
      )
