-- ===== src/Jaxrs/Client/Building.antt =====
-- The operation that the client builds, against what the service reads of it.
use mathlib.Core.Option
use xenon_ext.Prelude.{ℕ, ◌≡◌, sym, ap, ◌∙◌, Option, none, some, List, [], String, arith}
use xenon_ext.HashMap.{HashMap, get}
use xenon_ext.Effect.{value}
use xenon_ext.Jaxrs.Metadata.{ParamType, query, header, cookie, ParamMetadata, MethodInfo}
use xenon_ext.Jaxrs.Metadata.Methods.{and_then-value}
use xenon_ext.Jaxrs.Routing.{Argument, text, Tried, got, Request, argument_of}
use xenon_ext.Jaxrs.Client.{Gathered, Sent, gather, build_operation}
use xenon_ext.Jaxrs.Client.Gathering.{
  is_header, is_cookie, is_query, put_pairs, last_argument, gather-field, headers-Tracks,
  cookies-Tracks, query-Tracks,
}

-- How a request carries an operation: its header of a name, its cookies and the query of its URI,
-- as `parse` reads it, are those of the operation.
pub record Carries {U V B E : Type 0} (parse : U → HashMap String) (sent : Sent U V)
    (request : Request B E) (name : String) : Type 0 where
  pub same_header : request.request_header name ≡ get name sent.headers
  pub same_cookies : request.cookies ≡ some sent.cookies
  pub same_query : request.query_params ≡ parse sent.uri

abbrev pub named : ParamType → String → ℕ → Option String → ParamMetadata
named type_ name i class_name = record {
  name = some name;
  parameter_index = i;
  type_ = type_;
  paramter_type = class_name;
}

module _ {U V B E W : Type 0} (text_of : V → String) (extend : Option String → U)
    (extend_with_query : U → List (String × String) → U) (parse : U → HashMap String)
    (parse_query : (p : Option String) (q : List (String × String))
      → parse (extend_with_query (extend p) q) ≡ put_pairs q []) where
  -- If the query of an extended base URI is parsed as the pairs that it was extended with, and a
  -- request carries the operation that the client has built for some arguments, then the service
  -- reads as a header parameter, a cookie parameter or a query parameter of a name the text of the
  -- client's last argument for such a parameter that is not null, or null if there is none.
  pub argument_of-build_operation :
      (referrer : String) (info : MethodInfo) (args : List (Option V)) (sent : Sent U V)
      (request : Request B E) (validate : B → List W) (normalize : String → String)
      (service_info : MethodInfo) (full_path name : String) (i : ℕ) (c : Option String)
      → build_operation text_of extend extend_with_query referrer info args ≡ value sent
      → Carries parse sent request name
      → (argument_of validate normalize service_info full_path request (named header name i c)
          ≡ got (text (last_argument text_of is_header name args info.parameters none), []))
        × (argument_of validate normalize service_info full_path request (named cookie name i c)
            ≡ got (text (last_argument text_of is_cookie name args info.parameters none), []))
        × (argument_of validate normalize service_info full_path request (named query name i c)
            ≡ got (text (last_argument text_of is_query name args info.parameters none), []))
  unfolding build_operation argument_of get
  argument_of-build_operation referrer info args sent request validate normalize service_info
        full_path name i c built carries =
      let start : Gathered V = record {
        method_uri = info.uri_path;
        query_uri = [];
        body = none;
        headers = [];
        cookies = [];
      } in
      let (g, at_g, made) =
        and_then-value _ (gather text_of args info.parameters start) sent built in
      let headers =
        gather-field text_of is_header (λ g. g.headers) (headers-Tracks text_of) args
          info.parameters start g name at_g in
      let cookies =
        gather-field text_of is_cookie (λ g. g.cookies) (cookies-Tracks text_of) args
          info.parameters start g name at_g in
      let queries =
        gather-field text_of is_query (λ g. put_pairs g.query_uri []) (query-Tracks text_of) args
          info.parameters start g name at_g in
      let made_is : Sent U V = record {
        uri = extend_with_query (extend g.method_uri) g.query_uri;
        body = g.body;
        headers = g.headers;
        cookies = g.cookies;
        action = info.action;
        referer = referrer;
      } in
      let same : made_is ≡ sent = ground arith in
      let as_text : Option String → Tried E (Argument B × List W) = λ o. got (text o, []) in
      (
        ap as_text (carries.same_header ∙ ap (λ x. get name x.headers) (sym same) ∙ headers),
        ap as_text (
            ap (λ m. get name (Option.get_or m [])) carries.same_cookies
            ∙ ap (λ x. get name x.cookies) (sym same)
            ∙ cookies),
        ap as_text (
            ap (get name) carries.same_query
            ∙ ap (λ x. get name (parse x.uri)) (sym same)
            ∙ ap (get name) (parse_query g.method_uri g.query_uri)
            ∙ queries),
      )
