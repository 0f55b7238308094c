-- ===== src/Jaxrs/Client/Contracts/ByLink.antt =====
-- StatefulServiceContract.java: its methods, and the default methods that take the link of a
-- document.
use text.Mathlib.TextLemmas as TextLemmas
use xenon_ext.Prelude.{
  ◌≡◌, refl, sym, ap, ◌∙◌, Bool, true, false, Option, none, some, List, [], ◌∷◌, String, All,
}
use xenon_ext.HashMap.{HashMap}
use xenon_ext.Effect.{Attempt, value}
use xenon_ext.Fsm.Representation.{◌<>◌, contains}
use xenon_ext.Link.{self_link_to_id, before_last_slash}
use xenon_ext.Link.Parts.{link_parts}
use xenon_ext.Jaxrs.Metadata.{
  type_variable, parameterized, Parameter, Method, and_then, future_class, generate_method_info,
}
use xenon_ext.Jaxrs.Client.{Sent, build_operation}
use xenon_ext.Jaxrs.Client.Replacing.{replace_all, is_literal, expand-literal}
use xenon_ext.Jaxrs.Client.Invoking.{method_info_of}

abbrev id_parameter : Parameter
id_parameter = record {
  name = "id";
  query_param = none;
  path_param = some "id";
  header_param = none;
  cookie_param = none;
  operation_body = false;
  type_name = "java.lang.String";
}

abbrev body_parameter : String → Parameter
body_parameter name = record {
  name = name;
  query_param = none;
  path_param = none;
  header_param = none;
  cookie_param = none;
  operation_body = true;
  type_name = "java.lang.Object";
}

-- A method of the contract, by its name, its HTTP method and its parameters.
abbrev contract_method : String → String → Option String → List Parameter → Method
contract_method name action path parameters = record {
  name = name;
  is_public = true;
  annotations = some action ∷ none ∷ [];
  path = path;
  return_type = future_class;
  generic_return_type = parameterized future_class (type_variable "T");
  parameters = parameters;
}

abbrev pub get_method : Method
get_method = contract_method "get" "GET" (some "{id}") (id_parameter ∷ [])

abbrev pub patch_method : Method
patch_method =
    contract_method "patch" "PATCH" (some "{id}") (id_parameter ∷ body_parameter "patchBody" ∷ [])

abbrev pub put_method : Method
put_method =
    contract_method "put" "PUT" (some "{id}") (id_parameter ∷ body_parameter "putBody" ∷ [])

-- The default methods, by the methods that they call.
unfoldable pub get_by_self_link : {R : Type 0} → (String → R) → String → R
get_by_self_link get_ link = get_ (self_link_to_id link)

unfoldable pub patch_by_self_link : {T R : Type 0} → (String → T → R) → String → T → R
patch_by_self_link patch link patch_body = patch (self_link_to_id link) patch_body

unfoldable pub put_by_self_link : {T R : Type 0} → (String → T → R) → String → T → R
put_by_self_link put_ link patch_body = put_ (self_link_to_id link) patch_body

-- The placeholder that is the whole path is replaced by a text.
replace_all-whole : (id : String) → is_literal id ≡ true → replace_all "{id}" id "{id}" ≡ value id
unfolding replace_all
replace_all-whole id literal =
    rw (expand-literal "{id}" id literal) (ap value (TextLemmas.append-nil id))

-- The operation with an action and a body that is sent to a URI.
abbrev pub addressed : {V : Type 0} → String → String → String → Option V → Sent String V
addressed referrer uri action content = record {
  uri = uri;
  body = content;
  headers = [];
  cookies = [];
  action = some action;
  referer = referrer;
}

module _ {V : Type 0} (text_of : V → String) (extend : Option String → String)
    (extend_with_query : String → List (String × String) → String) (referrer : String)
    (equals : Method → Method → Bool) (actions : List String) (resolution : HashMap String) where
  -- The operation that a client builds for a method of the contract.
  abbrev pub request_of : Method → List (Option V) → Attempt (Sent String V)
  request_of m args =
      and_then (λ i. build_operation text_of extend extend_with_query referrer i args)
        (method_info_of equals actions resolution [] m)

  -- The request of a method by an id, which has a body if the method has one.
  get_request :
      (id : String) (arg : V)
      → is_literal id ≡ true
      → text_of arg ≡ id
      → contains actions "GET" ≡ true
      → request_of get_method (some arg ∷ [])
        ≡ value (addressed referrer (extend_with_query (extend (some id)) []) "GET" none)
  unfolding build_operation method_info_of generate_method_info
  get_request id arg literal text known = rw (known, text, replace_all-whole id literal) refl

  body_request :
      (name action parameter id : String) (arg content : V)
      → is_literal id ≡ true
      → text_of arg ≡ id
      → contains actions action ≡ true
      → request_of
          (contract_method name action (some "{id}") (id_parameter ∷ body_parameter parameter ∷ []))
          (some arg ∷ some content ∷ [])
        ≡ value (addressed referrer (extend_with_query (extend (some id)) []) action (some content))
  unfolding build_operation method_info_of generate_method_info
  body_request name action parameter id arg content literal text known =
      rw (known, text, replace_all-whole id literal) refl

  moved :
      (there at_link : String) (action : String) (content : Option V)
      → there ≡ at_link
      → value (addressed referrer (extend_with_query there []) action content)
        ≡ value (addressed referrer (extend_with_query at_link []) action content)
  moved there at_link action content e =
      ap (λ u. value (addressed referrer (extend_with_query u []) action content)) e

  -- With the link of a document, which is a link of its service, a slash and an id without a
  -- backslash and a dollar, the default methods of a client build the requests that get, patch and
  -- put this document at the host, with the body that they are given; if the URI of the service at
  -- the host is extended by a slash and the id.
  pub by_self_link_requests :
      (host link service : String) (id_arg : String → V) (content : V)
      → ((id : String) → text_of (id_arg id) ≡ id)
      → All (λ a. contains actions a ≡ true) ("GET" ∷ "PATCH" ∷ "PUT" ∷ [])
      → before_last_slash link ≡ some service
      → is_literal (self_link_to_id link) ≡ true
      → extend (some (self_link_to_id link)) ≡ host <> (service <> ("/" <> self_link_to_id link))
      → let uri = extend_with_query (host <> link) [] in
        (get_by_self_link (λ id. request_of get_method (some (id_arg id) ∷ [])) link
          ≡ value (addressed referrer uri "GET" none))
        × (patch_by_self_link
              (λ id b. request_of patch_method (some (id_arg id) ∷ some b ∷ []))
              link
              content
            ≡ value (addressed referrer uri "PATCH" (some content)))
        × (put_by_self_link
              (λ id b. request_of put_method (some (id_arg id) ∷ some b ∷ []))
              link
              content
            ≡ value (addressed referrer uri "PUT" (some content)))
  unfolding get_by_self_link patch_by_self_link put_by_self_link
  by_self_link_requests host link service id_arg content text
        (can_get, (can_patch, (can_put, end_))) at_service literal extended =
      let id = self_link_to_id link in
      let there : extend (some id) ≡ host <> link =
        extended ∙ ap (λ l. host <> l) (sym (link_parts link service at_service)) in
      (
        get_request id (id_arg id) literal (text id) can_get ∙ moved _ _ "GET" none there,
        body_request "patch" "PATCH" "patchBody" id (id_arg id) content literal (text id) can_patch
            ∙ moved _ _ "PATCH" (some content) there,
        body_request "put" "PUT" "putBody" id (id_arg id) content literal (text id) can_put
            ∙ moved _ _ "PUT" (some content) there,
      )
