-- ===== src/Jaxrs/Client/Contracts/Tests.antt =====
-- A client of a service of features.
use xenon_ext.Prelude.{◌≡◌, refl, Bool, true, false, Option, none, some, List, [], ◌∷◌, String, inl}
use xenon_ext.HashMap.{put, get}
use xenon_ext.Effect.{value}
use xenon_ext.Fsm.Representation.{◌<>◌, contains}
use xenon_ext.Jaxrs.Paths.{parse_path_params}
use xenon_ext.Jaxrs.Metadata.{type_variable, parameterized, Method, MethodInfo, future_class}
use xenon_ext.Jaxrs.Client.Defaults.{ProxyHandler, Parts}
use xenon_ext.Jaxrs.Client.Contracts.{new_stateful_svc_contract, stateful_contract}
use xenon_ext.Jaxrs.Client.Contracts.Typed.{new_stateful_svc_contract-typed}
use xenon_ext.Jaxrs.Client.Contracts.ByLink.{
  get_by_self_link, patch_by_self_link, put_by_self_link, by_self_link_requests, request_of,
  addressed,
}
use xenon_ext.Jaxrs.Client.Contracts.ByLink as ByLink
use xenon_ext.Link.{before_last_slash, self_link_to_id}

abbrev same_text : String → String
same_text host = host

abbrev add_annotation : String → String → String
add_annotation resource base = base

abbrev parts : Parts String
parts = record {
  op_builder = "build";
  error_handler = "errors";
  response_decoder = "decode";
  interceptor = "intercept";
}

abbrev get_method : Method
get_method = record {
  name = "get";
  is_public = true;
  annotations = some "GET" ∷ [];
  path = some "{id}";
  return_type = future_class;
  generic_return_type = parameterized future_class (type_variable "T");
  parameters = [];
}

abbrev contract_methods : String → List Method
contract_methods resource = get_method ∷ []

abbrev extend_path : String → String → String
extend_path base path = base <> path

abbrev get_info : MethodInfo
get_info = record {
  method = get_method;
  parameters = [];
  uri_path = some "{id}";
  action = some "GET";
  path_params_vs_uri_index = ("id", 0) ∷ [];
  async_api = true;
  return_type = "Feature";
  type_ = type_variable "T";
}

abbrev feature_client : ProxyHandler String String String
feature_client = record {
  resource_interface = stateful_contract;
  base_uri = add_annotation stateful_contract (extend_path (same_text "h") "/features");
  client = same_text "h";
  referrer = same_text "h";
  type_resolution = ("T", "Feature") ∷ [];
  parts = parts;
  http_methods = get_info ∷ [];
}

new_stateful_svc_contract-typed_example :
    (feature_client.base_uri
      ≡ add_annotation stateful_contract (extend_path (same_text "h") "/features"))
    × (feature_client.client ≡ same_text "h")
    × (get_info.async_api ≡ true)
    × (get_info.return_type ≡ "Feature")
unfolding new_stateful_svc_contract contains parse_path_params put get
new_stateful_svc_contract-typed_example =
    new_stateful_svc_contract-typed same_text same_text same_text (value "new") add_annotation
      ("GET" ∷ []) contract_methods parts same_text extend_path "h" "/features" "Feature"
      feature_client get_info refl (inl refl) refl refl

abbrev at_service : Option String → String
at_service path = elim path [ none ↦ "h/features" | some p ↦ "h/features/" <> p ]

abbrev without_query : String → List (String × String) → String
without_query uri queries = uri

abbrev no_method : Method → Method → Bool
no_method m n = false

by_self_link_requests_example :
    (get_by_self_link
        (λ id.
          request_of same_text at_service without_query "r" no_method
            ("GET" ∷ "PATCH" ∷ "PUT" ∷ [])
            []
            ByLink.get_method
            (some id ∷ []))
        "/features/dark"
      ≡ value (addressed "r" "h/features/dark" "GET" none))
    × (patch_by_self_link
          (λ id b.
            request_of same_text at_service without_query "r" no_method
              ("GET" ∷ "PATCH" ∷ "PUT" ∷ [])
              []
              ByLink.patch_method
              (some id ∷ some b ∷ []))
          "/features/dark"
          "on"
        ≡ value (addressed "r" "h/features/dark" "PATCH" (some "on")))
    × (put_by_self_link
          (λ id b.
            request_of same_text at_service without_query "r" no_method
              ("GET" ∷ "PATCH" ∷ "PUT" ∷ [])
              []
              ByLink.put_method
              (some id ∷ some b ∷ []))
          "/features/dark"
          "on"
        ≡ value (addressed "r" "h/features/dark" "PUT" (some "on")))
unfolding contains before_last_slash self_link_to_id
by_self_link_requests_example =
    by_self_link_requests same_text at_service without_query "r" no_method
      ("GET" ∷ "PATCH" ∷ "PUT" ∷ []) [] "h" "/features/dark" "/features" (λ id. id) "on"
      (λ id. refl) (refl, (refl, (refl, tt))) refl refl refl
