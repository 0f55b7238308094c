-- ===== src/Jaxrs/Registration.antt =====
-- RequestRouterBuilder.java: the routes that are registered for the methods of a service.
pub mod Exposed
mod Tests
use xenon_ext.Prelude.{
  Bool, true, false, Option, none, some, List, [], ◌∷◌, ◌++◌, String, if◌then◌else◌,
}
use xenon_ext.Effect.{Throwable, illegal_argument, Attempt, value, raise}
use xenon_ext.Jaxrs.Paths.{new_uri_matcher}
use xenon_ext.Jaxrs.Metadata.{Method, MethodInfo, and_then, generate_method_info}

-- An interface with its methods, and whether the class of the service implements it.
pub record Contract : Type 0 where
  pub methods : List Method
  pub is_assignable_from : Bool

-- What the code reads of a service and of its class.
pub record Service : Type 0 where
  pub self_link : String
  pub uri_namespace_owner : Bool
  pub declared_methods : List Method

-- What `register` is called with: an action, a predicate on the path of an operation, and the path
-- and the method that the handler is made with.
pub record Route : Type 0 where
  pub action : Option String
  pub matches : String → Bool
  pub path : String
  pub info : MethodInfo

abbrev pub namespace_needed : Throwable
namespace_needed = illegal_argument "URI_NAMESPACE_OWNER option needs to be enabled"

-- `actions` are the names of the actions, and `normalize` and `build_uri_path` are
-- `normalizeUriPath` and `buildUriPath` of UriUtils.
module _ (actions : List String) (normalize : String → String)
    (build_uri_path : String → Option String → String) where
  unfoldable pub route_of : Service → MethodInfo → Route
  unfolding new_uri_matcher
  route_of service info =
      let path = build_uri_path service.self_link info.uri_path in
      record {
        action = info.action;
        matches = new_uri_matcher normalize path;
        path = path;
        info = info;
      }

  -- The router by the calls of `register` so far.
  unfoldable pub register_routes : List Route → Service → List MethodInfo → List Route
  unfolding route_of
  register_routes router service [] = router
  register_routes router service (info ∷ infos) =
      register_routes (router ++ route_of service info ∷ []) service infos

  -- `parseInterfaceForJaxRsInfo` and the registration of what it finds.
  unfoldable pub register_contract : List Route → Service → Contract → Attempt (List Route)
  unfolding register_routes generate_method_info
  register_contract router service contract =
      and_then (λ infos. value (register_routes router service infos))
        (generate_method_info actions contract.methods [])

  -- The stream over the interfaces.
  unfoldable pub register_contracts :
      List Route → Service → List (Option Contract) → Attempt (List Route)
  unfolding register_contract
  register_contracts router service [] = value router
  register_contracts router service (none ∷ interfaces) =
      register_contracts router service interfaces
  register_contracts router service (some contract ∷ interfaces) =
      and_then (λ registered. register_contracts registered service interfaces)
        (if contract.is_assignable_from
          then register_contract router service contract
          else value router)

  unfoldable pub parse_jaxrs_annotations : Service → List (Option Contract) → Attempt (List Route)
  unfolding register_routes register_contracts generate_method_info
  parse_jaxrs_annotations service interfaces =
      if service.uri_namespace_owner
      then and_then
          (λ infos. register_contracts (register_routes [] service infos) service interfaces)
          (generate_method_info actions service.declared_methods [])
      else raise namespace_needed
