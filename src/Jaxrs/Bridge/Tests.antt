-- ===== src/Jaxrs/Bridge/Tests.antt =====
-- A service whose initialisation fails.
use xenon_ext.Prelude.{ℕ, suc, ◌≡◌, refl, true, false, Option, none, some, [], ◌∷◌, String}
use xenon_ext.Effect.{null_pointer, raise, Comp}
use xenon_ext.HashMap.{put}
use xenon_ext.Fsm.Representation.{◌<>◌, contains}
use xenon_ext.Jaxrs.Paths.{parse_path_params}
use xenon_ext.Jaxrs.Metadata.{class_type, Method}
use xenon_ext.Jaxrs.Registration.{Contract, Service, parse_jaxrs_annotations}
use xenon_ext.Jaxrs.Bridge.{Bridge, new_bridge, set_contract_interface, after_requests}
use xenon_ext.Jaxrs.Bridge.Started.{constructed, Serves, chain_built_once}

abbrev ping : Method
ping = record {
  name = "ping";
  is_public = true;
  annotations = some "GET" ∷ [];
  path = some "/ping";
  return_type = "void";
  generic_return_type = class_type "void";
  parameters = [];
}

abbrev service : Service
service = record { self_link = "/p"; uri_namespace_owner = false; declared_methods = ping ∷ [] }

abbrev contract : Contract
contract = record { methods = ping ∷ []; is_assignable_from = true }

abbrev normalize : String → String
normalize path = path

abbrev build_path : String → Option String → String
build_path link none = link
build_path link (some path) = link <> path

-- The world counts the initialisations.
abbrev initialize : Comp (Bridge ℕ) (Unit {0})
initialize s = (raise null_pointer, record s { world = suc s.world })

abbrev ping_bridge : Bridge ℕ
ping_bridge = constructed service 0 (some contract)

chain_built_once_example :
    Serves
      ("GET" ∷ [])
      normalize
      build_path
      initialize
      (some contract)
      (parse_jaxrs_annotations
        ("GET" ∷ [])
        normalize
        build_path
        ping_bridge.service
        (some contract ∷ []))
      ping_bridge
      2
chain_built_once_example =
    chain_built_once ("GET" ∷ []) normalize build_path initialize service 0 (some contract) 2
      (λ t. refl)

initialised_once :
    (after_requests ("GET" ∷ []) normalize build_path initialize 3 ping_bridge).world ≡ 1
unfolding after_requests new_bridge set_contract_interface contains parse_path_params put
initialised_once = refl
