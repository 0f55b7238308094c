-- ===== src/Jaxrs/Bridge.antt =====
-- JaxRsBridgeStatelessService.java: a service that builds its router at the first request.
pub mod Started
mod Tests
use xenon_ext.Prelude.{ℕ, zero, suc, Bool, true, Option, none, some, List, [], ◌∷◌, String}
use xenon_ext.Effect.{Attempt, value, raise, Comp, done, lift, modify, ◌>>=◌, ◌>>◌}
use xenon_ext.Jaxrs.Registration.{Contract, Service, Route, parse_jaxrs_annotations}

-- `W` is the fields of a subclass and the world. A processing chain is its one router.
pub record Bridge (W : Type 0) : Type 0 where
  pub service : Service
  pub operation_processing_chain : Option (List Route)
  pub contract_interface : Option Contract
  pub world : W

module _ {W : Type 0} where
  -- The constructor toggles the option of a service on.
  unfoldable pub new_bridge : Service → W → Bridge W
  new_bridge service w = record {
    service = record service { uri_namespace_owner = true };
    operation_processing_chain = none;
    contract_interface = none;
    world = w;
  }

  unfoldable pub set_contract_interface : Contract → Bridge W → Bridge W
  set_contract_interface interface s = record s { contract_interface = some interface }

  unfoldable pub set_operation_processing_chain : List Route → Bridge W → Bridge W
  set_operation_processing_chain chain s = record s { operation_processing_chain = some chain }

-- `actions`, `normalize` and `build_uri_path` are those of the registration, and
-- `initialize_instance` is the subclass's.
module _ {W : Type 0} (actions : List String) (normalize : String → String)
    (build_uri_path : String → Option String → String)
    (initialize_instance : Comp (Bridge W) (Unit {0})) where
  unfoldable pub build_chain : Comp (Bridge W) (List Route)
  unfolding parse_jaxrs_annotations set_operation_processing_chain
  build_chain s =
      (do
        router ← lift (
            parse_jaxrs_annotations actions normalize build_uri_path s.service
              (s.contract_interface ∷ []))
        modify (set_operation_processing_chain router)
        initialize_instance
        done router)
        s

  unfoldable pub chain_or_build : Option (List Route) → Comp (Bridge W) (List Route)
  unfolding build_chain
  chain_or_build (some chain) = done chain
  chain_or_build none = build_chain

  unfoldable pub get_operation_processing_chain : Comp (Bridge W) (List Route)
  unfolding chain_or_build
  get_operation_processing_chain s = chain_or_build s.operation_processing_chain s

  -- The service after a number of requests, each of which gets the chain.
  unfoldable pub after_requests : ℕ → Bridge W → Bridge W
  unfolding get_operation_processing_chain
  after_requests zero s = s
  after_requests (suc n) s = after_requests n (get_operation_processing_chain s).1
