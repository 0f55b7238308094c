-- ===== src/Jaxrs/Bridge/Started.antt =====
-- When the router is built and the instance initialised.
use xenon_ext.Prelude.{
  ℕ, zero, suc, ◌≡◌, refl, ap, ◌∙◌, true, Option, none, some, List, [], ◌∷◌, ◌++◌, String, arith,
  keep,
}
use xenon_ext.Effect.{Throwable, Attempt, value, raise, Comp, resume}
use xenon_ext.Jaxrs.Metadata.Methods.{is_exposed}
use xenon_ext.Jaxrs.Registration.{Contract, Service, Route, parse_jaxrs_annotations}
use xenon_ext.Jaxrs.Registration.Exposed.{contributed, methods_of, parse_jaxrs_annotations-exposed}
use xenon_ext.Jaxrs.Bridge.{
  Bridge, new_bridge, set_contract_interface, set_operation_processing_chain, build_chain,
  chain_or_build, get_operation_processing_chain, after_requests,
}

-- A service as its constructor leaves it, which may set a contract interface.
abbrev pub constructed : {W : Type 0} → Service → W → Option Contract → Bridge W
constructed service w none = new_bridge service w
constructed service w (some interface) = set_contract_interface interface (new_bridge service w)

module _ {W : Type 0} (actions : List String) (normalize : String → String)
    (build_uri_path : String → Option String → String)
    (initialize_instance : Comp (Bridge W) (Unit {0})) where
  -- What the first request returns, by how the initialisation ends.
  abbrev pub first_result : Attempt (Unit {0}) → List Route → Attempt (List Route)
  first_result (value u) routes = value routes
  first_result (raise e) routes = raise e

  abbrev pub chain_of : (s : Bridge W) → Attempt (List Route) × Bridge W
  chain_of s = get_operation_processing_chain actions normalize build_uri_path initialize_instance s

  first_lem :
      (r : Attempt (Unit {0}) × Bridge W) (routes : List Route)
      → resume r (λ u t. (value routes, t)) ≡ (first_result r.0 routes, r.1)
  first_lem (value u, t) routes = refl
  first_lem (raise e, t) routes = refl

  chain-kept :
      (s : Bridge W) (routes : List Route)
      → s.operation_processing_chain ≡ some routes
      → chain_of s ≡ (value routes, s)
  unfolding get_operation_processing_chain chain_or_build
  chain-kept s routes h = ground arith

  requests-kept :
      (n : ℕ) (s : Bridge W) (routes : List Route)
      → s.operation_processing_chain ≡ some routes
      → after_requests actions normalize build_uri_path initialize_instance n s ≡ s
  unfolding after_requests get_operation_processing_chain
  requests-kept zero s routes h = refl
  requests-kept (suc n) s routes h =
      ap (after_requests actions normalize build_uri_path initialize_instance n)
        (ap (λ r. r.1) (chain-kept s routes h))
      ∙ requests-kept n s routes h

  -- What n further requests find, by what the reading of the annotations comes to.
  abbrev pub Serves : Option Contract → Attempt (List Route) → Bridge W → ℕ → Type 0
  Serves interface (raise e) s n =
      (chain_of s ≡ (raise e, s))
      × (after_requests actions normalize build_uri_path initialize_instance n s ≡ s)
  Serves interface (value routes) s n =
      let started = initialize_instance (set_operation_processing_chain routes s) in
      let later = after_requests actions normalize build_uri_path initialize_instance (suc n) s in
      (chain_of s ≡ (first_result started.0 routes, started.1))
      × (later ≡ started.1)
      × (chain_of later ≡ (value routes, started.1))
      × (methods_of routes
          ≡ keep is_exposed s.service.declared_methods ++ contributed (interface ∷ []))

  failing_requests :
      (n : ℕ) (s : Bridge W) (e : Throwable)
      → chain_of s ≡ (raise e, s)
      → after_requests actions normalize build_uri_path initialize_instance n s ≡ s
  unfolding after_requests get_operation_processing_chain
  failing_requests zero s e h = refl
  failing_requests (suc n) s e h =
      ap (after_requests actions normalize build_uri_path initialize_instance n) (ap (λ r. r.1) h)
      ∙ failing_requests n s e h

  failed_build :
      (s : Bridge W) (e : Throwable)
      → s.operation_processing_chain ≡ none
      → parse_jaxrs_annotations actions normalize build_uri_path s.service
          (s.contract_interface ∷ [])
        ≡ raise e
      → chain_of s ≡ (raise e, s)
  unfolding get_operation_processing_chain chain_or_build build_chain
  failed_build s e h parsed = rw (h, parsed) refl

  first_build :
      (s : Bridge W) (routes : List Route)
      → s.operation_processing_chain ≡ none
      → parse_jaxrs_annotations actions normalize build_uri_path s.service
          (s.contract_interface ∷ [])
        ≡ value routes
      → let started = initialize_instance (set_operation_processing_chain routes s) in
        chain_of s ≡ (first_result started.0 routes, started.1)
  unfolding get_operation_processing_chain chain_or_build build_chain
  first_build s routes h parsed =
      rw (h, parsed)
        (first_lem (initialize_instance (set_operation_processing_chain routes s)) routes)

  served :
      (interface : Option Contract) (s : Bridge W) (n : ℕ) (r : Attempt (List Route))
      → ((t : Bridge W)
          → (initialize_instance t).1.operation_processing_chain ≡ t.operation_processing_chain)
      → s.service.uri_namespace_owner ≡ true
      → s.contract_interface ≡ interface
      → s.operation_processing_chain ≡ none
      → parse_jaxrs_annotations actions normalize build_uri_path s.service (interface ∷ []) ≡ r
      → Serves interface r s n
  unfolding after_requests get_operation_processing_chain set_operation_processing_chain
  served interface s n (raise e) keeps owner at h parsed =
      let failed = failed_build s e h (
        ap (λ c. parse_jaxrs_annotations actions normalize build_uri_path s.service (c ∷ [])) at
        ∙ parsed) in
      (failed, failing_requests n s e failed)
  served interface s n (value routes) keeps owner at h parsed =
      let first = first_build s routes h (
        ap (λ c. parse_jaxrs_annotations actions normalize build_uri_path s.service (c ∷ [])) at
        ∙ parsed) in
      let started = initialize_instance (set_operation_processing_chain routes s) in
      let kept = keeps (set_operation_processing_chain routes s) in
      let later =
        ap (λ r. after_requests actions normalize build_uri_path initialize_instance n r.1) first
        ∙ requests-kept n started.1 routes kept in
      (
        first,
        later,
        ap chain_of later ∙ chain-kept started.1 routes kept,
        (parse_jaxrs_annotations-exposed actions normalize build_uri_path s.service (interface ∷ [])
            routes owner parsed).0,
      )

  -- Of a service whose initialisation leaves the chain alone: if the annotations cannot be read,
  -- each request throws what the reading throws, and nothing changes. Otherwise the first request
  -- sets the chain and initialises the instance, and throws what that throws; all later requests
  -- return the same chain and change nothing, also where the initialisation has thrown; and the
  -- routes of the chain call the methods that the class exposes and those of the contract
  -- interface, if it is set and implemented.
  pub chain_built_once :
      (service : Service) (w : W) (interface : Option Contract) (n : ℕ)
      → ((t : Bridge W)
          → (initialize_instance t).1.operation_processing_chain ≡ t.operation_processing_chain)
      → let s = constructed service w interface in
        Serves interface
          (parse_jaxrs_annotations actions normalize build_uri_path s.service (interface ∷ []))
          s
          n
  unfolding new_bridge set_contract_interface
  chain_built_once service w none n keeps =
      served none (new_bridge service w) n _ keeps refl refl refl refl
  chain_built_once service w (some interface) n keeps =
      served (some interface) (set_contract_interface interface (new_bridge service w)) n _ keeps
        refl refl refl refl
