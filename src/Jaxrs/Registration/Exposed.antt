-- ===== src/Jaxrs/Registration/Exposed.antt =====
-- Which methods of a service are registered, and where.
use xenon_ext.Prelude.{
  ◌≡◌, refl, sym, ap, ◌∙◌, subst, true, Bool-cases, inl, inr, Option, none, some, List, [], ◌∷◌,
  ◌++◌, map, append-nil, append_assoc, String, if◌then◌else◌, arith, keep, All, All-append,
}
use xenon_ext.Effect.{value}
use xenon_ext.Jaxrs.Paths.{new_uri_matcher}
use xenon_ext.Jaxrs.Metadata.{Method, MethodInfo, generate_method_info}
use xenon_ext.Jaxrs.Metadata.Methods.{
  is_exposed, http_name, Describes, and_then-value, generate_method_info_lem,
}
use xenon_ext.Jaxrs.Registration.{
  Contract, Service, Route, route_of, register_routes, register_contract, register_contracts,
  parse_jaxrs_annotations,
}

-- The methods that the interfaces add, if the service implements them.
abbrev pub contributed : List (Option Contract) → List Method
contributed [] = []
contributed (none ∷ interfaces) = contributed interfaces
contributed (some contract ∷ interfaces) =
    let rest = contributed interfaces in
    if contract.is_assignable_from then keep is_exposed contract.methods ++ rest else rest

abbrev pub methods_of : List Route → List Method
methods_of routes = map (λ r. r.info.method) routes

module _ (actions : List String) (normalize : String → String)
    (build_uri_path : String → Option String → String) where
  -- A route is at the path of its method below the service, for the HTTP method that is named.
  abbrev pub IsRouted : Service → Route → Type 0
  IsRouted service r =
      (r.path ≡ build_uri_path service.self_link r.info.method.path)
      × (r.matches ≡ new_uri_matcher normalize r.path)
      × (r.action ≡ http_name r.info.method.annotations)
      × Describes r.info

  -- The routes of a router are those of some methods, after the ones that it had.
  abbrev Adds : Service → List Route → List Method → List Route → Type 0
  Adds service before methods after =
      (methods_of after ≡ methods_of before ++ methods) × All (IsRouted service) after

  methods_of-append : (xs ys : List Route) → methods_of (xs ++ ys) ≡ methods_of xs ++ methods_of ys
  methods_of-append [] ys = refl
  methods_of-append (x ∷ xs) ys = ap (λ l. x.info.method ∷ l) (methods_of-append xs ys)

  register_routes-Adds :
      (service : Service) (infos : List MethodInfo) (router : List Route)
      → All Describes infos
      → All (IsRouted service) router
      → Adds service router
          (map (λ i. i.method) infos)
          (register_routes actions normalize build_uri_path router service infos)
  unfolding register_routes route_of
  register_routes-Adds service [] router described h = (sym (append-nil (methods_of router)), h)
  register_routes-Adds service (info ∷ infos) router (d, described) h =
      let route = route_of actions normalize build_uri_path service info in
      let (methods, all) = register_routes-Adds service infos (router ++ route ∷ []) described (
        All-append (IsRouted service) router _ h
          ((ap (build_uri_path service.self_link) d.1, refl, d.0, d), tt)) in
      (
        methods
            ∙ ap (λ l. l ++ map (λ i. i.method) infos) (methods_of-append router (route ∷ []))
            ∙ append_assoc (methods_of router) (info.method ∷ []) (map (λ i. i.method) infos),
        all,
      )

  register_contract-Adds :
      (service : Service) (contract : Contract) (router after : List Route)
      → All (IsRouted service) router
      → register_contract actions normalize build_uri_path router service contract ≡ value after
      → Adds service router (keep is_exposed contract.methods) after
  unfolding register_contract
  register_contract-Adds service contract router after h made =
      let (infos, at_infos, registered) =
        and_then-value _ (generate_method_info actions contract.methods []) after made in
      let (methods, described) =
        generate_method_info_lem actions contract.methods [] infos at_infos in
      let same : register_routes actions normalize build_uri_path router service infos ≡ after =
        ground arith in
      subst (λ l. Adds service router l after) methods
        (subst (Adds service router (map (λ i. i.method) infos)) same
          (register_routes-Adds service infos router described h))

  Adds-trans :
      (service : Service) (a b c : List Route) (ms ns : List Method)
      → methods_of b ≡ methods_of a ++ ms
      → Adds service b ns c
      → Adds service a (ms ++ ns) c
  Adds-trans service a b c ms ns first (second, all) =
      (second ∙ ap (λ l. l ++ ns) first ∙ append_assoc (methods_of a) ms ns, all)

  register_contracts-Adds :
      (service : Service) (interfaces : List (Option Contract)) (router after : List Route)
      → All (IsRouted service) router
      → register_contracts actions normalize build_uri_path router service interfaces ≡ value after
      → Adds service router (contributed interfaces) after
  unfolding register_contracts
  register_contracts-Adds service [] router after h made =
      let same : router ≡ after = ground arith in
      subst (Adds service router []) same (sym (append-nil (methods_of router)), h)
  register_contracts-Adds service (none ∷ interfaces) router after h made =
      register_contracts-Adds service interfaces router after h made
  register_contracts-Adds service (some contract ∷ interfaces) router after h made =
      let (middle, at_middle, rest) =
        and_then-value
          (λ registered.
            register_contracts actions normalize build_uri_path registered service interfaces)
          (if contract.is_assignable_from
            then register_contract actions normalize build_uri_path router service contract
            else value router)
          after made in
      elim (Bool-cases contract.is_assignable_from) [
        | inl implemented ↦
            let (methods, all) =
              register_contract-Adds service contract router middle h (ground arith) in
            rw implemented (
              Adds-trans service router middle after _ _ methods
                (register_contracts-Adds service interfaces middle after all rest))
        | inr foreign ↦
            let same : middle ≡ router = ground arith in
            rw foreign (
              register_contracts-Adds service interfaces router after h (
                subst
                  (λ l.
                    register_contracts actions normalize build_uri_path l service interfaces
                    ≡ value after)
                  same rest))
      ]

  -- If the annotations of a service that owns its namespace can be read, the methods that its
  -- routes call are the public methods that a HTTP method is named for: those that its class
  -- declares, in order, and then those of each interface that is not null and that the class
  -- implements. Each route is at the path of its method below the self link of the service, with
  -- the matcher of that path, for the first HTTP method that is named, and describes its method.
  pub parse_jaxrs_annotations-exposed :
      (service : Service) (interfaces : List (Option Contract)) (routes : List Route)
      → service.uri_namespace_owner ≡ true
      → parse_jaxrs_annotations actions normalize build_uri_path service interfaces ≡ value routes
      → (methods_of routes ≡ keep is_exposed service.declared_methods ++ contributed interfaces)
        × All (IsRouted service) routes
  unfolding parse_jaxrs_annotations
  parse_jaxrs_annotations-exposed service interfaces routes owner made =
      let (infos, at_infos, rest) =
        and_then-value
          (λ infos.
            register_contracts actions normalize build_uri_path
              (register_routes actions normalize build_uri_path [] service infos) service
              interfaces)
          (generate_method_info actions service.declared_methods []) routes (ground arith) in
      let (methods, described) =
        generate_method_info_lem actions service.declared_methods [] infos at_infos in
      let (own, all) = register_routes-Adds service infos [] described tt in
      Adds-trans service [] _ routes _ _ (own ∙ methods)
        (register_contracts-Adds service interfaces _ routes all rest)
