-- ===== src/Jaxrs/Client/Contracts/Typed.antt =====
-- At which class a client of a stateful service reads the responses.
use xenon_ext.Prelude.{
  ◌≡◌, refl, sym, subst, ap, ◌∙◌, true, List, [], ◌∷◌, String, eq_iff, arith, All, Among, All-Among,
}
use xenon_ext.HashMap.{HashMap, get, put}
use xenon_ext.Effect.{Attempt, value, raise}
use xenon_ext.Jaxrs.Metadata.{
  type_variable, parameterized, Method, MethodInfo, future_class, future_value, future_return_type,
  parse_return_types, extract_params, complete_info, complete_all, select_methods,
  generate_method_info,
}
use xenon_ext.Jaxrs.Metadata.Methods.{and_then-value}
use xenon_ext.Jaxrs.Client.Defaults.{
  ProxyHandler, Parts, build_proxy-Uses, given_or, base_of, service_client_of,
}
use xenon_ext.Jaxrs.Client.Contracts.{
  new_builder, with_host, with_resource_interface, with_base_uri, with_generic_type_resolution,
  stateful_contract, build_for, new_stateful_svc_contract, stateful_builder,
}

value_or : {A : Type 0} → A → Attempt A → A
value_or d (value a) = a
value_or d (raise e) = d

value-injective : {A : Type 0} {a b : A} → value a ≡ value b → a ≡ b
unfolding value_or
value-injective {a = a} h = ap (value_or a) h

-- A description has the return types that are read of its method.
abbrev Resolves : HashMap String → MethodInfo → Type 0
Resolves resolution i =
    (i.async_api, i.return_type, i.type_) ≡ parse_return_types resolution i.method

complete_info-Resolves :
    (resolution : HashMap String) (m : Method) (action : String) (i : MethodInfo)
    → complete_info resolution (m, action) ≡ value i
    → Resolves resolution i
unfolding complete_info
complete_info-Resolves resolution m action i h =
    let (ps, at_ps, made) = and_then-value _ (extract_params m.parameters 0) i h in
    subst (Resolves resolution) (value-injective made) refl

complete_all-Resolves :
    (resolution : HashMap String) (selected : List (Method × String)) (infos : List MethodInfo)
    → complete_all resolution selected ≡ value infos
    → All (Resolves resolution) infos
unfolding complete_all
complete_all-Resolves resolution [] infos h =
    let same : [] ≡ infos = ground arith in subst (All (Resolves resolution)) same tt
complete_all-Resolves resolution ((m, action) ∷ selected) infos h =
    let (i, at_i, h₁) = and_then-value _ (complete_info resolution (m, action)) infos h in
    let (rest, at_rest, h₂) =
      and_then-value (λ l. value (i ∷ l)) (complete_all resolution selected) infos h₁ in
    let same : i ∷ rest ≡ infos = ground arith in
    subst (All (Resolves resolution)) same (
      complete_info-Resolves resolution m action i at_i,
      complete_all-Resolves resolution selected rest at_rest,
    )

generate_method_info-Resolves :
    (actions : List String) (methods : List Method) (resolution : HashMap String)
    (infos : List MethodInfo)
    → generate_method_info actions methods resolution ≡ value infos
    → All (Resolves resolution) infos
unfolding generate_method_info
generate_method_info-Resolves actions methods resolution infos h =
    let (selected, at_selected, h₁) =
      and_then-value (complete_all resolution) (select_methods actions methods) infos h in
    complete_all-Resolves resolution selected infos h₁

-- A method that returns a future of the type variable is resolved by the class of that name.
parse_return_types-variable :
    (name class_name : String) (m : Method)
    → m.return_type ≡ future_class
    → m.generic_return_type ≡ parameterized future_class (type_variable name)
    → parse_return_types (put name class_name []) m ≡ (true, class_name, type_variable name)
unfolding parse_return_types future_return_type future_value put get
parse_return_types-variable name class_name m returns generic =
    rw generic (ground (arith, eq_iff m.return_type future_class, eq_iff name name))

module _ {H C U F : Type 0} (client_of : H → C) (uri_of : H → U) (public_uri_of : H → String)
    (create : Attempt C) (add_path : String → U → U) (actions : List String)
    (methods_of : String → List Method) (defaults : Parts F) where
  -- A client of a stateful service that has been built sends by the client of its host to the
  -- public URI of the host, extended by the link of the service and the path of the contract. If
  -- a method of the contract returns a future of the type variable T, the client reads its
  -- response at the class of the documents, and hands it over as a future.
  pub new_stateful_svc_contract-typed :
      (public_uri : H → U) (extend_uri : U → String → U) (host : H) (base_uri class_name : String)
      (p : ProxyHandler C U F) (i : MethodInfo)
      → new_stateful_svc_contract client_of uri_of public_uri_of create add_path actions methods_of
          defaults public_uri extend_uri host base_uri class_name
        ≡ value p
      → Among i p.http_methods
      → i.method.return_type ≡ future_class
      → i.method.generic_return_type ≡ parameterized future_class (type_variable "T")
      → (p.base_uri ≡ add_path stateful_contract (extend_uri (public_uri host) base_uri))
        × (p.client ≡ client_of host)
        × (i.async_api ≡ true)
        × (i.return_type ≡ class_name)
  unfolding new_stateful_svc_contract build_for base_of service_client_of stateful_builder
      with_generic_type_resolution with_resource_interface with_base_uri with_host new_builder
  new_stateful_svc_contract-typed public_uri extend_uri host base_uri class_name p i built there
        returns generic =
      let (resource, base, client, parsed, parts, types, referrer) =
        build_proxy-Uses client_of uri_of public_uri_of create add_path
          (λ resource resolution. generate_method_info actions (methods_of resource) resolution)
          defaults (stateful_builder host (extend_uri (public_uri host) base_uri) class_name) p
          built in
      let resolved =
        All-Among (Resolves (put "T" class_name [])) p.http_methods i
          (generate_method_info-Resolves actions (methods_of p.resource_interface) _ p.http_methods
            parsed)
          there
        ∙ parse_return_types-variable "T" class_name i.method returns generic in
      (
        sym (value-injective base)
            ∙ ap (λ r. add_path r (extend_uri (public_uri host) base_uri))
                (sym (ap (λ o. given_or o stateful_contract) resource)),
        sym (value-injective client),
        ap (λ r. r.0) resolved,
        ap (λ r. r.1) resolved,
      )
