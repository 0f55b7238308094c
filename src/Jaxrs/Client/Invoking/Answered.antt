-- ===== src/Jaxrs/Client/Invoking/Answered.antt =====
-- The calls of a client that has been built.
use xenon_ext.Prelude.{
  ◌≡◌, refl, ap, ◌∙◌, Bool, true, false, Option, List, [], String, Among, All, keep, eq_iff,
}
use xenon_ext.HashMap.{HashMap}
use xenon_ext.Effect.{Throwable, Attempt, value}
use xenon_ext.Jaxrs.Metadata.{JavaType, Method, MethodInfo, generate_method_info}
use xenon_ext.Jaxrs.Metadata.Methods.{Describes, is_exposed}
use xenon_ext.Jaxrs.Routing.{Tried, Settled}
use xenon_ext.Jaxrs.Client.Sending.{Interceptor, ReturnKind, Called, invoke}
use xenon_ext.Jaxrs.Client.Defaults.{
  JaxRsServiceClient, ProxyHandler, Parts, Uses, build_proxy-Uses,
}
use xenon_ext.Jaxrs.Client.Equipped.{Equipped, Uses-Equipped}
use xenon_ext.Jaxrs.Client.Contracts.{build_for}
use xenon_ext.Jaxrs.Client.Invoking.{invoke_described, invoke_proxy}
use xenon_ext.Jaxrs.Client.Invoking.Described.{method_info_of-generated, method_info_of-exposed}

module _ {H C U F : Type 0} (client_of : H → C) (uri_of : H → U) (public_uri_of : H → String)
    (create : Attempt C) (add_path : String → U → U) (actions : List String)
    (methods_of : String → List Method) (defaults : Parts F) where
  -- The parser of the interface of a client.
  abbrev parse_interface : String → HashMap String → Attempt (List MethodInfo)
  parse_interface resource resolution =
      generate_method_info actions (methods_of resource) resolution

  abbrev pub Built : JaxRsServiceClient H U F → ProxyHandler C U F → Type 0
  Built b p =
      build_for client_of uri_of public_uri_of create add_path actions methods_of defaults b
      ≡ value p

  abbrev UsesGiven : JaxRsServiceClient H U F → ProxyHandler C U F → Type 0
  UsesGiven b p = Uses client_of uri_of public_uri_of create add_path parse_interface defaults b p

  build_for-UsesGiven :
      (b : JaxRsServiceClient H U F) (p : ProxyHandler C U F) → Built b p → UsesGiven b p
  unfolding build_for
  build_for-UsesGiven b p built =
      build_proxy-Uses client_of uri_of public_uri_of create add_path parse_interface defaults b p
        built

  parsed_alone :
      (b : JaxRsServiceClient H U F) (p : ProxyHandler C U F)
      → UsesGiven b p
      → parse_interface p.resource_interface p.type_resolution ≡ value p.http_methods
  parsed_alone b p (resource, base, client, parsed, parts, types, referrer) =
      ap (parse_interface p.resource_interface) types ∙ parsed

  module _ {O R A : Type 0} (equals : Method → Method → Bool) (is_default : Method → Bool)
      (invoke_special : Method → A → Called R Throwable) (kind_of : String → ReturnKind)
      (has_body : O → Bool) (build_by : F → String → U → MethodInfo → A → Tried Throwable O)
      (decode_by : F → O → JavaType → String → Tried Throwable R)
      (error_by : F → O × Throwable → Settled O Throwable)
      (intercept_by : F → Interceptor O Throwable) (send_by : C → O → O × Option Throwable) where
    abbrev pub call : ProxyHandler C U F → String → Method → A → Called R Throwable
    call =
        invoke_proxy equals actions is_default invoke_special kind_of has_body build_by decode_by
          error_by intercept_by send_by

    -- A client that has been built answers each call, by any proxy interface, as it would without
    -- the descriptions that it has been built with, when it describes the method at the call; if
    -- no other method of its interface is equal to the one that is called.
    pub invoke_proxy-described :
        (b : JaxRsServiceClient H U F) (p : ProxyHandler C U F) (proxy_interface : String)
        (m : Method) (args : A)
        → Built b p
        → All (λ n. equals n m ≡ true → n ≡ m) (methods_of p.resource_interface)
        → call p proxy_interface m args
          ≡ call (record p { http_methods = [] }) proxy_interface m args
    unfolding invoke_proxy invoke_described
    invoke_proxy-described b p proxy_interface m args built apart =
        let found =
          method_info_of-generated actions p.type_resolution equals m
            (methods_of p.resource_interface) p.http_methods
            (parsed_alone b p (build_for-UsesGiven b p built)) apart in
        rw found refl

    -- A call of a public method of its interface that a HTTP method is named for, and that is not a
    -- default method, a client answers with what becomes of the operation that its builder makes of
    -- a description of this method, with the base URI, the sender, the referrer and the parts that
    -- the client has been given or has by default: the base URI of the supplier, or else the one
    -- given or else the one of the host, each of these two with the path of the interface; the
    -- sender and the referrer of the host, or else new ones; if the method is equal to itself, and
    -- no other method of the interface is equal to it.
    pub invoke_proxy-exposed :
        (b : JaxRsServiceClient H U F) (p : ProxyHandler C U F) (m : Method) (args : A)
        → Built b p
        → equals m m ≡ true
        → All (λ n. equals n m ≡ true → n ≡ m) (methods_of p.resource_interface)
        → is_default m ≡ false
        → Among m (keep is_exposed (methods_of p.resource_interface))
        → (i : MethodInfo) × (call p p.resource_interface m args
            ≡ invoke kind_of has_body
                (decode_by p.parts.response_decoder)
                (error_by p.parts.error_handler)
                (intercept_by p.parts.interceptor)
                (send_by p.client)
                i
                (build_by p.parts.op_builder p.referrer p.base_uri i args))
          × (i.method ≡ m)
          × Describes i
          × Equipped client_of uri_of public_uri_of create add_path defaults b p
    unfolding invoke_proxy invoke_described
    invoke_proxy-exposed b p m args built self apart plain there =
        let used = build_for-UsesGiven b p built in
        let (i, found, method, lem) =
          method_info_of-exposed actions p.type_resolution equals m
            (methods_of p.resource_interface) p.http_methods (parsed_alone b p used) self apart
            there in
        (
          i,
          rw (plain, (eq_iff p.resource_interface p.resource_interface).1 refl, found) refl,
          method,
          lem,
          Uses-Equipped client_of uri_of public_uri_of create add_path defaults parse_interface b p
              used,
        )
