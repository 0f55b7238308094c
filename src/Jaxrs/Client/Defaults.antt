-- ===== src/Jaxrs/Client/Defaults.antt =====
-- JaxRsServiceClient.java: what a client is built with.
use xenon_ext.Prelude.{
  ◌≡◌, refl, subst, Option-cases, inl, inr, Bool, true, false, ◌&&◌, ◌||◌, Option, none, some, List,
  [], String, arith,
}
use xenon_ext.HashMap.{HashMap}
use xenon_ext.Effect.{null_pointer, Attempt, value, raise}
use xenon_ext.Jaxrs.Metadata.{MethodInfo, and_then}
use xenon_ext.Jaxrs.Metadata.Methods.{and_then-value}

-- `C` is the clients that send operations, and `F` the other parts of a proxy: its operation
-- builder, error handler, response decoder and interceptor.
pub record Parts (F : Type 0) : Type 0 where
  pub op_builder : F
  pub error_handler : F
  pub response_decoder : F
  pub interceptor : F

pub record JaxRsServiceClient (H U F : Type 0) : Type 0 where
  pub resource_interface : Option String
  pub host : Option H
  pub base_uri : Option U
  -- What the supplier of the base URI gives.
  pub base_uri_supplier : Option U
  pub type_resolution : Option (HashMap String)
  pub op_builder : Option F
  pub error_handler : Option F
  pub response_decoder : Option F
  pub interceptor : Option F

pub record ProxyHandler (C U F : Type 0) : Type 0 where
  pub resource_interface : String
  pub base_uri : U
  pub client : C
  pub referrer : String
  pub type_resolution : HashMap String
  pub parts : Parts F
  pub http_methods : List MethodInfo

abbrev pub default_referrer : String
default_referrer = "/jaxrs/xenon/client"

-- `Objects.requireNonNull`.
unfoldable pub require_non_null {ℓ} : {A : Type ℓ} → Option A → Attempt A
require_non_null none = raise null_pointer
require_non_null (some a) = value a

abbrev pub given_or : {A : Type 0} → Option A → A → A
given_or none d = d
given_or (some a) d = a

abbrev is_given : {A : Type 0} → Option A → Bool
is_given none = false
is_given (some a) = true

-- `client_of`, `uri_of` and `public_uri_of` are `getClient`, `getUri` and `getPublicUriAsString` of
-- a host, `create` is `createServiceClient`, `add_path` is `addPathFromAnnotation`, `parse` is
-- `parseInterfaceForJaxRsInfo`, and `defaults` the parts of a new handler.
module _ {H C U F : Type 0} (client_of : H → C) (uri_of : H → U) (public_uri_of : H → String)
    (create : Attempt C) (add_path : String → U → U)
    (parse : String → HashMap String → Attempt (List MethodInfo)) (defaults : Parts F) where
  -- The base URI by the supplier that was given, or the base URI, or the host.
  unfoldable pub base_of : String → Option U → Option U → Option H → Attempt U
  unfolding require_non_null
  base_of resource (some supplied) base host = value supplied
  base_of resource none (some base) host = value (add_path resource base)
  base_of resource none none host =
      and_then (λ h. value (add_path resource (uri_of h))) (require_non_null host)

  unfoldable pub service_client_of : Option H → Attempt C
  service_client_of none = create
  service_client_of (some h) = value (client_of h)

  unfoldable pub referrer_of : Option H → String
  referrer_of none = default_referrer
  referrer_of (some h) = public_uri_of h

  unfoldable pub parts_of : JaxRsServiceClient H U F → Parts F
  parts_of b = record {
    op_builder = given_or b.op_builder defaults.op_builder;
    error_handler = given_or b.error_handler defaults.error_handler;
    response_decoder = given_or b.response_decoder defaults.response_decoder;
    interceptor = given_or b.interceptor defaults.interceptor;
  }

  -- The handler with its fields set, and its `init`.
  unfoldable pub initialise :
      JaxRsServiceClient H U F → String → U → C → Attempt (ProxyHandler C U F)
  unfolding referrer_of parts_of
  initialise b resource base client =
      let resolution = given_or b.type_resolution [] in
      and_then
        (λ methods. value (record {
          resource_interface = resource;
          base_uri = base;
          client = client;
          referrer = referrer_of b.host;
          type_resolution = resolution;
          parts = parts_of b;
          http_methods = methods;
        }))
        (parse resource resolution)

  -- `build`, up to the proxy instance.
  unfoldable pub build_proxy : JaxRsServiceClient H U F → Attempt (ProxyHandler C U F)
  unfolding base_of service_client_of initialise require_non_null
  build_proxy b =
      and_then
        (λ resource.
          and_then (λ base. and_then (initialise b resource base) (service_client_of b.host))
            (base_of resource b.base_uri_supplier b.base_uri b.host))
        (require_non_null b.resource_interface)

  -- What is promised of a proxy: where it sends to and by which client.
  abbrev pub Uses : JaxRsServiceClient H U F → ProxyHandler C U F → Type 0
  Uses b p =
      (b.resource_interface ≡ some p.resource_interface)
      × (base_of p.resource_interface b.base_uri_supplier b.base_uri b.host ≡ value p.base_uri)
      × (service_client_of b.host ≡ value p.client)
      × (parse p.resource_interface (given_or b.type_resolution []) ≡ value p.http_methods)
      × (p.parts ≡ parts_of b)
      × (p.type_resolution ≡ given_or b.type_resolution [])
      × (p.referrer ≡ referrer_of b.host)

  -- The client has an interface, and a supplier of its base URI, a base URI or a host.
  abbrev pub is_complete : JaxRsServiceClient H U F → Bool
  is_complete b =
      is_given b.resource_interface
      && (is_given b.base_uri_supplier || (is_given b.base_uri || is_given b.host))

  base_of-missing :
      (resource : String) (supplied base : Option U) (host : Option H)
      → (is_given supplied || (is_given base || is_given host)) ≡ false
      → base_of resource supplied base host ≡ raise null_pointer
  unfolding base_of require_non_null
  base_of-missing resource none none none h = refl
  base_of-missing resource none none (some host) h = ground arith
  base_of-missing resource none (some base) host h = ground arith
  base_of-missing resource (some supplied) base host h = ground arith

  require_non_null-some :
      {A : Type 0} (o : Option A) (a : A) → require_non_null o ≡ value a → o ≡ some a
  unfolding require_non_null
  require_non_null-some none a h = ground arith
  require_non_null-some (some b) a h = ground arith

  initialise-Uses :
      (b : JaxRsServiceClient H U F) (resource : String) (base : U) (client : C)
      (p : ProxyHandler C U F)
      → b.resource_interface ≡ some resource
      → base_of resource b.base_uri_supplier b.base_uri b.host ≡ value base
      → service_client_of b.host ≡ value client
      → initialise b resource base client ≡ value p
      → Uses b p
  unfolding initialise
  initialise-Uses b resource base client p resource_is base_is client_is h =
      let (methods, parsed, made) =
        and_then-value _ (parse resource (given_or b.type_resolution [])) p h in
      let proxy : ProxyHandler C U F = record {
        resource_interface = resource;
        base_uri = base;
        client = client;
        referrer = referrer_of b.host;
        type_resolution = given_or b.type_resolution [];
        parts = parts_of b;
        http_methods = methods;
      } in
      let same : proxy ≡ p = ground arith in
      subst (Uses b) same (resource_is, base_is, client_is, parsed, refl, refl, refl)

  -- A proxy that has been built is for the interface that was given, whose methods it knows; it
  -- sends to what the supplier of the base URI gives, or to the base URI, or to the host, the first
  -- of these that was given; by the client of the host, or a new one without a host; and it uses
  -- each part and type resolution that was given and the default otherwise.
  pub build_proxy-Uses :
      (b : JaxRsServiceClient H U F) (p : ProxyHandler C U F) → build_proxy b ≡ value p → Uses b p
  unfolding build_proxy
  build_proxy-Uses b p h =
      let (resource, resource_is, h₁) =
        and_then-value _ (require_non_null b.resource_interface) p h in
      let (base, base_is, h₂) =
        and_then-value _ (base_of resource b.base_uri_supplier b.base_uri b.host) p h₁ in
      let (client, client_is, h₃) =
        and_then-value (initialise b resource base) (service_client_of b.host) p h₂ in
      initialise-Uses b resource base client p
        (require_non_null-some b.resource_interface resource resource_is) base_is client_is h₃

  -- Without an interface, or without a supplier, a base URI and a host, no proxy is built, and a
  -- null pointer exception is thrown.
  pub build_proxy-incomplete :
      (b : JaxRsServiceClient H U F) → is_complete b ≡ false → build_proxy b ≡ raise null_pointer
  unfolding build_proxy require_non_null
  build_proxy-incomplete b h = elim (Option-cases b.resource_interface) [
    | inl e ↦ rw e refl
    | inr (resource, e) ↦
        let missing =
          base_of-missing resource b.base_uri_supplier b.base_uri b.host (ground arith) in
        rw (e, missing) refl
  ]
