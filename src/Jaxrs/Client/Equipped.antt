-- ===== src/Jaxrs/Client/Equipped.antt =====
-- Where a client that JaxRsServiceClient.java has built sends to, and by which parts.
use xenon_ext.Prelude.{
  ◌≡◌, refl, sym, subst, ap, ◌⊎◌, inl, inr, Option, none, some, List, String, arith, Option-cases,
}
use xenon_ext.HashMap.{HashMap}
use xenon_ext.Effect.{Attempt, value}
use xenon_ext.Jaxrs.Metadata.{MethodInfo}
use xenon_ext.Jaxrs.Client.Defaults.{
  JaxRsServiceClient, ProxyHandler, Parts, given_or, require_non_null, base_of, service_client_of,
  referrer_of, parts_of, Uses,
}

-- What was given, or the default if nothing was.
abbrev pub Chosen : {A : Type 0} → Option A → A → A → Type 0
Chosen given default a = (given ≡ some a) ⊎ ((given ≡ none) × (a ≡ default))

given_or-Chosen :
    {A : Type 0} (given : Option A) (default : A) → Chosen given default (given_or given default)
given_or-Chosen none default = inr (refl, refl)
given_or-Chosen (some a) default = inl refl

module _ {H C U F : Type 0} (client_of : H → C) (uri_of : H → U) (public_uri_of : H → String)
    (create : Attempt C) (add_path : String → U → U) (defaults : Parts F) where
  -- The base URI: what the supplier gives, or the one given or the one of the host, extended by
  -- the path of the interface.
  abbrev pub BaseFrom : JaxRsServiceClient H U F → ProxyHandler C U F → Type 0
  BaseFrom b p =
      (b.base_uri_supplier ≡ some p.base_uri)
      ⊎ ((b.base_uri_supplier ≡ none)
          × (((u : U) × (b.base_uri ≡ some u) × (p.base_uri ≡ add_path p.resource_interface u))
              ⊎ ((b.base_uri ≡ none)
                  × ((h : H) × (b.host ≡ some h)
                      × (p.base_uri ≡ add_path p.resource_interface (uri_of h))))))

  -- The sender and the referrer: those of the host, or a new sender and the default referrer.
  abbrev pub HostFrom : JaxRsServiceClient H U F → ProxyHandler C U F → Type 0
  HostFrom b p =
      ((h : H) × (b.host ≡ some h) × (p.client ≡ client_of h) × (p.referrer ≡ public_uri_of h))
      ⊎ ((b.host ≡ none) × (create ≡ value p.client) × (p.referrer ≡ "/jaxrs/xenon/client"))

  -- Each part that was given, and the default otherwise.
  abbrev pub PartsFrom : JaxRsServiceClient H U F → ProxyHandler C U F → Type 0
  PartsFrom b p =
      Chosen b.op_builder defaults.op_builder p.parts.op_builder
      × Chosen b.error_handler defaults.error_handler p.parts.error_handler
      × Chosen b.response_decoder defaults.response_decoder p.parts.response_decoder
      × Chosen b.interceptor defaults.interceptor p.parts.interceptor

  abbrev pub Equipped : JaxRsServiceClient H U F → ProxyHandler C U F → Type 0
  Equipped b p =
      (b.resource_interface ≡ some p.resource_interface)
      × BaseFrom b p
      × HostFrom b p
      × PartsFrom b p

  module _ (parse : String → HashMap String → Attempt (List MethodInfo)) where
    base_of-BaseFrom :
        (b : JaxRsServiceClient H U F) (p : ProxyHandler C U F)
        → base_of client_of uri_of public_uri_of create add_path parse defaults p.resource_interface
            b.base_uri_supplier b.base_uri b.host
          ≡ value p.base_uri
        → BaseFrom b p
    unfolding base_of require_non_null
    base_of-BaseFrom b p e = elim (Option-cases b.base_uri_supplier) [
      | inr (supplied, given) ↦ inl (ground arith)
      | inl none_given ↦ elim (Option-cases b.base_uri) [
        | inr (base, given) ↦ inr (none_given, inl (base, given, ground arith))
        | inl no_base ↦ elim (Option-cases b.host) [
          | inr (host, given) ↦ inr (none_given, inr (no_base, (host, given, ground arith)))
          | inl no_host ↦ absurd (ground arith)
        ]
      ]
    ]

    service_client_of-HostFrom :
        (b : JaxRsServiceClient H U F) (p : ProxyHandler C U F)
        → service_client_of client_of uri_of public_uri_of create add_path parse defaults b.host
          ≡ value p.client
        → p.referrer
          ≡ referrer_of client_of uri_of public_uri_of create add_path parse defaults b.host
        → HostFrom b p
    unfolding service_client_of referrer_of
    service_client_of-HostFrom b p e referrer = elim (Option-cases b.host) [
      | inr (host, given) ↦ inl (host, given, ground arith, ground arith)
      | inl no_host ↦ inr (no_host, ground arith, ground arith)
    ]

    parts_of-PartsFrom :
        (b : JaxRsServiceClient H U F) (p : ProxyHandler C U F)
        → p.parts ≡ parts_of client_of uri_of public_uri_of create add_path parse defaults b
        → PartsFrom b p
    unfolding parts_of
    parts_of-PartsFrom b p e = (
      subst (Chosen b.op_builder defaults.op_builder) (sym (ap (λ q. q.op_builder) e))
          (given_or-Chosen b.op_builder defaults.op_builder),
      subst (Chosen b.error_handler defaults.error_handler) (sym (ap (λ q. q.error_handler) e))
          (given_or-Chosen b.error_handler defaults.error_handler),
      subst (Chosen b.response_decoder defaults.response_decoder)
          (sym (ap (λ q. q.response_decoder) e))
          (given_or-Chosen b.response_decoder defaults.response_decoder),
      subst (Chosen b.interceptor defaults.interceptor) (sym (ap (λ q. q.interceptor) e))
          (given_or-Chosen b.interceptor defaults.interceptor),
    )

    pub Uses-Equipped :
        (b : JaxRsServiceClient H U F) (p : ProxyHandler C U F)
        → Uses client_of uri_of public_uri_of create add_path parse defaults b p
        → Equipped b p
    Uses-Equipped b p (resource, base, client, parsed, parts, types, referrer) = (
      resource,
      base_of-BaseFrom b p base,
      service_client_of-HostFrom b p client referrer,
      parts_of-PartsFrom b p parts,
    )
