-- ===== src/Jaxrs/Client/Contracts.antt =====
-- The clients that the code builds: the with methods of JaxRsServiceClient.java,
-- newStatefulSvcContract of ServiceClientUtil.java and newLocalhostContract of
-- JaxRsBridgeStatelessService.java.
pub mod Typed
pub mod ByLink
mod Tests
use xenon_ext.Prelude.{Option, none, some, List, [], ◌∷◌, String}
use xenon_ext.HashMap.{HashMap, put}
use xenon_ext.Effect.{Attempt, value}
use xenon_ext.Jaxrs.Metadata.{Method, MethodInfo, generate_method_info}
use xenon_ext.Jaxrs.Client.Defaults.{JaxRsServiceClient, ProxyHandler, Parts, given_or, build_proxy}

abbrev pub stateful_contract : String
stateful_contract = "com.tteky.xenonext.client.StatefulServiceContract"

module _ {H U F : Type 0} where
  unfoldable pub new_builder : JaxRsServiceClient H U F
  new_builder = record {
    resource_interface = none;
    host = none;
    base_uri = none;
    base_uri_supplier = none;
    type_resolution = none;
    op_builder = none;
    error_handler = none;
    response_decoder = none;
    interceptor = none;
  }

  unfoldable pub with_resource_interface :
      String → JaxRsServiceClient H U F → JaxRsServiceClient H U F
  with_resource_interface resource b = record b { resource_interface = some resource }

  unfoldable pub with_host : H → JaxRsServiceClient H U F → JaxRsServiceClient H U F
  with_host host b = record b { host = some host }

  -- The method that takes a text builds a URI of it first.
  unfoldable pub with_base_uri : U → JaxRsServiceClient H U F → JaxRsServiceClient H U F
  with_base_uri base b = record b { base_uri = some base }

  unfoldable pub with_base_uri_supplier : U → JaxRsServiceClient H U F → JaxRsServiceClient H U F
  with_base_uri_supplier supplied b = record b { base_uri_supplier = some supplied }

  unfoldable pub with_interceptor : F → JaxRsServiceClient H U F → JaxRsServiceClient H U F
  with_interceptor interceptor b = record b { interceptor = some interceptor }

  unfoldable pub with_generic_type_resolution :
      String → String → JaxRsServiceClient H U F → JaxRsServiceClient H U F
  with_generic_type_resolution name class_name b = record b {
    type_resolution = some (put name class_name (given_or b.type_resolution []));
  }

  unfoldable pub with_error_handler : F → JaxRsServiceClient H U F → JaxRsServiceClient H U F
  with_error_handler handler b = record b { error_handler = some handler }

  unfoldable pub with_operation_builder : F → JaxRsServiceClient H U F → JaxRsServiceClient H U F
  with_operation_builder builder b = record b { op_builder = some builder }

  unfoldable pub with_response_decoder : F → JaxRsServiceClient H U F → JaxRsServiceClient H U F
  with_response_decoder decoder b = record b { response_decoder = some decoder }

  -- The calls of the with methods in `newStatefulSvcContract`.
  unfoldable pub stateful_builder : H → U → String → JaxRsServiceClient H U F
  unfolding new_builder with_host with_resource_interface with_base_uri with_generic_type_resolution
  stateful_builder host base class_name =
      with_generic_type_resolution "T" class_name (
        with_resource_interface stateful_contract (with_base_uri base (with_host host new_builder)))

-- `methods_of` are the methods of an interface by its name, `public_uri` is `getPublicUri` and
-- `extend_uri` is `UriUtils.extendUri`; the others are those of Defaults.
module _ {H C U F : Type 0} (client_of : H → C) (uri_of : H → U) (public_uri_of : H → String)
    (create : Attempt C) (add_path : String → U → U) (actions : List String)
    (methods_of : String → List Method) (defaults : Parts F) where
  -- `build`, which reads the methods of the interface.
  unfoldable pub build_for : JaxRsServiceClient H U F → Attempt (ProxyHandler C U F)
  unfolding build_proxy generate_method_info
  build_for b =
      build_proxy client_of uri_of public_uri_of create add_path
        (λ resource resolution. generate_method_info actions (methods_of resource) resolution)
        defaults b

  unfoldable pub new_localhost_contract : H → String → Attempt (ProxyHandler C U F)
  unfolding build_for new_builder with_host with_resource_interface
  new_localhost_contract host class_name =
      build_for (with_resource_interface class_name (with_host host new_builder))

  unfoldable pub new_stateful_svc_contract :
      (H → U) → (U → String → U) → H → String → String → Attempt (ProxyHandler C U F)
  unfolding build_for stateful_builder
  new_stateful_svc_contract public_uri extend_uri host base_uri class_name =
      build_for (stateful_builder host (extend_uri (public_uri host) base_uri) class_name)
