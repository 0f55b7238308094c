-- ===== src/Jaxrs/Client/Invoking/Tests.antt =====
-- Calls of a client of one document.
use xenon_ext.Prelude.{
  arith, ◌≡◌, refl, Bool, true, false, Option, none, some, List, [], ◌∷◌, String, str_eq, inl,
}
use xenon_ext.HashMap.{put, get}
use xenon_ext.Effect.{Throwable, illegal_state, value}
use xenon_ext.Fsm.Representation.{◌<>◌, contains}
use xenon_ext.Jaxrs.Paths.{parse_path_params}
use xenon_ext.Jaxrs.Metadata.{
  JavaType, Method, MethodInfo, path, generate_method_info, type_variable, parameterized,
  future_class,
}
use xenon_ext.Jaxrs.Metadata.Methods.{Describes}
use xenon_ext.Jaxrs.Routing.{Tried, got, Settled, result}
use xenon_ext.Jaxrs.Client.Sending.{
  Interceptor, ReturnKind, other, Called, returned, returned_future, thrown, decoded, null, invoke,
}
use xenon_ext.Jaxrs.Client.Defaults.{JaxRsServiceClient, ProxyHandler, Parts}
use xenon_ext.Jaxrs.Client.Equipped.{Equipped}
use xenon_ext.Jaxrs.Client.Contracts.{build_for}
use xenon_ext.Jaxrs.Client.Invoking.{default_error_handler, operation_decoder, invoke_proxy}
use xenon_ext.Jaxrs.Client.Invoking.Answered.{call, invoke_proxy-described, invoke_proxy-exposed}

abbrev get_method : Method
get_method = record {
  name = "get";
  is_public = true;
  annotations = none ∷ some "GET" ∷ [];
  path = some "/{id}";
  return_type = future_class;
  generic_return_type = parameterized future_class (type_variable "T");
  parameters =
      record {
        name = "arg0";
        query_param = none;
        path_param = some "id";
        header_param = none;
        cookie_param = none;
        operation_body = false;
        type_name = "java.lang.String";
      }
      ∷ [];
}

abbrev helper_method : Method
helper_method = record get_method { name = "helper"; annotations = [] }

abbrev same_name : Method → Method → Bool
same_name n m = str_eq n.name m.name

abbrev is_helper : Method → Bool
is_helper m = str_eq m.name "helper"

abbrev methods : String → List Method
methods resource = helper_method ∷ get_method ∷ []

abbrev parts : Parts String
parts = record {
  op_builder = "built";
  error_handler = "errors";
  response_decoder = "json";
  interceptor = "none";
}

abbrev text : String → String
text host = host

abbrev onto : String → String → String
onto resource base = base <> resource

abbrev builder : JaxRsServiceClient String String String
builder = record {
  resource_interface = some "/docs";
  host = some "local";
  base_uri = some "base";
  base_uri_supplier = none;
  type_resolution = some (("T", "Doc") ∷ []);
  op_builder = none;
  error_handler = none;
  response_decoder = some "xml";
  interceptor = none;
}

abbrev get_info : MethodInfo
get_info = record {
  method = get_method;
  parameters =
      record { name = some "id"; parameter_index = 0; type_ = path; paramter_type = none } ∷ [];
  uri_path = some "/{id}";
  action = some "GET";
  path_params_vs_uri_index = ("id", 1) ∷ [];
  async_api = true;
  return_type = "Doc";
  type_ = type_variable "T";
}

abbrev client : ProxyHandler String String String
client = record {
  resource_interface = "/docs";
  base_uri = "base/docs";
  client = "local";
  referrer = "local";
  type_resolution = ("T", "Doc") ∷ [];
  parts = record parts { response_decoder = "xml" };
  http_methods = get_info ∷ [];
}

abbrev special : Method → String → Called String Throwable
special m arg = returned null

abbrev kind_of : String → ReturnKind
kind_of class_name = other

abbrev has_body : String → Bool
has_body op = true

abbrev build_by : String → String → String → MethodInfo → String → Tried Throwable String
build_by name referrer base info arg = got (name <> " for " <> base <> "/" <> arg)

abbrev decode_by : String → String → JavaType → String → Tried Throwable String
decode_by name op t class_name =
    operation_decoder (λ o s. got (name <> " JSON " <> o))
      (λ o c. got (name <> " " <> c <> " " <> o)) op t class_name

abbrev error_by : String → String × Throwable → Settled String Throwable
error_by name failed = default_error_handler failed

abbrev intercept_by : String → Interceptor String Throwable
intercept_by name = record { before = λ op. got op; after = λ op completed. got completed }

abbrev send_by : String → String → String × Option Throwable
send_by sender op = (op <> " by " <> sender, none)

abbrev answer : Called String Throwable
answer = returned_future (result (decoded "xml Doc built for base/docs/7 by local"))

helper_apart : same_name helper_method get_method ≡ true → helper_method ≡ get_method
helper_apart e = ground arith

invoke_proxy-described_example :
    call text text text
      (value "new")
      onto
      ("GET" ∷ [])
      methods
      parts
      same_name
      is_helper
      special
      kind_of
      has_body
      build_by
      decode_by
      error_by
      intercept_by
      send_by
      client
      "/docs"
      get_method
      "7"
    ≡ answer
unfolding operation_decoder invoke_proxy build_for generate_method_info contains parse_path_params
    put get
invoke_proxy-described_example =
    invoke_proxy-described text text text (value "new") onto ("GET" ∷ []) methods parts same_name
      is_helper special kind_of has_body build_by decode_by error_by intercept_by send_by builder
      client "/docs" get_method "7" refl (helper_apart, ((λ e. refl), tt))

elsewhere :
    call text text text
      (value "new")
      onto
      ("GET" ∷ [])
      methods
      parts
      same_name
      is_helper
      special
      kind_of
      has_body
      build_by
      decode_by
      error_by
      intercept_by
      send_by
      client
      "/other"
      get_method
      "7"
    ≡ thrown (illegal_state "Proxy interface is not same as service interface")
unfolding invoke_proxy
elsewhere = refl

invoke_proxy-exposed_example :
    (i : MethodInfo) × (call text text text
        (value "new")
        onto
        ("GET" ∷ [])
        methods
        parts
        same_name
        is_helper
        special
        kind_of
        has_body
        build_by
        decode_by
        error_by
        intercept_by
        send_by
        client
        "/docs"
        get_method
        "7"
      ≡ invoke kind_of has_body
          (decode_by "xml")
          (error_by "errors")
          (intercept_by "none")
          (send_by "local")
          i
          (build_by "built" "local" "base/docs" i "7"))
    × (i.method ≡ get_method)
    × Describes i
    × Equipped text text text (value "new") onto parts builder client
unfolding build_for generate_method_info contains parse_path_params put get
invoke_proxy-exposed_example =
    invoke_proxy-exposed text text text (value "new") onto ("GET" ∷ []) methods parts same_name
      is_helper special kind_of has_body build_by decode_by error_by intercept_by send_by builder
      client get_method "7" refl refl (helper_apart, ((λ e. refl), tt)) refl (inl refl)
