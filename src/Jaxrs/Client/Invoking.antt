-- ===== src/Jaxrs/Client/Invoking.antt =====
-- `invoke` of ProxyHandler.java: by which description a method is called.
pub mod Described
pub mod Answered
mod Tests
use xenon_ext.Prelude.{
  Bool, true, false, Option, none, some, List, [], ◌∷◌, String, str_eq, if◌then◌else◌,
}
use xenon_ext.HashMap.{HashMap}
use xenon_ext.Effect.{Throwable, illegal_state, user_exception, Attempt, value, raise}
use xenon_ext.Jaxrs.Metadata.{
  JavaType, parameterized, Method, MethodInfo, and_then, generate_method_info,
}
use xenon_ext.Jaxrs.Routing.{Tried, Settled, exception}
use xenon_ext.Jaxrs.Client.Sending.{Interceptor, ReturnKind, Called, thrown, invoke}
use xenon_ext.Jaxrs.Client.Defaults.{ProxyHandler}

-- `get(0)`.
unfoldable pub first_info : List MethodInfo → Attempt MethodInfo
first_info [] = raise (user_exception "IndexOutOfBoundsException")
first_info (i ∷ infos) = value i

unfoldable pub default_error_handler : {O E : Type 0} → O × E → Settled O E
default_error_handler (op, e) = exception e

-- `from_json` is `Utils.fromJson` on the JSON of the raw body, and `get_body` is `getBody`.
unfoldable pub operation_decoder :
    {O E R : Type 0}
    → (O → JavaType → Tried E R)
    → (O → String → Tried E R)
    → O
    → JavaType
    → String
    → Tried E R
operation_decoder from_json get_body op (parameterized raw argument) return_type =
    from_json op (parameterized raw argument)
operation_decoder from_json get_body op t return_type = get_body op return_type

-- `equals` is that of java.lang.reflect.Method, and `actions` are the names of the actions.
module _ (equals : Method → Method → Bool) (actions : List String) where
  -- The filter and `findFirst`.
  unfoldable pub find_info : Method → List MethodInfo → Option MethodInfo
  find_info m [] = none
  find_info m (i ∷ infos) =
      let rest = find_info m infos in if equals i.method m then some i else rest

  -- `orElseGet`.
  unfoldable pub or_generated : HashMap String → Method → Option MethodInfo → Attempt MethodInfo
  unfolding first_info generate_method_info
  or_generated resolution m none =
      and_then first_info (generate_method_info actions (m ∷ []) resolution)
  or_generated resolution m (some i) = value i

  unfoldable pub method_info_of : HashMap String → List MethodInfo → Method → Attempt MethodInfo
  unfolding find_info or_generated
  method_info_of resolution infos m = or_generated resolution m (find_info m infos)

  -- `is_default` is that of a method, `invoke_special` calls a default method on the proxy,
  -- `send_by` sends by a client, and the functions before it are the parts of a handler: a builder
  -- gives the operation for the referrer and the base URI of its handler.
  module _ {C U F O R A : Type 0} (is_default : Method → Bool)
      (invoke_special : Method → A → Called R Throwable) (kind_of : String → ReturnKind)
      (has_body : O → Bool) (build_by : F → String → U → MethodInfo → A → Tried Throwable O)
      (decode_by : F → O → JavaType → String → Tried Throwable R)
      (error_by : F → O × Throwable → Settled O Throwable)
      (intercept_by : F → Interceptor O Throwable) (send_by : C → O → O × Option Throwable) where
    unfoldable pub invoke_described :
        ProxyHandler C U F → A → Attempt MethodInfo → Called R Throwable
    unfolding invoke
    invoke_described p args (raise e) = thrown e
    invoke_described p args (value info) =
        invoke kind_of has_body (decode_by p.parts.response_decoder)
          (error_by p.parts.error_handler) (intercept_by p.parts.interceptor) (send_by p.client)
          info (build_by p.parts.op_builder p.referrer p.base_uri info args)

    -- A call of a method of a proxy, by the first interface of the class of the proxy.
    unfoldable pub invoke_proxy : ProxyHandler C U F → String → Method → A → Called R Throwable
    unfolding method_info_of invoke_described
    invoke_proxy p proxy_interface m args =
        if is_default m
        then invoke_special m args
        else if str_eq proxy_interface p.resource_interface
        then invoke_described p args (method_info_of p.type_resolution p.http_methods m)
        else thrown (illegal_state "Proxy interface is not same as service interface")
