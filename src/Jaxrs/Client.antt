-- ===== src/Jaxrs/Client.antt =====
-- The client proxy: ProxyHandler.java, InterceptorChain.java and JaxRsServiceClient.java.
pub mod Replacing
pub mod Gathering
pub mod Building
pub mod Sending
pub mod Defaults
pub mod Equipped
pub mod Invoking
pub mod Returned
pub mod Contracts
mod Tests
use mathlib.Core.Option
use xenon_ext.Prelude.{
  ℕ, Bool, true, false, Option, none, some, List, [], ◌∷◌, ◌++◌, String, if◌then◌else◌, get_elem?,
}
use xenon_ext.HashMap.{HashMap, put}
use xenon_ext.Effect.{Throwable, null_pointer, user_exception, Attempt, value, raise}
use xenon_ext.Fsm.Representation.{◌<>◌}
use xenon_ext.Jaxrs.Metadata.{
  ParamType, path, query, body, operation, header, cookie, ParamMetadata, MethodInfo, and_then,
}
use xenon_ext.Jaxrs.Routing.{name_of}
use xenon_ext.Jaxrs.Client.Replacing.{replace_all}

-- What `buildOperation` has gathered. `query_uri`, an array of names and values in
-- turn, is the list of its pairs.
pub record Gathered (V : Type 0) : Type 0 where
  pub method_uri : Option String
  pub query_uri : List (String × String)
  pub body : Option V
  pub headers : HashMap String
  pub cookies : HashMap String

-- The operation that is sent, by its URI, a `U`.
pub record Sent (U V : Type 0) : Type 0 where
  pub uri : U
  pub body : Option V
  pub headers : HashMap String
  pub cookies : HashMap String
  pub action : Option String
  pub referer : String

-- `methodUri.replaceAll`.
unfoldable pub replace_path : String → String → Option String → Attempt (Option String)
unfolding replace_all
replace_path name text none = raise null_pointer
replace_path name text (some uri) =
    and_then (λ u. value (some u)) (replace_all ("{" <> name <> "}") text uri)

module _ {V : Type 0} (text_of : V → String) where
  -- The body of the loop for an argument that is not null, by the type of its parameter; `text_of`
  -- is `String.valueOf`.
  unfoldable pub add_argument : ParamType → String → V → Gathered V → Attempt (Gathered V)
  unfolding replace_path
  add_argument path name arg g =
      and_then (λ u. value (record g { method_uri = u }))
        (replace_path name (text_of arg) g.method_uri)
  add_argument query name arg g =
      value (record g { query_uri = g.query_uri ++ (name, text_of arg) ∷ [] })
  add_argument body name arg g = value (record g { body = some arg })
  add_argument header name arg g = value (record g { headers = put name (text_of arg) g.headers })
  add_argument cookie name arg g = value (record g { cookies = put name (text_of arg) g.cookies })
  add_argument operation name arg g = value g

  -- `args[i]`, which may be null or out of bounds.
  unfoldable pub add_parameter :
      ParamMetadata → Option (Option V) → Gathered V → Attempt (Gathered V)
  unfolding add_argument
  add_parameter p none g = raise (user_exception "ArrayIndexOutOfBoundsException")
  add_parameter p (some none) g = value g
  add_parameter p (some (some arg)) g = add_argument p.type_ (name_of p) arg g

  unfoldable pub gather : List (Option V) → List ParamMetadata → Gathered V → Attempt (Gathered V)
  unfolding add_parameter
  gather args [] g = value g
  gather args (p ∷ ps) g =
      and_then (gather args ps) (add_parameter p (get_elem? args p.parameter_index) g)

  -- `extend` is `extendUri` at the base URI, and `extend_with_query` is `extendUriWithQuery`.
  unfoldable pub build_operation :
      {U : Type 0}
      → (Option String → U)
      → (U → List (String × String) → U)
      → String
      → MethodInfo
      → List (Option V)
      → Attempt (Sent U V)
  unfolding gather
  build_operation extend extend_with_query referrer info args =
      and_then
        (λ g. value (record {
          uri = extend_with_query (extend g.method_uri) g.query_uri;
          body = g.body;
          headers = g.headers;
          cookies = g.cookies;
          action = info.action;
          referer = referrer;
        }))
        (gather args info.parameters (record {
          method_uri = info.uri_path;
          query_uri = [];
          body = none;
          headers = [];
          cookies = [];
        }))
