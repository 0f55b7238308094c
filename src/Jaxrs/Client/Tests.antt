-- ===== src/Jaxrs/Client/Tests.antt =====
-- A client of a method with a header, a cookie, a query and a path parameter.
use xenon_ext.Prelude.{◌↔◌, ℕ, ◌≡◌, refl, true, false, Option, none, some, List, [], ◌∷◌, String}
use xenon_ext.HashMap.{HashMap, get, put}
use xenon_ext.Effect.{Throwable, value, raise, user_exception, null_pointer}
use xenon_ext.Fsm.Representation.{◌<>◌}
use xenon_ext.Jaxrs.Metadata.{
  class_type, MethodInfo, ParamMetadata, ParamType, path, query, header, cookie,
}
use xenon_ext.Jaxrs.Routing.{text, Request, got, threw, argument_of}
use xenon_ext.Jaxrs.Client.{Sent, build_operation}
use xenon_ext.Jaxrs.Client.Replacing.{replace_all}
use xenon_ext.Jaxrs.Client.Gathering.{put_pairs}
use xenon_ext.Jaxrs.Client.Building.{Carries, named, argument_of-build_operation}
use xenon_ext.Jaxrs.Client.Invoking.{default_error_handler}
use xenon_ext.Jaxrs.Client.Returned.{awaited, Behind, awaited_returned_iff}
use xenon_ext.Jaxrs.Client.Sending.{Interceptor, other, invoke, returned, decoded}

-- A dollar in a path argument is taken as a reference to a group.
dollars : replace_all "{id}" "$5" "/x/{id}" ≡ raise (user_exception "IndexOutOfBoundsException")
unfolding replace_all
dollars = refl

replaced : replace_all "{id}" "a" "/x/{id}/{id}{" ≡ value "/x/a/a{"
unfolding replace_all
replaced = refl

abbrev parameter : ParamType → String → ℕ → ParamMetadata
parameter t n i = record { name = some n; parameter_index = i; type_ = t; paramter_type = none }

abbrev info : MethodInfo
info = record {
  method = record {
    name = "m";
    is_public = true;
    annotations = some "GET" ∷ [];
    path = some "/x/{id}";
    return_type = "T";
    generic_return_type = class_type "T";
    parameters = [];
  };
  parameters =
      parameter path "id" 0
      ∷ parameter header "h" 1
      ∷ parameter cookie "c" 2
      ∷ parameter query "q" 3
      ∷ [];
  uri_path = some "/x/{id}";
  action = some "GET";
  path_params_vs_uri_index = ("id", 2) ∷ [];
  async_api = false;
  return_type = "T";
  type_ = class_type "T";
}

-- A URI by its path and its query.
abbrev Uri : Type 0
Uri = Option String × List (String × String)

abbrev extend : Option String → Uri
extend p = (p, [])

abbrev extend_with_query : Uri → List (String × String) → Uri
extend_with_query u q = (u.0, q)

abbrev parse : Uri → HashMap String
parse u = put_pairs u.1 []

abbrev args : List (Option String)
args = some "1" ∷ some "two" ∷ none ∷ some "four" ∷ []

abbrev sent : Sent Uri String
sent = record {
  uri = (some "/x/1", ("q", "four") ∷ []);
  body = none;
  headers = ("h", "two") ∷ [];
  cookies = [];
  action = some "GET";
  referer = "here";
}

abbrev request : Request String Throwable
request = record {
  query_params = ("q", "four") ∷ [];
  uri_path = "/x/1";
  cookies = some [];
  request_header = λ name. get name (("h", "two") ∷ []);
  get_body = λ type_. threw null_pointer;
}

abbrev carried : Carries parse sent request "q"
unfolding put
carried = record { same_header = refl; same_cookies = refl; same_query = refl }

argument_of-build_operation_example :
    (argument_of {V = String} (λ b. []) (λ s. s) info "/x/{id}" request (named header "q" 3 none)
      ≡ got (text none, []))
    × (argument_of {V = String} (λ b. []) (λ s. s) info "/x/{id}" request (named cookie "q" 3 none)
        ≡ got (text none, []))
    × (argument_of {V = String} (λ b. []) (λ s. s) info "/x/{id}" request (named query "q" 3 none)
        ≡ got (text (some "four"), []))
unfolding build_operation put
argument_of-build_operation_example =
    argument_of-build_operation (λ s. s) extend extend_with_query parse (λ u q. refl) "here" info
      args sent request (λ b. []) (λ s. s) info "/x/{id}" "q" 3 none refl carried

abbrev tagging : String → Interceptor String String
tagging t = record {
  before = λ op. got (op <> t);
  after = λ op completed. got (completed.0 <> t, completed.1);
}

abbrev answers : String → String × Option String
answers op = (op <> "!", none)

awaited_returned_iff_example :
    (awaited (
        invoke
          (λ c. other)
          (λ o. true)
          (λ o t c. got o)
          default_error_handler
          (tagging "a")
          answers
          info
          (got "op"))
      ≡ returned (decoded "opa!a"))
    ↔ Behind
        (λ c. other)
        (λ o. true)
        (λ o t c. got o)
        (tagging "a")
        answers
        info
        (got "op")
        (decoded "opa!a")
unfolding invoke
awaited_returned_iff_example =
    awaited_returned_iff (λ c. other) (λ o. true) (λ o t c. got o) (tagging "a") answers info
      (got "op") (decoded "opa!a")

-- The value is returned, since the operation has been sent and completed.
returned_example :
    awaited (
      invoke
        (λ c. other)
        (λ o. true)
        (λ o t c. got o)
        default_error_handler
        (tagging "a")
        answers
        info
        (got "op"))
    ≡ returned (decoded "opa!a")
unfolding invoke
returned_example = refl
