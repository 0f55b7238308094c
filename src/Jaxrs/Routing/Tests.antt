-- ===== src/Jaxrs/Routing/Tests.antt =====
-- The method `findByGroupAndName` of FeatureService.java.
use xenon_ext.Prelude.{
  arith, ℕ, ◌≡◌, ◌↔◌, refl, true, false, Option, none, some, List, [], ◌∷◌, map, String, All, keep,
  get_elem?,
}
use xenon_ext.HashMap.{get, put}
use xenon_ext.Effect.{Throwable, null_pointer}
use xenon_ext.Fsm.Representation.{contains}
use xenon_ext.Jaxrs.Paths.{split, dynamic_match, parse_path_params}
use xenon_ext.Jaxrs.Paths.Matching.{Fits, dynamic_match_iff}
use xenon_ext.Jaxrs.Metadata.{
  class_type, parameterized, Parameter, Method, MethodInfo, ParamMetadata, ParamType, future_class,
  generate_method_info,
}
use xenon_ext.Jaxrs.Metadata.Methods.{is_exposed, Describes, generate_method_info_lem}
use xenon_ext.Jaxrs.Routing.{
  Argument, text, the_operation, decoded, Request, Tried, got, threw, result, Returned, future,
  set_body, complete, accept, path_argument, has_operation_as_an_argument,
}
use xenon_ext.Jaxrs.Routing.Arguments.{path_argument-named, path_argument-unnamed, EndsAlike}
use xenon_ext.Jaxrs.Routing.Completion.{is_answer, HasCause, accept_answers}

abbrev uri : String
uri = "/find/{group}/{name}"

abbrev full : String
full = "/common/feature/find/{group}/{name}"

abbrev own : List String
own = "find" ∷ "{group}" ∷ "{name}" ∷ []

abbrev path_parameter : String → Parameter
path_parameter name = record {
  name = name;
  query_param = none;
  path_param = some name;
  header_param = none;
  cookie_param = none;
  operation_body = false;
  type_name = "java.lang.String";
}

abbrev find_method : Method
find_method = record {
  name = "findByGroupAndName";
  is_public = true;
  annotations = some "GET" ∷ none ∷ [];
  path = some uri;
  return_type = future_class;
  generic_return_type = parameterized future_class (class_type "Feature");
  parameters = path_parameter "group" ∷ path_parameter "name" ∷ [];
}

abbrev helper_method : Method
helper_method = record find_method { name = "findFeature"; annotations = [] }

abbrev path_metadata : String → ℕ → ParamMetadata
path_metadata name i = record {
  name = some name;
  parameter_index = i;
  type_ = ParamType.path;
  paramter_type = none;
}

abbrev info : MethodInfo
info = record {
  method = find_method;
  parameters = path_metadata "group" 0 ∷ path_metadata "name" 1 ∷ [];
  uri_path = some uri;
  action = some "GET";
  path_params_vs_uri_index = ("group", 2) ∷ ("name", 3) ∷ [];
  async_api = true;
  return_type = "Feature";
  type_ = class_type "Feature";
}

generate_method_info_lem_example :
    (map (λ i. i.method) (info ∷ []) ≡ keep is_exposed (find_method ∷ helper_method ∷ []))
    × All Describes (info ∷ [])
unfolding generate_method_info contains parse_path_params put
generate_method_info_lem_example =
    generate_method_info_lem ("GET" ∷ "PATCH" ∷ []) (find_method ∷ helper_method ∷ []) []
      (info ∷ []) refl

abbrev alike : EndsAlike full uri ("" ∷ "common" ∷ "feature" ∷ []) ("" ∷ []) own
unfolding split
alike = record { full_pieces = refl; uri_pieces = refl }

abbrev tokens : List String
tokens = "" ∷ "common" ∷ "feature" ∷ "find" ∷ "ui" ∷ "dark" ∷ []

path_argument-named_example :
    (path_argument info full tokens "name" ≡ some "dark")
    × (get_elem? (split full) 5 ≡ get_elem? (split uri) 3)
unfolding parse_path_params put
path_argument-named_example =
    path_argument-named info uri full "name" ("" ∷ "common" ∷ "feature" ∷ []) ("" ∷ []) own 2 tokens
      refl refl refl alike refl

-- A parameter of another name receives a piece of the path of the service.
path_argument-unnamed_example :
    (piece : String) × (get_elem? tokens 1 ≡ some piece)
    × (path_argument info full tokens "title" ≡ some piece)
unfolding parse_path_params put
path_argument-unnamed_example =
    path_argument-unnamed info uri full "title" ("" ∷ "common" ∷ "feature" ∷ []) ("" ∷ []) own 1
      tokens refl refl refl alike refl refl (omega arith)

dynamic_match_iff_example :
    (dynamic_match (split full) "/common/feature/find/ui/dark" ≡ true)
    ↔ Fits (split full) (split "/common/feature/find/ui/dark")
dynamic_match_iff_example = dynamic_match_iff (split full) "/common/feature/find/ui/dark"

abbrev request : Request String Throwable
request = record {
  query_params = [];
  uri_path = "/common/feature/find/ui/dark";
  cookies = none;
  request_header = λ name. none;
  get_body = λ type_. threw null_pointer;
}

abbrev answer : Option (Argument String) → Tried Throwable (Returned String Throwable)
answer (some (text (some name))) = got (future (result name))
answer _ = threw null_pointer

-- The method returns its second argument.
abbrev echo : List (Argument String) → Tried Throwable (Returned String Throwable)
echo given = answer (get_elem? given 1)

abbrev handed : Returned String Throwable → String
handed r = "future"

answer-HasCause : (o : Option (Argument String)) → HasCause (answer o)
answer-HasCause none = tt
answer-HasCause (some (text none)) = tt
answer-HasCause (some (text (some name))) = tt
answer-HasCause (some the_operation) = tt
answer-HasCause (some (decoded b)) = tt

accept_answers_example :
    is_answer {V = String}
      (accept null_pointer null_pointer handed (λ b. []) (λ s. s) info full echo request)
    ≡ true
unfolding has_operation_as_an_argument
accept_answers_example =
    accept_answers null_pointer null_pointer handed (λ b. []) (λ s. s) info full echo request refl
      (λ given. answer-HasCause (get_elem? given 1))

accepted :
    accept {V = String} null_pointer null_pointer handed (λ b. []) (λ s. s) info full echo request
    ≡ set_body "dark" ∷ complete ∷ []
unfolding accept get split
accepted = refl
