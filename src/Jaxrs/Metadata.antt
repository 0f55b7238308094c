-- ===== src/Jaxrs/Metadata.antt =====
-- MethodInfo.java, ParamMetadata.java and MethodInfoBuilder.java: what is read off the annotations
-- of the methods of a class.
pub mod Parameters
pub mod Methods
use mathlib.Core.Option
use xenon_ext.Prelude.{
  ℕ, zero, suc, Bool, true, false, Option, none, some, List, [], ◌∷◌, String, str_eq, if◌then◌else◌,
  leb,
}
use xenon_ext.HashMap.{HashMap, get}
use xenon_ext.Effect.{Throwable, illegal_argument, Attempt, value, raise}
use xenon_ext.Fsm.Representation.{◌<>◌, contains}
use xenon_ext.Jaxrs.Paths.{parse_path_params}

-- java.lang.reflect.Type; of the type arguments the code reads the first only.
pub data JavaType : Type 0 where
  class_type type_variable : String → JavaType
  parameterized : String → JavaType → JavaType
  wildcard generic_array : JavaType

-- A declared parameter: its annotations, and the class of its type.
pub record Parameter : Type 0 where
  pub name : String
  pub query_param : Option String
  pub path_param : Option String
  pub header_param : Option String
  pub cookie_param : Option String
  pub operation_body : Bool
  pub type_name : String

-- A declared method. An annotation is the value of the HttpMethod annotation on its type, if it
-- has one.
pub record Method : Type 0 where
  pub name : String
  pub is_public : Bool
  pub annotations : List (Option String)
  pub path : Option String
  pub return_type : String
  pub generic_return_type : JavaType
  pub parameters : List Parameter

pub data ParamType : Type 0 where
  path query body operation header cookie : ParamType

pub record ParamMetadata : Type 0 where
  pub name : Option String
  pub parameter_index : ℕ
  pub type_ : ParamType
  pub paramter_type : Option String

pub record MethodInfo : Type 0 where
  pub method : Method
  pub parameters : List ParamMetadata
  pub uri_path : Option String
  pub action : Option String
  pub path_params_vs_uri_index : HashMap ℕ
  pub async_api : Bool
  pub return_type : String
  pub type_ : JavaType

abbrev pub object_class : String
object_class = "java.lang.Object"

abbrev pub future_class : String
future_class = "java.util.concurrent.CompletableFuture"

abbrev pub operation_class : String
operation_class = "com.vmware.xenon.common.Operation"

abbrev pub and_then {ℓ κ} : {A : Type ℓ} {B : Type κ} → (A → Attempt B) → Attempt A → Attempt B
and_then f (value a) = f a
and_then f (raise e) = raise e

unfoldable pub unknown_parameter : String → Throwable
unknown_parameter name = illegal_argument (
    "Unable to understand Parameter " <> name
    <> " . It neither has supported annotations nor of type Operation ")

unfoldable pub metadata : Option String → ParamType → Option String → ℕ → ParamMetadata
metadata name type_ class_name index = record {
  name = name;
  parameter_index = index;
  type_ = type_;
  paramter_type = class_name;
}

-- The last branches, for a parameter without a name in its annotations.
unfoldable pub unnamed_param : Parameter → ℕ → Attempt ParamMetadata
unfolding metadata unknown_parameter
unnamed_param p index =
    if p.operation_body
    then value (metadata none body (some p.type_name) index)
    else if str_eq p.type_name operation_class
    then value (metadata none operation none index)
    else raise (unknown_parameter p.name)

unfoldable pub extract_param : Parameter → ℕ → Attempt ParamMetadata
unfolding metadata unnamed_param
extract_param p index = elim p.query_param [
  | some name ↦ value (metadata (some name) query none index)
  | none ↦ elim p.path_param [
    | some name ↦ value (metadata (some name) path none index)
    | none ↦ elim p.header_param [
      | some name ↦ value (metadata (some name) header none index)
      | none ↦ elim p.cookie_param [
        | some name ↦ value (metadata (some name) cookie none index)
        | none ↦ unnamed_param p index
      ]
    ]
  ]
]

-- `extractParamMetadatas`, from an index on.
unfoldable pub extract_params : List Parameter → ℕ → Attempt (List ParamMetadata)
unfolding extract_param
extract_params [] index = value []
extract_params (p ∷ ps) index =
    let rest = extract_params ps (suc index) in
    and_then (λ m. and_then (λ ms. value (m ∷ ms)) rest) (extract_param p index)

-- `Collections.sort` by the index, which is stable.
unfoldable pub insert_param : ParamMetadata → List ParamMetadata → List ParamMetadata
insert_param p [] = p ∷ []
insert_param p (q ∷ qs) =
    let rest = insert_param p qs in
    if leb p.parameter_index q.parameter_index then p ∷ q ∷ qs else q ∷ rest

unfoldable pub sort_params : List ParamMetadata → List ParamMetadata
unfolding insert_param
sort_params [] = []
sort_params (p ∷ ps) = insert_param p (sort_params ps)

-- `Service.Action.valueOf`, where `actions` are the names of the actions.
unfoldable pub action_value_of : List String → String → Attempt String
action_value_of actions name =
    if contains actions name
    then value name
    else raise (illegal_argument ("No enum constant " <> name))

unfoldable pub parse_action : List String → List (Option String) → Attempt (Option String)
unfolding action_value_of
parse_action actions [] = value none
parse_action actions (none ∷ annotations) = parse_action actions annotations
parse_action actions (some name ∷ annotations) =
    and_then (λ a. value (some a)) (action_value_of actions name)

-- The class of the values of a future.
unfoldable pub future_value : HashMap String → JavaType → String
future_value resolution (class_type name) = name
future_value resolution (parameterized raw argument) = raw
future_value resolution (type_variable name) = Option.get_or (get name resolution) object_class
future_value resolution wildcard = object_class
future_value resolution generic_array = object_class

-- `handleCompletableFutureReturnType`: the return type and the type.
unfoldable pub future_return_type : HashMap String → JavaType → String × JavaType
unfolding future_value
future_return_type resolution (parameterized raw argument) =
    (future_value resolution argument, argument)
future_return_type resolution t = (object_class, t)

-- `handleReturnType`.
unfoldable pub plain_return_type : HashMap String → String → JavaType → String × JavaType
plain_return_type resolution return_type (type_variable name) =
    (Option.get_or (get name resolution) object_class, type_variable name)
plain_return_type resolution return_type t = (return_type, t)

-- `parseReturnTypes`: whether the method is asynchronous, its return type and its type.
unfoldable pub parse_return_types : HashMap String → Method → Bool × String × JavaType
unfolding future_return_type plain_return_type
parse_return_types resolution m =
    if str_eq m.return_type future_class
    then (let (r, t) = future_return_type resolution m.generic_return_type in (true, r, t))
    else (let (r, t) = plain_return_type resolution m.return_type m.generic_return_type in
        (false, r, t))

-- The second filter of `generateMethodInfo`, before the methods that follow.
unfoldable pub add_selected :
    Method → Attempt (List (Method × String)) → Option String → Attempt (List (Method × String))
add_selected m rest none = rest
add_selected m rest (some action) = and_then (λ l. value ((m, action) ∷ l)) rest

-- The stream of `generateMethodInfo`: the public methods that have an action.
unfoldable pub select_methods : List String → List Method → Attempt (List (Method × String))
unfolding parse_action add_selected
select_methods actions [] = value []
select_methods actions (m ∷ ms) =
    let rest = select_methods actions ms in
    if m.is_public
    then and_then (add_selected m rest) (parse_action actions m.annotations)
    else rest

-- The body of `httpMethods.forEach`.
unfoldable pub complete_info : HashMap String → Method × String → Attempt MethodInfo
unfolding extract_params sort_params parse_return_types
complete_info resolution (m, action) =
    and_then
      (λ ps.
        let (async, r, t) = parse_return_types resolution m in
        value (record {
          method = m;
          parameters = sort_params ps;
          uri_path = m.path;
          action = some action;
          path_params_vs_uri_index = parse_path_params m.path;
          async_api = async;
          return_type = r;
          type_ = t;
        }))
      (extract_params m.parameters 0)

unfoldable pub complete_all : HashMap String → List (Method × String) → Attempt (List MethodInfo)
unfolding complete_info
complete_all resolution [] = value []
complete_all resolution (s ∷ selected) =
    let rest = complete_all resolution selected in
    and_then (λ i. and_then (λ l. value (i ∷ l)) rest) (complete_info resolution s)

unfoldable pub generate_method_info :
    List String → List Method → HashMap String → Attempt (List MethodInfo)
unfolding select_methods complete_all
generate_method_info actions methods resolution =
    and_then (complete_all resolution) (select_methods actions methods)
