-- ===== src/Jaxrs/Routing.antt =====
-- RoutingOperationHandler.java: the arguments of a method are read off an operation, and the
-- operation is completed with what the method does.
pub mod Arguments
pub mod Completion
mod Tests
use mathlib.Core.Option
use xenon_ext.Prelude.{
  ℕ, zero, suc, ◌+◌, ◌-◌, Bool, true, false, ◌||◌, Option, none, some, List, [], ◌∷◌, ◌++◌, String,
  if◌then◌else◌, leb, length, get_elem?, str_eq, not,
}
use xenon_ext.HashMap.{HashMap, get}
use xenon_ext.Jaxrs.Paths.{split}
use xenon_ext.Jaxrs.Metadata.{
  ParamType, path, query, body, operation, header, cookie, ParamMetadata, MethodInfo,
}

-- `B` is the values of bodies, and `E` exceptions.
pub data Argument (B : Type 0) : Type 0 where
  text : Option String → Argument B
  the_operation : Argument B
  decoded : B → Argument B

pub data Tried (E A : Type 0) : Type 0 where
  got : A → Tried E A
  threw : E → Tried E A

-- What the code reads of an operation: `query_params` is the map of `parseUriQueryParams`, and
-- `get_body` may throw.
pub record Request (B E : Type 0) : Type 0 where
  pub query_params : HashMap String
  pub uri_path : String
  pub cookies : Option (HashMap String)
  pub request_header : String → Option String
  pub get_body : Option String → Tried E B

-- A future as it settles; an exception may be a CompletionException or an ExecutionException, with
-- its cause, or null.
pub data Settled (R E : Type 0) : Type 0 where
  result : R → Settled R E
  exception : E → Settled R E
  wrapper : Option E → Settled R E

-- What a method returns: a value, or a future, or null for a future.
pub data Returned (R E : Type 0) : Type 0 where
  plain : R → Returned R E
  future : Settled R E → Returned R E
  no_future : Returned R E

-- What the handler does to the operation.
pub data Signal (R E V : Type 0) : Type 0 where
  set_body : R → Signal R E V
  complete : Signal R E V
  fail_invalid : List V → Signal R E V
  fail_with : E → Signal R E V

-- The index of a path parameter, or -1, plus the pieces of the whole path, minus those of the
-- method's.
unfoldable pub shifted : Option ℕ → ℕ → ℕ → Option ℕ
shifted none all own = if leb (suc own) all then some (all - suc own) else none
shifted (some i) all own = if leb own (i + all) then some (i + all - own) else none

unfoldable pub own_pieces : Option String → ℕ
own_pieces none = 0
own_pieces (some uri) = length (split uri)

-- `pathValues.get`; the map of `parsePathValues` is the list of the pieces by their indices.
unfoldable pub value_at : List String → Option ℕ → Option String
value_at tokens none = none
value_at tokens (some i) = get_elem? tokens i

-- The value of a path parameter: `full_path` is the path that the method was registered with, and
-- `tokens` the pieces of the path of the operation.
unfoldable pub path_argument : MethodInfo → String → List String → String → Option String
unfolding value_at shifted own_pieces
path_argument info full_path tokens name = value_at tokens (
    shifted (get name info.path_params_vs_uri_index) (length (split full_path))
      (own_pieces info.uri_path))

abbrev pub name_of : ParamMetadata → String
name_of p = Option.get_or p.name "null"

unfoldable pub has_operation_as_an_argument : List ParamMetadata → Bool
has_operation_as_an_argument [] = false
has_operation_as_an_argument (p ∷ ps) =
    (elim p.type_ [ operation ↦ true | _ ↦ false ]) || has_operation_as_an_argument ps

-- `!getReturnType().equals(Void.TYPE)`.
unfoldable pub not_void : String → Bool
not_void return_type = not (str_eq return_type "void")

module _ {B E V : Type 0} where
  -- `validate` is `validator.validate` on a body, and `normalize` `UriUtils.normalizeUriPath`.
  unfoldable pub argument_of :
      (B → List V)
      → (String → String)
      → MethodInfo
      → String
      → Request B E
      → ParamMetadata
      → Tried E (Argument B × List V)
  unfolding path_argument
  argument_of validate normalize info full_path request p = elim p.type_ [
    | query ↦ got (text (get (name_of p) request.query_params), [])
    | header ↦ got (text (request.request_header (name_of p)), [])
    | cookie ↦ got (text (get (name_of p) (Option.get_or request.cookies [])), [])
    | path ↦
        got
          (text (path_argument info full_path (split (normalize request.uri_path)) (name_of p)), [])
    | operation ↦ got (the_operation, [])
    | body ↦ elim (request.get_body p.paramter_type) [
      | got b ↦ got (decoded b, validate b)
      | threw e ↦ threw e
    ]
  ]

  -- The stream of `findMethodInputs`, up to the first that throws.
  unfoldable pub arguments_of :
      (B → List V)
      → (String → String)
      → MethodInfo
      → String
      → Request B E
      → List ParamMetadata
      → Tried E (List (Argument B) × List V)
  unfolding argument_of
  arguments_of validate normalize info full_path request [] = got ([], [])
  arguments_of validate normalize info full_path request (p ∷ ps) =
      let rest = arguments_of validate normalize info full_path request ps in
      elim (argument_of validate normalize info full_path request p) [
        | threw e ↦ threw e
        | got checked ↦ elim rest [
          | threw e ↦ threw e
          | got others ↦ got (checked.0 ∷ others.0, checked.1 ++ others.1)
        ]
      ]

module _ {R E V : Type 0} where
  -- The signals of a future's callbacks. On a wrapper without a cause the callback throws, since
  -- it reads the message of null, and the operation is left as it is.
  unfoldable pub settle : Settled R E → List (Signal R E V)
  settle (result r) = set_body r ∷ complete ∷ []
  settle (exception e) = fail_with e ∷ []
  settle (wrapper (some cause)) = fail_with cause ∷ []
  settle (wrapper none) = []

  -- `null_pointer` is the exception of a call on null, `class_cast` the one of a cast that fails,
  -- and `hand_over` a future as a value for `setBody`.
  module _ (null_pointer class_cast : E) (hand_over : Returned R E → R) where
    unfoldable pub handle_async : Tried E (Returned R E) → List (Signal R E V)
    unfolding settle
    handle_async (threw e) = fail_with e ∷ []
    handle_async (got (plain r)) = fail_with class_cast ∷ []
    handle_async (got no_future) = fail_with null_pointer ∷ []
    handle_async (got (future s)) = settle s

    unfoldable pub set_body_if : Bool → Returned R E → List (Signal R E V)
    set_body_if has_valid_return_type r =
        if has_valid_return_type then set_body (hand_over r) ∷ [] else []

    unfoldable pub handle_sync : Bool → Tried E (Returned R E) → List (Signal R E V)
    unfolding set_body_if
    handle_sync valid (threw e) = fail_with e ∷ []
    handle_sync valid (got r) = set_body_if valid r ++ complete ∷ []

    unfoldable pub handle_by_method : Bool → Tried E (Returned R E) → List (Signal R E V)
    unfolding set_body_if
    handle_by_method valid (threw e) = fail_with e ∷ []
    handle_by_method valid (got r) = set_body_if valid r

    -- The invocation of the method, by the three ways to complete its operation; a method that
    -- takes the operation completes it itself.
    unfoldable pub invoke_method : MethodInfo → Tried E (Returned R E) → List (Signal R E V)
    unfolding not_void handle_async handle_sync handle_by_method has_operation_as_an_argument
    invoke_method info called =
        let valid = not_void info.method.return_type in
        if has_operation_as_an_argument info.parameters
        then handle_by_method valid called
        else if info.async_api
        then handle_async called
        else handle_sync valid called

module _ {B E V R : Type 0} (null_pointer class_cast : E) (hand_over : Returned R E → R) where
  -- `invoke` is the method with the service as its receiver.
  unfoldable pub accept_inputs :
      MethodInfo
      → (List (Argument B) → Tried E (Returned R E))
      → Tried E (List (Argument B) × List V)
      → List (Signal R E V)
  unfolding invoke_method
  accept_inputs info invoke (threw e) = fail_with e ∷ []
  accept_inputs info invoke (got (inputs, [])) =
      invoke_method null_pointer class_cast hand_over info (invoke inputs)
  accept_inputs info invoke (got (inputs, v ∷ violations)) = fail_invalid (v ∷ violations) ∷ []

  unfoldable pub accept :
      (B → List V)
      → (String → String)
      → MethodInfo
      → String
      → (List (Argument B) → Tried E (Returned R E))
      → Request B E
      → List (Signal R E V)
  unfolding arguments_of accept_inputs
  accept validate normalize info full_path invoke request =
      accept_inputs info invoke
        (arguments_of validate normalize info full_path request info.parameters)
