-- ===== src/Jaxrs/Routing/Completion.antt =====
-- How often the handler completes an operation.
use xenon_ext.Prelude.{◌≡◌, refl, Bool, true, false, none, some, List, [], ◌∷◌, String, arith}
use xenon_ext.Jaxrs.Metadata.{MethodInfo}
use xenon_ext.Jaxrs.Routing.{
  Argument, Tried, got, threw, Request, result, exception, wrapper, Returned, plain, future,
  no_future, Signal, set_body, complete, fail_invalid, fail_with, has_operation_as_an_argument,
  not_void, arguments_of, settle, handle_async, set_body_if, handle_sync, invoke_method,
  accept_inputs, accept,
}

module _ {R E V : Type 0} where
  -- The operation is completed once, after its body is set if it is, or failed once, and nothing
  -- is done to it after that.
  abbrev pub is_answer : List (Signal R E V) → Bool
  is_answer (complete ∷ []) = true
  is_answer (set_body r ∷ complete ∷ []) = true
  is_answer (fail_with e ∷ []) = true
  is_answer (fail_invalid violations ∷ []) = true
  is_answer _ = false

-- A future that fails with a CompletionException or an ExecutionException has a cause.
abbrev pub HasCause : {R E : Type 0} → Tried E (Returned R E) → Type 0
HasCause (got (future (wrapper none))) = ⊥
HasCause _ = Unit

module _ {R E : Type 0} (V : Type 0) where
  module _ (null_pointer class_cast : E) (hand_over : Returned R E → R) where
    handle_async-answer :
        (called : Tried E (Returned R E))
        → HasCause called
        → is_answer (handle_async {V = V} null_pointer class_cast hand_over called) ≡ true
    unfolding handle_async settle
    handle_async-answer (threw e) h = refl
    handle_async-answer (got (plain r)) h = refl
    handle_async-answer (got no_future) h = refl
    handle_async-answer (got (future (result r))) h = refl
    handle_async-answer (got (future (exception e))) h = refl
    handle_async-answer (got (future (wrapper (some cause)))) h = refl
    handle_async-answer (got (future (wrapper none))) h = elim h [ ]

    handle_sync-answer :
        (valid : Bool) (called : Tried E (Returned R E))
        → is_answer (handle_sync {V = V} null_pointer class_cast hand_over valid called) ≡ true
    unfolding handle_sync set_body_if
    handle_sync-answer valid (threw e) = refl
    handle_sync-answer true (got r) = refl
    handle_sync-answer false (got r) = refl

    invoke_method-answer :
        (info : MethodInfo) (called : Tried E (Returned R E))
        → has_operation_as_an_argument info.parameters ≡ false
        → HasCause called
        → is_answer (invoke_method {V = V} null_pointer class_cast hand_over info called) ≡ true
    unfolding invoke_method
    invoke_method-answer info called no_operation h = ground (
      arith,
      handle_async-answer called h,
      handle_sync-answer (not_void info.method.return_type) called,
    )

module _ {B E V R : Type 0} (null_pointer class_cast : E) (hand_over : Returned R E → R) where
  accept_inputs-answer :
      (info : MethodInfo) (invoke : List (Argument B) → Tried E (Returned R E))
      (inputs : Tried E (List (Argument B) × List V))
      → has_operation_as_an_argument info.parameters ≡ false
      → ((given : List (Argument B)) → HasCause (invoke given))
      → is_answer (accept_inputs null_pointer class_cast hand_over info invoke inputs) ≡ true
  unfolding accept_inputs
  accept_inputs-answer info invoke (threw e) no_operation h = refl
  accept_inputs-answer info invoke (got (inputs, [])) no_operation h =
      invoke_method-answer V null_pointer class_cast hand_over info (invoke inputs) no_operation
        (h inputs)
  accept_inputs-answer info invoke (got (inputs, v ∷ violations)) no_operation h = refl

  -- If the method does not take the operation, and no future of its fails with a wrapper without a
  -- cause, then each request is answered exactly once: whatever throws, whatever constraint is
  -- violated and however the method returns, the operation is completed once, after its body is
  -- set if it is, or failed once.
  pub accept_answers :
      (validate : B → List V) (normalize : String → String) (info : MethodInfo) (full_path : String)
      (invoke : List (Argument B) → Tried E (Returned R E)) (request : Request B E)
      → has_operation_as_an_argument info.parameters ≡ false
      → ((given : List (Argument B)) → HasCause (invoke given))
      → is_answer (
          accept null_pointer class_cast hand_over validate normalize info full_path invoke request)
        ≡ true
  unfolding accept
  accept_answers validate normalize info full_path invoke request no_operation h =
      accept_inputs-answer info invoke
        (arguments_of validate normalize info full_path request info.parameters) no_operation h
