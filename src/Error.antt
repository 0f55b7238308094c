-- ===== src/Error.antt =====
-- HttpError.java and HttpErrorResponse.java of jaxrs-support: an error, the body of the response
-- that reports it, and the error that the client makes of the body.
pub mod RoundTrip
mod Tests
use xenon_ext.Prelude.{ℕ, ◌≡◌, refl, Option, none, some, List, [], ◌∷◌, map, String}
use xenon_ext.HashMap.{HashMap}

-- `O` is the values of a context, and `S` the elements of a stack trace.
pub record HttpError (O S : Type 0) : Type 0 where
  pub error_code : ℕ
  pub developer_message : Option String
  pub context : Option (HashMap O)
  pub original_type : Option String
  -- What `getMessage` returns.
  pub message : Option String
  pub stack : List S
  -- What `getClass().getTypeName()` returns, for a subclass too.
  pub type_name : String

-- What the code reads of a throwable that is not an HttpError.
pub record OtherError (S : Type 0) : Type 0 where
  pub message : Option String
  pub stack : List S
  pub type_name : String

-- A throwable by its chain of causes. `getCause` does not return the throwable itself.
pub data Thrown (O S : Type 0) : Type 0 where
  http : HttpError O S → Thrown O S
  other : OtherError S → Thrown O S
  http_by : HttpError O S → Thrown O S → Thrown O S
  other_by : OtherError S → Thrown O S → Thrown O S

-- The fields but `cause`.
pub record Body (O S : Type 0) : Type 0 where
  pub status_code : ℕ
  pub error_code : ℕ
  pub message : Option String
  pub context : Option (HashMap O)
  pub stack_trace_elements : Option (List S)
  pub stack_trace : List String
  pub type_name : String
  pub document_kind : String

pub data HttpErrorResponse (O S : Type 0) : Type 0 where
  alone : Body O S → HttpErrorResponse O S
  caused : Body O S → HttpErrorResponse O S → HttpErrorResponse O S

abbrev pub internal_error : ℕ
internal_error = 55055

-- The name of the class HttpError.
abbrev pub http_error_type : String
http_error_type = "com.tteky.xenonext.util.HttpError"

unfoldable pub fill_stacktrace : {S : Type 0} → (S → String) → List S → List String
fill_stacktrace show stack = map show stack

-- `show` is `StackTraceElement.toString`, `kind` the kind of the response and `fresh` the stack
-- trace of an error where `toError` constructs it.
module _ {O S : Type 0} (show : S → String) (kind : String) (fresh : List S) where
  unfoldable pub body_of_http : HttpError O S → Body O S
  unfolding fill_stacktrace
  body_of_http e = record {
    status_code = 500;
    error_code = e.error_code;
    message = e.developer_message;
    context = e.context;
    stack_trace_elements = some e.stack;
    stack_trace = fill_stacktrace show e.stack;
    type_name = e.type_name;
    document_kind = kind;
  }

  unfoldable pub body_of_other : OtherError S → Body O S
  unfolding fill_stacktrace
  body_of_other e = record {
    status_code = 500;
    error_code = internal_error;
    message = e.message;
    context = none;
    stack_trace_elements = some e.stack;
    stack_trace = fill_stacktrace show e.stack;
    type_name = e.type_name;
    document_kind = kind;
  }

  unfoldable pub from : Thrown O S → HttpErrorResponse O S
  unfolding body_of_http body_of_other
  from (http e) = alone (body_of_http e)
  from (other e) = alone (body_of_other e)
  from (http_by e cause) = caused (body_of_http e) (from cause)
  from (other_by e cause) = caused (body_of_other e) (from cause)

  -- `new HttpError(errorCode, message)`, or with a cause before them.
  unfoldable pub new_http_error : ℕ → Option String → HttpError O S
  new_http_error code message = record {
    error_code = code;
    developer_message = message;
    context = some [];
    original_type = none;
    message = message;
    stack = fresh;
    type_name = http_error_type;
  }

  -- `toError` after the construction.
  unfoldable pub refill : Body O S → HttpError O S → HttpError O S
  refill b e = record e {
    context = elim b.context [ none ↦ e.context | some c ↦ some c ];
    developer_message = b.message;
    stack = elim b.stack_trace_elements [ none ↦ e.stack | some s ↦ s ];
    original_type = some b.type_name;
  }

  unfoldable pub to_error : HttpErrorResponse O S → Thrown O S
  unfolding new_http_error refill
  to_error (alone b) = http (refill b (new_http_error b.error_code b.message))
  to_error (caused b cause) =
      http_by (refill b (new_http_error b.error_code b.message)) (to_error cause)
