-- ===== src/Error/RoundTrip.antt =====
-- An error that is reported, read and reported again.
use mathlib.Core.Option
use xenon_ext.Prelude.{ℕ, ◌≡◌, refl, ap, ap₂, Option, some, List, [], ◌∷◌, String, arith}
use xenon_ext.Error.{
  HttpError, OtherError, Thrown, http, other, http_by, other_by, Body, HttpErrorResponse, alone,
  caused, internal_error, http_error_type, body_of_http, from, new_http_error, refill, to_error,
}

-- What the receiver of an error is promised about each throwable of the chain: its code, its
-- message for developers, its class and its stack trace.
pub record Report (S : Type 0) : Type 0 where
  pub code : ℕ
  pub text : Option String
  pub class_name : String
  pub trace : List S

abbrev pub report_of_other : {S : Type 0} → OtherError S → Report S
report_of_other e = record {
  code = internal_error;
  text = e.message;
  class_name = e.type_name;
  trace = e.stack;
}

module _ {O S : Type 0} where
  abbrev pub report_of_http : HttpError O S → Report S
  report_of_http e = record {
    code = e.error_code;
    text = e.developer_message;
    class_name = e.type_name;
    trace = e.stack;
  }

  -- The chain of an error where it is thrown.
  abbrev pub reports : Thrown O S → List (Report S)
  reports (http e) = report_of_http e ∷ []
  reports (other e) = report_of_other e ∷ []
  reports (http_by e cause) = report_of_http e ∷ reports cause
  reports (other_by e cause) = report_of_other e ∷ reports cause

  -- The chain of an error that `toError` has made, with the classes that it has recorded.
  abbrev pub received : HttpError O S → Report S
  received e = record {
    code = e.error_code;
    text = e.developer_message;
    class_name = Option.get_or e.original_type "";
    trace = e.stack;
  }

  abbrev pub received_reports : Thrown O S → List (Report S)
  received_reports (http e) = received e ∷ []
  received_reports (other e) = []
  received_reports (http_by e cause) = received e ∷ received_reports cause
  received_reports (other_by e cause) = []

  -- A body as a second report of the error has it.
  abbrev pub settled : Body O S → Body O S
  settled b = record b { context = some (Option.get_or b.context []); type_name = http_error_type }

  abbrev pub settled_response : HttpErrorResponse O S → HttpErrorResponse O S
  settled_response (alone b) = alone (settled b)
  settled_response (caused b cause) = caused (settled b) (settled_response cause)

  module _ (show : S → String) (kind : String) (fresh : List S) where
    body_of_http-refill :
        (e : HttpError O S)
        → let b = body_of_http show kind fresh e in
          body_of_http show kind fresh
            (refill show kind fresh b (new_http_error show kind fresh b.error_code b.message))
          ≡ settled b
    unfolding body_of_http refill new_http_error
    body_of_http-refill e = ground arith

    -- The client's error has the code, the message, the class and the stack trace of each
    -- throwable in the chain of causes of the error that the service has thrown, and nothing else
    -- in its chain.
    pub to_error-from :
        (e : Thrown O S)
        → received_reports (to_error show kind fresh (from show kind fresh e)) ≡ reports e
    unfolding to_error from
    to_error-from (http e) = refl
    to_error-from (other e) = refl
    to_error-from (http_by e cause) = ap (λ l. report_of_http e ∷ l) (to_error-from cause)
    to_error-from (other_by e cause) = ap (λ l. report_of_other e ∷ l) (to_error-from cause)

    -- If the client reports the error again, the response is the first one but for the classes,
    -- which are HttpError, and the contexts that were missing, which are empty.
    pub from-to_error :
        (e : Thrown O S)
        → from show kind fresh (to_error show kind fresh (from show kind fresh e))
          ≡ settled_response (from show kind fresh e)
    unfolding to_error from
    from-to_error (http e) = ap alone (body_of_http-refill e)
    from-to_error (other e) = refl
    from-to_error (http_by e cause) = ap₂ caused (body_of_http-refill e) (from-to_error cause)
    from-to_error (other_by e cause) = ap₂ caused refl (from-to_error cause)
