-- ===== src/Error/Tests.antt =====
-- An HttpError that was caused by a null pointer exception.
use xenon_ext.Prelude.{ℕ, ◌≡◌, none, some, [], ◌∷◌, String}
use xenon_ext.Error.{Thrown, other, http_by, http_error_type, internal_error, from, to_error}
use xenon_ext.Error.RoundTrip.{received_reports, settled_response, to_error-from, from-to_error}

abbrev failure : Thrown ℕ String
failure =
    http_by
      (record {
        error_code = 400;
        developer_message = some "bad input";
        context = none;
        original_type = none;
        message = some "bad input";
        stack = "Handler.java:3" ∷ [];
        type_name = http_error_type;
      })
      (other (record {
        message = none;
        stack = "Parser.java:7" ∷ [];
        type_name = "java.lang.NullPointerException";
      }))

to_error-from_example :
    received_reports (to_error (λ s. s) "kind" [] (from (λ s. s) "kind" [] failure))
    ≡ record {
      code = 400;
      text = some "bad input";
      class_name = http_error_type;
      trace = "Handler.java:3" ∷ [];
    }
      ∷ record {
        code = internal_error;
        text = none;
        class_name = "java.lang.NullPointerException";
        trace = "Parser.java:7" ∷ [];
      }
      ∷ []
to_error-from_example = to_error-from (λ s. s) "kind" [] failure

from-to_error_example :
    from (λ s. s) "kind" [] (to_error (λ s. s) "kind" [] (from (λ s. s) "kind" [] failure))
    ≡ settled_response (from (λ s. s) "kind" [] failure)
from-to_error_example = from-to_error (λ s. s) "kind" [] failure
