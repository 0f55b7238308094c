-- ===== src/Jaxrs/Template/Tests.antt =====
-- The method `findByGroupAndName` of FeatureService.java, called and served.
use package.text.Mathlib.Text.{starts_with}
use package.text.Mathlib.TextPositions.{starts_with-append}
use xenon_ext.Prelude.{ℕ, ◌≡◌, refl, true, Option, none, some, List, [], ◌∷◌, String, if◌then◌else◌}
use xenon_ext.Effect.{Throwable, null_pointer, value}
use xenon_ext.HashMap.{put}
use xenon_ext.Fsm.Representation.{◌<>◌}
use xenon_ext.Jaxrs.Paths.{parse_path_params, contains_char, is_blank}
use xenon_ext.Jaxrs.Metadata.{
  class_type, parameterized, MethodInfo, ParamMetadata, ParamType, future_class,
}
use xenon_ext.Jaxrs.Routing.{text, Request, got, threw, argument_of}
use xenon_ext.Jaxrs.Client.{Sent, build_operation}
use xenon_ext.Jaxrs.Client.Building.{named}
use xenon_ext.Jaxrs.Template.{Piece, word, hole}
use xenon_ext.Jaxrs.Template.RoundTrip.{path_argument-build_operation}

abbrev parameter : String → ℕ → ParamMetadata
parameter name i = named ParamType.path name i none

abbrev template : List Piece
template = word "find" ∷ hole "group" ∷ hole "name" ∷ []

abbrev info : MethodInfo
info = record {
  method = record {
    name = "findByGroupAndName";
    is_public = true;
    annotations = some "GET" ∷ [];
    path = some "/find/{group}/{name}";
    return_type = future_class;
    generic_return_type = parameterized future_class (class_type "Feature");
    parameters = [];
  };
  parameters = parameter "group" 0 ∷ parameter "name" 1 ∷ [];
  uri_path = some "/find/{group}/{name}";
  action = some "GET";
  path_params_vs_uri_index = ("group", 2) ∷ ("name", 3) ∷ [];
  async_api = true;
  return_type = "Feature";
  type_ = class_type "Feature";
}

abbrev Uri : Type 0
Uri = String × List (String × String)

abbrev extend : Option String → Uri
extend none = ("/common/feature", [])
extend (some p) = ("/common/feature" <> (if starts_with p "/" then p else "/" <> p), [])

abbrev with_query : Uri → List (String × String) → Uri
with_query u q = (u.0, q)

abbrev deliver : Sent Uri String → Request String Throwable
deliver sent = record {
  query_params = sent.uri.1;
  uri_path = sent.uri.0;
  cookies = some sent.cookies;
  request_header = λ name. none;
  get_body = λ type_. threw null_pointer;
}

abbrev no_violations : String → List String
no_violations b = []

path_argument-build_operation_example :
    (sent : Sent Uri String) × (build_operation
        (λ s. s)
        extend
        with_query
        "r"
        info
        (some "ui" ∷ some "dark" ∷ [])
      ≡ value sent)
    × (argument_of no_violations
          (λ p. p)
          info
          "/common/feature/find/{group}/{name}"
          (deliver sent)
          (parameter "group" 0)
        ≡ got (text (some "ui"), []))
unfolding parse_path_params contains_char is_blank put
path_argument-build_operation_example =
    path_argument-build_operation (λ s. s) extend with_query (λ u. u.0) deliver (λ p. p)
      ("common" ∷ "feature" ∷ []) (λ p q. rw (starts_with-append "/" p) refl) (λ sent. refl) "r"
      info (some "ui" ∷ some "dark" ∷ []) no_violations (word "find" ∷ []) "group"
      (hole "name" ∷ []) 0 none ((refl, refl, refl), ((refl, refl, refl), tt))
      ((refl, refl, refl), ((refl, refl, refl), ((refl, refl, refl), tt))) ((refl, refl, refl), tt)
      (refl, tt) refl refl ((some "ui", refl), ((some "dark", refl), tt))
      ((refl, (refl, refl, refl), refl), ((refl, (refl, refl, refl), refl), tt))
