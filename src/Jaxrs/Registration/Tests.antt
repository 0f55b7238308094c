-- ===== src/Jaxrs/Registration/Tests.antt =====
-- FeatureServiceImpl, which has no annotations of its own, with its contract interface.
use xenon_ext.Prelude.{◌≡◌, refl, true, false, Option, none, some, List, [], ◌∷◌, String, All}
use xenon_ext.Effect.{Attempt, value, raise}
use xenon_ext.HashMap.{put}
use xenon_ext.Fsm.Representation.{◌<>◌, contains}
use xenon_ext.Jaxrs.Paths.{parse_path_params}
use xenon_ext.Jaxrs.Metadata.{class_type, Method}
use xenon_ext.Jaxrs.Registration.{Contract, Service, Route, parse_jaxrs_annotations}
use xenon_ext.Jaxrs.Registration.Exposed.{methods_of, IsRouted, parse_jaxrs_annotations-exposed}

abbrev method : String → Option String → Option String → Method
method name http path = record {
  name = name;
  is_public = true;
  annotations = http ∷ [];
  path = path;
  return_type = "Feature";
  generic_return_type = class_type "Feature";
  parameters = [];
}

abbrev list_all : Method
list_all = method "listAll" (some "GET") none

abbrev find_default : Method
find_default = method "findFeature" none none

abbrev enable : Method
enable = method "enableFeature" (some "GET") (some "/enable/{name}")

abbrev contract : Contract
contract = record { methods = list_all ∷ find_default ∷ enable ∷ []; is_assignable_from = true }

abbrev service : Service
service = record {
  self_link = "/common/feature";
  uri_namespace_owner = true;
  declared_methods = find_default ∷ [];
}

abbrev normalize : String → String
normalize path = path

abbrev build_path : String → Option String → String
build_path link none = link
build_path link (some path) = link <> path

abbrev actions : List String
actions = "GET" ∷ "POST" ∷ []

abbrev interfaces : List (Option Contract)
interfaces = none ∷ some contract ∷ some (record contract { is_assignable_from = false }) ∷ []

abbrev value_or_none : Attempt (List Route) → List Route
value_or_none (value routes) = routes
value_or_none (raise e) = []

abbrev routes : List Route
routes = value_or_none (parse_jaxrs_annotations actions normalize build_path service interfaces)

parse_jaxrs_annotations-exposed_example :
    (methods_of routes ≡ list_all ∷ enable ∷ [])
    × All (IsRouted actions normalize build_path service) routes
unfolding parse_jaxrs_annotations contains parse_path_params put
parse_jaxrs_annotations-exposed_example =
    parse_jaxrs_annotations-exposed actions normalize build_path service interfaces routes refl refl
