-- ===== src/Feature.antt =====
-- Feature.java, FeatureDao.java, FeatureServiceImpl.java and FeaturesCache.java of jaxrs-support.
pub mod Cache
pub mod Toggles
pub mod Lookups
mod Tests
use xenon_ext.Prelude.{
  ◌≡◌, refl, Bool, true, false, Option, none, some, List, [], ◌∷◌, String, str_eq, if◌then◌else◌,
  not,
}
use xenon_ext.HashMap.{HashMap, get, put, remove}
use xenon_ext.Effect.{Throwable, Attempt, value, raise}
use xenon_ext.Fsm.Representation.{◌<>◌}
use xenon_ext.Fsm.Dot.{show_nullable}

pub data Strategy : Type 0 where
  default : Strategy

pub record Feature : Type 0 where
  pub document_self_link : Option String
  pub document_update_action : String
  pub name : Option String
  pub group : Option String
  pub description : Option String
  pub enable : Bool
  pub strategy : Option Strategy

-- `new Feature()`.
abbrev pub new_feature_object : Feature
new_feature_object = record {
  document_self_link = none;
  document_update_action = "";
  name = none;
  group = none;
  description = none;
  enable = false;
  strategy = none;
}

unfoldable pub form_id : Option String → Option String → String
form_id group name = show_nullable group <> "::" <> show_nullable name

unfoldable pub to_optional {ℓ} : {T : Type ℓ} → T → Feature → Option T
to_optional input f = if f.enable then some input else none

-- FeatureDao.

-- The body that `handleStart` validates and passes on.
unfoldable pub with_strategy : Feature → Feature
with_strategy f = elim f.strategy [ none ↦ record f { strategy = some default } | some s ↦ f ]

-- What `handleStart` does with the operation: it passes a body on, or fails with an exception.
pub data Started : Type 0 where
  passed_on : Feature → Started
  failed : Throwable → Started

unfoldable pub start_unless : Attempt (Unit {0}) → Feature → Started
start_unless (value u) f = passed_on f
start_unless (raise e) f = failed e

-- `validate` is `Utils.validateState`, and `start_base` the `handleStart` of the framework.
unfoldable pub start_validated :
    (Feature → Attempt (Unit {0})) → Attempt (Unit {0}) → Feature → Started
unfolding start_unless
start_validated start_base (raise e) f = failed e
start_validated start_base (value u) f = start_unless (start_base f) f

-- `handleStart` on the body of the operation, or on what reading it throws.
unfoldable pub dao_handle_start :
    (Feature → Attempt (Unit {0})) → (Feature → Attempt (Unit {0})) → Attempt Feature → Started
unfolding with_strategy start_validated
dao_handle_start validate start_base (raise e) = failed e
dao_handle_start validate start_base (value f) =
    let strategic = with_strategy f in start_validated start_base (validate strategic) strategic

-- The state that `handlePatch` sets.
unfoldable pub patch_feature : Feature → Feature → Feature
patch_feature recv current = record current {
  enable = recv.enable;
  strategy = elim recv.strategy [ none ↦ current.strategy | some s ↦ some s ];
}

-- FeatureServiceImpl: the document and the body that a request is sent with.
unfoldable pub new_feature : Feature → Feature
unfolding form_id
new_feature f = record f { document_self_link = some (form_id f.group f.name) }

unfoldable pub enable_feature : Option String → Option String → Bool → String × Feature
unfolding form_id
enable_feature group name is_enabled =
    (form_id group name, record new_feature_object { enable = is_enabled })

-- FeaturesCache.

-- `computeIfAbsent`: the feature that is found, and the cache after it.
unfoldable pub found_or_new :
    Option Feature → Option String → Option String → HashMap Feature → Feature × HashMap Feature
unfolding form_id
found_or_new (some f) group name cache = (f, cache)
found_or_new none group name cache =
    let feature = record new_feature_object { group = group; name = name } in
    (feature, put (form_id group name) feature cache)

unfoldable pub find_feature :
    Option String → Option String → HashMap Feature → Feature × HashMap Feature
unfolding form_id found_or_new
find_feature group name cache = found_or_new (get (form_id group name) cache) group name cache

unfoldable pub handle_feature_update : Feature → HashMap Feature → HashMap Feature
unfolding form_id
handle_feature_update f cache =
    if str_eq f.document_update_action "DELETE"
    then remove (form_id f.group f.name) cache
    else put (form_id f.group f.name) f cache

-- An entry of the results of a query: its kind, and what it reads as.
pub record Document : Type 0 where
  pub document_kind : String
  pub feature : Feature

-- `feature_kind` is `Utils.buildKind(Feature.class)`.
module _ (feature_kind : String) where
  unfoldable pub update_all : List (String × Document) → HashMap Feature → HashMap Feature
  unfolding handle_feature_update
  update_all [] cache = cache
  update_all ((link, d) ∷ documents) cache =
      update_all documents (
        if str_eq d.document_kind feature_kind
        then handle_feature_update d.feature cache
        else cache)

  -- A notification by the documents of its results, if it has results.
  unfoldable pub handle_feature_updates :
      Option (HashMap Document) → HashMap Feature → HashMap Feature
  unfolding update_all
  handle_feature_updates none cache = cache
  handle_feature_updates (some documents) cache = update_all documents cache

  unfoldable pub notify_all : List (Option (HashMap Document)) → HashMap Feature → HashMap Feature
  unfolding handle_feature_updates
  notify_all [] cache = cache
  notify_all (n ∷ notifications) cache = notify_all notifications (handle_feature_updates n cache)
