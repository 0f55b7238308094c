-- ===== src/Feature/Lookups.antt =====
-- Lookups in the cache of features between the notifications.
use mathlib.Core.Option
use xenon_ext.Prelude.{
  ◌≡◌, refl, sym, ap, ◌∙◌, subst, ◌&&◌, ◌⊎◌, inl, inr, false, Bool-cases, Option, none, some, List,
  [], ◌∷◌, String, str_eq, eq_iff, if◌then◌else◌, All,
}
use xenon_ext.HashMap.{HashMap, get}
use xenon_ext.Feature.{
  Feature, Document, form_id, find_feature, handle_feature_updates, update_all, found_or_new,
}
use xenon_ext.Feature.Cache.{
  documents_of, last_update, unknown, found_or_new_lem, last_update-append, get-update_all,
}

-- What happens to the cache: a lookup, or a notification by the documents of its results.
pub data CacheUse : Type 0 where
  looked_up : Option String → Option String → CacheUse
  notified : Option (HashMap Document) → CacheUse

abbrev pub notifications_of : List CacheUse → List (Option (HashMap Document))
notifications_of [] = []
notifications_of (looked_up group name ∷ uses) = notifications_of uses
notifications_of (notified documents ∷ uses) = documents ∷ notifications_of uses

-- A lookup of another id, or of the same group and name.
abbrev pub Agrees : Option String → Option String → CacheUse → Type 0
Agrees group name (looked_up g n) =
    (str_eq (form_id g n) (form_id group name) ≡ false) ⊎ ((g ≡ group) × (n ≡ name))
Agrees group name (notified documents) = Unit

module _ (kind : String) where
  abbrev pub use_cache : CacheUse → HashMap Feature → HashMap Feature
  use_cache (looked_up group name) cache = (find_feature group name cache).1
  use_cache (notified documents) cache = handle_feature_updates kind documents cache

  abbrev pub use_all : List CacheUse → HashMap Feature → HashMap Feature
  use_all [] cache = cache
  use_all (u ∷ uses) cache = use_all uses (use_cache u cache)

  -- Features that are told apart by nothing but whether a new one has been stored.
  last_update-or :
      (documents : List (String × Document)) (id : String) (a b : Option Feature) (d : Feature)
      → Option.get_or a d ≡ Option.get_or b d
      → Option.get_or (last_update kind id documents a) d
        ≡ Option.get_or (last_update kind id documents b) d
  last_update-or [] id a b d h = h
  last_update-or ((link, e) ∷ documents) id a b d h =
      elim (Bool-cases
        (str_eq e.document_kind kind && str_eq (form_id e.feature.group e.feature.name) id)) [
          | inl same ↦ rw same refl
          | inr other ↦ rw other (last_update-or documents id a b d h)
        ]

  abbrev LookedUp :
      HashMap Feature → Option String → Option String → Option String → Option String → Type 0
  LookedUp cache group name g n =
      Option.get_or (get (form_id group name) (find_feature g n cache).1) (unknown group name)
      ≡ Option.get_or (get (form_id group name) cache) (unknown group name)

  find_feature_again :
      (group name : Option String) (cache : HashMap Feature) → LookedUp cache group name group name
  unfolding find_feature
  find_feature_again group name cache =
      let id = form_id group name in
      let lem = found_or_new_lem kind (get id cache) group name cache id refl in
      ap (λ (o : Option Feature). Option.get_or o (unknown group name))
        {y = some (found_or_new (get id cache) group name cache).0}
        (lem.1 ∙ rw ((eq_iff id id).1 refl) refl)
      ∙ lem.0

  looked_up-or :
      (g n group name : Option String) (cache : HashMap Feature)
      → Agrees group name (looked_up g n)
      → LookedUp cache group name g n
  unfolding find_feature
  looked_up-or g n group name cache (inl other) =
      let lem =
        found_or_new_lem kind (get (form_id g n) cache) g n cache (form_id group name) refl in
      ap (λ (o : Option Feature). Option.get_or o (unknown group name))
        {y = get (form_id group name) cache} (lem.1 ∙ rw other refl)
  looked_up-or g n group name cache (inr (same_group, same_name)) =
      subst (λ g'. LookedUp cache group name g' n) (sym same_group)
        (subst (λ n'. LookedUp cache group name group n') (sym same_name)
          (find_feature_again group name cache))

  get-use_all :
      (uses : List CacheUse) (group name : Option String) (cache : HashMap Feature)
      → All (Agrees group name) uses
      → Option.get_or (get (form_id group name) (use_all uses cache)) (unknown group name)
        ≡ Option.get_or
            (last_update kind
              (form_id group name)
              (documents_of (notifications_of uses))
              (get (form_id group name) cache))
            (unknown group name)
  unfolding handle_feature_updates
  get-use_all [] group name cache agree = refl
  get-use_all (looked_up g n ∷ uses) group name cache agree =
      get-use_all uses group name (find_feature g n cache).1 agree.1
      ∙ last_update-or (documents_of (notifications_of uses)) (form_id group name) _ _ _
          (looked_up-or g n group name cache agree.0)
  get-use_all (notified none ∷ uses) group name cache agree =
      get-use_all uses group name cache agree.1
  get-use_all (notified (some documents) ∷ uses) group name cache agree =
      get-use_all uses group name (update_all kind documents cache) agree.1
      ∙ ap (λ (o : Option Feature). Option.get_or o (unknown group name))
          (ap (last_update kind (form_id group name) (documents_of (notifications_of uses)))
              (get-update_all kind documents (form_id group name) cache)
            ∙ sym (
                last_update-append kind documents (documents_of (notifications_of uses))
                  (form_id group name) (get (form_id group name) cache)))

  -- A feature that is looked up, after notifications and lookups in any order, is the one that the
  -- last update of its id has written, or the one that was in the cache before them if none was
  -- updated, unless that update was a deletion or the cache had none: then it is a new one, which
  -- is disabled; if the lookups before of the same id were of the same group and name. The cache
  -- has the feature from then on, and has the other features as before.
  pub find_feature-use_all :
      (uses : List CacheUse) (group name : Option String) (cache : HashMap Feature) (other : String)
      → All (Agrees group name) uses
      → let id = form_id group name in
        let current = last_update kind id (documents_of (notifications_of uses)) (get id cache) in
        let before = use_all uses cache in
        let (found, after) = find_feature group name before in
        (found ≡ Option.get_or current (unknown group name))
        × (get other after ≡ (if str_eq id other then some found else get other before))
  unfolding find_feature
  find_feature-use_all uses group name cache other agree =
      let id = form_id group name in
      let before = use_all uses cache in
      let kept = found_or_new_lem kind (get id before) group name before other refl in
      (kept.0 ∙ get-use_all uses group name cache agree, kept.1)
