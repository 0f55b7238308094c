-- ===== src/Feature/Cache.antt =====
-- The cache of features against the updates that it was notified of.
use mathlib.Core.Option
use xenon_ext.Prelude.{
  ◌≡◌, refl, sym, ap, ◌∙◌, ◌&&◌, Option, none, some, List, [], ◌∷◌, ◌++◌, String, str_eq, eq_iff,
  arith, if◌then◌else◌,
}
use xenon_ext.HashMap.{HashMap, get, get-put, get-remove}
use xenon_ext.Feature.{
  Feature, new_feature_object, Document, form_id, found_or_new, find_feature, handle_feature_update,
  update_all, handle_feature_updates, notify_all,
}

-- The documents of the notifications, in order.
abbrev pub documents_of : List (Option (HashMap Document)) → List (String × Document)
documents_of [] = []
documents_of (none ∷ notifications) = documents_of notifications
documents_of (some documents ∷ notifications) = documents ++ documents_of notifications

-- What an update leaves of its feature.
abbrev pub left_by : Feature → Option Feature
left_by f = if str_eq f.document_update_action "DELETE" then none else some f

-- The feature under an id after the last of the documents that is a feature with this id.
abbrev pub last_update :
    String → String → List (String × Document) → Option Feature → Option Feature
last_update kind id [] old = old
last_update kind id ((link, d) ∷ documents) old = last_update kind id documents (
    if str_eq d.document_kind kind && str_eq (form_id d.feature.group d.feature.name) id
    then left_by d.feature
    else old)

-- The feature of a group and a name, where there is none: disabled.
abbrev pub unknown : Option String → Option String → Feature
unknown group name = record new_feature_object { group = group; name = name }

module _ (kind : String) where
  get-handle_feature_update :
      (f : Feature) (id : String) (cache : HashMap Feature)
      → get id (handle_feature_update f cache)
        ≡ (if str_eq (form_id f.group f.name) id then left_by f else get id cache)
  unfolding handle_feature_update
  get-handle_feature_update f id cache = ground (
    arith,
    get-put (form_id f.group f.name) id f cache,
    get-remove (form_id f.group f.name) id cache,
  )

  pub found_or_new_lem :
      (o : Option Feature) (group name : Option String) (cache : HashMap Feature) (other : String)
      → get (form_id group name) cache ≡ o
      → let (found, after) = found_or_new o group name cache in
        (found ≡ Option.get_or o (unknown group name))
        × (get other after
            ≡ (if str_eq (form_id group name) other then some found else get other cache))
  unfolding found_or_new
  found_or_new_lem (some f) group name cache other e =
      (refl, ground (arith, eq_iff (form_id group name) other))
  found_or_new_lem none group name cache other e =
      (refl, get-put (form_id group name) other (unknown group name) cache)

  pub get-update_all :
      (documents : List (String × Document)) (id : String) (cache : HashMap Feature)
      → get id (update_all kind documents cache) ≡ last_update kind id documents (get id cache)
  unfolding update_all
  get-update_all [] id cache = refl
  get-update_all ((link, d) ∷ documents) id cache =
      get-update_all documents id _
      ∙ ap (last_update kind id documents)
          (ground (arith, get-handle_feature_update d.feature id cache))

  pub last_update-append :
      (ds es : List (String × Document)) (id : String) (old : Option Feature)
      → last_update kind id (ds ++ es) old ≡ last_update kind id es (last_update kind id ds old)
  last_update-append [] es id old = refl
  last_update-append ((link, d) ∷ ds) es id old = last_update-append ds es id _

  get-notify_all :
      (notifications : List (Option (HashMap Document))) (id : String) (cache : HashMap Feature)
      → get id (notify_all kind notifications cache)
        ≡ last_update kind id (documents_of notifications) (get id cache)
  unfolding notify_all handle_feature_updates
  get-notify_all [] id cache = refl
  get-notify_all (none ∷ notifications) id cache = get-notify_all notifications id cache
  get-notify_all (some documents ∷ notifications) id cache =
      get-notify_all notifications id (update_all kind documents cache)
      ∙ ap (last_update kind id (documents_of notifications)) (get-update_all documents id cache)
      ∙ sym (last_update-append documents (documents_of notifications) id (get id cache))

  -- A feature that is looked up after any notifications is the one that the last update of its id
  -- has written, or the one that was in the cache before if none was updated, unless that update
  -- was a deletion or the cache had none: then it is a new one, which is disabled. In both cases
  -- the cache has it from then on, and has the other features as before.
  pub find_feature-notify_all :
      (notifications : List (Option (HashMap Document))) (group name : Option String)
      (cache : HashMap Feature) (other : String)
      → let id = form_id group name in
        let current = last_update kind id (documents_of notifications) (get id cache) in
        let before = notify_all kind notifications cache in
        let (found, after) = find_feature group name before in
        (found ≡ Option.get_or current (unknown group name))
        × (get other after ≡ (if str_eq id other then some found else get other before))
  unfolding find_feature
  find_feature-notify_all notifications group name cache other =
      let id = form_id group name in
      let before = notify_all kind notifications cache in
      let kept = found_or_new_lem (get id before) group name before other refl in
      (
        kept.0
            ∙ ap (λ o. Option.get_or o (unknown group name))
                (get-notify_all notifications id cache),
        kept.1,
      )
