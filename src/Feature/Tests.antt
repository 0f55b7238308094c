-- ===== src/Feature/Tests.antt =====
-- A feature that is created, disabled, deleted and looked up.
use xenon_ext.Prelude.{inl, inr, refl, All, ◌≡◌, true, false, none, some, List, [], ◌∷◌, String}
use xenon_ext.HashMap.{HashMap, get}
use xenon_ext.Fsm.Dot.{show_nullable}
use xenon_ext.Effect.{Attempt, value, raise, null_pointer}
use xenon_ext.Feature.{
  dao_handle_start, Feature, new_feature_object, default, form_id, find_feature, new_feature,
  to_optional, enable_feature,
}
use xenon_ext.Feature.Lookups.{CacheUse, looked_up, notified, use_all, find_feature-use_all}
use xenon_ext.Feature.Toggles.{toggle_all, toggled_feature}

abbrev dark : Feature
dark = record new_feature_object {
  group = some "ui";
  name = some "dark";
  enable = true;
  strategy = some default;
  document_update_action = "POST";
}

abbrev kind : String
kind = "Feature"

-- The second notification has no results, and the third a document of another kind.
abbrev uses : List CacheUse
uses =
    looked_up (some "ui") (some "dark")
    ∷ notified (some (("/f/1", record { document_kind = kind; feature = dark }) ∷ []))
    ∷ looked_up (some "ui") (some "light")
    ∷ notified none
    ∷ notified
        (some (("/g/1", record { document_kind = "Gateway"; feature = new_feature_object }) ∷ []))
    ∷ []

abbrev after : HashMap Feature
after = use_all kind uses []

find_feature-use_all_example :
    ((find_feature (some "ui") (some "dark") after).0 ≡ dark)
    × (get "ui::light" (find_feature (some "ui") (some "dark") after).1 ≡ get "ui::light" after)
unfolding form_id get show_nullable
find_feature-use_all_example =
    find_feature-use_all kind uses (some "ui") (some "dark") [] "ui::light"
      (inr (refl, refl), (tt, (inl refl, (tt, (tt, tt)))))

abbrev light : Feature
light = record dark { group = some "ui"; name = some "light"; strategy = none; enable = false }

abbrev document : Feature
document = record light { document_self_link = some "ui::light"; strategy = some default }

abbrev is_named : Feature → Attempt (Unit {0})
is_named f = elim f.name [ none ↦ raise null_pointer | some n ↦ value tt ]

toggled_feature_example :
    (is_named document ≡ value tt)
    × (document ≡ record light { document_self_link = some "ui::light"; strategy = some default })
    × All
        (λ b. (enable_feature (some "ui") (some "light") b).0 ≡ "ui::light")
        (true ∷ false ∷ true ∷ [])
    × (toggle_all (true ∷ false ∷ true ∷ []) document ≡ record document { enable = true })
    × (to_optional false (toggle_all (true ∷ false ∷ true ∷ []) document) ≡ some false)
unfolding form_id show_nullable new_feature dao_handle_start
toggled_feature_example =
    toggled_feature is_named (λ f. value tt) light document (true ∷ false ∷ true ∷ []) false refl

-- Two features of one id, of which the cache keeps one.
same_id : form_id (some "a::b") (some "c") ≡ form_id (some "a") (some "b::c")
unfolding form_id show_nullable
same_id = refl
