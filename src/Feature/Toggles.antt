-- ===== src/Feature/Toggles.antt =====
-- The life of a feature: its creation, and the requests that enable and disable it.
use mathlib.Core.Option
use xenon_ext.Prelude.{
  ◌≡◌, refl, sym, ap, ◌∙◌, subst, Bool, Option, none, some, List, [], ◌∷◌, String, arith,
  if◌then◌else◌, All,
}
use xenon_ext.Effect.{Attempt, value, raise}
use xenon_ext.Feature.{
  Feature, passed_on, default, start_unless, start_validated, dao_handle_start, form_id,
  patch_feature, with_strategy, new_feature, to_optional, enable_feature,
}

-- Enabling or disabling a feature sends the id of the document that a new feature of this group
-- and name gets, and the patch changes nothing else of its document than whether it is enabled: it
-- is then an optional value exactly if it was enabled.
pub enable_feature-patch :
    {T : Type 0} (group name : Option String) (enabled : Bool) (current : Feature) (input : T)
    → let (id, patch) = enable_feature group name enabled in
      let created = new_feature (record current { group = group; name = name }) in
      (created.document_self_link ≡ some id)
      × ((patch_feature patch (with_strategy created)
            ≡ record (with_strategy created) { enable = enabled })
          × (to_optional input (patch_feature patch created)
              ≡ (if enabled then some input else none)))
unfolding enable_feature patch_feature with_strategy new_feature to_optional
enable_feature-patch group name enabled current input = (refl, (ground arith, refl))

-- The document after the patches of some requests that enable or disable it.
abbrev pub toggle_all : List Bool → Feature → Feature
toggle_all [] d = d
toggle_all (b ∷ bs) d = toggle_all bs (patch_feature (enable_feature d.group d.name b).1 d)

abbrev pub last_or : Bool → List Bool → Bool
last_or b [] = b
last_or b (c ∷ bs) = last_or c bs

toggle_all_lem :
    (bs : List Bool) (d : Feature) → toggle_all bs d ≡ record d { enable = last_or d.enable bs }
unfolding patch_feature enable_feature
toggle_all_lem [] d = refl
toggle_all_lem (b ∷ bs) d = toggle_all_lem bs (patch_feature (enable_feature d.group d.name b).1 d)

addressed :
    (f : Feature) (bs : List Bool)
    → All (λ b. (enable_feature f.group f.name b).0 ≡ form_id f.group f.name) bs
unfolding enable_feature
addressed f [] = tt
addressed f (b ∷ bs) = (refl, addressed f bs)

start_unless_lem : (r : Attempt (Unit {0})) (s d : Feature) → start_unless r s ≡ passed_on d → s ≡ d
unfolding start_unless
start_unless_lem (value u) s d h = ground arith
start_unless_lem (raise e) s d h = ground arith

start_validated_lem :
    (start_base : Feature → Attempt (Unit {0})) (r : Attempt (Unit {0})) (s d : Feature)
    → start_validated start_base r s ≡ passed_on d
    → (s ≡ d) × (r ≡ value tt)
unfolding start_validated
start_validated_lem start_base (value u) s d h = (start_unless_lem (start_base s) s d h, refl)
start_validated_lem start_base (raise e) s d h = ground arith

with_strategy-default :
    (f : Feature)
    → with_strategy f ≡ record f { strategy = some (Option.get_or f.strategy default) }
unfolding with_strategy
with_strategy-default f = ground arith

-- A new feature whose document was started is valid, has a strategy, the default one unless
-- another was given, and the id of its group and name. Each request that enables or disables it
-- addresses this id, and after any of them the document is as it was started, but for being
-- enabled as the last of them says; an optional value is then present exactly if it is enabled.
pub toggled_feature :
    {T : Type 0} (validate start_base : Feature → Attempt (Unit {0})) (f d : Feature)
    (bs : List Bool) (input : T)
    → dao_handle_start validate start_base (value (new_feature f)) ≡ passed_on d
    → let enabled = last_or f.enable bs in
      (validate d ≡ value tt)
      × (d ≡ record f {
        document_self_link = some (form_id f.group f.name);
        strategy = some (Option.get_or f.strategy default);
      })
      × All (λ b. (enable_feature f.group f.name b).0 ≡ form_id f.group f.name) bs
      × (toggle_all bs d ≡ record d { enable = enabled })
      × (to_optional input (toggle_all bs d) ≡ (if enabled then some input else none))
unfolding dao_handle_start new_feature to_optional
toggled_feature validate start_base f d bs input h =
    let (started, valid) =
      start_validated_lem start_base (validate (with_strategy (new_feature f)))
        (with_strategy (new_feature f)) d h in
    let made = sym started ∙ with_strategy-default (new_feature f) in
    let toggled =
      toggle_all_lem bs d
      ∙ ap (λ b. record d { enable = last_or b bs }) (ap (λ e. e.enable) made) in
    (
      subst (λ e. validate e ≡ value tt) started valid,
      made,
      addressed f bs,
      toggled,
      ap (to_optional input) toggled,
    )
