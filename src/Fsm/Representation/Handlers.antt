-- ===== src/Fsm/Representation/Handlers.antt =====
-- Which trigger a state handles: `tryFindHandler`, `canHandle` and `getPermittedTriggers` agree.
use mathlib.Core.Option
use xenon_ext.Prelude.{
  ◌≡◌, refl, ◌↔◌, false, none, List, [], ◌∷◌, ◌++◌, String, str_eq, eq_iff, arith, if◌then◌else◌,
  ◌&&◌, ◌||◌, Option-cases, inl, inr,
}
use xenon_ext.HashMap.{HashMap, get, keys}
use xenon_ext.Effect.{value}
use xenon_ext.Fsm.Behaviour.{TriggerBehaviour}
use xenon_ext.Fsm.Representation.{
  StateRepresentation, contains, add, met_guards, only, any_guard_met, try_find_handler, can_handle,
  permitted_of, get_permitted_triggers,
}

contains-snoc :
    (set : List String) (s t : String) → contains (set ++ s ∷ []) t ≡ (contains set t || str_eq s t)
unfolding contains
contains-snoc [] s t = ground arith
contains-snoc (x ∷ set) s t = ground (arith, contains-snoc set s t)

contains-add :
    (s : String) (set : List String) (t : String)
    → contains (add s set) t ≡ (contains set t || str_eq s t)
unfolding add
contains-add s set t = ground (arith, contains-snoc set s t, eq_iff s t)

contains-permitted_of :
    (m : HashMap (List TriggerBehaviour)) (ts result : List String) (t : String)
    → contains (permitted_of m ts result) t
      ≡ (contains result t || contains ts t && any_guard_met (Option.get_or (get t m) []))
unfolding permitted_of
contains-permitted_of m [] result t = unfold contains in ground arith
contains-permitted_of m (s ∷ ts) result t =
    let met = any_guard_met (Option.get_or (get s m) []) in
    unfold contains in
    ground (
      arith,
      contains-permitted_of m ts (if met then add s result else result) t,
      contains-add s result t,
      eq_iff s t,
    )

contains-keys {ℓ} :
    {V : Type ℓ} (m : HashMap V) (t : String) → contains (keys m) t ≡ false → get t m ≡ none
unfolding contains get
contains-keys [] t h = refl
contains-keys ((j, v) ∷ m) t h = ground (arith, contains-keys m t)

-- A trigger is permitted when some guard of its behaviours is met.
pub contains-get_permitted_triggers :
    {W : Type 0} (r : StateRepresentation W) (t : String)
    → contains (get_permitted_triggers r) t
      ≡ any_guard_met (Option.get_or (get t r.trigger_behaviours) [])
unfolding get_permitted_triggers
contains-get_permitted_triggers r t =
    let m = r.trigger_behaviours in
    unfold contains any_guard_met in
    ground (arith, contains-permitted_of m (keys m) [] t, contains-keys m t)

any_guard_met-met_guards :
    (bs : List TriggerBehaviour) → (any_guard_met bs ≡ false) ↔ (met_guards bs ≡ [])
unfolding any_guard_met met_guards
any_guard_met-met_guards [] = ground arith
any_guard_met-met_guards (b ∷ bs) = ground (arith, any_guard_met-met_guards bs)

-- `canHandle` returns false exactly for the triggers that `getPermittedTriggers` does not list.
pub can_handle-permitted :
    {W : Type 0} (r : StateRepresentation W) (t : String)
    → (can_handle r t ≡ value false) ↔ (contains (get_permitted_triggers r) t ≡ false)
unfolding can_handle try_find_handler only
can_handle-permitted r t = elim (Option-cases (get t r.trigger_behaviours)) [
  | inl missing ↦ unfold any_guard_met in ground (arith, contains-get_permitted_triggers r t)
  | inr (bs, found) ↦
      ground (arith, contains-get_permitted_triggers r t, any_guard_met-met_guards bs)
]
