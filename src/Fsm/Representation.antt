-- ===== src/Fsm/Representation.antt =====
-- core/StateRepresentation.java: what is configured for one state.
pub mod Handlers
use Prim.Native.String
use mathlib.Core.Option
use xenon_ext.Prelude.{
  ℕ, Bool, true, false, Option, none, some, List, [], ◌∷◌, ◌++◌, String, str_eq, if◌then◌else◌,
  keep, ◌||◌,
}
use xenon_ext.HashMap.{HashMap, get, put, put_if_absent, keys}
use xenon_ext.Effect.{
  Throwable, illegal_state, Attempt, value, raise, Comp, done, ◌>>=◌, ◌>>◌, each,
}
use xenon_ext.Fsm.Behaviour.{Transition, TriggerBehaviour, is_guard_condition_met}

-- A `Consumer<Transition>`: user code that may change the world and may throw.
abbrev pub Action : Type 0 → Type 0
Action W = Transition → Comp W (Unit {0})

-- A `BiConsumer<Map<String, Long>, Transition>`.
abbrev pub ExpiryAction : Type 0 → Type 0
ExpiryAction W = HashMap ℕ → Transition → Comp W (Unit {0})

pub record StateRepresentation (W : Type 0) : Type 0 where
  pub state : String
  pub trigger_behaviours : HashMap (List TriggerBehaviour)
  pub entry_actions : List (Action W)
  pub expiry_actions : HashMap ℕ
  pub exit_actions : List (Action W)

-- `result.add(t)` of a `HashSet`.
unfoldable pub contains : List String → String → Bool
contains [] t = false
contains (s ∷ set) t = str_eq s t || contains set t

unfoldable pub add : String → List String → List String
unfolding contains
add t set = if contains set t then set else set ++ t ∷ []

-- The loop of `tryFindLocalHandler` that copies `possible` into `actual`.
unfoldable pub met_guards : List TriggerBehaviour → List TriggerBehaviour
met_guards [] = []
met_guards (b ∷ possible) =
    let rest = met_guards possible in if is_guard_condition_met b then b ∷ rest else rest

infixr 65 ◌<>◌
abbrev pub ◌<>◌ : String → String → String
s <> t = String.◌++◌ s t

unfoldable pub ambiguous : String → String → Throwable
ambiguous state trigger = illegal_state (
    "Multiple permitted exit transitions are configured from state '" <> state <> "' for trigger '"
    <> trigger <> "'. Guard clauses must be mutually exclusive.")

-- The tests on `actual.size()`.
unfoldable pub only : String → String → List TriggerBehaviour → Attempt (Option TriggerBehaviour)
only state trigger [] = value none
only state trigger (b ∷ []) = value (some b)
only state trigger (b ∷ c ∷ actual) = raise (ambiguous state trigger)

-- The inner loop of `getPermittedTriggers`, which breaks at the first guard that is met.
unfoldable pub any_guard_met : List TriggerBehaviour → Bool
any_guard_met [] = false
any_guard_met (v ∷ behaviours) = is_guard_condition_met v || any_guard_met behaviours

-- The outer loop of `getPermittedTriggers`, over the key set.
unfoldable pub permitted_of :
    HashMap (List TriggerBehaviour) → List String → List String → List String
unfolding any_guard_met add
permitted_of m [] result = result
permitted_of m (t ∷ ts) result =
    permitted_of m ts (if any_guard_met (Option.get_or (get t m) []) then add t result else result)

module _ {W : Type 0} where
  unfoldable pub new_representation : String → StateRepresentation W
  new_representation state = record {
    state = state;
    trigger_behaviours = [];
    entry_actions = [];
    expiry_actions = [];
    exit_actions = [];
  }

  unfoldable pub try_find_handler :
      StateRepresentation W → String → Attempt (Option TriggerBehaviour)
  unfolding only
  try_find_handler r trigger = elim (get trigger r.trigger_behaviours) [
    | none ↦ value none
    | some possible ↦ only r.state trigger (met_guards possible)
  ]

  unfoldable pub can_handle : StateRepresentation W → String → Attempt Bool
  unfolding try_find_handler
  can_handle r trigger = elim (try_find_handler r trigger) [
    | value none ↦ value false
    | value (some b) ↦ value true
    | raise e ↦ raise e
  ]

  unfoldable pub add_entry_action : Action W → StateRepresentation W → StateRepresentation W
  add_entry_action action r = record r { entry_actions = r.entry_actions ++ action ∷ [] }

  -- The action with the test of `addEntryAction(trigger, action)` before it.
  unfoldable pub entered_by : String → Action W → Action W
  entered_by trigger action t = if str_eq t.trigger trigger then action t else done tt

  unfoldable pub add_entry_action_from :
      String → Action W → StateRepresentation W → StateRepresentation W
  add_entry_action_from trigger action r = record r {
    entry_actions = r.entry_actions ++ entered_by trigger action ∷ [];
  }

  unfoldable pub add_expiry_action : String → ℕ → StateRepresentation W → StateRepresentation W
  add_expiry_action trigger delay r = record r {
    expiry_actions = put trigger delay r.expiry_actions;
  }

  unfoldable pub add_exit_action : Action W → StateRepresentation W → StateRepresentation W
  add_exit_action action r = record r { exit_actions = r.exit_actions ++ action ∷ [] }

  unfoldable pub execute_entry_actions : StateRepresentation W → Action W
  execute_entry_actions r t = each (λ action. action t) r.entry_actions

  unfoldable pub execute_exit_actions : StateRepresentation W → Action W
  execute_exit_actions r t = each (λ action. action t) r.exit_actions

  unfoldable pub enter : StateRepresentation W → Action W
  unfolding execute_entry_actions
  enter r = execute_entry_actions r

  unfoldable pub exit : StateRepresentation W → Action W
  unfolding execute_exit_actions
  exit r = execute_exit_actions r

  -- No scheduler is a log line only.
  unfoldable pub expiry :
      StateRepresentation W → Transition → Option (ExpiryAction W) → Comp W (Unit {0})
  expiry r t scheduler = elim r.expiry_actions [
    | [] ↦ done tt
    | e ∷ rest ↦ elim scheduler [ none ↦ done tt | some accept ↦ accept r.expiry_actions t ]
  ]

  unfoldable pub add_trigger_behaviour :
      TriggerBehaviour → StateRepresentation W → StateRepresentation W
  add_trigger_behaviour b r =
      let m = r.trigger_behaviours in
      let allowed = put_if_absent b.trigger [] m in
      record r {
        trigger_behaviours =
            put b.trigger (Option.get_or (get b.trigger allowed) [] ++ b ∷ []) allowed;
      }

  unfoldable pub get_permitted_triggers : StateRepresentation W → List String
  unfolding permitted_of
  get_permitted_triggers r = permitted_of r.trigger_behaviours (keys r.trigger_behaviours) []
