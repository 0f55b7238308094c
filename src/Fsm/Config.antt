-- ===== src/Fsm/Config.antt =====
-- core/StateMachineConfig.java and core/StateConfiguration.java: the builder of a configuration.
pub mod Edits
pub mod Declared
pub mod Configured
pub mod Closed
pub mod Actions
use xenon_ext.Prelude.{
  ℕ, Bool, true, false, Option, none, some, List, [], ◌∷◌, ◌++◌, String, str_eq, if◌then◌else◌,
  ◌&&◌, ◌==◌,
}
use xenon_ext.HashMap.{HashMap, get, put}
use xenon_ext.Effect.{illegal_state, assertion_error, Comp, done, throw, modify, ◌>>=◌, ◌>>◌, each}
use xenon_ext.Fsm.Behaviour.{TriggerBehaviour, new_transition_behaviour}
use xenon_ext.Fsm.Representation.{
  Action, StateRepresentation, new_representation, add_entry_action, add_entry_action_from,
  add_expiry_action, add_exit_action, add_trigger_behaviour,
}

pub record StateMachineConfig (W : Type 0) : Type 0 where
  pub state_configuration : HashMap (StateRepresentation W)
  pub init_state : Option String

abbrev pub no_guard : String → Bool
no_guard t = true

abbrev pub identity_message : String
identity_message =
    "Permit() (and PermitIf()) require that the destination state is not equal to the source state. To accept a trigger without changing state, use either Ignore() or PermitReentry()."

module _ {W : Type 0} where
  unfoldable pub new_builder : Option String → StateMachineConfig W
  new_builder init_state = record { state_configuration = []; init_state = init_state }

  unfoldable pub get_representation : StateMachineConfig W → String → Option (StateRepresentation W)
  get_representation c state = get state c.state_configuration

  -- `computeIfAbsent`; the representation that it returns is reached through its state.
  unfoldable pub get_or_create_representation : String → StateMachineConfig W → StateMachineConfig W
  get_or_create_representation state c = elim (get state c.state_configuration) [
    | none ↦ record c {
      state_configuration = put state (new_representation state) c.state_configuration;
    }
    | some r ↦ c
  ]

  unfoldable pub configure : String → Comp (StateMachineConfig W) (Unit {0})
  unfolding get_or_create_representation
  configure state = modify (get_or_create_representation state)

  -- A call on the representation that a `StateConfiguration` holds, which is shared with the map.
  unfoldable pub on_representation :
      (StateRepresentation W → StateRepresentation W)
      → String
      → StateMachineConfig W
      → StateMachineConfig W
  on_representation f state c = elim (get state c.state_configuration) [
    | none ↦ c
    | some r ↦ record c { state_configuration = put state (f r) c.state_configuration }
  ]

  unfoldable pub enforce_not_identity_transition :
      String → String → Comp (StateMachineConfig W) (Unit {0})
  enforce_not_identity_transition state destination =
      if str_eq destination state then throw (illegal_state identity_message) else done tt

  unfoldable pub public_permit_if :
      String → String → String → (String → Bool) → Comp (StateMachineConfig W) (Unit {0})
  unfolding on_representation add_trigger_behaviour new_transition_behaviour
  public_permit_if state trigger destination guard = modify (
      on_representation (add_trigger_behaviour (new_transition_behaviour trigger destination guard))
        state)

  unfoldable pub public_permit : String → String → String → Comp (StateMachineConfig W) (Unit {0})
  unfolding public_permit_if
  public_permit state trigger destination = public_permit_if state trigger destination no_guard

  unfoldable pub permit : String → String → String → Comp (StateMachineConfig W) (Unit {0})
  unfolding enforce_not_identity_transition public_permit
  permit state trigger destination = do
    enforce_not_identity_transition state destination
    public_permit state trigger destination

  unfoldable pub permit_if :
      String → String → String → (String → Bool) → Comp (StateMachineConfig W) (Unit {0})
  unfolding enforce_not_identity_transition public_permit_if
  permit_if state trigger destination guard = do
    enforce_not_identity_transition state destination
    public_permit_if state trigger destination guard

  unfoldable pub permit_reentry : String → String → Comp (StateMachineConfig W) (Unit {0})
  unfolding public_permit
  permit_reentry state trigger = public_permit state trigger state

  unfoldable pub permit_reentry_if :
      String → String → (String → Bool) → Comp (StateMachineConfig W) (Unit {0})
  unfolding public_permit_if
  permit_reentry_if state trigger guard = public_permit_if state trigger state guard

  unfoldable pub on_entry : String → Action W → Comp (StateMachineConfig W) (Unit {0})
  unfolding on_representation add_entry_action
  on_entry state action = modify (on_representation (add_entry_action action) state)

  unfoldable pub on_entry_from : String → String → Action W → Comp (StateMachineConfig W) (Unit {0})
  unfolding on_representation add_entry_action_from
  on_entry_from state trigger action =
      modify (on_representation (add_entry_action_from trigger action) state)

  -- The `assert` runs where the virtual machine has assertions enabled.
  unfoldable pub on_expiry : Bool → String → String → ℕ → Comp (StateMachineConfig W) (Unit {0})
  unfolding on_representation add_expiry_action
  on_expiry assertions state trigger millis =
      if assertions && millis == 0
      then throw (assertion_error "expireAfter time duration is less than zero")
      else modify (on_representation (add_expiry_action trigger millis) state)

  unfoldable pub on_exit : String → Action W → Comp (StateMachineConfig W) (Unit {0})
  unfolding on_representation add_exit_action
  on_exit state action = modify (on_representation (add_exit_action action) state)

-- A call on the `StateConfiguration` of a state, as a program of `stateMachineConfig()` makes it.
pub data Call (W : Type 0) : Type 0 where
  configured : String → Call W
  permits : String → String → String → Call W
  permits_if : String → String → String → (String → Bool) → Call W
  permits_reentry : String → String → Call W
  permits_reentry_if : String → String → (String → Bool) → Call W
  entry : String → Action W → Call W
  entry_from : String → String → Action W → Call W
  expires : String → String → ℕ → Call W
  exits : String → Action W → Call W

module _ {W : Type 0} (assertions : Bool) where
  unfoldable pub invoke : Call W → Comp (StateMachineConfig W) (Unit {0})
  unfolding configure permit permit_if permit_reentry permit_reentry_if on_entry on_entry_from
      on_expiry on_exit
  invoke (configured s) = configure s
  invoke (permits s t d) = do configure s; permit s t d
  invoke (permits_if s t d g) = do configure s; permit_if s t d g
  invoke (permits_reentry s t) = do configure s; permit_reentry s t
  invoke (permits_reentry_if s t g) = do configure s; permit_reentry_if s t g
  invoke (entry s a) = do configure s; on_entry s a
  invoke (entry_from s t a) = do configure s; on_entry_from s t a
  invoke (expires s t n) = do configure s; on_expiry assertions s t n
  invoke (exits s a) = do configure s; on_exit s a

  -- A chain of calls on a builder, up to the first that throws.
  unfoldable pub build : List (Call W) → Comp (StateMachineConfig W) (Unit {0})
  unfolding invoke each
  build calls = each invoke calls
