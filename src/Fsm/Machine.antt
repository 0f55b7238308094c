-- ===== src/Fsm/Machine.antt =====
-- core/StateMachine.java: firing a trigger.
pub mod Firing
pub mod Programs
pub mod Runs
use xenon_ext.Prelude.{Bool, true, false, Option, none, some, List, [], ◌∷◌, String, if◌then◌else◌}
use xenon_ext.Effect.{
  Throwable, illegal_state, assertion_error, null_pointer, Attempt, value, raise, Comp, done, throw,
  lift, modify, ◌>>=◌, ◌>>◌,
}
use xenon_ext.Fsm.Behaviour.{OperationRef, Transition, results_in_transition_from}
use xenon_ext.Fsm.Representation.{
  Action, ExpiryAction, StateRepresentation, ◌<>◌, can_handle, try_find_handler,
  get_permitted_triggers, enter, exit, expiry,
}
use xenon_ext.Fsm.Config.{StateMachineConfig, get_representation}

pub record StateMachine (W : Type 0) : Type 0 where
  pub config : StateMachineConfig W
  pub expiry_scheduler : Option (ExpiryAction W)

-- `List.toString`.
unfoldable pub show_tail : List String → String
show_tail [] = "]"
show_tail (s ∷ more) = ", " <> s <> show_tail more

unfoldable pub show_list : List String → String
unfolding show_tail
show_list [] = "[]"
show_list (s ∷ more) = "[" <> s <> show_tail more

unfoldable pub invalid_trigger : String → String → List String → Throwable
invalid_trigger state trigger permitted = illegal_state (
    "In current state "
    <> state
    <> ", "
    <> trigger
    <> " trigger is invalid. Valid triggers are "
    <> show_list permitted)

module _ {W : Type 0} where
  unfoldable pub new_state_machine : StateMachineConfig W → StateMachine W
  new_state_machine config = record { config = config; expiry_scheduler = none }

  unfoldable pub init_state : StateMachine W → Option String
  init_state m = m.config.init_state

  unfoldable pub set_expiry_scheduler : ExpiryAction W → StateMachine W → StateMachine W
  set_expiry_scheduler scheduler m = record m { expiry_scheduler = some scheduler }

  -- A call on the representation of a state, which fails where there is none.
  abbrev pub on_state {ℓ} :
      {A : Type ℓ} → StateMachine W → String → (StateRepresentation W → Comp W A) → Comp W A
  on_state m state f = elim (get_representation m.config state) [
    | none ↦ throw null_pointer
    | some r ↦ f r
  ]

  -- `fail` is the `fail` of the operation.
  unfoldable pub validate_trigger :
      (OperationRef → Throwable → W → W)
      → StateMachine W
      → String
      → String
      → OperationRef
      → Comp W Bool
  unfolding get_representation
  validate_trigger fail m state trigger op = on_state m state λ r. do
    handled ← lift (can_handle r trigger)
    if handled then done true else (do
      modify (fail op (invalid_trigger state trigger (get_permitted_triggers r)))
      done false)

  -- The result is Java's reference to a transition, or null.
  unfoldable pub transit :
      StateMachine W → String → String → OperationRef → Comp W (Option Transition)
  unfolding get_representation results_in_transition_from
  transit m src trigger op = on_state m src λ r. do
    handler ← lift (try_find_handler r trigger)
    elim handler [
      | none ↦ throw null_pointer
      | some b ↦
          let (can_transit, destination) = results_in_transition_from b in
          done (
            if can_transit
            then some
                (record { source = src; destination = destination; trigger = trigger; cause = op })
            else none)
    ]

  unfoldable pub schedule_expiry : StateMachine W → Action W
  unfolding get_representation
  schedule_expiry m t = on_state m t.destination λ r. expiry r t m.expiry_scheduler

  unfoldable pub fire_on_exit : StateMachine W → Action W
  unfolding get_representation
  fire_on_exit m t = on_state m t.source λ r. exit r t

  unfoldable pub fire_on_entry : StateMachine W → Action W
  unfolding get_representation
  fire_on_entry m t = on_state m t.destination λ r. enter r t

  unfoldable pub fire_trigger :
      (OperationRef → Throwable → W → W)
      → StateMachine W
      → String
      → String
      → OperationRef
      → Action W
      → Comp W (Option Transition)
  unfolding validate_trigger transit schedule_expiry fire_on_exit fire_on_entry
  fire_trigger fail m src trigger patch state_persister = do
    valid ← validate_trigger fail m src trigger patch
    if valid
        then (do
          transition ← transit m src trigger patch
          elim transition [
            | none ↦ throw (assertion_error "transition is null")
            | some t ↦ (do
              state_persister t
              fire_on_exit m t
              schedule_expiry m t
              fire_on_entry m t
              done (some t))
          ])
        else done none
