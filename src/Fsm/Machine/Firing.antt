-- ===== src/Fsm/Machine/Firing.antt =====
-- What `fireTrigger` does in each case, by the representations of the two states.
use xenon_ext.Prelude.{◌≡◌, refl, ◌∙◌, fun_ext, none, some, List, ◌∷◌, ◌++◌, String, arith}
use xenon_ext.Effect.{
  Throwable, null_pointer, value, raise, Comp, done, throw, ◌>>◌, each, each-append,
}
use xenon_ext.Fsm.Behaviour.{OperationRef, Transition, TriggerBehaviour}
use xenon_ext.Fsm.Representation.{
  Action, StateRepresentation, try_find_handler, can_handle, get_permitted_triggers, enter, exit,
  expiry,
}
use xenon_ext.Fsm.Config.{get_representation}
use xenon_ext.Fsm.Machine.{
  StateMachine, invalid_trigger, schedule_expiry, fire_on_entry, fire_trigger,
}

-- Actions run in a row on one transition, up to the first that throws.
unfoldable pub run_all : {W : Type 0} → List (Action W) → Action W
run_all actions t = each (λ action. action t) actions

-- The scheduling of the expiries of a destination, as an action.
unfoldable pub timers : {W : Type 0} → StateMachine W → StateRepresentation W → Action W
timers m d t = expiry d t m.expiry_scheduler

-- The transition that a behaviour of the source state makes.
abbrev pub transition_by : String → String → OperationRef → TriggerBehaviour → Transition
transition_by src trigger patch b = record {
  source = src;
  destination = b.destination;
  trigger = trigger;
  cause = patch;
}

module _ {W : Type 0} where
  exit_lem : (r : StateRepresentation W) (t : Transition) → exit r t ≡ run_all r.exit_actions t
  unfolding exit run_all
  exit_lem r t = refl

  module _ (m : StateMachine W) (t : Transition) (d : StateRepresentation W)
      (there : get_representation m.config t.destination ≡ some d) where
    schedule_expiry_lem : schedule_expiry m t ≡ timers m d t
    unfolding schedule_expiry timers
    schedule_expiry_lem = fun_ext (λ w. ground arith)

    fire_on_entry_lem : fire_on_entry m t ≡ run_all d.entry_actions t
    unfolding fire_on_entry enter run_all
    fire_on_entry_lem = fun_ext (λ w. ground arith)

  regroup {ℓ} :
      {B : Type ℓ} (p q r s : Comp W (Unit {0})) (last : Comp W B) (w : W)
      → (do p; q; r; s; last) w ≡ ((p >> (q >> (r >> s))) >> last) w
  regroup p q r s last w = ground arith

module _ {W : Type 0} (fail : OperationRef → Throwable → W → W) (m : StateMachine W)
    (src trigger : String) (patch : OperationRef) (persister : Action W) (w : W) where
  pub fire-missing :
      get_representation m.config src ≡ none
      → fire_trigger fail m src trigger patch persister w ≡ (raise null_pointer, w)
  unfolding fire_trigger
  fire-missing missing = ground arith

  module _ (r : StateRepresentation W) (found : get_representation m.config src ≡ some r) where
    pub fire-raised :
        (e : Throwable)
        → try_find_handler r trigger ≡ raise e
        → fire_trigger fail m src trigger patch persister w ≡ (raise e, w)
    unfolding fire_trigger can_handle get_representation
    fire-raised e raised = ground arith

    pub fire-refused :
        try_find_handler r trigger ≡ value none
        → fire_trigger fail m src trigger patch persister w
          ≡ (value none, fail patch (invalid_trigger src trigger (get_permitted_triggers r)) w)
    unfolding fire_trigger can_handle get_representation
    fire-refused refused = ground arith

    module _ (b : TriggerBehaviour) (handled : try_find_handler r trigger ≡ value (some b)) where
      fire-persisted :
          let t = transition_by src trigger patch b in
          fire_trigger fail m src trigger patch persister w
          ≡ (do persister t; exit r t; schedule_expiry m t; fire_on_entry m t; done (some t)) w
      unfolding fire_trigger can_handle get_representation
      fire-persisted = ground arith

      -- The state persister, the exit actions, the scheduling of expiries and the entry actions
      -- run in this order, up to the first that throws.
      pub fire-accepted :
          (d : StateRepresentation W)
          → get_representation m.config b.destination ≡ some d
          → let t = transition_by src trigger patch b in
            fire_trigger fail m src trigger patch persister w
            ≡ (do
              run_all (persister ∷ r.exit_actions ++ timers m d ∷ d.entry_actions) t
              done (some t))
                w
      unfolding run_all each
      fire-accepted d there =
          let t = transition_by src trigger patch b in
          let body = λ (action : Action W). action t in
          fire-persisted
          ∙ rw
              (
                schedule_expiry_lem m t d there,
                fire_on_entry_lem m t d there,
                exit_lem r t,
                fun_ext (each-append body r.exit_actions (timers m d ∷ d.entry_actions)),
              )
              (regroup (persister t) (each body r.exit_actions) (timers m d t)
                (each body d.entry_actions) (done (some t)) w)

      -- Without a representation of the destination, the persister and the exit actions have run
      -- when the call throws.
      pub fire-unconfigured :
          get_representation m.config b.destination ≡ none
          → fire_trigger fail m src trigger patch persister w
            ≡ (do
              run_all (persister ∷ r.exit_actions) (transition_by src trigger patch b)
              throw null_pointer)
                w
      unfolding run_all each exit schedule_expiry
      fire-unconfigured missing = ground (arith, fire-persisted)
