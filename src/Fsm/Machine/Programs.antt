-- ===== src/Fsm/Machine/Programs.antt =====
-- What firing a trigger does on a machine whose configuration a program of builder calls made,
-- read off the program.
use xenon_ext.Prelude.{
  ◌≡◌, ap, ◌∙◌, ◌≤◌, Bool, true, false, Option, none, some, List, [], ◌∷◌, ◌++◌, String, arith,
  length,
}
use xenon_ext.Effect.{Throwable, null_pointer, value, raise, done, throw, ◌>>◌}
use xenon_ext.Fsm.Behaviour.{OperationRef, TriggerBehaviour}
use xenon_ext.Fsm.Representation.{
  Action, StateRepresentation, contains, met_guards, only, ambiguous, try_find_handler,
  get_permitted_triggers,
}
use xenon_ext.Fsm.Config.{StateMachineConfig, get_representation, Call, build, new_builder}
use xenon_ext.Fsm.Config.Edits.{behaviours_of, representation_or_new}
use xenon_ext.Fsm.Config.Declared.{permitted, declared, entries, exit_actions_of, build-declared}
use xenon_ext.Fsm.Config.Configured.{states_of, build-get_representation, build-state}
use xenon_ext.Fsm.Machine.{StateMachine, invalid_trigger, fire_trigger}
use xenon_ext.Fsm.Machine.Firing.{
  run_all, timers, transition_by, fire-missing, fire-raised, fire-refused, fire-accepted,
  fire-unconfigured,
}

try_find_handler_lem :
    {W : Type 0} (r : StateRepresentation W) (t : String)
    → try_find_handler r t ≡ only r.state t (met_guards (behaviours_of r t))
unfolding try_find_handler behaviours_of met_guards
try_find_handler_lem r t = ground arith

-- The behaviours that the program declares for a state under a trigger and whose guards are met.
abbrev pub open_behaviours : {W : Type 0} → List (Call W) → String → String → List TriggerBehaviour
open_behaviours calls src trigger = met_guards (declared (permitted trigger) src calls)

only_of_several :
    (src trigger : String) (bs : List TriggerBehaviour)
    → 2 ≤ length bs
    → only src trigger bs ≡ raise (ambiguous src trigger)
unfolding only
only_of_several src trigger bs several = ground arith

-- The configuration that a program of calls on a new builder leaves.
abbrev pub built_by : {W : Type 0} → Bool → Option String → List (Call W) → StateMachineConfig W
built_by ea init calls = (build ea calls (new_builder init)).1

module _ {W : Type 0} (ea : Bool) (init : Option String) (calls : List (Call W))
    (ok : (build ea calls (new_builder init)).0 ≡ value tt) where
  pub found_of :
      (s : String)
      → contains (states_of calls) s ≡ true
      → get_representation (built_by ea init calls) s
        ≡ some (representation_or_new (built_by ea init calls) s)
  found_of s named = rw (build-get_representation ea init calls s ok, named)

  pub missing_of :
      (s : String)
      → contains (states_of calls) s ≡ false
      → get_representation (built_by ea init calls) s ≡ none
  missing_of s named = rw (build-get_representation ea init calls s ok, named)

  pub handler_of :
      (src trigger : String)
      → try_find_handler (representation_or_new (built_by ea init calls) src) trigger
        ≡ only src trigger (open_behaviours calls src trigger)
  handler_of src trigger =
      try_find_handler_lem (representation_or_new (built_by ea init calls) src) trigger
      ∙ rw ((build-declared ea init calls src ok).0 trigger, build-state ea init calls src ok)

  module _ (fail : OperationRef → Throwable → W → W) (m : StateMachine W)
      (built : m.config ≡ built_by ea init calls) (src trigger : String) (patch : OperationRef)
      (persister : Action W) (w : W) where
    found_in :
        (s : String)
        → contains (states_of calls) s ≡ true
        → get_representation m.config s ≡ some (representation_or_new (built_by ea init calls) s)
    found_in s named = ap (λ c. get_representation c s) built ∙ found_of s named

    missing_in :
        (s : String) → contains (states_of calls) s ≡ false → get_representation m.config s ≡ none
    missing_in s named = ap (λ c. get_representation c s) built ∙ missing_of s named

    -- If exactly one guard is met among the behaviours that the program declares for the source
    -- and the trigger, and the program names the destination, the state persister runs first,
    -- then the exit actions declared for the source, the scheduling of the expiries of the
    -- destination and the entry actions declared for it, in the program's order and up to the
    -- first that throws; the transition is returned if none throws.
    pub fire_accepts :
        (b : TriggerBehaviour)
        → contains (states_of calls) src ≡ true
        → contains (states_of calls) b.destination ≡ true
        → open_behaviours calls src trigger ≡ b ∷ []
        → let t = transition_by src trigger patch b in
          let d = representation_or_new (built_by ea init calls) b.destination in
          fire_trigger fail m src trigger patch persister w
          ≡ (do
            run_all
                (persister ∷ declared exit_actions_of src calls
                  ++ timers m d ∷ declared entries b.destination calls)
                t
            done (some t))
              w
    unfolding only
    fire_accepts b named there one =
        let r = representation_or_new (built_by ea init calls) src in
        let d = representation_or_new (built_by ea init calls) b.destination in
        fire-accepted fail m src trigger patch persister w r (found_in src named) b
          (handler_of src trigger ∙ rw one) d (found_in b.destination there)
        ∙ rw (
          (build-declared ea init calls src ok).2,
          (build-declared ea init calls b.destination ok).1,
        )

    -- If the program names no such destination, the state persister and the exit actions of the
    -- source have run when the call throws a null pointer exception, if none of them has thrown.
    pub fire_into_unconfigured :
        (b : TriggerBehaviour)
        → contains (states_of calls) src ≡ true
        → contains (states_of calls) b.destination ≡ false
        → open_behaviours calls src trigger ≡ b ∷ []
        → fire_trigger fail m src trigger patch persister w
          ≡ (do
            run_all
                (persister ∷ declared exit_actions_of src calls)
                (transition_by src trigger patch b)
            throw null_pointer)
              w
    unfolding only
    fire_into_unconfigured b named missing one =
        let r = representation_or_new (built_by ea init calls) src in
        fire-unconfigured fail m src trigger patch persister w r (found_in src named) b
          (handler_of src trigger ∙ rw one) (missing_in b.destination missing)
        ∙ rw (build-declared ea init calls src ok).2

    -- In every other case nothing is persisted and no action runs: with no guard met the
    -- operation fails with the message for an invalid trigger and null is returned, with two or
    -- more the call throws, and so it does for a source that the program does not name.
    pub fire_rejects :
        (open_behaviours calls src trigger ≡ []
          → contains (states_of calls) src ≡ true
          → fire_trigger fail m src trigger patch persister w ≡ (
            value none,
            fail patch
                (invalid_trigger src trigger
                  (get_permitted_triggers (representation_or_new (built_by ea init calls) src)))
                w,
          ))
        × (2 ≤ length (open_behaviours calls src trigger)
            → contains (states_of calls) src ≡ true
            → fire_trigger fail m src trigger patch persister w
              ≡ (raise (ambiguous src trigger), w))
        × (contains (states_of calls) src ≡ false
            → fire_trigger fail m src trigger patch persister w ≡ (raise null_pointer, w))
    unfolding only
    fire_rejects =
        let r = representation_or_new (built_by ea init calls) src in
        (
          λ nothing named.
              fire-refused fail m src trigger patch persister w r (found_in src named)
                (handler_of src trigger ∙ rw nothing),
          λ several named.
              fire-raised fail m src trigger patch persister w r (found_in src named)
                (ambiguous src trigger)
                (handler_of src trigger ∙ only_of_several src trigger _ several),
          λ missing. fire-missing fail m src trigger patch persister w (missing_in src missing),
        )
