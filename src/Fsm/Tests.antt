-- ===== src/Fsm/Tests.antt =====
-- A telephone as a state machine, and the theorems at it.
use mathlib.Core.List.{Perm, Pairwise, not-mem-nil, mem-cons}
use mathlib.Core.List.Perm
use mathlib.Core.Logic.Or
use native.Mathlib.Bridge.{le_prop}
use xenon_ext.Prelude.{
  ℕ, ◌≡◌, ◌≢◌, ◌↔◌, ◌≤◌, length, refl, true, false, none, some, List, [], ◌∷◌, ◌++◌, String, arith,
}
use xenon_ext.HashMap.{get, put, put_if_absent}
use xenon_ext.Effect.{Throwable, null_pointer, value, raise, done, throw, ◌>>◌, each}
use xenon_ext.Fsm.Behaviour.{
  OperationRef, Transition, TriggerBehaviour, new_transition_behaviour, is_guard_condition_met,
}
use xenon_ext.Fsm.Representation.{
  Action, contains, met_guards, new_representation, can_handle, get_permitted_triggers, ambiguous,
  ◌<>◌,
}
use xenon_ext.Fsm.Config.{Call, build, new_builder, no_guard}
use xenon_ext.Fsm.Config.Edits.{state_of, representation_or_new, behaviours_of}
use xenon_ext.Fsm.Config.Declared.{
  permitted, declared, entries, exit_actions_of, declared_delay, build-declared,
}
use xenon_ext.Fsm.Config.Configured.{states_of}
use xenon_ext.Fsm.Machine.{StateMachine, invalid_trigger, fire_trigger}
use xenon_ext.Fsm.Machine.Firing.{run_all, timers, transition_by}
use xenon_ext.Fsm.Machine.Programs.{
  built_by, open_behaviours, fire_accepts, fire_rejects, fire_into_unconfigured,
}
use xenon_ext.Fsm.Machine.Runs.{fire_all, fire_all_closed}
use xenon_ext.Fsm.Representation.Handlers.{can_handle-permitted}
use xenon_ext.Fsm.Representation.{try_find_handler, expiry, exit, enter}
use xenon_ext.Fsm.Dot.{generate_dot_file, generate_history_dot_file}
use xenon_ext.Fsm.Dot.Edges.{lines, state_edges}
use xenon_ext.Fsm.Dot.Permits.{all_permitted_edges, generate_dot_file_permits}
use xenon_ext.Fsm.Dot.History.{Ascending, steps, generate_history_dot_file_perm}
use xenon_ext.Fsm.Document.{FsmServiceDoc}

-- A world that records what is done.
abbrev Log : Type 0
Log = List String

abbrev note : String → Action Log
note s t log = (value tt, log ++ s ∷ [])

abbrev phone : List (Call Log)
phone =
    Call.permits "off_hook" "dial" "ringing"
    ∷ Call.permits_if "ringing" "pick_up" "connected" no_guard
    ∷ Call.permits "ringing" "hang_up" "off_hook"
    ∷ Call.exits "ringing" (note "stop ringing")
    ∷ Call.entry "connected" (note "start timer")
    ∷ Call.expires "ringing" "hang_up" 500
    ∷ Call.permits "connected" "hang_up" "off_hook"
    ∷ Call.permits "connected" "throw" "destroyed"
    ∷ Call.permits_reentry "connected" "mute"
    ∷ []

abbrev record_failure : OperationRef → Throwable → Log → Log
record_failure op e log = log ++ "failed" ∷ []

abbrev phone_machine : StateMachine Log
phone_machine = record { config = built_by true (some "off_hook") phone; expiry_scheduler = none }

phone_builds : (build true phone (new_builder (some "off_hook"))).0 ≡ value tt
unfolding build new_builder get put put_if_absent new_representation
phone_builds = refl

build-declared_example :
    let r = representation_or_new (built_by true (some "off_hook") phone) "ringing" in
    ((t : String) → behaviours_of r t ≡ declared (permitted t) "ringing" phone)
    × (r.entry_actions ≡ declared entries "ringing" phone)
    × (r.exit_actions ≡ declared exit_actions_of "ringing" phone)
    × ((t : String) → get t r.expiry_actions ≡ declared_delay "ringing" t phone none)
build-declared_example = build-declared true (some "off_hook") phone "ringing" phone_builds

can_handle-permitted_example :
    let r = representation_or_new (built_by true (some "off_hook") phone) "ringing" in
    (can_handle r "dial" ≡ value false) ↔ (contains (get_permitted_triggers r) "dial" ≡ false)
can_handle-permitted_example =
    can_handle-permitted (representation_or_new (built_by true (some "off_hook") phone) "ringing")
      "dial"

abbrev pick_up : TriggerBehaviour
pick_up = record { trigger = "pick_up"; destination = "connected"; guard = no_guard }

abbrev picked_up : Transition
picked_up = record { source = "ringing"; destination = "connected"; trigger = "pick_up"; cause = 7 }

fire_accepts_example :
    fire_trigger record_failure phone_machine "ringing" "pick_up" 7 (note "persist") []
    ≡ (do
      run_all
          (note "persist" ∷ declared exit_actions_of "ringing" phone
            ++ timers phone_machine
                (representation_or_new (built_by true (some "off_hook") phone) "connected")
              ∷ declared entries "connected" phone)
          picked_up
      done (some picked_up))
        []
unfolding contains met_guards declared permitted state_of new_transition_behaviour
    is_guard_condition_met
fire_accepts_example =
    fire_accepts true (some "off_hook") phone phone_builds record_failure phone_machine refl
      "ringing" "pick_up" 7 (note "persist") [] pick_up refl refl refl

fire_log :
    fire_trigger record_failure phone_machine "ringing" "pick_up" 7 (note "persist") []
    ≡ (value (some picked_up), "persist" ∷ "stop ringing" ∷ "start timer" ∷ [])
unfolding build new_builder get put put_if_absent new_representation fire_trigger met_guards
    contains try_find_handler can_handle run_all each expiry is_guard_condition_met exit enter
fire_log = refl

fire_rejects_example :
    (open_behaviours phone "ringing" "dial" ≡ []
      → contains (states_of phone) "ringing" ≡ true
      → fire_trigger record_failure phone_machine "ringing" "dial" 7 (note "persist") [] ≡ (
        value none,
        record_failure 7
            (invalid_trigger "ringing" "dial" (
              get_permitted_triggers
                (representation_or_new (built_by true (some "off_hook") phone) "ringing")))
            [],
      ))
    × (2 ≤ length (open_behaviours phone "ringing" "dial")
        → contains (states_of phone) "ringing" ≡ true
        → fire_trigger record_failure phone_machine "ringing" "dial" 7 (note "persist") []
          ≡ (raise (ambiguous "ringing" "dial"), []))
    × (contains (states_of phone) "ringing" ≡ false
        → fire_trigger record_failure phone_machine "ringing" "dial" 7 (note "persist") []
          ≡ (raise null_pointer, []))
fire_rejects_example =
    fire_rejects true (some "off_hook") phone phone_builds record_failure phone_machine refl
      "ringing" "dial" 7 (note "persist") []

abbrev break : TriggerBehaviour
break = record { trigger = "throw"; destination = "destroyed"; guard = no_guard }

fire_into_unconfigured_example :
    fire_trigger record_failure phone_machine "connected" "throw" 7 (note "persist") []
    ≡ (do
      run_all
          (note "persist" ∷ declared exit_actions_of "connected" phone)
          (transition_by "connected" "throw" 7 break)
      throw null_pointer)
        []
unfolding contains met_guards declared permitted state_of new_transition_behaviour
    is_guard_condition_met
fire_into_unconfigured_example =
    fire_into_unconfigured true (some "off_hook") phone phone_builds record_failure phone_machine
      refl "connected" "throw" 7 (note "persist") [] break refl refl refl

-- The telephone without the call into a state that is not configured.
abbrev sturdy : List (Call Log)
sturdy =
    Call.permits "off_hook" "dial" "ringing"
    ∷ Call.permits "ringing" "hang_up" "off_hook"
    ∷ Call.exits "ringing" (note "stop ringing")
    ∷ []

abbrev sturdy_machine : StateMachine Log
sturdy_machine = record { config = built_by true (some "off_hook") sturdy; expiry_scheduler = none }

sturdy_builds : (build true sturdy (new_builder (some "off_hook"))).0 ≡ value tt
unfolding build new_builder get put put_if_absent new_representation
sturdy_builds = refl

abbrev patches : List (String × OperationRef)
patches = ("dial", 1) ∷ ("hang_up", 2) ∷ ("hang_up", 3) ∷ []

fire_all_closed_example :
    let end = (fire_all record_failure sturdy_machine (note "persist") "off_hook" patches []).0 in
    (end ≢ raise null_pointer)
    × ((s : String) → end ≡ value s → contains (states_of sturdy) s ≡ true)
unfolding contains state_of
fire_all_closed_example =
    fire_all_closed true (some "off_hook") sturdy sturdy_builds (refl, (refl, (tt, tt)))
      (tt, (tt, ((λ t w e. cc), tt))) record_failure sturdy_machine refl (λ accept delays e t w. cc)
      (note "persist") (λ t w e. cc) "off_hook" patches [] refl

generate_dot_file_permits_example :
    let c = built_by true (some "off_hook") phone in
    (generate_dot_file c ≡ ("digraph G {\n" <> lines (state_edges c.state_configuration)) <> "}")
    × Perm (state_edges c.state_configuration) (all_permitted_edges phone)
generate_dot_file_permits_example =
    generate_dot_file_permits true (some "off_hook") phone phone_builds

sturdy_dot :
    generate_dot_file (built_by true (some "off_hook") sturdy)
    ≡ "digraph G {\n\toff_hook -> ringing [ label = \"dial\" ];\n\tringing -> off_hook [ label = \"hang_up\" ];\n}"
unfolding generate_dot_file build new_builder get put put_if_absent new_representation
sturdy_dot = refl

abbrev version : ℕ → String → String → FsmServiceDoc (Unit {0})
version n s t = record {
  document_self_link = "/phone/1";
  document_version = n;
  state = some s;
  trigger = some t;
  expiry_trigger_and_delays = none;
  expire_from_state = none;
  extension = tt;
}

two-Ascending : Ascending (version 0 "off_hook" "" ∷ version 1 "ringing" "dial" ∷ [])
two-Ascending =
    Pairwise.cons
      (λ d m.
        Or.elim le_prop (mem-cons.0 m) (λ e. rw e (omega arith)) (λ n. absurd (not-mem-nil n)))
      (Pairwise.cons (λ d m. absurd (not-mem-nil m)) Pairwise.nil)

generate_history_dot_file_perm_example :
    generate_history_dot_file (version 1 "ringing" "dial" ∷ version 0 "off_hook" "" ∷ [])
    ≡ ("digraph G {\n\tnode [shape = box, \n\tstyle = filled];\n"
        <> lines (steps (version 0 "off_hook" "" ∷ version 1 "ringing" "dial" ∷ [])))
      <> "}"
generate_history_dot_file_perm_example =
    generate_history_dot_file_perm (version 0 "off_hook" "" ∷ version 1 "ringing" "dial" ∷ [])
      (version 1 "ringing" "dial" ∷ version 0 "off_hook" "" ∷ []) two-Ascending
      (Perm.swap (version 1 "ringing" "dial") (version 0 "off_hook" "") [])
