-- ===== src/Fsm/ServiceTests.antt =====
-- A telephone service over a world with one document, and the theorems at it.
use xenon_ext.Prelude.{
  inl, ℕ, ◌≡◌, ◌⊎◌, refl, Bool, true, Option, none, some, List, [], ◌∷◌, ◌++◌, String, eq_iff,
  arith,
}
use xenon_ext.HashMap.{get, put, put_if_absent}
use xenon_ext.Effect.{illegal_argument, value}
use xenon_ext.Fsm.Behaviour.{
  OperationRef, Transition, TriggerBehaviour, new_transition_behaviour, is_guard_condition_met,
}
use xenon_ext.Fsm.Representation.{contains, met_guards, new_representation, ◌<>◌}
use xenon_ext.Fsm.Config.{Call, build, new_builder, no_guard}
use xenon_ext.Fsm.Config.Edits.{state_of}
use xenon_ext.Fsm.Config.Declared.{permitted, declared}
use xenon_ext.Fsm.Machine.{StateMachine, init_state}
use xenon_ext.Fsm.Machine.Programs.{built_by, open_behaviours}
use xenon_ext.Fsm.Dot.{show_nullable}
use xenon_ext.Fsm.Document.{FsmServiceDoc}
use xenon_ext.Fsm.Xenon.{Xenon, XenonLaws, ExpiryTask}
use xenon_ext.Fsm.Expiry.{expiry_body}
use xenon_ext.Fsm.Service.{http_bad_request, equals, or_else, handle_patch, handle_start}
use xenon_ext.Fsm.Service.Patch.{handle_patch_moves, handle_patch_follows}
use xenon_ext.Fsm.Service.Timers.{stale_expiry, live_expiry}
use xenon_ext.Fsm.Service.Started.{started, start_moves}

abbrev Doc : Type 0
Doc = FsmServiceDoc (Unit {0})

-- One document, one operation on it, and what was sent.
record World : Type 0 where
  document : Doc
  body : Doc
  status : ℕ
  log : List String

abbrev xenon : Xenon (Unit {0}) World
xenon = record {
  get_state = λ op w. w.document;
  set_state = λ op d w. record w { document = d };
  get_body = λ op w. w.body;
  set_body = λ op d w. record w { body = d };
  complete = λ op w. record w { log = w.log ++ "complete" ∷ [] };
  fail = λ op e w. record w { log = w.log ++ "fail" ∷ [] };
  get_status_code = λ op w. w.status;
  set_status_code = λ op code w. record w { status = code };
  send_patch = λ link d w. record w { log = w.log ++ link ∷ [] };
  schedule = λ task w. record w { log = w.log ++ task.expiry_trigger ∷ [] };
}

abbrev xenon_laws : XenonLaws xenon
xenon_laws = record {
  get_state-set_state = λ op d w. refl;
  get_body-set_body = λ op d w. refl;
  get_body-set_state = λ op d w. refl;
  get_state-set_body = λ op d w. refl;
  get_state-fail = λ op e w. refl;
  get_state-set_status_code = λ op code w. refl;
  get_state-schedule = λ op task w. refl;
}

abbrev doc : Option String → Option String → Doc
doc state trigger = record {
  document_self_link = "/phone/1";
  document_version = 0;
  state = state;
  trigger = trigger;
  expiry_trigger_and_delays = none;
  expire_from_state = none;
  extension = tt;
}

abbrev calls : List (Call World)
calls =
    Call.permits "off_hook" "dial" "ringing"
    ∷ Call.permits "ringing" "hang_up" "off_hook"
    ∷ Call.exits "off_hook" (λ t w. (value tt, xenon.complete t.cause w))
    ∷ Call.expires "ringing" "hang_up" 500
    ∷ []

abbrev machine : StateMachine World
machine = record { config = built_by true (some "off_hook") calls; expiry_scheduler = none }

calls-build : (build true calls (new_builder (some "off_hook"))).0 ≡ value tt
unfolding build new_builder get put put_if_absent new_representation
calls-build = refl

-- The document is off the hook and is asked to dial.
abbrev dialling : World
dialling = record {
  document = doc (some "off_hook") none;
  body = doc none (some "dial");
  status = 200;
  log = [];
}

abbrev dial : TriggerBehaviour
dial = record { trigger = "dial"; destination = "ringing"; guard = no_guard }

abbrev hang_up : TriggerBehaviour
hang_up = record { trigger = "hang_up"; destination = "off_hook"; guard = no_guard }

handle_patch_moves_example :
    (xenon.get_state 0 (handle_patch xenon machine 0 dialling).1).state ≡ some "ringing"
unfolding contains met_guards declared permitted state_of new_transition_behaviour
    is_guard_condition_met equals or_else
handle_patch_moves_example =
    handle_patch_moves xenon xenon_laws true (some "off_hook") calls calls-build
      (tt, (tt, ((λ t w. refl), (tt, tt)))) machine refl 0 dialling "off_hook" "dial" dial refl refl
      refl refl refl

handle_patch_follows_example :
    let old = (xenon.get_state 0 dialling).state in
    let new = (xenon.get_state 0 (handle_patch xenon machine 0 dialling).1).state in
    (new ≡ old)
    ⊎ ((src : String) × (trigger : String) × (b : TriggerBehaviour) × (old ≡ some src)
        × ((xenon.get_body 0 dialling).trigger ≡ some trigger)
        × (open_behaviours calls src trigger ≡ b ∷ [])
        × (new ≡ some b.destination))
handle_patch_follows_example =
    handle_patch_follows xenon xenon_laws true (some "off_hook") calls calls-build
      (tt, (tt, ((λ t w. refl), (tt, tt)))) machine refl 0 dialling

abbrev dialled : Transition
dialled = record { source = "off_hook"; destination = "ringing"; trigger = "dial"; cause = 0 }

abbrev timer : ExpiryTask
timer = record {
  self_link = "/phone/1";
  expiry_trigger = "hang_up";
  from_state = "ringing";
  delay = 500;
}

-- A document in a state, to which the timer's patch has been sent.
abbrev timed_out : String → World
timed_out state = record {
  document = doc (some state) none;
  body = doc (some "ringing") (some "hang_up");
  status = 200;
  log = [];
}

stale_expiry_example :
    (handle_patch xenon machine 0 (timed_out "off_hook") ≡ (
      value tt,
      xenon.fail 0
          (illegal_argument (
            " Patched state "
            <> "ringing"
            <> " is different from actual state "
            <> show_nullable (some "off_hook")))
          (xenon.set_status_code 0 http_bad_request
            (xenon.set_body 0 (expiry_body timer (doc none none)) (timed_out "off_hook"))),
    ))
    × (xenon.get_state 0 (handle_patch xenon machine 0 (timed_out "off_hook")).1
        ≡ xenon.get_state 0 (timed_out "off_hook"))
unfolding expiry_body
stale_expiry_example =
    stale_expiry xenon xenon_laws machine 0 timer (doc none none) (timed_out "off_hook") refl
      (λ e. ground (arith, eq_iff "off_hook" "ringing"))

live_expiry_example :
    (xenon.get_state 0 (handle_patch xenon machine 0 (timed_out "ringing")).1).state
    ≡ some "off_hook"
unfolding contains met_guards declared permitted state_of new_transition_behaviour
    is_guard_condition_met expiry_body
live_expiry_example =
    live_expiry xenon xenon_laws true (some "off_hook") calls calls-build
      (tt, (tt, ((λ t w. refl), (tt, tt)))) machine refl 0 timer (doc none none) hang_up
      (timed_out "ringing") refl refl refl refl

abbrev accepting : OperationRef → World → Bool × World
accepting op w = (true, w)

abbrev start_by_dialling : OperationRef → World → Option String
start_by_dialling op w = some "dial"

-- A start without a state, and the self patch that it has sent.
abbrev starting : World
starting = record dialling { body = doc none none }

abbrev self_patched : World
self_patched = record dialling { body = doc (some "off_hook") (some "dial") }

start_moves_example :
    (handle_start xenon machine accepting start_by_dialling "/phone/1" 0 starting
      ≡ xenon.send_patch "/phone/1" (doc (some "off_hook") (some "dial")) (
          started xenon xenon_laws machine accepting start_by_dialling "/phone/1" 0 "dial" starting
            "off_hook"))
    × ((xenon.get_state 0 (handle_patch xenon machine 0 self_patched).1).state ≡ some "ringing")
unfolding contains met_guards declared permitted state_of new_transition_behaviour
    is_guard_condition_met init_state build get new_builder put
start_moves_example =
    start_moves xenon xenon_laws true calls "off_hook" calls-build
      (tt, (tt, ((λ t w. refl), (tt, tt)))) machine refl accepting start_by_dialling "/phone/1" 0 0
      "dial" dial starting self_patched refl refl (inl refl) refl refl refl refl refl
