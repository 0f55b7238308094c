-- ===== src/Fsm/Service.antt =====
-- FSMService.java: the handlers of a service that hosts a state machine.
pub mod Keeping
pub mod Patch
pub mod Timers
pub mod Start
pub mod Started
use xenon_ext.Prelude.{
  ℕ, Bool, true, false, Option, none, some, String, str_eq, if◌then◌else◌, ◌==◌,
}
use xenon_ext.Effect.{illegal_argument, null_pointer, Comp, done, throw, modify, ◌>>=◌, ◌>>◌}
use xenon_ext.Fsm.Behaviour.{OperationRef, Transition}
use xenon_ext.Fsm.Representation.{Action, ◌<>◌}
use xenon_ext.Fsm.Machine.{StateMachine, init_state, set_expiry_scheduler, fire_trigger}
use xenon_ext.Fsm.Document.{FsmServiceDoc}
use xenon_ext.Fsm.Xenon.{Xenon}
use xenon_ext.Fsm.Expiry.{accept}
use xenon_ext.Fsm.Dot.{show_nullable}

abbrev pub http_ok : ℕ
http_ok = 200

abbrev pub http_bad_request : ℕ
http_bad_request = 400

-- `Objects.equals` of two references to texts.
unfoldable pub equals : Option String → Option String → Bool
equals none none = true
equals (some s) (some t) = str_eq s t
equals _ _ = false

-- `Optional.ofNullable(a).orElse(b)`.
unfoldable pub or_else : Option String → Option String → Option String
or_else none b = b
or_else (some a) b = some a

-- `Objects.toString(a, b)`.
unfoldable pub to_string : Option String → String → String
to_string none b = b
to_string (some a) b = a

unfoldable pub populated : {E : Type 0} → Transition → FsmServiceDoc E → FsmServiceDoc E
populated t d = record d { trigger = some t.trigger; state = some t.destination }

-- The body of a start, with the initial state if it has none.
unfoldable pub initialised : {E : Type 0} → String → FsmServiceDoc E → FsmServiceDoc E
initialised initial body = elim body.state [
  | none ↦ record body { state = some initial }
  | some s ↦ body
]

module _ {E W : Type 0} (x : Xenon E W) where
  unfoldable pub state_populator : Action W
  unfolding populated
  state_populator t = modify λ w.
      let cur_state = x.get_state t.cause w in
      let body = x.get_body t.cause w in
      x.set_body t.cause (populated t body) (x.set_state t.cause (populated t cur_state) w)

  unfoldable pub complete_operation : Action W
  complete_operation t = modify (x.complete t.cause)

  -- `uri` is `getUri()`.
  unfoldable pub send_self_patch : String → FsmServiceDoc E → String → W → W
  send_self_patch uri body trigger w = x.send_patch uri (record body { trigger = some trigger }) w

  -- The last branch of `handlePatch`; no state is configured under null.
  unfoldable pub fire_from :
      StateMachine W → FsmServiceDoc E → Option String → String → OperationRef → Comp W (Unit {0})
  unfolding state_populator set_expiry_scheduler accept
  fire_from m current none trigger patch = throw null_pointer
  fire_from m current (some src) trigger patch = do
    t ←
        fire_trigger x.fail (set_expiry_scheduler (accept x current.document_self_link) m) src
          trigger patch state_populator
    done tt

  -- The tests of `handlePatch` on the trigger and on the patched state.
  unfoldable pub patch_with :
      StateMachine W
      → FsmServiceDoc E
      → Option String
      → Option String
      → OperationRef
      → Comp W (Unit {0})
  unfolding fire_from equals
  patch_with m current none patched patch = modify λ w.
      x.fail patch (illegal_argument " Trigger can't be null")
        (x.set_status_code patch http_bad_request w)
  patch_with m current (some trigger) patched patch =
      if equals patched current.state
      then fire_from m current current.state trigger patch
      else modify λ w.
        x.fail patch
          (illegal_argument (
            " Patched state "
            <> show_nullable patched
            <> " is different from actual state "
            <> show_nullable current.state))
          (x.set_status_code patch http_bad_request w)

  unfoldable pub handle_patch : StateMachine W → OperationRef → Comp W (Unit {0})
  unfolding patch_with or_else
  handle_patch m patch w =
      let current_state = x.get_state patch w in
      let patch_body = x.get_body patch w in
      let patched = or_else patch_body.state current_state.state in
      patch_with m current_state patch_body.trigger patched patch
        (x.set_body patch (record patch_body { state = patched }) w)

  -- `ifPresent`.
  unfoldable pub self_patch_if_present : String → FsmServiceDoc E → Option String → W → W
  unfolding send_self_patch
  self_patch_if_present uri body none w = w
  self_patch_if_present uri body (some t) w = send_self_patch uri body t w

  -- The first branch of `handleStart`, with the body that it completes with; `initial_trigger` is
  -- the subclass's.
  unfoldable pub start_with :
      String → (OperationRef → W → Option String) → String → OperationRef → FsmServiceDoc E → W → W
  unfolding to_string self_patch_if_present
  start_with initial initial_trigger uri op body w =
      let started = x.complete op (x.set_body op body w) in
      if str_eq (to_string body.state "null") initial
      then self_patch_if_present uri body (initial_trigger op started) started
      else started

  unfoldable pub start_valid :
      StateMachine W → (OperationRef → W → Option String) → String → OperationRef → W → W
  unfolding to_string init_state start_with initialised
  start_valid m initial_trigger uri op w =
      let initial = to_string (init_state m) "Start" in
      start_with initial initial_trigger uri op (initialised initial (x.get_body op w)) w

  -- `validate` is the subclass's `validateStartPost`.
  unfoldable pub handle_start :
      StateMachine W
      → (OperationRef → W → Bool × W)
      → (OperationRef → W → Option String)
      → String
      → OperationRef
      → W
      → W
  unfolding start_valid
  handle_start m validate initial_trigger uri op w =
      let (valid, checked) = validate op w in
      if valid
      then start_valid m initial_trigger uri op checked
      else if x.get_status_code op checked == http_ok
      then x.fail op (illegal_argument "Body not valid")
          (x.set_status_code op http_bad_request checked)
      else checked
