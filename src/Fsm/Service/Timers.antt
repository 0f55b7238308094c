-- ===== src/Fsm/Service/Timers.antt =====
-- Expiries that arrive at `handlePatch`: a state that has been left ignores its timers.
use xenon_ext.Prelude.{
  ℕ, ◌≡◌, ◌≢◌, refl, sym, ap, ◌∙◌, Bool, true, false, Option, none, some, List, [], ◌∷◌, String,
  eq_iff, arith, All,
}
use xenon_ext.HashMap.{HashMap}
use xenon_ext.Effect.{illegal_argument, value}
use xenon_ext.Fsm.Behaviour.{OperationRef, Transition, TriggerBehaviour}
use xenon_ext.Fsm.Representation.{contains, ◌<>◌}
use xenon_ext.Fsm.Dot.{show_nullable}
use xenon_ext.Fsm.Config.{Call, build, new_builder}
use xenon_ext.Fsm.Config.Configured.{states_of}
use xenon_ext.Fsm.Config.Actions.{OfActions}
use xenon_ext.Fsm.Machine.{StateMachine}
use xenon_ext.Fsm.Machine.Programs.{built_by, open_behaviours}
use xenon_ext.Fsm.Document.{FsmServiceDoc}
use xenon_ext.Fsm.Xenon.{Xenon, XenonLaws, ExpiryTask}
use xenon_ext.Fsm.Expiry.{expiring, accept, expiry_body}
use xenon_ext.Fsm.Service.{http_bad_request, equals, or_else, handle_patch}
use xenon_ext.Fsm.Service.Keeping.{KeepsState, schedule_all-KeepsState}
use xenon_ext.Fsm.Service.Patch.{handle_patch_moves}

equals-false : (s t : Option String) → s ≢ t → equals s t ≡ false
unfolding equals
equals-false none none away = absurd (away refl)
equals-false none (some t) away = refl
equals-false (some s) none away = refl
equals-false (some s) (some t) away = ground (arith, eq_iff s t)

pub equals_refl : (s : Option String) → equals s s ≡ true
unfolding equals
equals_refl none = refl
equals_refl (some s) = (eq_iff s s).1 refl

module _ {E W : Type 0} (x : Xenon E W) (laws : XenonLaws x) where
  -- A scheduler that has been called has recorded the state and the delays in the document, and
  -- changed no other field of it.
  pub accept_lem :
      (self_link : String) (delays : HashMap ℕ) (t : Transition) (w : W)
      → x.get_state t.cause (accept x self_link delays t w).1
        ≡ expiring delays t (x.get_state t.cause w)
  unfolding accept
  accept_lem self_link delays t w =
      schedule_all-KeepsState x laws self_link delays t _ ∙ laws.get_state-set_state _ _ _

  -- A timer that fires when the document has left the timer's state changes nothing: the patch
  -- fails with status 400, with the body that the timer has sent, and the document is the one
  -- before it.
  pub stale_expiry :
      (m : StateMachine W) (patch : OperationRef) (task : ExpiryTask) (fetched : FsmServiceDoc E)
      (w : W)
      → x.get_body patch w ≡ expiry_body task fetched
      → (x.get_state patch w).state ≢ some task.from_state
      → (handle_patch x m patch w ≡ (
        value tt,
        x.fail patch
            (illegal_argument (
              " Patched state "
              <> task.from_state
              <> " is different from actual state "
              <> show_nullable (x.get_state patch w).state))
            (x.set_status_code patch http_bad_request
              (x.set_body patch (expiry_body task fetched) w)),
      ))
        × (x.get_state patch (handle_patch x m patch w).1 ≡ x.get_state patch w)
  unfolding handle_patch expiry_body show_nullable
  stale_expiry m patch task fetched w body away =
      let refused =
        equals-false (some task.from_state) (x.get_state patch w).state (λ e. away (sym e)) in
      rw (body, refused)
        (
          refl,
          laws.get_state-fail _ _ _
              ∙ laws.get_state-set_status_code _ _ _
              ∙ laws.get_state-set_body _ _ _,
        )

  -- If no configured action changes the state field of the document, a timer that fires while the
  -- document is still in the timer's state, whichever version of the document it has fetched,
  -- leaves the state that is linked to its patch in the destination of the one behaviour that is
  -- declared for the timer's trigger and whose guard is met.
  pub live_expiry :
      (ea : Bool) (init : Option String) (calls : List (Call W))
      (ok : (build ea calls (new_builder init)).0 ≡ value tt)
      (keep : All (OfActions (KeepsState x laws)) calls) (m : StateMachine W)
      (built : m.config ≡ built_by ea init calls) (patch : OperationRef) (task : ExpiryTask)
      (fetched : FsmServiceDoc E) (b : TriggerBehaviour) (w : W)
      → x.get_body patch w ≡ expiry_body task fetched
      → (x.get_state patch w).state ≡ some task.from_state
      → contains (states_of calls) task.from_state ≡ true
      → open_behaviours calls task.from_state task.expiry_trigger ≡ b ∷ []
      → (x.get_state patch (handle_patch x m patch w).1).state ≡ some b.destination
  unfolding expiry_body or_else
  live_expiry ea init calls ok keep m built patch task fetched b w body here named one =
      handle_patch_moves x laws ea init calls ok keep m built patch w task.from_state
        task.expiry_trigger b here (ap (λ d. d.trigger) body)
        (ap (λ d. equals (or_else d.state (some task.from_state)) (some task.from_state)) body
          ∙ equals_refl (some task.from_state))
        named one
