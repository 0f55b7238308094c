-- ===== src/Fsm/Service/Keeping.antt =====
-- What leaves the state of the document as it is, and what the populator does to it.
use xenon_ext.Prelude.{ℕ, ◌≡◌, refl, ap, ◌∙◌, Option, some, List, [], ◌∷◌, String, arith, All}
use xenon_ext.HashMap.{HashMap}
use xenon_ext.Effect.{value, each}
use xenon_ext.Fsm.Behaviour.{OperationRef, Transition}
use xenon_ext.Fsm.Representation.{Action, StateRepresentation, entered_by, expiry}
use xenon_ext.Fsm.Machine.{StateMachine, set_expiry_scheduler}
use xenon_ext.Fsm.Machine.Firing.{run_all, timers}
use xenon_ext.Fsm.Xenon.{Xenon, XenonLaws}
use xenon_ext.Fsm.Expiry.{schedule_all, expiring, accept}
use xenon_ext.Fsm.Service.{populated, state_populator}

module _ {E W : Type 0} (x : Xenon E W) (laws : XenonLaws x) where
  abbrev pub state_in : OperationRef → W → Option String
  state_in op w = (x.get_state op w).state

  -- An action that leaves the state field of the document as it is, whether it throws or not.
  abbrev pub KeepsState : Action W → Type 0
  KeepsState a = (t : Transition) (w : W) → state_in t.cause (a t w).1 ≡ state_in t.cause w

  pub run_all-KeepsState :
      (actions : List (Action W)) → All KeepsState actions → KeepsState (run_all actions)
  unfolding run_all each
  run_all-KeepsState [] h t w = refl
  run_all-KeepsState (a ∷ actions) (p, h) t w =
      ground (arith, p t w, run_all-KeepsState actions h t (a t w).1)

  pub schedule_all-KeepsState :
      (self_link : String) (delays : HashMap ℕ) (t : Transition) (w : W)
      → x.get_state t.cause (schedule_all x self_link delays t w) ≡ x.get_state t.cause w
  unfolding schedule_all
  schedule_all-KeepsState self_link [] t w = refl
  schedule_all-KeepsState self_link ((trigger, delay) ∷ delays) t w =
      schedule_all-KeepsState self_link delays t _ ∙ laws.get_state-schedule _ _ _

  accept-KeepsState :
      (self_link : String) (delays : HashMap ℕ) → KeepsState (accept x self_link delays)
  unfolding accept expiring
  accept-KeepsState self_link delays t w =
      ap (λ d. d.state)
        (schedule_all-KeepsState self_link delays t _ ∙ laws.get_state-set_state _ _ _)

  pub entered_by-KeepsState :
      (t : String) (a : Action W) → KeepsState a → KeepsState (entered_by t a)
  unfolding entered_by
  entered_by-KeepsState t' a h t w = ground (arith, h t w)

  pub timers-KeepsState :
      (m : StateMachine W) (self_link : String) (d : StateRepresentation W)
      → KeepsState (timers (set_expiry_scheduler (accept x self_link) m) d)
  unfolding timers expiry set_expiry_scheduler
  timers-KeepsState m self_link d t w =
      ground (arith, accept-KeepsState self_link d.expiry_actions t w)

  -- The populator puts the destination and the trigger into the document and into the body, and
  -- leaves their other fields.
  pub state_populator_lem :
      (t : Transition) (w : W)
      → ((state_populator x t w).0 ≡ value tt)
        × (x.get_state t.cause (state_populator x t w).1 ≡ populated t (x.get_state t.cause w))
        × (x.get_body t.cause (state_populator x t w).1 ≡ populated t (x.get_body t.cause w))
  unfolding state_populator
  state_populator_lem t w = (
    refl,
    laws.get_state-set_body _ _ _ ∙ laws.get_state-set_state _ _ _,
    laws.get_body-set_body _ _ _,
  )

  -- After the populator, whatever keeps the state leaves the destination in it.
  pub run_persisted :
      (actions : List (Action W)) (t : Transition) (w : W)
      → All KeepsState actions
      → state_in t.cause (run_all (state_populator x ∷ actions) t w).1 ≡ some t.destination
  unfolding run_all each state_populator populated
  run_persisted actions t w keep =
      run_all-KeepsState actions keep t (state_populator x t w).1
      ∙ ap (λ d. d.state) ((state_populator_lem t w).1)
