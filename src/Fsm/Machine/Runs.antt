-- ===== src/Fsm/Machine/Runs.antt =====
-- Sequences of firings: a machine whose program is closed never meets a state without a
-- representation.
use xenon_ext.Prelude.{
  ℕ, ◌≡◌, refl, ap, ◌∙◌, ◌≤◌, Bool, true, Option, none, some, List, [], ◌∷◌, ◌++◌, String, arith,
  length, ◌≢◌, ◌⊎◌, All, All-append, Option-cases, inl, inr,
}
use xenon_ext.HashMap.{HashMap}
use xenon_ext.Effect.{Throwable, null_pointer, Attempt, value, raise, Comp, done, ◌>>=◌, ◌>>◌, each}
use xenon_ext.Fsm.Behaviour.{OperationRef, Transition}
use xenon_ext.Fsm.Representation.{
  Action, ExpiryAction, StateRepresentation, contains, ambiguous, entered_by, expiry,
}
use xenon_ext.Fsm.Config.{Call, build, new_builder}
use xenon_ext.Fsm.Config.Edits.{representation_or_new}
use xenon_ext.Fsm.Config.Declared.{declared, entries, exit_actions_of}
use xenon_ext.Fsm.Config.Configured.{states_of}
use xenon_ext.Fsm.Config.Closed.{IsClosed, open_behaviour_ends}
use xenon_ext.Fsm.Config.Actions.{OfActions, declared-exits-All, declared-entries-All}
use xenon_ext.Fsm.Machine.{StateMachine, fire_trigger}
use xenon_ext.Fsm.Machine.Firing.{run_all, timers, transition_by}
use xenon_ext.Fsm.Machine.Programs.{built_by, open_behaviours, fire_accepts, fire_rejects}

-- The state after a firing: the destination, or the same state if the trigger was refused.
abbrev pub state_after : String → Option Transition → String
state_after src none = src
state_after src (some t) = t.destination

-- What a firing may come to: it throws something else than a null pointer exception, or it
-- returns with the machine in a state that the program names.
abbrev GoesOn : List String → String → Attempt (Option Transition) → Type 0
GoesOn states src (raise e) = ◌≢◌ {A = Throwable} e null_pointer
GoesOn states src (value t) = contains states (state_after src t) ≡ true

Attempt-cases {ℓ} :
    {A : Type ℓ} (r : Attempt A) → ((a : A) × (r ≡ value a)) ⊎ ((e : Throwable) × (r ≡ raise e))
Attempt-cases (value a) = inl (a, refl)
Attempt-cases (raise e) = inr (e, refl)

pub few {ℓ} : {A : Type ℓ} (xs : List A) → (xs ≡ []) ⊎ ((x : A) × (xs ≡ x ∷ [])) ⊎ (2 ≤ length xs)
few [] = inl refl
few (x ∷ []) = inr (inl (x, refl))
few (x ∷ y ∷ xs) = inr (inr (omega arith))

module _ {W : Type 0} where
  -- An action that throws no null pointer exception of its own.
  abbrev pub NeverNull : Action W → Type 0
  NeverNull a = (t : Transition) (w : W) → (a t w).0 ≢ raise null_pointer

  run_all-NeverNull :
      (actions : List (Action W)) → All NeverNull actions → NeverNull (run_all actions)
  unfolding run_all each
  run_all-NeverNull [] h t w = λ e. cc
  run_all-NeverNull (a ∷ actions) (p, h) t w =
      λ e. ground (arith, p t w, run_all-NeverNull actions h t (a t w).1)

  entered_by-NeverNull : (t : String) (a : Action W) → NeverNull a → NeverNull (entered_by t a)
  unfolding entered_by
  entered_by-NeverNull t' a h t w = λ e. ground (arith, h t w)

  -- The scheduler, if there is one, throws no null pointer exception.
  abbrev pub SchedulerNeverNull : StateMachine W → Type 0
  SchedulerNeverNull m =
      (accept : ExpiryAction W) (delays : HashMap ℕ)
      → m.expiry_scheduler ≡ some accept
      → NeverNull (accept delays)

  timers-NeverNull :
      (m : StateMachine W) (d : StateRepresentation W)
      → SchedulerNeverNull m
      → NeverNull (timers m d)
  unfolding timers expiry
  timers-NeverNull m d h t w = elim (Option-cases m.expiry_scheduler) [
    | inl e ↦ λ q. ground arith
    | inr (accept, e) ↦ λ q. ground (arith, h accept d.expiry_actions e t w)
  ]

  -- Operations that arrive one after the other, each with its trigger, from a first state on.
  unfoldable pub fire_all :
      (OperationRef → Throwable → W → W)
      → StateMachine W
      → Action W
      → String
      → List (String × OperationRef)
      → Comp W String
  fire_all fail m persister src [] = done src
  fire_all fail m persister src ((trigger, patch) ∷ more) = do
    t ← fire_trigger fail m src trigger patch persister
    fire_all fail m persister (state_after src t) more

  GoesOn-after :
      (states : List String) (src : String) (a : Action W) (t : Transition) (w : W)
      → NeverNull a
      → contains states t.destination ≡ true
      → GoesOn states src ((do a t; done (some t)) w).0
  GoesOn-after states src a t w calm there = elim (Attempt-cases (a t w).0) [
    | inl (u, e) ↦ rw e there
    | inr (x, e) ↦ rw e (λ null. calm t w (e ∙ ap raise null))
  ]

  module _ (ea : Bool) (init : Option String) (calls : List (Call W))
      (ok : (build ea calls (new_builder init)).0 ≡ value tt) (closed : IsClosed calls)
      (calm : All (OfActions NeverNull) calls) (fail : OperationRef → Throwable → W → W)
      (m : StateMachine W) (built : m.config ≡ built_by ea init calls)
      (scheduler : SchedulerNeverNull m) (persister : Action W)
      (persists : NeverNull persister) where
    fire-GoesOn :
        (src trigger : String) (patch : OperationRef) (w : W)
        → contains (states_of calls) src ≡ true
        → GoesOn (states_of calls) src (fire_trigger fail m src trigger patch persister w).0
    fire-GoesOn src trigger patch w named =
        let (refused, several, missing) =
          fire_rejects ea init calls ok fail m built src trigger patch persister w in
        elim (few (open_behaviours calls src trigger)) [
          | inl nothing ↦ rw (refused nothing named) named
          | inr (inr many) ↦ rw (several many named) (λ e. unfold ambiguous in cc)
          | inr (inl (b, one)) ↦
              let there = open_behaviour_ends calls src trigger b closed one in
              let d = representation_or_new (built_by ea init calls) b.destination in
              let actions =
                persister ∷ declared exit_actions_of src calls
                ++ timers m d ∷ declared entries b.destination calls in
              let calm_actions : All NeverNull actions = (
                persists,
                All-append NeverNull (declared exit_actions_of src calls) _
                    (declared-exits-All NeverNull src calls calm)
                    (
                      timers-NeverNull m d scheduler,
                      declared-entries-All NeverNull entered_by-NeverNull b.destination calls calm,
                    ),
              ) in
              rw
                (fire_accepts ea init calls ok fail m built src trigger patch persister w b named
                  there one)
                (GoesOn-after (states_of calls) src (run_all actions)
                  (transition_by src trigger patch b) w (run_all-NeverNull actions calm_actions)
                  there)
        ]

    -- If every destination of the program is a state that it names, and neither the actions, nor
    -- the scheduler, nor the persister throw a null pointer exception, then no sequence of
    -- triggers, from a state that the program names, ends in one; and where no firing throws, the
    -- machine is again in a state that the program names.
    pub fire_all_closed :
        (src : String) (patches : List (String × OperationRef)) (w : W)
        → contains (states_of calls) src ≡ true
        → let end = (fire_all fail m persister src patches w).0 in
          (end ≢ raise null_pointer)
          × ((s : String) → end ≡ value s → contains (states_of calls) s ≡ true)
    unfolding fire_all
    fire_all_closed src [] w named = (λ e. cc, λ s e. ground arith)
    fire_all_closed src ((trigger, patch) ∷ more) w named =
        let r = fire_trigger fail m src trigger patch persister w in
        let goes = fire-GoesOn src trigger patch w named in
        elim (Attempt-cases r.0) [
          | inl (t, e) ↦ rw e (fire_all_closed (state_after src t) more r.1 (rw e at goes))
          | inr (x, e) ↦
              let other : x ≢ null_pointer = rw e at goes in
              rw e (λ null. other (ground arith), λ s null. cc)
        ]
