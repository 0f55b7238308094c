-- ===== src/Fsm/Config/Edits.antt =====
-- What one call on a builder does to the representations of a configuration.
use mathlib.Core.Option
use xenon_ext.Prelude.{
  ◌≡◌, Bool, List, [], ◌∷◌, String, str_eq, eq_iff, arith, if◌then◌else◌, Option-cases, inl, inr,
}
use xenon_ext.HashMap.{get, put, get-put}
use xenon_ext.Effect.{value}
use xenon_ext.Fsm.Behaviour.{TriggerBehaviour, new_transition_behaviour}
use xenon_ext.Fsm.Representation.{
  StateRepresentation, new_representation, add_trigger_behaviour, add_entry_action,
  add_entry_action_from, add_exit_action, add_expiry_action,
}
use xenon_ext.Fsm.Config.{
  StateMachineConfig, no_guard, Call, configured, permits, permits_if, permits_reentry,
  permits_reentry_if, entry, entry_from, expires, exits, invoke, build,
  get_or_create_representation, on_representation,
}

-- The behaviours that a representation lists for a trigger.
unfoldable pub behaviours_of : {W : Type 0} → StateRepresentation W → String → List TriggerBehaviour
behaviours_of r t = Option.get_or (get t r.trigger_behaviours) []

module _ {W : Type 0} where
  -- The representation of a state; of one that is not configured, the empty representation.
  unfoldable pub representation_or_new : StateMachineConfig W → String → StateRepresentation W
  representation_or_new c s = Option.get_or (get s c.state_configuration) (new_representation s)

  representation-create :
      (k s : String) (c : StateMachineConfig W)
      → representation_or_new (get_or_create_representation k c) s ≡ representation_or_new c s
  unfolding representation_or_new get_or_create_representation
  representation-create k s c =
      ground (arith, get-put k s (new_representation k) c.state_configuration, eq_iff k s)

  representation-on :
      (f : StateRepresentation W → StateRepresentation W) (k s : String) (c : StateMachineConfig W)
      → representation_or_new (on_representation f k (get_or_create_representation k c)) s
        ≡ (if str_eq k s then f (representation_or_new c s) else representation_or_new c s)
  unfolding representation_or_new get_or_create_representation on_representation
  representation-on f k s c = elim (Option-cases (get k c.state_configuration)) [
    | inl fresh ↦
        let new : StateRepresentation W = new_representation k in
        let m = c.state_configuration in
        ground (
          arith,
          get-put k k new m,
          get-put k s new m,
          get-put k s (f new) (put k new m),
          eq_iff k k,
          eq_iff k s,
        )
    | inr (r, there) ↦ ground (arith, get-put k s (f r) c.state_configuration, eq_iff k s)
  ]

-- The state that a call is about.
unfoldable pub state_of : {W : Type 0} → Call W → String
state_of (configured s) = s
state_of (permits s t d) = s
state_of (permits_if s t d g) = s
state_of (permits_reentry s t) = s
state_of (permits_reentry_if s t g) = s
state_of (entry s a) = s
state_of (entry_from s t a) = s
state_of (expires s t n) = s
state_of (exits s a) = s

-- What a call does to the representation of its state.
unfoldable pub edit : {W : Type 0} → Call W → StateRepresentation W → StateRepresentation W
edit (configured s) r = r
edit (permits s t d) r = add_trigger_behaviour (new_transition_behaviour t d no_guard) r
edit (permits_if s t d g) r = add_trigger_behaviour (new_transition_behaviour t d g) r
edit (permits_reentry s t) r = add_trigger_behaviour (new_transition_behaviour t s no_guard) r
edit (permits_reentry_if s t g) r = add_trigger_behaviour (new_transition_behaviour t s g) r
edit (entry s a) r = add_entry_action a r
edit (entry_from s t a) r = add_entry_action_from t a r
edit (expires s t n) r = add_expiry_action t n r
edit (exits s a) r = add_exit_action a r

module _ {W : Type 0} where
  -- A call that returns has edited the representation of its state and no other.
  pub representation-invoke :
      (ea : Bool) (call : Call W) (c : StateMachineConfig W) (s : String)
      → (invoke ea call c).0 ≡ value tt
      → representation_or_new (invoke ea call c).1 s ≡ (
          if str_eq (state_of call) s
          then edit call (representation_or_new c s)
          else representation_or_new c s)
  unfolding invoke state_of edit
  representation-invoke ea (configured k) c s ok = ground (arith, representation-create k s c)
  representation-invoke ea (permits k t d) c s ok = ground (
    arith,
    representation-on (add_trigger_behaviour (new_transition_behaviour t d no_guard)) k s c,
  )
  representation-invoke ea (permits_if k t d g) c s ok =
      ground
        (arith, representation-on (add_trigger_behaviour (new_transition_behaviour t d g)) k s c)
  representation-invoke ea (permits_reentry k t) c s ok = ground (
    arith,
    representation-on (add_trigger_behaviour (new_transition_behaviour t k no_guard)) k s c,
  )
  representation-invoke ea (permits_reentry_if k t g) c s ok =
      ground
        (arith, representation-on (add_trigger_behaviour (new_transition_behaviour t k g)) k s c)
  representation-invoke ea (entry k a) c s ok =
      ground (arith, representation-on (add_entry_action a) k s c)
  representation-invoke ea (entry_from k t a) c s ok =
      ground (arith, representation-on (add_entry_action_from t a) k s c)
  representation-invoke ea (expires k t n) c s ok =
      ground (arith, representation-on (add_expiry_action t n) k s c)
  representation-invoke ea (exits k a) c s ok =
      ground (arith, representation-on (add_exit_action a) k s c)

  pub build-cons :
      (ea : Bool) (call : Call W) (calls : List (Call W)) (c : StateMachineConfig W)
      → (build ea (call ∷ calls) c).0 ≡ value tt
      → ((invoke ea call c).0 ≡ value tt)
        × ((build ea calls (invoke ea call c).1).0 ≡ value tt)
        × ((build ea (call ∷ calls) c).1 ≡ (build ea calls (invoke ea call c).1).1)
  unfolding build
  build-cons ea call calls c ok = ground arith
