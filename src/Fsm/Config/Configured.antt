-- ===== src/Fsm/Config/Configured.antt =====
-- Which states a program of builder calls configures, and under which state each representation
-- stands.
use xenon_ext.Prelude.{
  ◌≡◌, refl, Bool, true, false, Option, none, some, List, [], ◌∷◌, map, String, str_eq, eq_iff,
  arith, if◌then◌else◌, ◌||◌, inl, inr, Option-cases,
}
use xenon_ext.HashMap.{get, get-put}
use xenon_ext.Effect.{value}
use xenon_ext.Fsm.Representation.{
  StateRepresentation, contains, new_representation, add_trigger_behaviour, add_entry_action,
  add_entry_action_from, add_exit_action, add_expiry_action,
}
use xenon_ext.Fsm.Behaviour.{new_transition_behaviour}
use xenon_ext.Fsm.Config.{
  StateMachineConfig, no_guard, Call, configured, permits, permits_if, permits_reentry,
  permits_reentry_if, entry, entry_from, expires, exits, invoke, build, new_builder,
  get_representation, get_or_create_representation, on_representation,
}
use xenon_ext.Fsm.Config.Edits.{
  representation_or_new, state_of, edit, representation-invoke, build-cons,
}

abbrev is_some {ℓ} : {A : Type ℓ} → Option A → Bool
is_some none = false
is_some (some a) = true

module _ {W : Type 0} where
  -- The states that a program of calls names.
  abbrev pub states_of : List (Call W) → List String
  states_of calls = map state_of calls

  is_configured : StateMachineConfig W → String → Bool
  is_configured c s = is_some (get s c.state_configuration)

  is_configured-create :
      (k s : String) (c : StateMachineConfig W)
      → is_configured (get_or_create_representation k c) s ≡ (str_eq k s || is_configured c s)
  unfolding is_configured get_or_create_representation
  is_configured-create k s c =
      ground (arith, get-put k s (new_representation k) c.state_configuration, eq_iff k s)

  is_configured-on :
      (f : StateRepresentation W → StateRepresentation W) (k s : String) (c : StateMachineConfig W)
      → is_configured (on_representation f k (get_or_create_representation k c)) s
        ≡ (str_eq k s || is_configured c s)
  unfolding is_configured on_representation
  is_configured-on f k s c =
      let c' = get_or_create_representation k c in
      elim (Option-cases (get k c'.state_configuration)) [
        | inl missing ↦ ground (arith, is_configured-create k s c)
        | inr (r, there) ↦ ground (
          arith,
          is_configured-create k s c,
          get-put k s (f r) c'.state_configuration,
          eq_iff k s,
        )
      ]

  -- Also a call that throws has configured its state.
  is_configured-invoke :
      (ea : Bool) (call : Call W) (c : StateMachineConfig W) (s : String)
      → is_configured (invoke ea call c).1 s ≡ (str_eq (state_of call) s || is_configured c s)
  unfolding invoke state_of
  is_configured-invoke ea (configured k) c s = is_configured-create k s c
  is_configured-invoke ea (permits k t d) c s = ground (
    arith,
    is_configured-create k s c,
    is_configured-on (add_trigger_behaviour (new_transition_behaviour t d no_guard)) k s c,
  )
  is_configured-invoke ea (permits_if k t d g) c s = ground (
    arith,
    is_configured-create k s c,
    is_configured-on (add_trigger_behaviour (new_transition_behaviour t d g)) k s c,
  )
  is_configured-invoke ea (permits_reentry k t) c s =
      is_configured-on (add_trigger_behaviour (new_transition_behaviour t k no_guard)) k s c
  is_configured-invoke ea (permits_reentry_if k t g) c s =
      is_configured-on (add_trigger_behaviour (new_transition_behaviour t k g)) k s c
  is_configured-invoke ea (entry k a) c s = is_configured-on (add_entry_action a) k s c
  is_configured-invoke ea (entry_from k t a) c s =
      is_configured-on (add_entry_action_from t a) k s c
  is_configured-invoke ea (expires k t n) c s =
      ground (arith, is_configured-create k s c, is_configured-on (add_expiry_action t n) k s c)
  is_configured-invoke ea (exits k a) c s = is_configured-on (add_exit_action a) k s c

  is_configured-build :
      (ea : Bool) (calls : List (Call W)) (c : StateMachineConfig W) (s : String)
      → (build ea calls c).0 ≡ value tt
      → is_configured (build ea calls c).1 s ≡ (contains (states_of calls) s || is_configured c s)
  unfolding build contains
  is_configured-build ea [] c s ok = refl
  is_configured-build ea (call ∷ calls) c s ok =
      let (first, later, same) = build-cons ea call calls c ok in
      let c' = (invoke ea call c).1 in
      ground
        (arith, same, is_configured-invoke ea call c s, is_configured-build ea calls c' s later)

  -- After a program a state has a representation if some call names it, and none otherwise.
  pub build-get_representation :
      (ea : Bool) (init : Option String) (calls : List (Call W)) (s : String)
      → (build ea calls (new_builder init)).0 ≡ value tt
      → let c = (build ea calls (new_builder init)).1 in
        get_representation c s
        ≡ (if contains (states_of calls) s then some (representation_or_new c s) else none)
  unfolding new_builder get_representation representation_or_new is_configured get
  build-get_representation ea init calls s ok =
      ground (arith, is_configured-build ea calls (new_builder init) s ok)

  state-edit : (call : Call W) (r : StateRepresentation W) → (edit call r).state ≡ r.state
  unfolding edit add_trigger_behaviour add_entry_action add_entry_action_from add_exit_action
      add_expiry_action
  state-edit (permits k t d) r = refl
  state-edit _ r = refl

  state-build :
      (ea : Bool) (calls : List (Call W)) (c : StateMachineConfig W) (s : String)
      → (build ea calls c).0 ≡ value tt
      → (representation_or_new (build ea calls c).1 s).state ≡ (representation_or_new c s).state
  unfolding build
  state-build ea [] c s ok = refl
  state-build ea (call ∷ calls) c s ok =
      let (first, later, same) = build-cons ea call calls c ok in
      let c' = (invoke ea call c).1 in
      ground (
        arith,
        same,
        representation-invoke ea call c s first,
        state-edit call (representation_or_new c s),
        state-build ea calls c' s later,
      )

  -- Each representation stands under the state that it is for.
  pub build-state :
      (ea : Bool) (init : Option String) (calls : List (Call W)) (s : String)
      → (build ea calls (new_builder init)).0 ≡ value tt
      → (representation_or_new (build ea calls (new_builder init)).1 s).state ≡ s
  unfolding new_builder representation_or_new new_representation get
  build-state ea init calls s ok = state-build ea calls (new_builder init) s ok
