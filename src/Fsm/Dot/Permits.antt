-- ===== src/Fsm/Dot/Permits.antt =====
-- The edges of the diagram of a program of builder calls are those that its calls permit.
use mathlib.Core.List.{Perm}
use mathlib.Core.List.Perm
use xenon_ext.Prelude.{
  ℕ, ◌≡◌, Bool, Option, List, [], ◌∷◌, ◌++◌, String, arith, append_assoc, append-nil,
}
use xenon_ext.Effect.{value}
use xenon_ext.Fsm.Behaviour.{new_transition_behaviour}
use xenon_ext.Fsm.Representation.{
  ◌<>◌, add_trigger_behaviour, add_entry_action, add_entry_action_from, add_exit_action,
  add_expiry_action,
}
use xenon_ext.Fsm.Config.{
  StateMachineConfig, no_guard, Call, configured, permits, permits_if, permits_reentry,
  permits_reentry_if, entry, entry_from, expires, exits, invoke, build, new_builder,
  get_or_create_representation, on_representation,
}
use xenon_ext.Fsm.Config.Edits.{build-cons}
use xenon_ext.Fsm.Dot.Edges.{Edge, lines, edge_of, state_edges, generate_dot_file-lines}
use xenon_ext.Fsm.Dot.{generate_dot_file}
use xenon_ext.Fsm.Dot.Growth.{perm_exchange, trigger_edges-add, state_edges-create, state_edges-on}

module _ {W : Type 0} where
  -- The edge that a call permits.
  abbrev pub permitted_edges : Call W → List Edge
  permitted_edges (permits s t d) = record { source = s; destination = d; label = t } ∷ []
  permitted_edges (permits_if s t d g) = record { source = s; destination = d; label = t } ∷ []
  permitted_edges (permits_reentry s t) = record { source = s; destination = s; label = t } ∷ []
  permitted_edges (permits_reentry_if s t g) =
      record { source = s; destination = s; label = t } ∷ []
  permitted_edges _ = []

  abbrev pub all_permitted_edges : List (Call W) → List Edge
  all_permitted_edges [] = []
  all_permitted_edges (call ∷ calls) = permitted_edges call ++ all_permitted_edges calls

  -- The configuration that a call which permits a transition leaves when it returns.
  module _ (ea : Bool) (s t d : String) (g : String → Bool) (c : StateMachineConfig W) where
    permits_world :
        (invoke ea (permits s t d) c).0 ≡ value tt
        → (invoke ea (permits s t d) c).1
          ≡ on_representation
              (add_trigger_behaviour (new_transition_behaviour t d no_guard))
              s
              (get_or_create_representation s c)
    unfolding invoke
    permits_world ok = ground arith

    permits_if_world :
        (invoke ea (permits_if s t d g) c).0 ≡ value tt
        → (invoke ea (permits_if s t d g) c).1
          ≡ on_representation
              (add_trigger_behaviour (new_transition_behaviour t d g))
              s
              (get_or_create_representation s c)
    unfolding invoke
    permits_if_world ok = ground arith

  expires_world :
      (ea : Bool) (s t : String) (n : ℕ) (c : StateMachineConfig W)
      → (invoke ea (expires s t n) c).0 ≡ value tt
      → (invoke ea (expires s t n) c).1
        ≡ on_representation (add_expiry_action t n) s (get_or_create_representation s c)
  unfolding invoke
  expires_world ea s t n c ok = ground arith

  state_edges-invoke :
      (ea : Bool) (call : Call W) (c : StateMachineConfig W)
      → (invoke ea call c).0 ≡ value tt
      → Perm
          (state_edges (invoke ea call c).1.state_configuration)
          (permitted_edges call ++ state_edges c.state_configuration)
  unfolding invoke new_transition_behaviour add_entry_action add_entry_action_from add_exit_action
      add_expiry_action
  state_edges-invoke ea (configured s) c ok = rw (state_edges-create s c) (Perm.refl _)
  state_edges-invoke ea (permits s t d) c ok =
      let b = new_transition_behaviour t d no_guard in
      rw (permits_world ea s t d no_guard c ok)
        (state_edges-on (add_trigger_behaviour b) s (edge_of s b ∷ []) c (trigger_edges-add s b))
  state_edges-invoke ea (permits_if s t d g) c ok =
      let b = new_transition_behaviour t d g in
      rw (permits_if_world ea s t d g c ok)
        (state_edges-on (add_trigger_behaviour b) s (edge_of s b ∷ []) c (trigger_edges-add s b))
  state_edges-invoke ea (permits_reentry s t) c ok =
      let b = new_transition_behaviour t s no_guard in
      state_edges-on (add_trigger_behaviour b) s (edge_of s b ∷ []) c (trigger_edges-add s b)
  state_edges-invoke ea (permits_reentry_if s t g) c ok =
      let b = new_transition_behaviour t s g in
      state_edges-on (add_trigger_behaviour b) s (edge_of s b ∷ []) c (trigger_edges-add s b)
  state_edges-invoke ea (entry s a) c ok =
      state_edges-on (add_entry_action a) s [] c (λ r. Perm.refl _)
  state_edges-invoke ea (entry_from s t a) c ok =
      state_edges-on (add_entry_action_from t a) s [] c (λ r. Perm.refl _)
  state_edges-invoke ea (expires s t n) c ok =
      rw (expires_world ea s t n c ok)
        (state_edges-on (add_expiry_action t n) s [] c (λ r. Perm.refl _))
  state_edges-invoke ea (exits s a) c ok =
      state_edges-on (add_exit_action a) s [] c (λ r. Perm.refl _)

  state_edges-build :
      (ea : Bool) (calls : List (Call W)) (c : StateMachineConfig W)
      → (build ea calls c).0 ≡ value tt
      → Perm
          (state_edges (build ea calls c).1.state_configuration)
          (all_permitted_edges calls ++ state_edges c.state_configuration)
  unfolding build
  state_edges-build ea [] c ok = Perm.refl _
  state_edges-build ea (call ∷ calls) c ok =
      let (first, later, same) = build-cons ea call calls c ok in
      let c' = (invoke ea call c).1 in
      let mine = permitted_edges call in
      let rest = all_permitted_edges calls in
      let before = state_edges c.state_configuration in
      rw (same, append_assoc mine rest before)
        (Perm.trans (state_edges-build ea calls c' later) (
          Perm.trans (Perm.append_left rest (state_edges-invoke ea call c first))
            (perm_exchange rest mine before)))

  -- The diagram of the configuration that a program of builder calls leaves is the opening line,
  -- one line for each transition that a call of the program permits, reentries included and
  -- guards left out, in some order, and the closing brace.
  pub generate_dot_file_permits :
      (ea : Bool) (init : Option String) (calls : List (Call W))
      → (build ea calls (new_builder init)).0 ≡ value tt
      → let c = (build ea calls (new_builder init)).1 in
        (generate_dot_file c
          ≡ ("digraph G {\n" <> lines (state_edges c.state_configuration)) <> "}")
        × Perm (state_edges c.state_configuration) (all_permitted_edges calls)
  unfolding new_builder
  generate_dot_file_permits ea init calls ok = (
    generate_dot_file-lines (build ea calls (new_builder init)).1,
    rw (append-nil (all_permitted_edges calls)) at
        (state_edges-build ea calls (new_builder init) ok),
  )
