-- ===== src/Fsm/Config/Declared.antt =====
-- What a program of builder calls declares, read off the program, and that the configuration that
-- it builds holds exactly that.
use mathlib.Core.Option
use xenon_ext.Prelude.{
  ℕ, ◌≡◌, refl, sym, ap, ◌∙◌, Bool, Option, none, some, List, [], ◌∷◌, ◌++◌, String, str_eq, eq_iff,
  arith, if◌then◌else◌, Bool-cases, inl, inr, append-nil, append_assoc,
}
use xenon_ext.HashMap.{get, put_if_absent, get-put, get-put_if_absent}
use xenon_ext.Effect.{value}
use xenon_ext.Fsm.Behaviour.{TriggerBehaviour, new_transition_behaviour}
use xenon_ext.Fsm.Representation.{
  Action, StateRepresentation, new_representation, add_trigger_behaviour, add_entry_action,
  add_entry_action_from, add_exit_action, add_expiry_action, entered_by,
}
use xenon_ext.Fsm.Config.{
  StateMachineConfig, no_guard, Call, configured, permits, permits_if, permits_reentry,
  permits_reentry_if, entry, entry_from, expires, exits, invoke, build, new_builder,
}
use xenon_ext.Fsm.Config.Edits.{
  behaviours_of, representation_or_new, state_of, edit, representation-invoke, build-cons,
}

behaviours-add :
    {W : Type 0} (b : TriggerBehaviour) (r : StateRepresentation W) (t : String)
    → behaviours_of (add_trigger_behaviour b r) t
      ≡ behaviours_of r t ++ (if str_eq b.trigger t then b ∷ [] else [])
unfolding behaviours_of add_trigger_behaviour
behaviours-add b r t =
    let m = put_if_absent b.trigger [] r.trigger_behaviours in
    ground (
      arith,
      get-put b.trigger t (Option.get_or (get b.trigger m) [] ++ b ∷ []) m,
      get-put_if_absent b.trigger t [] r.trigger_behaviours,
      get-put_if_absent b.trigger b.trigger [] r.trigger_behaviours,
      eq_iff b.trigger t,
      eq_iff b.trigger b.trigger,
      append-nil (behaviours_of r t),
    )

-- The behaviour that a call adds to its state under a trigger.
unfoldable pub permitted : {W : Type 0} → String → Call W → List TriggerBehaviour
permitted t (permits s t' d) =
    if str_eq t' t then new_transition_behaviour t' d no_guard ∷ [] else []
permitted t (permits_if s t' d g) = if str_eq t' t then new_transition_behaviour t' d g ∷ [] else []
permitted t (permits_reentry s t') =
    if str_eq t' t then new_transition_behaviour t' s no_guard ∷ [] else []
permitted t (permits_reentry_if s t' g) =
    if str_eq t' t then new_transition_behaviour t' s g ∷ [] else []
permitted t _ = []

module _ {W : Type 0} where
  unfoldable pub entries : Call W → List (Action W)
  entries (entry s a) = a ∷ []
  entries (entry_from s t a) = entered_by t a ∷ []
  entries _ = []

  unfoldable pub exit_actions_of : Call W → List (Action W)
  exit_actions_of (exits s a) = a ∷ []
  exit_actions_of _ = []

  -- A later delay for the same trigger replaces an earlier one.
  unfoldable pub delay : String → Call W → Option ℕ → Option ℕ
  delay t (expires s t' n) before = if str_eq t' t then some n else before
  delay t _ before = before

  -- What the calls of a program about one state declare, in the program's order.
  unfoldable pub declared {ℓ} : {A : Type ℓ} → (Call W → List A) → String → List (Call W) → List A
  declared part s [] = []
  declared part s (call ∷ calls) =
      (if str_eq (state_of call) s then part call else []) ++ declared part s calls

  unfoldable pub declared_delay : String → String → List (Call W) → Option ℕ → Option ℕ
  declared_delay s t [] before = before
  declared_delay s t (call ∷ calls) before =
      declared_delay s t calls (if str_eq (state_of call) s then delay t call before else before)

  behaviours-edit :
      (call : Call W) (r : StateRepresentation W) (t : String)
      → behaviours_of (edit call r) t ≡ behaviours_of r t ++ permitted t call
  unfolding edit permitted new_transition_behaviour
  behaviours-edit (permits s t' d) r t = behaviours-add (new_transition_behaviour t' d no_guard) r t
  behaviours-edit (permits_if s t' d g) r t = behaviours-add (new_transition_behaviour t' d g) r t
  behaviours-edit (permits_reentry s t') r t =
      behaviours-add (new_transition_behaviour t' s no_guard) r t
  behaviours-edit (permits_reentry_if s t' g) r t =
      behaviours-add (new_transition_behaviour t' s g) r t
  behaviours-edit (configured s) r t = sym (append-nil _)
  behaviours-edit (entry s a) r t = unfold behaviours_of add_entry_action in sym (append-nil _)
  behaviours-edit (entry_from s t' a) r t =
      unfold behaviours_of add_entry_action_from in sym (append-nil _)
  behaviours-edit (expires s t' n) r t =
      unfold behaviours_of add_expiry_action in sym (append-nil _)
  behaviours-edit (exits s a) r t = unfold behaviours_of add_exit_action in sym (append-nil _)

  entries-edit :
      (call : Call W) (r : StateRepresentation W)
      → (edit call r).entry_actions ≡ r.entry_actions ++ entries call
  unfolding edit entries add_entry_action add_entry_action_from add_trigger_behaviour
      add_exit_action add_expiry_action
  entries-edit (entry s a) r = refl
  entries-edit (entry_from s t a) r = refl
  entries-edit _ r = sym (append-nil _)

  exits-edit :
      (call : Call W) (r : StateRepresentation W)
      → (edit call r).exit_actions ≡ r.exit_actions ++ exit_actions_of call
  unfolding edit exit_actions_of add_entry_action add_entry_action_from add_trigger_behaviour
      add_exit_action add_expiry_action
  exits-edit (exits s a) r = refl
  exits-edit _ r = sym (append-nil _)

  delay-edit :
      (call : Call W) (r : StateRepresentation W) (t : String)
      → get t (edit call r).expiry_actions ≡ delay t call (get t r.expiry_actions)
  unfolding edit delay add_entry_action add_entry_action_from add_trigger_behaviour add_exit_action
      add_expiry_action
  delay-edit (expires s t' n) r t = get-put t' t n r.expiry_actions
  delay-edit _ r t = refl

  -- A part of a representation that every call appends to holds, after a program, what the
  -- program declares of it.
  module _ {ℓ} {A : Type ℓ} (ea : Bool) (of : StateRepresentation W → List A)
      (part : Call W → List A)
      (law : (call : Call W) (r : StateRepresentation W) → of (edit call r) ≡ of r ++ part call)
      (s : String) where
    part-invoke :
        (call : Call W) (c : StateMachineConfig W)
        → (invoke ea call c).0 ≡ value tt
        → of (representation_or_new (invoke ea call c).1 s)
          ≡ of (representation_or_new c s) ++ (if str_eq (state_of call) s then part call else [])
    part-invoke call c ok = elim (Bool-cases (str_eq (state_of call) s)) [
      | inl same ↦ ap of (rw same at (representation-invoke ea call c s ok)) ∙ rw same (law call _)
      | inr other ↦
          ap of (rw other at (representation-invoke ea call c s ok)) ∙ rw other (sym (append-nil _))
    ]

    part-build :
        (calls : List (Call W)) (c : StateMachineConfig W)
        → (build ea calls c).0 ≡ value tt
        → of (representation_or_new (build ea calls c).1 s)
          ≡ of (representation_or_new c s) ++ declared part s calls
    unfolding build declared
    part-build [] c ok = sym (append-nil _)
    part-build (call ∷ calls) c ok =
        let (first, later, same) = build-cons ea call calls c ok in
        let more = declared part s calls in
        let new : List A = if str_eq (state_of call) s then part call else [] in
        ap (λ c'. of (representation_or_new c' s)) same
        ∙ part-build calls (invoke ea call c).1 later
        ∙ ap (λ xs. xs ++ more) (part-invoke call c first)
        ∙ append_assoc (of (representation_or_new c s)) new more

  delay-invoke :
      (ea : Bool) (call : Call W) (c : StateMachineConfig W) (s t : String)
      → (invoke ea call c).0 ≡ value tt
      → let before = get t (representation_or_new c s).expiry_actions in
        get t (representation_or_new (invoke ea call c).1 s).expiry_actions
        ≡ (if str_eq (state_of call) s then delay t call before else before)
  delay-invoke ea call c s t ok =
      ground
        (arith, representation-invoke ea call c s ok, delay-edit call (representation_or_new c s) t)

  delay-build :
      (ea : Bool) (calls : List (Call W)) (c : StateMachineConfig W) (s t : String)
      → (build ea calls c).0 ≡ value tt
      → get t (representation_or_new (build ea calls c).1 s).expiry_actions
        ≡ declared_delay s t calls (get t (representation_or_new c s).expiry_actions)
  unfolding build declared_delay
  delay-build ea [] c s t ok = refl
  delay-build ea (call ∷ calls) c s t ok =
      let (first, later, same) = build-cons ea call calls c ok in
      rw same (
        delay-build ea calls (invoke ea call c).1 s t later
        ∙ ap (declared_delay s t calls) (delay-invoke ea call c s t first))

  -- A program of builder calls that runs to its end leaves each state with the behaviours that
  -- the calls on it declare for a trigger, with the entry and the exit actions that they declare,
  -- all in the program's order and no other, and under each trigger with the delay of the last
  -- expiry that they declare for it.
  pub build-declared :
      (ea : Bool) (init : Option String) (calls : List (Call W)) (s : String)
      → (build ea calls (new_builder init)).0 ≡ value tt
      → let r = representation_or_new (build ea calls (new_builder init)).1 s in
        ((t : String) → behaviours_of r t ≡ declared (permitted t) s calls)
        × (r.entry_actions ≡ declared entries s calls)
        × (r.exit_actions ≡ declared exit_actions_of s calls)
        × ((t : String) → get t r.expiry_actions ≡ declared_delay s t calls none)
  unfolding new_builder behaviours_of representation_or_new get new_representation
  build-declared ea init calls s ok =
      let c = new_builder init in
      (
        λ t.
            part-build ea (λ r. behaviours_of r t) (permitted t)
              (λ call r. behaviours-edit call r t) s calls c ok,
        part-build ea (λ r. r.entry_actions) entries entries-edit s calls c ok,
        part-build ea (λ r. r.exit_actions) exit_actions_of exits-edit s calls c ok,
        λ t. delay-build ea calls c s t ok,
      )
