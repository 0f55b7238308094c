-- ===== src/Fsm/Service/Patch.antt =====
-- What `handlePatch` does to the state of the document.
use xenon_ext.Prelude.{
  ℕ, ◌≡◌, refl, subst, ap, ◌∙◌, ◌⊎◌, Bool, true, Option, none, some, List, [], ◌∷◌, ◌++◌, String,
  arith, All, All-append, Bool-cases, Option-cases, inl, inr,
}
use xenon_ext.Effect.{Throwable, null_pointer, value, Comp, done, throw, ◌>>=◌, ◌>>◌}
use xenon_ext.Fsm.Behaviour.{OperationRef, Transition, TriggerBehaviour}
use xenon_ext.Fsm.Representation.{contains}
use xenon_ext.Fsm.Config.{Call, build, new_builder}
use xenon_ext.Fsm.Config.Edits.{representation_or_new}
use xenon_ext.Fsm.Config.Declared.{declared, entries, exit_actions_of}
use xenon_ext.Fsm.Config.Configured.{states_of}
use xenon_ext.Fsm.Config.Actions.{OfActions, declared-exits-All, declared-entries-All}
use xenon_ext.Fsm.Machine.{StateMachine, set_expiry_scheduler, fire_trigger}
use xenon_ext.Fsm.Machine.Firing.{run_all, timers, transition_by}
use xenon_ext.Fsm.Machine.Programs.{
  built_by, open_behaviours, fire_accepts, fire_rejects, fire_into_unconfigured,
}
use xenon_ext.Fsm.Machine.Runs.{few}
use xenon_ext.Fsm.Xenon.{Xenon, XenonLaws}
use xenon_ext.Fsm.Expiry.{accept}
use xenon_ext.Fsm.Service.{equals, or_else, state_populator, fire_from, patch_with, handle_patch}
use xenon_ext.Fsm.Service.Keeping.{
  state_in, KeepsState, entered_by-KeepsState, timers-KeepsState, run_persisted,
}

-- The world after a computation does not depend on the value that is handed on.
world_done {ℓ κ} :
    {W : Type 0} {A : Type ℓ} {B : Type κ} (m : Comp W A) (f : A → B) (w : W)
    → ((m >>= λ a. done (f a)) w).1 ≡ (m w).1
world_done m f w = ground arith

world_throw {ℓ} :
    {W : Type 0} (B : Type ℓ) (m : Comp W (Unit {0})) (e : Throwable) (w : W)
    → ((m >> throw {A = B} e) w).1 ≡ (m w).1
world_throw B m e w = ground arith

module _ {E W : Type 0} (x : Xenon E W) (laws : XenonLaws x) where
  module _ (ea : Bool) (init : Option String) (calls : List (Call W))
      (ok : (build ea calls (new_builder init)).0 ≡ value tt)
      (keep : All (OfActions (KeepsState x laws)) calls) (m : StateMachine W)
      (built : m.config ≡ built_by ea init calls) (patch : OperationRef) (w : W) where
    fire_from_moves :
        (src trigger : String) (b : TriggerBehaviour)
        → contains (states_of calls) src ≡ true
        → open_behaviours calls src trigger ≡ b ∷ []
        → state_in x laws patch (fire_from x m (x.get_state patch w) (some src) trigger patch w).1
          ≡ some b.destination
    unfolding fire_from set_expiry_scheduler
    fire_from_moves src trigger b named one =
        let current = x.get_state patch w in
        let m' = set_expiry_scheduler (accept x current.document_self_link) m in
        let fire = fire_trigger x.fail m' src trigger patch (state_populator x) in
        let t = transition_by src trigger patch b in
        let left = declared-exits-All (KeepsState x laws) src calls keep in
        ap (λ v. state_in x laws patch v) (world_done fire (λ r. tt) w)
        ∙ elim (Bool-cases (contains (states_of calls) b.destination)) [
          | inl there ↦
              let d = representation_or_new (built_by ea init calls) b.destination in
              let rest =
                declared exit_actions_of src calls
                ++ timers m' d ∷ declared entries b.destination calls in
              let keeps : All (KeepsState x laws) rest =
                All-append (KeepsState x laws) (declared exit_actions_of src calls) _ left (
                  timers-KeepsState x laws m current.document_self_link d,
                  declared-entries-All (KeepsState x laws) (entered_by-KeepsState x laws)
                      b.destination calls keep,
                ) in
              ap (λ r. state_in x laws patch r.1)
                (fire_accepts ea init calls ok x.fail m' built src trigger patch (state_populator x)
                  w b named there one)
              ∙ ap (λ v. state_in x laws patch v)
                  (world_done (run_all (state_populator x ∷ rest) t) (λ u. some t) w)
              ∙ run_persisted x laws rest t w keeps
          | inr missing ↦
              let rest = declared exit_actions_of src calls in
              ap (λ r. state_in x laws patch r.1)
                (fire_into_unconfigured ea init calls ok x.fail m' built src trigger patch
                  (state_populator x) w b named missing one)
              ∙ ap (λ v. state_in x laws patch v)
                  (world_throw (Option Transition) (run_all (state_populator x ∷ rest) t)
                    null_pointer w)
              ∙ run_persisted x laws rest t w left
        ]

    -- A firing of the patch from a state: the document stays, or moves along the one behaviour
    -- of that state whose guard is met.
    fire_from_follows :
        (src trigger : String)
        → let old = state_in x laws patch w in
          let new =
            state_in x laws patch
              (fire_from x m (x.get_state patch w) (some src) trigger patch w).1 in
          (new ≡ old)
          ⊎ ((b : TriggerBehaviour) × (open_behaviours calls src trigger ≡ b ∷ [])
              × (new ≡ some b.destination))
    unfolding fire_from set_expiry_scheduler
    fire_from_follows src trigger =
        let current = x.get_state patch w in
        let m' = set_expiry_scheduler (accept x current.document_self_link) m in
        let fire = fire_trigger x.fail m' src trigger patch (state_populator x) in
        let after = ap (λ v. state_in x laws patch v) (world_done fire (λ r. tt) w) in
        let (refused, several, missing) =
          fire_rejects ea init calls ok x.fail m' built src trigger patch (state_populator x) w in
        elim (Bool-cases (contains (states_of calls) src)) [
          | inr unknown ↦ inl (after ∙ ap (λ r. state_in x laws patch r.1) (missing unknown))
          | inl named ↦ elim (few (open_behaviours calls src trigger)) [
            | inl nothing ↦ inl (
                after
                ∙ ap (λ r. state_in x laws patch r.1) (refused nothing named)
                ∙ ap (λ d. d.state) (laws.get_state-fail _ _ _))
            | inr (inr many) ↦
                inl (after ∙ ap (λ r. state_in x laws patch r.1) (several many named))
            | inr (inl (b, one)) ↦ inr (b, one, fire_from_moves src trigger b named one)
          ]
        ]

    refusal_keeps :
        (e : Throwable) (code : ℕ)
        → state_in x laws patch (x.fail patch e (x.set_status_code patch code w))
          ≡ state_in x laws patch w
    refusal_keeps e code =
        ap (λ d. d.state) (laws.get_state-fail _ _ _ ∙ laws.get_state-set_status_code _ _ _)

    patch_with_follows :
        (asked patched : Option String)
        → let old = state_in x laws patch w in
          let new =
            state_in x laws patch (patch_with x m (x.get_state patch w) asked patched patch w).1 in
          (new ≡ old)
          ⊎ ((src : String) × (trigger : String) × (b : TriggerBehaviour) × (old ≡ some src)
              × (asked ≡ some trigger)
              × (open_behaviours calls src trigger ≡ b ∷ [])
              × (new ≡ some b.destination))
    unfolding patch_with
    patch_with_follows none patched = inl (refusal_keeps _ _)
    patch_with_follows (some trigger) patched =
        let current = x.get_state patch w in
        elim (Bool-cases (equals patched current.state)) [
          | inr differs ↦ rw differs (inl (refusal_keeps _ _))
          | inl same ↦ elim (Option-cases current.state) [
            | inl nowhere ↦ inl (ground arith)
            | inr (src, here) ↦ elim (fire_from_follows src trigger) [
              | inl stays ↦ inl (ground arith)
              | inr (b, one, there) ↦ inr (src, trigger, b, here, refl, one, ground arith)
            ]
          ]
        ]

  module _ (ea : Bool) (init : Option String) (calls : List (Call W))
      (ok : (build ea calls (new_builder init)).0 ≡ value tt)
      (keep : All (OfActions (KeepsState x laws)) calls) (m : StateMachine W)
      (built : m.config ≡ built_by ea init calls) (patch : OperationRef) (w : W) where
    -- The world in which the body of the patch has the state that it is taken to ask for.
    abbrev written : W
    written =
        x.set_body patch
          (record (x.get_body patch w) {
            state = or_else (x.get_body patch w).state (x.get_state patch w).state;
          })
          w

    written_keeps : x.get_state patch written ≡ x.get_state patch w
    written_keeps = laws.get_state-set_body _ _ _

    -- If no configured action changes the state field of the document, a patch with a trigger,
    -- whose state is absent or the document's, leaves the state that is linked to it in the
    -- destination of the one behaviour of that state whose guard is met. The linked state is there
    -- also where an action throws, and where the destination is not configured.
    pub handle_patch_moves :
        (src trigger : String) (b : TriggerBehaviour)
        → (x.get_state patch w).state ≡ some src
        → (x.get_body patch w).trigger ≡ some trigger
        → equals (or_else (x.get_body patch w).state (some src)) (some src) ≡ true
        → contains (states_of calls) src ≡ true
        → open_behaviours calls src trigger ≡ b ∷ []
        → (x.get_state patch (handle_patch x m patch w).1).state ≡ some b.destination
    unfolding handle_patch
    handle_patch_moves src trigger b here asked same named one =
        let there =
          subst
            (λ d.
              state_in x laws patch (fire_from x m d (some src) trigger patch written).1
              ≡ some b.destination)
            written_keeps
            (fire_from_moves ea init calls ok keep m built patch written src trigger b named one) in
        ground arith

    -- If no configured action changes the state field of the document, then, whatever a patch asks
    -- for, the state that is linked to it is as before or the destination of the one behaviour
    -- that is declared for the state before and the trigger of the patch and whose guard is met.
    pub handle_patch_follows :
        let old = (x.get_state patch w).state in
        let new = (x.get_state patch (handle_patch x m patch w).1).state in
        (new ≡ old)
        ⊎ ((src : String) × (trigger : String) × (b : TriggerBehaviour) × (old ≡ some src)
            × ((x.get_body patch w).trigger ≡ some trigger)
            × (open_behaviours calls src trigger ≡ b ∷ [])
            × (new ≡ some b.destination))
    unfolding handle_patch
    handle_patch_follows =
        let asked = (x.get_body patch w).trigger in
        let patched = or_else (x.get_body patch w).state (x.get_state patch w).state in
        subst
          (λ d.
            let new = state_in x laws patch (patch_with x m d asked patched patch written).1 in
            (new ≡ d.state)
            ⊎ ((src : String) × (trigger : String) × (b : TriggerBehaviour) × (d.state ≡ some src)
                × (asked ≡ some trigger)
                × (open_behaviours calls src trigger ≡ b ∷ [])
                × (new ≡ some b.destination)))
          written_keeps
          (patch_with_follows ea init calls ok keep m built patch written asked patched)
