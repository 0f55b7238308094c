-- ===== src/Fsm/Service/Started.antt =====
-- A start whose self patch arrives at `handlePatch`.
use xenon_ext.Prelude.{
  ◌≡◌, subst, ap, ◌∙◌, ◌⊎◌, Bool, true, Option, none, some, List, [], ◌∷◌, String, All,
}
use xenon_ext.Effect.{value}
use xenon_ext.Fsm.Behaviour.{OperationRef, TriggerBehaviour}
use xenon_ext.Fsm.Representation.{contains}
use xenon_ext.Fsm.Document.{FsmServiceDoc}
use xenon_ext.Fsm.Config.{Call, build, new_builder}
use xenon_ext.Fsm.Config.Configured.{states_of}
use xenon_ext.Fsm.Config.Actions.{OfActions}
use xenon_ext.Fsm.Machine.{StateMachine, init_state}
use xenon_ext.Fsm.Machine.Programs.{built_by, open_behaviours}
use xenon_ext.Fsm.Xenon.{Xenon, XenonLaws}
use xenon_ext.Fsm.Service.{
  equals, or_else, to_string, handle_start, handle_patch, self_patch_if_present, send_self_patch,
}
use xenon_ext.Fsm.Service.Keeping.{KeepsState}
use xenon_ext.Fsm.Service.Patch.{handle_patch_moves}
use xenon_ext.Fsm.Service.Timers.{equals_refl}
use xenon_ext.Fsm.Service.Start.{handle_start_lem}

module _ {E W : Type 0} (x : Xenon E W) (laws : XenonLaws x) where
  module _ (m : StateMachine W) (validate : OperationRef → W → Bool × W)
      (trigger : OperationRef → W → Option String) (uri : String) (op : OperationRef) (t : String)
      (w : W) where
    abbrev pub start_body : String → FsmServiceDoc E
    start_body initial = record (x.get_body op (validate op w).1) { state = some initial }

    -- The world in which the start has been completed.
    abbrev pub started : String → W
    started initial = x.complete op (x.set_body op (start_body initial) (validate op w).1)

    abbrev SendsFrom : String → Type 0
    SendsFrom initial =
        ((x.get_body op (validate op w).1).state ≡ none)
          ⊎ ((x.get_body op (validate op w).1).state ≡ some initial)
        → trigger op (started initial) ≡ some t
        → handle_start x m validate trigger uri op w
          ≡ x.send_patch uri (record (start_body initial) { trigger = some t }) (started initial)

    start-SendsFrom :
        (initial : String)
        → to_string (init_state m) "Start" ≡ initial
        → (validate op w).0 ≡ true
        → SendsFrom initial
    unfolding self_patch_if_present send_self_patch
    start-SendsFrom initial e valid =
        let (other, in_initial, invalid) = handle_start_lem x m validate trigger uri op w in
        let start = to_string (init_state m) "Start" in
        subst SendsFrom e (λ given asked.
          in_initial valid given
          ∙ ap (λ o. self_patch_if_present x uri (start_body start) o (started start)) asked)

  -- If no configured action changes the state field of the document: a valid start without a state
  -- or in the initial state is completed in the initial state, and then a self patch with the
  -- trigger that the subclass gives is sent. When this patch arrives and the document is still in
  -- the initial state, it is accepted, and leaves the state that is linked to it in the destination
  -- of the one behaviour that is declared for the trigger and whose guard is met.
  pub start_moves :
      (ea : Bool) (calls : List (Call W)) (initial : String)
      (ok : (build ea calls (new_builder (some initial))).0 ≡ value tt)
      (keep : All (OfActions (KeepsState x laws)) calls) (m : StateMachine W)
      (built : m.config ≡ built_by ea (some initial) calls) (validate : OperationRef → W → Bool × W)
      (trigger : OperationRef → W → Option String) (uri : String) (op patch : OperationRef)
      (t : String) (b : TriggerBehaviour) (w later : W)
      → init_state m ≡ some initial
      → (validate op w).0 ≡ true
      → ((x.get_body op (validate op w).1).state ≡ none)
        ⊎ ((x.get_body op (validate op w).1).state ≡ some initial)
      → trigger op (started m validate trigger uri op t w initial) ≡ some t
      → let sent : FsmServiceDoc E = record (start_body m validate trigger uri op t w initial) {
        trigger = some t;
      } in
        x.get_body patch later ≡ sent
        → (x.get_state patch later).state ≡ some initial
        → contains (states_of calls) initial ≡ true
        → open_behaviours calls initial t ≡ b ∷ []
        → (handle_start x m validate trigger uri op w
            ≡ x.send_patch uri sent (started m validate trigger uri op t w initial))
          × ((x.get_state patch (handle_patch x m patch later).1).state ≡ some b.destination)
  unfolding to_string or_else
  start_moves ea calls initial ok keep m built validate trigger uri op patch t b w later starts
        valid given asked arrives here named one =
      (
        start-SendsFrom m validate trigger uri op t w initial (ap (λ o. to_string o "Start") starts)
            valid given asked,
        handle_patch_moves x laws ea (some initial) calls ok keep m built patch later initial t b
            here (ap (λ d. d.trigger) arrives)
            (ap (λ d. equals (or_else d.state (some initial)) (some initial)) arrives
              ∙ equals_refl (some initial))
            named one,
      )
