-- ===== src/Fsm/Dot/Edges.antt =====
-- The diagram of a configuration has one edge for each behaviour that was permitted, and no other.
use text.Mathlib.TextLemmas.{append_assoc as glue_assoc, append-nil as glue_empty, nil-append}
use xenon_ext.Prelude.{◌≡◌, sym, ap, ◌∙◌, List, [], ◌∷◌, ◌++◌, String}
use xenon_ext.HashMap.{HashMap}
use xenon_ext.Fsm.Behaviour.{TriggerBehaviour, results_in_transition_from}
use xenon_ext.Fsm.Representation.{StateRepresentation, ◌<>◌}
use xenon_ext.Fsm.Config.{StateMachineConfig}
use xenon_ext.Fsm.Dot.{
  edge_line, append_behaviours, append_triggers, append_states, generate_dot_file,
}

-- An edge of the diagram: a source, a destination and a label.
pub record Edge : Type 0 where
  pub source : String
  pub destination : String
  pub label : String

-- The lines of a list of edges.
unfoldable pub lines : List Edge → String
lines [] = ""
lines (e ∷ edges) = edge_line e.source e.destination e.label <> lines edges

abbrev pub edge_of : String → TriggerBehaviour → Edge
edge_of state b = record { source = state; destination = b.destination; label = b.trigger }

abbrev pub behaviour_edges : String → List TriggerBehaviour → List Edge
behaviour_edges state [] = []
behaviour_edges state (b ∷ bs) = edge_of state b ∷ behaviour_edges state bs

abbrev pub trigger_edges : String → HashMap (List TriggerBehaviour) → List Edge
trigger_edges state [] = []
trigger_edges state ((t, bs) ∷ m) = behaviour_edges state bs ++ trigger_edges state m

abbrev pub state_edges : {W : Type 0} → HashMap (StateRepresentation W) → List Edge
state_edges [] = []
state_edges ((state, r) ∷ m) = trigger_edges state r.trigger_behaviours ++ state_edges m

pub lines-append : (es fs : List Edge) → lines (es ++ fs) ≡ lines es <> lines fs
unfolding lines
lines-append [] fs = sym (nil-append (lines fs))
lines-append (e ∷ es) fs =
    ap (λ s. edge_line e.source e.destination e.label <> s) (lines-append es fs)
    ∙ sym (glue_assoc (edge_line e.source e.destination e.label) (lines es) (lines fs))

append_behaviours_lem :
    (graph state : String) (bs : List TriggerBehaviour)
    → append_behaviours graph state bs ≡ graph <> lines (behaviour_edges state bs)
unfolding append_behaviours lines results_in_transition_from
append_behaviours_lem graph state [] = sym (glue_empty graph)
append_behaviours_lem graph state (b ∷ bs) =
    append_behaviours_lem (graph <> edge_line state b.destination b.trigger) state bs
    ∙ glue_assoc graph (edge_line state b.destination b.trigger) (lines (behaviour_edges state bs))

append_triggers_lem :
    (graph state : String) (m : HashMap (List TriggerBehaviour))
    → append_triggers graph state m ≡ graph <> lines (trigger_edges state m)
unfolding append_triggers
append_triggers_lem graph state [] = unfold lines in sym (glue_empty graph)
append_triggers_lem graph state ((t, bs) ∷ m) =
    append_triggers_lem (append_behaviours graph state bs) state m
    ∙ rw
        (
          append_behaviours_lem graph state bs,
          lines-append (behaviour_edges state bs) (trigger_edges state m),
        )
        (glue_assoc graph (lines (behaviour_edges state bs)) (lines (trigger_edges state m)))

append_states_lem :
    {W : Type 0} (graph : String) (m : HashMap (StateRepresentation W))
    → append_states graph m ≡ graph <> lines (state_edges m)
unfolding append_states
append_states_lem graph [] = unfold lines in sym (glue_empty graph)
append_states_lem graph ((state, r) ∷ m) =
    append_states_lem (append_triggers graph state r.trigger_behaviours) m
    ∙ rw
        (
          append_triggers_lem graph state r.trigger_behaviours,
          lines-append (trigger_edges state r.trigger_behaviours) (state_edges m),
        )
        (glue_assoc graph (lines (trigger_edges state r.trigger_behaviours))
          (lines (state_edges m)))

-- The text is the opening, a line for each edge, and the closing brace.
pub generate_dot_file-lines :
    {W : Type 0} (c : StateMachineConfig W)
    → generate_dot_file c ≡ ("digraph G {\n" <> lines (state_edges c.state_configuration)) <> "}"
unfolding generate_dot_file
generate_dot_file-lines c =
    ap (λ s. s <> "}") (append_states_lem "digraph G {\n" c.state_configuration)
