-- ===== src/Fsm/Dot.antt =====
-- The two `generateDotFile` methods of core/StateMachineConfig.java.
pub mod Edges
pub mod Growth
pub mod Permits
pub mod History
use xenon_ext.Prelude.{
  ℕ, Bool, true, false, Option, none, some, List, [], ◌∷◌, String, if◌then◌else◌, leb,
}
use xenon_ext.HashMap.{HashMap}
use xenon_ext.Fsm.Behaviour.{TriggerBehaviour, results_in_transition_from}
use xenon_ext.Fsm.Representation.{StateRepresentation, ◌<>◌}
use xenon_ext.Fsm.Config.{StateMachineConfig}
use xenon_ext.Fsm.Document.{FsmServiceDoc}

-- `String.format("\t%s -> %s [ label = \"%s\" ];\n", …)`.
unfoldable pub edge_line : String → String → String → String
edge_line src dest trigger =
    "\t" <> src <> " -> " <> dest <> " [ label = \"" <> trigger <> "\" ];\n"

-- `%s` of a reference that may be null.
unfoldable pub show_nullable : Option String → String
show_nullable none = "null"
show_nullable (some s) = s

-- The three loops over a configuration, each from the text that the builder holds so far.
unfoldable pub append_behaviours : String → String → List TriggerBehaviour → String
unfolding edge_line results_in_transition_from
append_behaviours graph state [] = graph
append_behaviours graph state (b ∷ behaviours) =
    append_behaviours (graph <> edge_line state (results_in_transition_from b).1 b.trigger) state
      behaviours

unfoldable pub append_triggers : String → String → HashMap (List TriggerBehaviour) → String
unfolding append_behaviours
append_triggers graph state [] = graph
append_triggers graph state ((t, behaviours) ∷ m) =
    append_triggers (append_behaviours graph state behaviours) state m

unfoldable pub append_states : {W : Type 0} → String → HashMap (StateRepresentation W) → String
unfolding append_triggers
append_states graph [] = graph
append_states graph ((state, r) ∷ m) =
    append_states (append_triggers graph state r.trigger_behaviours) m

unfoldable pub generate_dot_file : {W : Type 0} → StateMachineConfig W → String
unfolding append_states
generate_dot_file c = append_states "digraph G {\n" c.state_configuration <> "}"

module _ {E : Type 0} where
  -- `Arrays.sort(docs, comparingLong(o -> o.documentVersion))`, which is stable.
  unfoldable pub insert_doc : FsmServiceDoc E → List (FsmServiceDoc E) → List (FsmServiceDoc E)
  insert_doc d [] = d ∷ []
  insert_doc d (e ∷ docs) =
      if leb d.document_version e.document_version then d ∷ e ∷ docs else e ∷ insert_doc d docs

  unfoldable pub sort_docs : List (FsmServiceDoc E) → List (FsmServiceDoc E)
  unfolding insert_doc
  sort_docs [] = []
  sort_docs (d ∷ docs) = insert_doc d (sort_docs docs)

  -- One round of the loop: the document at `cur`, and the one at `nxt` if there is one.
  unfoldable pub step_line : Option String → List (FsmServiceDoc E) → String
  unfolding edge_line show_nullable
  step_line src [] = ""
  step_line src (next ∷ docs) = elim next.state [
    | none ↦ ""
    | some dest ↦ edge_line (show_nullable src) dest (show_nullable next.trigger)
  ]

  unfoldable pub append_docs : String → List (FsmServiceDoc E) → String
  unfolding step_line
  append_docs graph [] = graph
  append_docs graph (d ∷ docs) = append_docs (graph <> step_line d.state docs) docs

  unfoldable pub generate_history_dot_file : List (FsmServiceDoc E) → String
  unfolding append_docs sort_docs
  generate_history_dot_file docs =
      append_docs ("digraph G {\n" <> "\tnode [shape = box, \n\tstyle = filled];\n")
        (sort_docs docs)
      <> "}"
