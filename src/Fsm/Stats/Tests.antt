-- ===== src/Fsm/Stats/Tests.antt =====
-- A registry of one state machine, its graphs, and the page that shows one of them.
use xenon_ext.Prelude.{◌⊎◌, Among, length, here, ℕ, ◌≡◌, refl, Option, none, some, [], ◌∷◌, String}
use xenon_ext.HashMap.{get, put}
use xenon_ext.Fsm.Representation.{◌<>◌, new_representation}
use xenon_ext.Fsm.Config.{StateMachineConfig}
use xenon_ext.Fsm.Dot.{generate_dot_file}
use xenon_ext.Fsm.Stats.{register_svc, svc_graphson}
use xenon_ext.Fsm.Stats.Monitored.{registered_service_shown}
use xenon_ext.Viewer.{service_graph, changed, has_slash, ready}
use xenon_ext.Viewer.Exchange.{Server, Exchange, opened, receive, Answered}

abbrev door : StateMachineConfig ℕ
door = record {
  init_state = some "open";
  state_configuration = ("open", new_representation "open") ∷ [];
}

abbrev viz : Option String → Option String
viz none = none
viz (some dot) = some ("<svg>" <> dot)

abbrev html : String → String
html s = s

-- The server has the graph of the one service, and no documents.
abbrev server : Server
server = record {
  services = "/fsm/door" ∷ [];
  graph_of_service = λ text. (text, generate_dot_file door) ∷ [];
  documents = λ text. (none, []);
  graph_of_document = λ id. [];
}

abbrev selected : Exchange
selected = receive viz html (changed "/fsm/door") opened

registered_service_shown_example :
    (Among (service_graph "/fsm/door") selected.pending
      ⊎ (selected.page.svc_view ≡ "<hr>" <> ("<svg>" <> generate_dot_file door)))
    × (u : Exchange) × Answered viz html server selected (length selected.pending) u
    × (u.pending ≡ [])
    × (u.page.svc_view ≡ "<hr>" <> ("<svg>" <> generate_dot_file door))
unfolding svc_graphson get register_svc put ready has_slash
registered_service_shown_example =
    registered_service_shown viz html server "/fsm/door" "Door" ("<svg>" <> generate_dot_file door)
      door [] opened refl refl refl (tt, tt) here
