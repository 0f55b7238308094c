-- ===== src/Viewer/Exchange/Tests.antt =====
-- A server with two services, and the theorems at it.
use xenon_ext.Prelude.{
  ◌+◌, ◌≤◌, ◌≡◌, refl, Option, none, some, [], ◌∷◌, String, ◌⊎◌, Among, length, here, next,
}
use xenon_ext.Fsm.Representation.{◌<>◌}
use xenon_ext.HashMap.{get}
use xenon_ext.Viewer.{
  list_services, service_graph, service_documents, changed, clicked, documents_listed, draw,
  has_slash, new_page, ready, handle_all, handle,
}
use xenon_ext.Viewer.Exchange.{
  Server, Exchange, opened, receive, reply, without, Answer, answers, serves, clicks, Answered,
  none_yet, one_more,
}
use xenon_ext.Viewer.Exchange.Answering.{Answered-ends}
use xenon_ext.Viewer.Exchange.Delivered.{selected_service_shown}
use xenon_ext.Viewer.Exchange.Bound.{requests_bounded}
use xenon_ext.Viewer.Justified.{Justified}

abbrev viz : Option String → Option String
viz none = none
viz (some dot) = some ("<svg>" <> dot <> "</svg>")

abbrev html : String → String
html s = s

abbrev server : Server
server = record {
  services = "/a/b" ∷ "/a/c" ∷ [];
  graph_of_service = λ text. (text, "S") ∷ [];
  documents = λ text. (some 1, "/a/b/1" ∷ []);
  graph_of_document = λ id. (id, "D") ∷ [];
}

abbrev selected : Exchange
selected = receive viz html (changed "/a/b") opened

-- The documents are listed before the services, and before the graph.
abbrev listed_first : Exchange
listed_first =
    receive viz html (reply server (service_documents "/a/b"))
      (without (list_services ∷ service_graph "/a/b" ∷ []) selected.page)

out_of_order : Answer viz html server selected listed_first
unfolding ready has_slash handle
out_of_order =
    answers (list_services ∷ service_graph "/a/b" ∷ []) (service_documents "/a/b") [] refl

selected_service_shown_example :
    (Among (service_graph "/a/b") (receive viz html (clicked 0) listed_first).pending
      ⊎ ((receive viz html (clicked 0) listed_first).page.svc_view ≡ "<hr>" <> "<svg>S</svg>"))
    × (u : Exchange) × Answered viz html server
        (receive viz html (clicked 0) listed_first)
        (length (receive viz html (clicked 0) listed_first).pending)
        u
    × (u.pending ≡ [])
    × (u.page.svc_view ≡ "<hr>" <> "<svg>S</svg>")
unfolding ready has_slash draw get
selected_service_shown_example =
    selected_service_shown viz html server "/a/b" "<svg>S</svg>" opened refl refl (tt, tt)
      (next (next here (serves out_of_order)) (clicks 0))

Answered-ends_example :
    (1 + length listed_first.pending ≡ length selected.pending)
    × (u : Exchange) × Answered viz html server listed_first (length listed_first.pending) u
    × (u.pending ≡ [])
Answered-ends_example = Answered-ends viz html server (one_more out_of_order none_yet)

-- The graph arrives last.
abbrev drawn : Exchange
drawn =
    receive viz html (reply server (service_graph "/a/b"))
      (without (list_services ∷ []) listed_first.page)

requests_bounded_example :
    length
      (handle_all viz html
        (changed "--"
          ∷ changed "/a/b"
          ∷ documents_listed "/a/b" (some 1) ("/a/b/1" ∷ [])
          ∷ changed "/a/b"
          ∷ clicked 0
          ∷ [])
        (ready new_page)).sent
    ≤ 6
unfolding has_slash
requests_bounded_example = requests_bounded viz html _
