-- ===== src/Viewer/Tests.antt =====
-- Two services that are selected one after the other and whose graphs arrive in the other order.
use xenon_ext.Prelude.{
  ◌≡◌, refl, true, Option, none, some, List, [], ◌∷◌, ◌++◌, String, inl, inr, All,
}
use xenon_ext.Fsm.Representation.{◌<>◌}
use xenon_ext.HashMap.{get}
use xenon_ext.Viewer.{
  draw, any_counted, Event, changed, clicked, listed, service_drawn, document_drawn,
  documents_listed, Page, new_page, ready, document_graph, handle_all, has_slash, on_click,
  fetch_graph, log_value, service_graph, url, error_message,
}
use xenon_ext.Viewer.Shown.{texts, page_shows}
use xenon_ext.Viewer.Requests.{click_sends_once}
use xenon_ext.Viewer.Justified.{Justified, Drawn}
use xenon_ext.Viewer.Selected.{requests_selected}

abbrev viz : Option String → Option String
viz none = none
viz (some dot) = some ("<svg>" <> dot <> "</svg>")

abbrev html : String → String
html s = s

-- The graph of /a/b arrives after the one of /a/c, which was selected last.
abbrev late : List Event
late =
    listed ("/a/b" ∷ "/a/c" ∷ [])
    ∷ changed "--"
    ∷ changed "/a/b"
    ∷ changed "/a/c"
    ∷ service_drawn "/a/c" (("/a/c", "C") ∷ [])
    ∷ documents_listed "/a/c" (some 2) ("/a/c/1" ∷ "/a/c/2" ∷ [])
    ∷ service_drawn "/a/b" (("/a/b", "B") ∷ [])
    ∷ clicked 1
    ∷ document_drawn "/a/c/2" (("/a/c/2", "D") ∷ [])
    ∷ changed "/a/b"
    ∷ []

abbrev end : Page
end = handle_all viz html late (ready new_page)

urls :
    (url (service_graph "/a/b") ≡ "/fsm/monitoring/svc/graphson?uri=/a/b")
    × (error_message 404 "error" "" ≡ "Requested URL not found.")
    × (error_message 200 "timeout" "" ≡ "Request timeout.")
unfolding url error_message
urls = (refl, refl, refl)

page_shows_example :
    (end.svc_view ≡ "<hr><svg>B</svg>")
    × ((texts end.doc_items ≡ "/a/c/1" ∷ "/a/c/2" ∷ [])
        × ((end.panel_visible ≡ true) × (end.doc_graph_view ≡ "<hr><svg>D</svg>")))
unfolding ready draw any_counted get
page_shows_example = page_shows viz html late (ready new_page)

click_sends_once_example :
    on_click viz html 1 end ≡ record end { sent = end.sent ++ document_graph "/a/c/2" ∷ [] }
unfolding handle_all get
click_sends_once_example =
    click_sends_once viz html late 1
      (record { text = "/a/c/2"; handlers = fetch_graph ∷ log_value ∷ [] }) refl

requests_selected_example :
    All (Justified viz html late) end.sent
    × (Drawn viz html late service_graph service_drawn end.svc_view
        × Drawn viz html late document_graph document_drawn end.doc_graph_view)
unfolding handle_all get has_slash ready
requests_selected_example = requests_selected viz html late (
  inl refl,
  (
    tt,
    (
      tt,
      (
        tt,
        (
          inr (inr (inr (inl refl))),
          (
            inr (inr (inr (inr (inl refl)))),
            (inr (inl refl), (tt, (inr (inr (inr (inr (inr (inl refl))))), (tt, tt)))),
          ),
        ),
      ),
    ),
  ),
)
