-- ===== src/Viewer/Exchange/Reached.antt =====
-- What the page that is reached with a server shows.
use xenon_ext.Prelude.{◌≡◌, Option, some, ◌⊎◌, List, String, Among, All}
use xenon_ext.Viewer.{
  draw, service_drawn, document_drawn, new_page, Request, Event, handle_all, ready,
}
use xenon_ext.Viewer.Justified.{AllAnswer, Justified}
use xenon_ext.HashMap.{HashMap}
use xenon_ext.Fsm.Representation.{◌<>◌}
use xenon_ext.Viewer.Exchange.{Server, Exchange}

module _ (viz : Option String → Option String) (html : String → String) where
  module _ (server : Server) where
    -- A reply has the data of the server.
    abbrev pub IsServed : Event → Type 0
    IsServed (service_drawn text data_) = data_ ≡ server.graph_of_service text
    IsServed (document_drawn id data_) = data_ ≡ server.graph_of_document id
    IsServed _ = Unit

    -- What holds of an exchange that was reached by events.
    abbrev IsReached : Exchange → Type 0
    IsReached s =
        (events : List Event) × AllAnswer viz html events (ready new_page)
        × (s.page ≡ handle_all viz html events (ready new_page))
        × All (λ r. Among r s.page.sent) s.pending
        × All IsServed events

    -- A view is empty, or the drawing of the graph that the server has for a justified request.
    abbrev pub Shows : List Event → (String → Request) → (String → HashMap String) → String → Type 0
    Shows events request graph view =
        (view ≡ "")
        ⊎ ((text : String) × (svg : String) × Justified viz html events (request text)
            × (draw viz html text (graph text) ≡ some svg)
            × (view ≡ "<hr>" <> svg))
