-- ===== src/Fsm/Stats/Monitored.antt =====
-- From the registration of a service to the page that shows its diagram.
use xenon_ext.Prelude.{◌≡◌, ◌∙◌, true, Option, some, [], String, length, ◌⊎◌, Among, All, Star}
use xenon_ext.HashMap.{HashMap}
use xenon_ext.Effect.{value}
use xenon_ext.Fsm.Representation.{◌<>◌}
use xenon_ext.Fsm.Config.{StateMachineConfig}
use xenon_ext.Fsm.Dot.{generate_dot_file}
use xenon_ext.Fsm.Stats.{configured, register_svc, svc_graphson}
use xenon_ext.Fsm.Stats.Served.{draw-registered}
use xenon_ext.Viewer.{service_graph, changed, has_slash}
use xenon_ext.Viewer.Exchange.{Server, Exchange, receive, Serve, Answered}
use xenon_ext.Viewer.Exchange.Delivered.{NoOther, selected_service_shown}

module _ {W : Type 0} (viz : Option String → Option String) (html : String → String) where
  -- Let the server answer a request for the graph of a service with what the statistics service
  -- serves after the registration of its class, and Viz draw the diagram of the configuration.
  -- When the service is selected while no request for the graph of another is pending, then,
  -- whatever replies arrive in whatever order and whatever documents are clicked in between, the
  -- request for its graph is pending or the diagram is shown; and the requests that are pending can
  -- all be answered, which leaves the page with the diagram.
  pub registered_service_shown :
      {t : Exchange} (server : Server) (uri class_name svg : String) (config : StateMachineConfig W)
      (services : HashMap (StateMachineConfig W)) (s : Exchange)
      → svc_graphson uri (register_svc uri class_name (configured config) services).1
        ≡ value (server.graph_of_service uri)
      → viz (some (generate_dot_file config)) ≡ some svg
      → has_slash uri ≡ true
      → All (NoOther uri) s.pending
      → Star (Serve viz html server) (receive viz html (changed uri) s) t
      → (Among (service_graph uri) t.pending ⊎ (t.page.svc_view ≡ "<hr>" <> svg))
        × (u : Exchange) × Answered viz html server t (length t.pending) u
        × (u.pending ≡ [])
        × (u.page.svc_view ≡ "<hr>" <> svg)
  registered_service_shown server uri class_name svg config services s served drawn slash others
        run =
      selected_service_shown viz html server uri svg s slash
        (draw-registered viz html uri class_name config services (server.graph_of_service uri)
            served
          ∙ drawn)
        others run
