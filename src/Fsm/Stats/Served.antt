-- ===== src/Fsm/Stats/Served.antt =====
-- The diagrams that the registry serves, up to what the page shows of them.
use xenon_ext.Prelude.{
  ◌≡◌, refl, sym, ap, Bool, true, false, ◌∙◌, Option, some, List, [], ◌∷◌, String, str_eq, eq_iff,
  arith, if◌then◌else◌,
}
use xenon_ext.HashMap.{HashMap, get, get-put}
use xenon_ext.Link.{before_last_slash}
use xenon_ext.Effect.{Attempt, value}
use xenon_ext.Fsm.Config.{StateMachineConfig}
use xenon_ext.Fsm.Document.{FsmServiceDoc}
use xenon_ext.Fsm.Dot.{generate_dot_file, generate_history_dot_file}
use xenon_ext.Fsm.Stats.{
  configured, register_svc, register_class, graph_of, svc_graphson, history_of, doc_graphson,
}
use xenon_ext.Viewer.{Page, draw, on_service_graph, show_service}

get-single : (k s : String) → get k ((k, s) ∷ []) ≡ some s
unfolding get
get-single k s = ground (arith, eq_iff k k)

module _ {W : Type 0} where
  get-registered :
      (uri : String) (config : StateMachineConfig W) (services : HashMap (StateMachineConfig W))
      → get uri (register_class uri config services) ≡ some config
  unfolding register_class
  get-registered uri config services =
      ground (arith, get-put uri uri config services, eq_iff uri uri)

  graph_of-if :
      (b : Bool) (uri : String) (config : StateMachineConfig W) (o : Option (StateMachineConfig W))
      → graph_of uri (if b then some config else o) generate_dot_file ≡ (
          if b
          then value ((uri, generate_dot_file config) ∷ [])
          else graph_of uri o generate_dot_file)
  unfolding graph_of
  graph_of-if true uri config o = refl
  graph_of-if false uri config o = refl

  -- Once the class of a service is registered, the graph that is served for its URI is the diagram
  -- of its configuration, and the one for a document whose link ends its URI with a slash and an
  -- id is the diagram of the document's versions; the graphs of other URIs are as before.
  pub register_svc-graphs :
      {E : Type 0} (uri class_name link other : String) (config : StateMachineConfig W)
      (services : HashMap (StateMachineConfig W)) (docs : List (FsmServiceDoc E))
      → before_last_slash link ≡ some uri
      → let after = (register_svc uri class_name (configured config) services).1 in
        (svc_graphson uri after ≡ value ((uri, generate_dot_file config) ∷ []))
        × ((doc_graphson link docs after ≡ value ((link, generate_history_dot_file docs) ∷ []))
            × (svc_graphson other after ≡ (
                if str_eq uri other
                then value ((other, generate_dot_file config) ∷ [])
                else svc_graphson other services)))
  unfolding register_svc svc_graphson doc_graphson history_of graph_of register_class
  register_svc-graphs uri class_name link other config services docs h = (
    ap (λ o. graph_of uri o generate_dot_file) (get-registered uri config services),
    (
      ap (λ o. history_of link o docs (register_class uri config services)) h
          ∙ ap (λ o. graph_of link o (λ c. generate_history_dot_file docs))
              (get-registered uri config services),
      ap (λ o. graph_of other o generate_dot_file) (get-put uri other config services)
          ∙ graph_of-if (str_eq uri other) other config (get other services),
    ),
  )

  pub draw-registered :
      (viz : Option String → Option String) (html : String → String) (uri class_name : String)
      (config : StateMachineConfig W) (services : HashMap (StateMachineConfig W))
      (reply : HashMap String)
      → svc_graphson uri (register_svc uri class_name (configured config) services).1 ≡ value reply
      → draw viz html uri reply ≡ viz (some (generate_dot_file config))
  unfolding register_svc svc_graphson draw
  draw-registered viz html uri class_name config services reply h =
      let drawn : HashMap String = (uri, generate_dot_file config) ∷ [] in
      let answer : Attempt (HashMap String) = value drawn in
      let served : answer ≡ value reply =
        sym (ap (λ o. graph_of uri o generate_dot_file) (get-registered uri config services)) ∙ h in
      let same : drawn ≡ reply = ground arith in
      let found : get uri reply ≡ some (generate_dot_file config) =
        ap (get uri) (sym same) ∙ get-single uri (generate_dot_file config) in
      ap viz found

  -- The page draws the reply to a request for the graph of a service that was registered: what the
  -- view of the service then shows is the drawing of the diagram of its configuration, unless the
  -- drawing fails.
  pub served_graph-shown :
      (viz : Option String → Option String) (html : String → String) (uri class_name : String)
      (config : StateMachineConfig W) (services : HashMap (StateMachineConfig W))
      (reply : HashMap String) (page : Page)
      → svc_graphson uri (register_svc uri class_name (configured config) services).1 ≡ value reply
      → on_service_graph viz html uri reply page
        ≡ show_service (viz (some (generate_dot_file config))) page
  unfolding on_service_graph
  served_graph-shown viz html uri class_name config services reply page h =
      ap (λ o. show_service o page)
        (draw-registered viz html uri class_name config services reply h)
