-- ===== src/Viewer/Exchange/Delivered.antt =====
-- A service that is selected is shown in the end.
use xenon_ext.Prelude.{
  ℕ, ◌≡◌, refl, sym, ap, ◌∙◌, subst, ◌≢◌, true, Option, some, List, [], ◌∷◌, ◌++◌, String, arith,
  length, get_elem?, zero, suc, ◌⊎◌, inl, inr, Among, Among-middle, Among-left, Among-right, All,
  All-append, All-middle, Star, here, next,
}
use xenon_ext.Fsm.Representation.{◌<>◌}
use xenon_ext.Viewer.{
  ClickHandler, DocItem, fetch_graph, log_value, Page, Request, list_services, service_graph,
  service_documents, document_graph, clicked, changed, alert, on_listed, has_slash, on_documents,
  draw, on_service_graph, on_document_graph, show_service, show_document, handle,
}
use xenon_ext.Viewer.Shown.{requests_of, clicked_requests, on_click_lem}
use xenon_ext.Viewer.Exchange.{
  Server, Exchange, reply, without, receive, answers, Serve, serves, clicks, Answered, none_yet,
  one_more,
}
use xenon_ext.Viewer.Exchange.Received.{receive-reply, receive_lem}
use xenon_ext.Viewer.Exchange.Answering.{drain}

-- Not a request for the graph of another service.
abbrev pub NoOther : String → Request → Type 0
NoOther text (service_graph other) = other ≡ text
NoOther text _ = Unit

module _ (viz : Option String → Option String) (html : String → String) (server : Server) where
  -- The graph is pending, or shown.
  abbrev IsDue : String → String → Exchange → Type 0
  IsDue text svg s =
      All (NoOther text) s.pending
      × (Among (service_graph text) s.pending ⊎ (s.page.svc_view ≡ "<hr>" <> svg))

  reply-view :
      (text svg : String) (r : Request) (page : Page)
      → draw viz html text (server.graph_of_service text) ≡ some svg
      → NoOther text r
      → ((handle viz html (reply server r) page).svc_view ≡ "<hr>" <> svg)
        ⊎ ((r ≢ service_graph text)
            × ((handle viz html (reply server r) page).svc_view ≡ page.svc_view))
  unfolding handle on_listed on_service_graph on_document_graph show_service show_document
      on_documents alert
  reply-view text svg list_services page d h = inr (λ e. cc, refl)
  reply-view text svg (service_graph other) page d h = inl (rw (h, d) refl)
  reply-view text svg (service_documents other) page d h = inr (λ e. cc, ground arith)
  reply-view text svg (document_graph id) page d h = inr (λ e. cc, ground arith)

  reply-IsDue :
      (text svg : String) (s : Exchange) (before : List Request) (r : Request)
      (after : List Request)
      → draw viz html text (server.graph_of_service text) ≡ some svg
      → s.pending ≡ before ++ r ∷ after
      → IsDue text svg s
      → IsDue text svg
          (record { page = handle viz html (reply server r) s.page; pending = before ++ after })
  reply-IsDue text svg s before r after d at (others, due) =
      let (own, rest) =
        All-middle (NoOther text) before r after (subst (All (NoOther text)) at others) in
      (
        rest,
        elim (reply-view text svg r s.page d own) [
          | inl shown ↦ inr shown
          | inr (other, same) ↦ elim due [
            | inr shown ↦ inr (same ∙ shown)
            | inl there ↦
                elim (Among-middle _ before r after (subst (Among (service_graph text)) at there)) [
                  | inl e ↦ absurd (other (sym e))
                  | inr left ↦ inl left
                ]
          ]
        ],
      )

  requests-NoOther :
      (text link : String) (handlers : List ClickHandler)
      → All (NoOther text) (requests_of viz html link handlers)
  requests-NoOther text link [] = tt
  requests-NoOther text link (fetch_graph ∷ handlers) = (tt, requests-NoOther text link handlers)
  requests-NoOther text link (log_value ∷ handlers) = requests-NoOther text link handlers

  clicked-NoOther :
      (text : String) (items : List DocItem) (n : ℕ)
      → All (NoOther text) (clicked_requests viz html (get_elem? items n))
  clicked-NoOther text [] n = tt
  clicked-NoOther text (i ∷ items) zero = requests-NoOther text i.text i.handlers
  clicked-NoOther text (i ∷ items) (suc n) = clicked-NoOther text items n

  click-IsDue :
      (text svg : String) (n : ℕ) (s : Exchange)
      → IsDue text svg s
      → IsDue text svg (record {
        page = handle viz html (clicked n) s.page;
        pending = s.pending ++ clicked_requests viz html (get_elem? s.page.doc_items n);
      })
  unfolding handle
  click-IsDue text svg n s (others, due) = (
    All-append (NoOther text) s.pending _ others (clicked-NoOther text s.page.doc_items n),
    elim due [
      | inl there ↦ inl (Among-left _ s.pending _ there)
      | inr shown ↦ inr (ap (λ p. p.svc_view) (on_click_lem viz html n s.page) ∙ shown)
    ],
  )

  Serve-IsDue :
      {s t : Exchange} (text svg : String)
      → draw viz html text (server.graph_of_service text) ≡ some svg
      → Serve viz html server s t
      → IsDue text svg s
      → IsDue text svg t
  Serve-IsDue {s} text svg d (serves (answers before r after at)) due =
      subst (IsDue text svg)
        (sym (receive-reply viz html server r (without (before ++ after) s.page)))
        (reply-IsDue text svg s before r after d at due)
  Serve-IsDue {s} text svg d (clicks n) due =
      subst (IsDue text svg) (sym (receive_lem viz html (clicked n) s))
        (click-IsDue text svg n s due)

  run-IsDue :
      {s t : Exchange} (text svg : String)
      → draw viz html text (server.graph_of_service text) ≡ some svg
      → Star (Serve viz html server) s t
      → IsDue text svg s
      → IsDue text svg t
  run-IsDue text svg d here due = due
  run-IsDue text svg d (next run step) due =
      Serve-IsDue text svg d step (run-IsDue text svg d run due)

  Answered-IsDue :
      {s t : Exchange} {n : ℕ} (text svg : String)
      → draw viz html text (server.graph_of_service text) ≡ some svg
      → Answered viz html server s n t
      → IsDue text svg s
      → IsDue text svg t
  Answered-IsDue text svg d none_yet due = due
  Answered-IsDue text svg d (one_more a rest) due =
      Answered-IsDue text svg d rest (Serve-IsDue text svg d (serves a) due)

  selected-IsDue :
      (text svg : String) (s : Exchange)
      → has_slash text ≡ true
      → All (NoOther text) s.pending
      → IsDue text svg (receive viz html (changed text) s)
  selected-IsDue text svg s slash others =
      subst (IsDue text svg) (sym (receive_lem viz html (changed text) s)) (
        rw slash (
          All-append (NoOther text) s.pending _ others (refl, (tt, tt)),
          inl (Among-right _ s.pending _ (inl refl)),
        ))

  -- When a service is selected that the server has a graph of, and Viz can draw it, while no
  -- request for the graph of another service is pending: then, whatever replies arrive in whatever
  -- order and whatever documents are clicked in between, its graph is pending or shown; and the
  -- requests that are pending can all be answered, which leaves the page with its graph.
  pub selected_service_shown :
      {t : Exchange} (text svg : String) (s : Exchange)
      → has_slash text ≡ true
      → draw viz html text (server.graph_of_service text) ≡ some svg
      → All (NoOther text) s.pending
      → Star (Serve viz html server) (receive viz html (changed text) s) t
      → (Among (service_graph text) t.pending ⊎ (t.page.svc_view ≡ "<hr>" <> svg))
        × (u : Exchange) × Answered viz html server t (length t.pending) u
        × (u.pending ≡ [])
        × (u.page.svc_view ≡ "<hr>" <> svg)
  selected_service_shown {t} text svg s slash d others run =
      let due = run-IsDue text svg d run (selected-IsDue text svg s slash others) in
      let (u, answered, e) = drain viz html server t.pending t refl in
      let (none_left, shown) = Answered-IsDue text svg d answered due in
      (
        due.1,
        u,
        answered,
        e,
        elim shown [
          | inr view ↦ view
          | inl there ↦ absurd (subst (Among (service_graph text)) e there)
        ],
      )
