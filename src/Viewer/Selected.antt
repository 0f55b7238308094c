-- ===== src/Viewer/Selected.antt =====
-- Which services and documents the page asks for and shows.
use xenon_ext.Prelude.{
  ℕ, refl, Option, List, [], ◌∷◌, ◌++◌, String, Option-cases, Bool-cases, inl, inr, All, All-append,
  All-map, Among, Among-self, All-Among,
}
use xenon_ext.HashMap.{HashMap}
use xenon_ext.Viewer.{
  fetch_graph, log_value, Page, new_page, service_graph, service_documents, document_graph, Event,
  changed, clicked, listed, service_drawn, document_drawn, documents_listed, failed, send, alert,
  on_listed, has_slash, request_views, on_change, any_counted, append_items, on_documents, draw,
  on_service_graph, on_document_graph, on_click, show_service, show_document, handle, handle_all,
  ready,
}
use xenon_ext.Viewer.Shown.{on_click_lem}
use xenon_ext.Viewer.Justified.{
  Answers, Selected, Listed, AllAnswer, Justified, Drawn, clicked-Justified, bind-Listed,
  append_items-Listed,
}

module _ (viz : Option String → Option String) (html : String → String) where
  record Inv (events : List Event) (page : Page) : Type 0 where
    sent_ok : All (Justified viz html events) page.sent
    view_ok : Drawn viz html events service_graph service_drawn page.svc_view
    items_ok : All (λ i. Listed events i.text) page.doc_items
    document_ok : Drawn viz html events document_graph document_drawn page.doc_graph_view

  module _ (events : List Event) where
    request_views-Inv :
        (text : String) (page : Page)
        → Selected events text
        → Inv events page
        → Inv events (request_views text page)
    unfolding request_views send
    request_views-Inv text page s h = record {
      sent_ok =
          All-append (Justified viz html events) (page.sent ++ service_graph text ∷ []) _
            (All-append (Justified viz html events) page.sent _ h.sent_ok (s, tt)) (s, tt);
      view_ok = h.view_ok;
      items_ok = bind-Listed viz html events log_value page.doc_items h.items_ok;
      document_ok = h.document_ok;
    }

    on_change-Inv :
        (text : String) (page : Page)
        → Among (changed text) events
        → Inv events page
        → Inv events (on_change text page)
    unfolding on_change
    on_change-Inv text page here h = elim (Bool-cases (has_slash text)) [
      | inl e ↦ rw e (request_views-Inv text page (here, e) h)
      | inr e ↦ rw e h
    ]

    on_click-Inv : (n : ℕ) (page : Page) → Inv events page → Inv events (on_click viz html n page)
    on_click-Inv n page h = rw (on_click_lem viz html n page) (record {
      sent_ok =
          All-append (Justified viz html events) page.sent _ h.sent_ok
            (clicked-Justified viz html events page.doc_items n h.items_ok);
      view_ok = h.view_ok;
      items_ok = h.items_ok;
      document_ok = h.document_ok;
    })

    on_service_graph-Inv :
        (text : String) (data_ : HashMap String) (page : Page)
        → Among (service_drawn text data_) events
        → Justified viz html events (service_graph text)
        → Inv events page
        → Inv events (on_service_graph viz html text data_ page)
    unfolding on_service_graph show_service
    on_service_graph-Inv text data_ page here s h = elim (Option-cases (draw viz html text data_)) [
      | inl e ↦ rw e h
      | inr (svg, e) ↦ rw e (record {
        sent_ok = h.sent_ok;
        view_ok = inr (text, data_, svg, s, here, e, refl);
        items_ok = h.items_ok;
        document_ok = h.document_ok;
      })
    ]

    on_document_graph-Inv :
        (id : String) (data_ : HashMap String) (page : Page)
        → Among (document_drawn id data_) events
        → Justified viz html events (document_graph id)
        → Inv events page
        → Inv events (on_document_graph viz html id data_ page)
    unfolding on_document_graph show_document
    on_document_graph-Inv id data_ page here s h = elim (Option-cases (draw viz html id data_)) [
      | inl e ↦ rw e h
      | inr (svg, e) ↦ rw e (record {
        sent_ok = h.sent_ok;
        view_ok = h.view_ok;
        items_ok = h.items_ok;
        document_ok = inr (id, data_, svg, s, here, e, refl);
      })
    ]

    on_documents-Inv :
        (text : String) (count : Option ℕ) (links : List String) (page : Page)
        → Among (documents_listed text count links) events
        → Selected events text
        → Inv events page
        → Inv events (on_documents count links page)
    unfolding on_documents alert
    on_documents-Inv text count links page here s h = elim (Bool-cases (any_counted count)) [
      | inl e ↦ rw e (record {
        sent_ok = h.sent_ok;
        view_ok = h.view_ok;
        items_ok = bind-Listed viz html events fetch_graph (append_items links []) (
            append_items-Listed viz html events links []
              (All-map (λ l there. (text, count, links, here, there, s)) links (Among-self links))
              tt);
        document_ok = inl refl;
      })
      | inr e ↦ rw e (record {
        sent_ok = h.sent_ok;
        view_ok = h.view_ok;
        items_ok = h.items_ok;
        document_ok = h.document_ok;
      })
    ]

    handle-Inv :
        (e : Event) (page : Page)
        → Among e events
        → Answers e page.sent
        → Inv events page
        → Inv events (handle viz html e page)
    unfolding handle on_listed alert
    handle-Inv (changed text) page here a h = on_change-Inv text page here h
    handle-Inv (clicked n) page here a h = on_click-Inv n page h
    handle-Inv (listed available) page here a h = record {
      sent_ok = h.sent_ok;
      view_ok = h.view_ok;
      items_ok = h.items_ok;
      document_ok = h.document_ok;
    }
    handle-Inv (service_drawn text data_) page here a h =
        on_service_graph-Inv text data_ page here
          (All-Among (Justified viz html events) page.sent (service_graph text) h.sent_ok a) h
    handle-Inv (document_drawn id data_) page here a h =
        on_document_graph-Inv id data_ page here
          (All-Among (Justified viz html events) page.sent (document_graph id) h.sent_ok a) h
    handle-Inv (documents_listed text count links) page here a h =
        on_documents-Inv text count links page here
          (All-Among (Justified viz html events) page.sent (service_documents text) h.sent_ok a) h
    handle-Inv (failed status e response) page here a h = record {
      sent_ok = h.sent_ok;
      view_ok = h.view_ok;
      items_ok = h.items_ok;
      document_ok = h.document_ok;
    }

    handle_all-Inv :
        (past : List Event) (page : Page)
        → All (λ e. Among e events) past
        → AllAnswer viz html past page
        → Inv events page
        → Inv events (handle_all viz html past page)
    unfolding handle_all
    handle_all-Inv [] page among a h = h
    handle_all-Inv (e ∷ past) page (here, among) (a, rest) h =
        handle_all-Inv past (handle viz html e page) among rest (handle-Inv e page here a h)

  -- If each reply answers a request that the page has sent before, then after any events on the
  -- page as it is loaded: every request is for the list of services, for a selected service, or
  -- for a document that was listed for a selected service; and each view is empty or the drawing
  -- of the data of a reply that has arrived for such a request.
  pub requests_selected :
      (events : List Event)
      → AllAnswer viz html events (ready new_page)
      → let page = handle_all viz html events (ready new_page) in
        All (Justified viz html events) page.sent
        × (Drawn viz html events service_graph service_drawn page.svc_view
            × Drawn viz html events document_graph document_drawn page.doc_graph_view)
  unfolding ready send
  requests_selected events a =
      let h = handle_all-Inv events events (ready new_page) (Among-self events) a (record {
        sent_ok = (tt, tt);
        view_ok = inl refl;
        items_ok = tt;
        document_ok = inl refl;
      }) in
      (h.sent_ok, (h.view_ok, h.document_ok))
