-- ===== src/Viewer/Shown.antt =====
-- What the page shows, from the replies in the order of their arrival.
use mathlib.Core.Option
use xenon_ext.Prelude.{
  ℕ, ◌≡◌, refl, sym, ap, ◌∙◌, Bool, true, Option, none, some, List, [], ◌∷◌, ◌++◌, map, String,
  arith, if◌then◌else◌, append-nil, append_assoc, get_elem?,
}
use xenon_ext.Fsm.Representation.{◌<>◌}
use xenon_ext.Viewer.{
  ClickHandler, fetch_graph, log_value, DocItem, Page, Request, document_graph, Event, changed,
  clicked, listed, service_drawn, document_drawn, documents_listed, failed, send, alert, on_listed,
  bind_click, request_views, on_change, any_counted, append_items, on_documents, draw,
  on_service_graph, on_document_graph, show_service, show_document, run_handlers, click_item,
  on_click, handle, handle_all,
}

-- The last result of a list of events that have one, or else a default.
abbrev pub last_of {ℓ} : {A : Type ℓ} → (Event → Option A) → A → List Event → A
last_of f d [] = d
last_of f d (e ∷ events) = last_of f (Option.get_or (f e) d) events

abbrev pub texts : List DocItem → List String
texts items = map (λ i. i.text) items

-- A reply with the documents of a service that has some.
abbrev pub documents_of : Event → Option (List String)
documents_of (documents_listed text count links) = if any_counted count then some links else none
documents_of _ = none

abbrev pub panel_of : Event → Option Bool
panel_of (documents_listed text count links) = if any_counted count then some true else none
panel_of _ = none

abbrev framed : Option String → Option String
framed none = none
framed (some svg) = some ("<hr>" <> svg)

texts-bind : (h : ClickHandler) (items : List DocItem) → texts (bind_click h items) ≡ texts items
unfolding bind_click
texts-bind h [] = refl
texts-bind h (i ∷ items) = ap (λ r. i.text ∷ r) (texts-bind h items)

texts-append-one :
    (items : List DocItem) (l : String)
    → texts (items ++ record { text = l; handlers = [] } ∷ []) ≡ texts items ++ l ∷ []
texts-append-one [] l = refl
texts-append-one (i ∷ items) l = ap (λ r. i.text ∷ r) (texts-append-one items l)

texts-append :
    (links : List String) (items : List DocItem)
    → texts (append_items links items) ≡ texts items ++ links
unfolding append_items
texts-append [] items = sym (append-nil (texts items))
texts-append (l ∷ links) items =
    texts-append links (items ++ record { text = l; handlers = [] } ∷ [])
    ∙ ap (λ r. r ++ links) (texts-append-one items l)
    ∙ append_assoc (texts items) (l ∷ []) links

module _ (viz : Option String → Option String) (html : String → String) where
  abbrev pub service_view_of : Event → Option String
  service_view_of (service_drawn text data_) = framed (draw viz html text data_)
  service_view_of _ = none

  abbrev pub document_view_of : Event → Option String
  document_view_of (document_drawn id data_) = framed (draw viz html id data_)
  document_view_of (documents_listed text count links) = if any_counted count then some "" else none
  document_view_of _ = none

  -- What the handlers of an item send.
  abbrev pub requests_of : String → List ClickHandler → List Request
  requests_of text [] = []
  requests_of text (fetch_graph ∷ handlers) = document_graph (html text) ∷ requests_of text handlers
  requests_of text (log_value ∷ handlers) = requests_of text handlers

  pub run_handlers_lem :
      (text : String) (handlers : List ClickHandler) (page : Page)
      → run_handlers viz html text handlers page
        ≡ record page { sent = page.sent ++ requests_of text handlers }
  unfolding run_handlers send
  run_handlers_lem text [] page = ground (arith, append-nil page.sent)
  run_handlers_lem text (fetch_graph ∷ handlers) page =
      run_handlers_lem text handlers (send (document_graph (html text)) page)
      ∙ ap (λ l. record page { sent = l })
          (append_assoc page.sent (document_graph (html text) ∷ []) (requests_of text handlers))
  run_handlers_lem text (log_value ∷ handlers) page = run_handlers_lem text handlers page

  abbrev pub clicked_requests : Option DocItem → List Request
  clicked_requests none = []
  clicked_requests (some i) = requests_of i.text i.handlers

  click_item_lem :
      (i : Option DocItem) (page : Page)
      → click_item viz html i page ≡ record page { sent = page.sent ++ clicked_requests i }
  unfolding click_item
  click_item_lem none page = ground (arith, append-nil page.sent)
  click_item_lem (some i) page = run_handlers_lem i.text i.handlers page

  pub on_click_lem :
      (n : ℕ) (page : Page)
      → on_click viz html n page
        ≡ record page { sent = page.sent ++ clicked_requests (get_elem? page.doc_items n) }
  unfolding on_click
  on_click_lem n page = click_item_lem (get_elem? page.doc_items n) page

  svc_view_step :
      (e : Event) (page : Page)
      → (handle viz html e page).svc_view ≡ Option.get_or (service_view_of e) page.svc_view
  unfolding handle on_change request_views on_listed on_service_graph on_document_graph show_service
      show_document on_documents alert send
  svc_view_step (changed text) page = ground arith
  svc_view_step (clicked n) page = ap (λ p. p.svc_view) (on_click_lem n page)
  svc_view_step (listed available) page = refl
  svc_view_step (service_drawn text data_) page = ground arith
  svc_view_step (document_drawn id data_) page = ground arith
  svc_view_step (documents_listed text count links) page = ground arith
  svc_view_step (failed status e response) page = refl

  doc_graph_view_step :
      (e : Event) (page : Page)
      → (handle viz html e page).doc_graph_view
        ≡ Option.get_or (document_view_of e) page.doc_graph_view
  unfolding handle on_change request_views on_listed on_service_graph on_document_graph show_service
      show_document on_documents alert send
  doc_graph_view_step (changed text) page = ground arith
  doc_graph_view_step (clicked n) page = ap (λ p. p.doc_graph_view) (on_click_lem n page)
  doc_graph_view_step (listed available) page = refl
  doc_graph_view_step (service_drawn text data_) page = ground arith
  doc_graph_view_step (document_drawn id data_) page = ground arith
  doc_graph_view_step (documents_listed text count links) page = ground arith
  doc_graph_view_step (failed status e response) page = refl

  panel_step :
      (e : Event) (page : Page)
      → (handle viz html e page).panel_visible ≡ Option.get_or (panel_of e) page.panel_visible
  unfolding handle on_change request_views on_listed on_service_graph on_document_graph show_service
      show_document on_documents alert send
  panel_step (changed text) page = ground arith
  panel_step (clicked n) page = ap (λ p. p.panel_visible) (on_click_lem n page)
  panel_step (listed available) page = refl
  panel_step (service_drawn text data_) page = ground arith
  panel_step (document_drawn id data_) page = ground arith
  panel_step (documents_listed text count links) page = ground arith
  panel_step (failed status e response) page = refl

  doc_texts_step :
      (e : Event) (page : Page)
      → texts (handle viz html e page).doc_items
        ≡ Option.get_or (documents_of e) (texts page.doc_items)
  unfolding handle on_change request_views on_listed on_service_graph on_document_graph show_service
      show_document on_documents alert send
  doc_texts_step (changed text) page = ground (arith, texts-bind log_value page.doc_items)
  doc_texts_step (clicked n) page = ap (λ p. texts p.doc_items) (on_click_lem n page)
  doc_texts_step (listed available) page = refl
  doc_texts_step (service_drawn text data_) page = ground arith
  doc_texts_step (document_drawn id data_) page = ground arith
  doc_texts_step (documents_listed text count links) page =
      ground (arith, texts-bind fetch_graph (append_items links []), texts-append links [])
  doc_texts_step (failed status e response) page = refl

  -- A field that each event sets or leaves alone holds what the last event that sets it has set.
  last_lem :
      {A : Type 0} (field : Page → A) (f : Event → Option A)
      → ((e : Event) (page : Page)
          → field (handle viz html e page) ≡ Option.get_or (f e) (field page))
      → (events : List Event) (page : Page)
      → field (handle_all viz html events page) ≡ last_of f (field page) events
  unfolding handle_all
  last_lem field f step [] page = refl
  last_lem field f step (e ∷ events) page =
      last_lem field f step events (handle viz html e page)
      ∙ ap (λ a. last_of f a events) (step e page)

  -- After any events, the view of the service is what the last reply with a graph of a service
  -- that could be drawn has drawn, whichever service is selected; the listed documents are those
  -- of the last reply that counts some, and such a reply has made their panel visible; and the
  -- view of the document is what the last graph of a document has drawn, or empty if such a reply
  -- has come after it. Without such replies these are what they were.
  pub page_shows :
      (events : List Event) (page : Page)
      → let shown = handle_all viz html events page in
        (shown.svc_view ≡ last_of service_view_of page.svc_view events)
        × ((texts shown.doc_items ≡ last_of documents_of (texts page.doc_items) events)
            × ((shown.panel_visible ≡ last_of panel_of page.panel_visible events)
                × (shown.doc_graph_view ≡ last_of document_view_of page.doc_graph_view events)))
  page_shows events page = (
    last_lem (λ p. p.svc_view) service_view_of svc_view_step events page,
    (
      last_lem (λ p. texts p.doc_items) documents_of doc_texts_step events page,
      (
        last_lem (λ p. p.panel_visible) panel_of panel_step events page,
        last_lem (λ p. p.doc_graph_view) document_view_of doc_graph_view_step events page,
      ),
    ),
  )
