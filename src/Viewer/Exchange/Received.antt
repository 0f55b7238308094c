-- ===== src/Viewer/Exchange/Received.antt =====
-- What is pending after each event.
use xenon_ext.Prelude.{
  ℕ, ◌≡◌, refl, sym, ap, ◌∙◌, Option, List, [], ◌∷◌, ◌++◌, String, arith, length, drop, drop-append,
  append-nil, append_assoc, if◌then◌else◌, get_elem?,
}
use xenon_ext.Viewer.{
  Page, Request, list_services, service_graph, service_documents, document_graph, Event, changed,
  clicked, listed, service_drawn, document_drawn, documents_listed, failed, send, alert, on_listed,
  has_slash, request_views, on_change, on_documents, on_service_graph, on_document_graph,
  show_service, show_document, handle,
}
use xenon_ext.Viewer.Shown.{clicked_requests, on_click_lem}
use xenon_ext.Viewer.Exchange.{Server, Exchange, reply, receive}

-- What the selection of an entry sends.
abbrev pub selected_requests : String → List Request
selected_requests text =
    if has_slash text then service_graph text ∷ service_documents text ∷ [] else []

module _ (viz : Option String → Option String) (html : String → String) where
  clicked-sent :
      (n : ℕ) (page : Page)
      → (handle viz html (clicked n) page).sent
        ≡ page.sent ++ clicked_requests viz html (get_elem? page.doc_items n)
  unfolding handle
  clicked-sent n page = ap (λ p. p.sent) (on_click_lem viz html n page)

  changed-sent :
      (text : String) (page : Page)
      → (handle viz html (changed text) page).sent ≡ page.sent ++ selected_requests text
  unfolding handle on_change request_views send
  changed-sent text page = ground (
    arith,
    append-nil page.sent,
    append_assoc page.sent (service_graph text ∷ []) (service_documents text ∷ []),
  )

  -- What an event makes the page send.
  abbrev pub news_of : Event → Page → List Request
  news_of (changed text) page = selected_requests text
  news_of (clicked n) page = clicked_requests viz html (get_elem? page.doc_items n)
  news_of _ page = []

  pub handle-sent :
      (e : Event) (page : Page) → (handle viz html e page).sent ≡ page.sent ++ news_of e page
  unfolding handle on_listed on_service_graph on_document_graph show_service show_document
      on_documents alert
  handle-sent (changed text) page = changed-sent text page
  handle-sent (clicked n) page = clicked-sent n page
  handle-sent (listed available) page = sym (append-nil page.sent)
  handle-sent (service_drawn text data_) page = ground (arith, append-nil page.sent)
  handle-sent (document_drawn id data_) page = ground (arith, append-nil page.sent)
  handle-sent (documents_listed text count links) page = ground (arith, append-nil page.sent)
  handle-sent (failed status e response) page = sym (append-nil page.sent)

  -- Handling an event makes pending what it sends.
  pub receive_lem :
      (e : Event) (s : Exchange)
      → receive viz html e s
        ≡ record { page = handle viz html e s.page; pending = s.pending ++ news_of e s.page }
  receive_lem e s =
      ap
        (λ l. record {
          page = handle viz html e s.page;
          pending = s.pending ++ drop (length s.page.sent) l;
        })
        (handle-sent e s.page)
      ∙ ap (λ l. record { page = handle viz html e s.page; pending = s.pending ++ l })
          (drop-append s.page.sent (news_of e s.page))

  reply_news : (server : Server) (r : Request) (page : Page) → news_of (reply server r) page ≡ []
  reply_news server list_services page = refl
  reply_news server (service_graph text) page = refl
  reply_news server (service_documents text) page = refl
  reply_news server (document_graph id) page = refl

  -- A reply makes the page send nothing.
  pub receive-reply :
      (server : Server) (r : Request) (s : Exchange)
      → receive viz html (reply server r) s
        ≡ record s { page = handle viz html (reply server r) s.page }
  receive-reply server r s =
      receive_lem (reply server r) s
      ∙ ap (λ l. record { page = handle viz html (reply server r) s.page; pending = l })
          (ap (λ l. s.pending ++ l) (reply_news server r s.page) ∙ append-nil s.pending)
