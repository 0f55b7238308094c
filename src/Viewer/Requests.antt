-- ===== src/Viewer/Requests.antt =====
-- What the page asks the server for, and when.
use xenon_ext.Prelude.{
  ℕ, ◌≡◌, refl, ap, ◌∙◌, Option, some, List, [], ◌∷◌, ◌++◌, String, arith, get_elem?, All,
  All-append, zero, suc,
}
use xenon_ext.Viewer.{
  ClickHandler, fetch_graph, log_value, DocItem, Page, new_page, document_graph, Event, changed,
  clicked, listed, service_drawn, document_drawn, documents_listed, failed, send, alert, on_listed,
  bind_click, request_views, on_change, append_items, on_documents, on_service_graph,
  on_document_graph, show_service, show_document, on_click, handle, handle_all, ready,
}
use xenon_ext.Viewer.Shown.{requests_of, clicked_requests, on_click_lem}

-- An item whose click fetches the graph of its document once.
abbrev pub fetches : List ClickHandler → List ClickHandler
fetches [] = []
fetches (fetch_graph ∷ handlers) = fetch_graph ∷ fetches handlers
fetches (log_value ∷ handlers) = fetches handlers

abbrev pub FetchesOnce : DocItem → Type 0
FetchesOnce i = fetches i.handlers ≡ fetch_graph ∷ []

fetches-log :
    (handlers : List ClickHandler) → fetches (handlers ++ log_value ∷ []) ≡ fetches handlers
fetches-log [] = refl
fetches-log (fetch_graph ∷ handlers) = ap (λ l. fetch_graph ∷ l) (fetches-log handlers)
fetches-log (log_value ∷ handlers) = fetches-log handlers

bind_log-FetchesOnce :
    (items : List DocItem) → All FetchesOnce items → All FetchesOnce (bind_click log_value items)
unfolding bind_click
bind_log-FetchesOnce [] h = tt
bind_log-FetchesOnce (i ∷ items) (once, h) =
    (fetches-log i.handlers ∙ once, bind_log-FetchesOnce items h)

abbrev IsFresh : DocItem → Type 0
IsFresh i = i.handlers ≡ []

append_items-IsFresh :
    (links : List String) (items : List DocItem)
    → All IsFresh items
    → All IsFresh (append_items links items)
unfolding append_items
append_items-IsFresh [] items h = h
append_items-IsFresh (l ∷ links) items h =
    append_items-IsFresh links (items ++ record { text = l; handlers = [] } ∷ [])
      (All-append IsFresh items _ h (refl, tt))

bind_fetch-FetchesOnce :
    (items : List DocItem) → All IsFresh items → All FetchesOnce (bind_click fetch_graph items)
unfolding bind_click
bind_fetch-FetchesOnce [] h = tt
bind_fetch-FetchesOnce (i ∷ items) (fresh, h) =
    (ap (λ l. fetches (l ++ fetch_graph ∷ [])) fresh, bind_fetch-FetchesOnce items h)

module _ (viz : Option String → Option String) (html : String → String) where
  no_requests :
      (text : String) (handlers : List ClickHandler)
      → fetches handlers ≡ []
      → requests_of viz html text handlers ≡ []
  no_requests text [] h = refl
  no_requests text (fetch_graph ∷ handlers) h = ground arith
  no_requests text (log_value ∷ handlers) h = no_requests text handlers h

  pub fetches-requests_of :
      (text : String) (handlers : List ClickHandler)
      → fetches handlers ≡ fetch_graph ∷ []
      → requests_of viz html text handlers ≡ document_graph (html text) ∷ []
  fetches-requests_of text [] h = ground arith
  fetches-requests_of text (fetch_graph ∷ handlers) h =
      ap (λ l. document_graph (html text) ∷ l) (no_requests text handlers (ground arith))
  fetches-requests_of text (log_value ∷ handlers) h = fetches-requests_of text handlers h

  pub handle-FetchesOnce :
      (e : Event) (page : Page)
      → All FetchesOnce page.doc_items
      → All FetchesOnce (handle viz html e page).doc_items
  unfolding handle on_change request_views on_listed on_service_graph on_document_graph show_service
      show_document on_documents alert send
  handle-FetchesOnce (changed text) page h = ground (arith, bind_log-FetchesOnce page.doc_items h)
  handle-FetchesOnce (clicked n) page h = rw (on_click_lem viz html n page) h
  handle-FetchesOnce (listed available) page h = h
  handle-FetchesOnce (service_drawn text data_) page h = ground arith
  handle-FetchesOnce (document_drawn id data_) page h = ground arith
  handle-FetchesOnce (documents_listed text count links) page h =
      ground
        (arith, bind_fetch-FetchesOnce (append_items links []) (append_items-IsFresh links [] tt))
  handle-FetchesOnce (failed status e response) page h = h

  handle_all-FetchesOnce :
      (events : List Event) (page : Page)
      → All FetchesOnce page.doc_items
      → All FetchesOnce (handle_all viz html events page).doc_items
  unfolding handle_all
  handle_all-FetchesOnce [] page h = h
  handle_all-FetchesOnce (e ∷ events) page h =
      handle_all-FetchesOnce events (handle viz html e page) (handle-FetchesOnce e page h)

  pub nth-FetchesOnce :
      (items : List DocItem) (n : ℕ) (i : DocItem)
      → All FetchesOnce items
      → get_elem? items n ≡ some i
      → FetchesOnce i
  nth-FetchesOnce [] n i h at_n = ground arith
  nth-FetchesOnce (j ∷ items) zero i (once, h) at_n = ground arith
  nth-FetchesOnce (j ∷ items) (suc n) i (once, h) at_n = nth-FetchesOnce items n i h at_n

  -- After any events on the page as it is loaded, however often services were selected and
  -- documents listed, a click on a listed document sends exactly one request, for the graph of
  -- that document, and changes nothing else.
  pub click_sends_once :
      (events : List Event) (n : ℕ) (i : DocItem)
      → let page = handle_all viz html events (ready new_page) in
        get_elem? page.doc_items n ≡ some i
        → on_click viz html n page
          ≡ record page { sent = page.sent ++ document_graph (html i.text) ∷ [] }
  unfolding ready send
  click_sends_once events n i at_n =
      let page = handle_all viz html events (ready new_page) in
      let once =
        nth-FetchesOnce page.doc_items n i (handle_all-FetchesOnce events (ready new_page) tt)
          at_n in
      on_click_lem viz html n page
      ∙ ap (λ o. record page { sent = page.sent ++ clicked_requests viz html o }) at_n
      ∙ ap (λ l. record page { sent = page.sent ++ l }) (fetches-requests_of i.text i.handlers once)
