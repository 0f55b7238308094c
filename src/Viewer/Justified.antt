-- ===== src/Viewer/Justified.antt =====
-- What justifies a request of the page, and keeps its listed documents justified.
use xenon_ext.Prelude.{
  ℕ, ◌≡◌, refl, true, Option, some, List, [], ◌∷◌, ◌++◌, String, get_elem?, All, All-append, zero,
  suc, ◌⊎◌, Among,
}
use xenon_ext.HashMap.{HashMap}
use xenon_ext.Fsm.Representation.{◌<>◌}
use xenon_ext.Viewer.{
  ClickHandler, fetch_graph, log_value, DocItem, Page, Request, list_services, service_graph,
  service_documents, document_graph, Event, changed, listed, service_drawn, document_drawn,
  documents_listed, has_slash, bind_click, append_items, draw, handle,
}
use xenon_ext.Viewer.Shown.{requests_of, clicked_requests}

-- The request that a reply answers was sent.
abbrev pub Answers : Event → List Request → Type 0
Answers (listed available) sent = Among list_services sent
Answers (service_drawn text data_) sent = Among (service_graph text) sent
Answers (document_drawn id data_) sent = Among (document_graph id) sent
Answers (documents_listed text count links) sent = Among (service_documents text) sent
Answers _ sent = Unit

-- The service was selected.
abbrev pub Selected : List Event → String → Type 0
Selected events text = Among (changed text) events × (has_slash text ≡ true)

-- The document was listed for a service that was selected.
abbrev pub Listed : List Event → String → Type 0
Listed events link =
    (text : String) × (count : Option ℕ) × (links : List String) × Among
      (documents_listed text count links) events
    × Among link links
    × Selected events text

module _ (viz : Option String → Option String) (html : String → String) where
  -- Each reply answers a request that the page has sent before it arrives.
  abbrev pub AllAnswer : List Event → Page → Type 0
  AllAnswer [] page = Unit
  AllAnswer (e ∷ events) page = Answers e page.sent × AllAnswer events (handle viz html e page)

  abbrev pub Justified : List Event → Request → Type 0
  Justified events list_services = Unit
  Justified events (service_graph text) = Selected events text
  Justified events (service_documents text) = Selected events text
  Justified events (document_graph id) = (link : String) × (id ≡ html link) × Listed events link

  -- A view is empty, or the drawing of a reply that has arrived and answers a justified request.
  abbrev pub Drawn :
      List Event → (String → Request) → (String → HashMap String → Event) → String → Type 0
  Drawn events request reply_with view =
      (view ≡ "")
      ⊎ ((text : String) × (data_ : HashMap String) × (svg : String) × Justified events
            (request text)
          × Among (reply_with text data_) events
          × (draw viz html text data_ ≡ some svg)
          × (view ≡ "<hr>" <> svg))

  module _ (events : List Event) where
    pub requests-Justified :
        (text : String) (handlers : List ClickHandler)
        → Listed events text
        → All (Justified events) (requests_of viz html text handlers)
    requests-Justified text [] h = tt
    requests-Justified text (fetch_graph ∷ handlers) h =
        ((text, refl, h), requests-Justified text handlers h)
    requests-Justified text (log_value ∷ handlers) h = requests-Justified text handlers h

    pub clicked-Justified :
        (items : List DocItem) (n : ℕ)
        → All (λ i. Listed events i.text) items
        → All (Justified events) (clicked_requests viz html (get_elem? items n))
    clicked-Justified [] n h = tt
    clicked-Justified (i ∷ items) zero (l, h) = requests-Justified i.text i.handlers l
    clicked-Justified (i ∷ items) (suc n) (l, h) = clicked-Justified items n h

    pub bind-Listed :
        (handler : ClickHandler) (items : List DocItem)
        → All (λ i. Listed events i.text) items
        → All (λ i. Listed events i.text) (bind_click handler items)
    unfolding bind_click
    bind-Listed handler [] h = tt
    bind-Listed handler (i ∷ items) (l, h) = (l, bind-Listed handler items h)

    pub append_items-Listed :
        (links : List String) (items : List DocItem)
        → All (Listed events) links
        → All (λ i. Listed events i.text) items
        → All (λ i. Listed events i.text) (append_items links items)
    unfolding append_items
    append_items-Listed [] items l h = h
    append_items-Listed (link ∷ links) items (l, ls) h =
        append_items-Listed links (items ++ record { text = link; handlers = [] } ∷ []) ls
          (All-append (λ i. Listed events i.text) items _ h (l, tt))
