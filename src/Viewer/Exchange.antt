-- ===== src/Viewer/Exchange.antt =====
-- The page of app.js and a server that answers its requests, in any order.
pub mod Received
pub mod Answering
pub mod Delivered
pub mod Reached
pub mod Bound
mod Tests
use xenon_ext.Prelude.{
  ℕ, suc, ◌≡◌, refl, ap, ◌∙◌, true, Option, some, List, [], ◌∷◌, ◌++◌, String, arith, length, drop,
  drop-length, drop-append, append-nil,
}
use xenon_ext.HashMap.{HashMap}
use xenon_ext.Viewer.{
  Page, new_page, Request, list_services, service_graph, service_documents, document_graph, Event,
  changed, clicked, listed, service_drawn, document_drawn, documents_listed, failed, send, alert,
  on_listed, has_slash, request_views, on_change, on_documents, on_service_graph, on_document_graph,
  show_service, show_document, handle, ready,
}

-- What the server has for each request.
pub record Server : Type 0 where
  pub services : List String
  pub graph_of_service : String → HashMap String
  pub documents : String → Option ℕ × List String
  pub graph_of_document : String → HashMap String

-- The requests that are pending have been sent and not been answered yet.
pub record Exchange : Type 0 where
  pub page : Page
  pub pending : List Request

abbrev pub reply : Server → Request → Event
reply server list_services = listed server.services
reply server (service_graph text) = service_drawn text (server.graph_of_service text)
reply server (service_documents text) =
    documents_listed text (server.documents text).0 (server.documents text).1
reply server (document_graph id) = document_drawn id (server.graph_of_document id)

abbrev pub opened : Exchange
opened = record { page = ready new_page; pending = (ready new_page).sent }

-- A request leaves the ones that are pending when its reply or failure arrives.
abbrev pub without : List Request → Page → Exchange
without pending page = record { page = page; pending = pending }

module _ (viz : Option String → Option String) (html : String → String) where
  -- The page handles an event, and what it sends meanwhile is pending from then on.
  abbrev pub receive : Event → Exchange → Exchange
  receive e s =
      let page = handle viz html e s.page in
      record { page = page; pending = s.pending ++ drop (length s.page.sent) page.sent }

  module _ (server : Server) where
    pub data Answer (s : Exchange) : Exchange → Type 0 where
      answers :
          (before : List Request) (r : Request) (after : List Request)
          → s.pending ≡ before ++ r ∷ after
          → Answer s (receive (reply server r) (without (before ++ after) s.page))

    -- A reply, or a click on a document.
    pub data Serve (s : Exchange) : Exchange → Type 0 where
      serves : {t : Exchange} → Answer s t → Serve s t
      clicks : (n : ℕ) → Serve s (receive (clicked n) s)

    -- Whatever may happen.
    pub data Step (s : Exchange) : Exchange → Type 0 where
      continues : {t : Exchange} → Serve s t → Step s t
      selects : (text : String) → Step s (receive (changed text) s)
      fails :
          (before : List Request) (r : Request) (after : List Request) (status : ℕ)
          (e response_text : String)
          → s.pending ≡ before ++ r ∷ after
          → Step s (receive (failed status e response_text) (without (before ++ after) s.page))

    -- A number of replies in a row.
    pub data Answered : Exchange → ℕ → Exchange → Type 0 where
      none_yet : {s : Exchange} → Answered s 0 s
      one_more : {s t u : Exchange} {n : ℕ} → Answer s t → Answered t n u → Answered s (suc n) u
