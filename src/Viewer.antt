-- ===== src/Viewer.antt =====
-- The page of FSMUIService (ui/.../js/app.js): the state of the document, and its event handlers.
pub mod Shown
pub mod Requests
pub mod Justified
pub mod Selected
pub mod Exchange
mod Tests
use text.Mathlib.Text.{find?}
use xenon_ext.Prelude.{
  ℕ, Bool, true, false, Option, none, some, List, [], ◌∷◌, ◌++◌, map, String, str_eq, if◌then◌else◌,
  ◌==◌, ltb, get_elem?,
}
use xenon_ext.HashMap.{HashMap, get}
use xenon_ext.Fsm.Representation.{◌<>◌}

-- The click handlers that the code binds to an item of the list of documents.
pub data ClickHandler : Type 0 where
  fetch_graph log_value : ClickHandler

pub record DocItem : Type 0 where
  pub text : String
  pub handlers : List ClickHandler

pub data Request : Type 0 where
  list_services : Request
  service_graph service_documents document_graph : String → Request

pub record Page : Type 0 where
  pub options : List String
  pub svc_view : String
  pub panel_visible : Bool
  pub doc_items : List DocItem
  pub doc_graph_view : String
  pub alerts : List String
  -- The requests that have been sent, in order.
  pub sent : List Request

-- A reply comes with the text or the id that its callback has closed over, and with the data of
-- the response.
pub data Event : Type 0 where
  changed : String → Event
  clicked : ℕ → Event
  listed : List String → Event
  service_drawn document_drawn : String → HashMap String → Event
  documents_listed : String → Option ℕ → List String → Event
  failed : ℕ → String → String → Event

unfoldable pub url : Request → String
url list_services = "/fsm/monitoring/list"
url (service_graph text) = "/fsm/monitoring/svc/graphson?uri=" <> text
url (service_documents text) = text
url (document_graph id) = "/fsm/monitoring/doc/graphson?uri=" <> id

-- The `error` of `ajaxSetup`: what it alerts on a status, an error text and a response text.
unfoldable pub error_message : ℕ → String → String → String
error_message status e response_text =
    if status == 0
    then "You are offline!!\n Please Check Your Network."
    else if status == 404
    then "Requested URL not found."
    else if status == 500
    then "Internel Server Error:\n\t" <> response_text
    else if str_eq e "parsererror"
    then "Error.\nParsing JSON Request failed."
    else if str_eq e "timeout"
    then "Request timeout."
    else "Unknown Error.\n" <> response_text

unfoldable pub send : Request → Page → Page
send request page = record page { sent = page.sent ++ request ∷ [] }

unfoldable pub alert : String → Page → Page
alert message page = record page { alerts = page.alerts ++ message ∷ [] }

-- The body of `jQuery(function () {...})`, up to the reply.
unfoldable pub ready : Page → Page
unfolding send
ready page = send list_services page

-- The page that index.html describes.
abbrev pub new_page : Page
new_page = record {
  options = [];
  svc_view = "";
  panel_visible = false;
  doc_items = [];
  doc_graph_view = "";
  alerts = [];
  sent = [];
}

-- The callback of the list of services.
unfoldable pub on_listed : List String → Page → Page
on_listed available page = record page { options = page.options ++ "--" ∷ available }

-- `text.indexOf('/') > -1`.
unfoldable pub has_slash : String → Bool
has_slash text = elim (find? text "/") [ none ↦ false | some i ↦ true ]

-- `$('.svcDocIdCls').click(handler)`.
unfoldable pub bind_click : ClickHandler → List DocItem → List DocItem
bind_click handler [] = []
bind_click handler (i ∷ items) =
    record i { handlers = i.handlers ++ handler ∷ [] } ∷ bind_click handler items

-- The body of the `change` of svcSelect under its test. `$('#svcView').html = ""` sets a property
-- of a wrapper that is then dropped, and nothing of the page.
unfoldable pub request_views : String → Page → Page
unfolding send bind_click
request_views text page =
    let sending = send (service_documents text) (send (service_graph text) page) in
    record sending { doc_items = bind_click log_value sending.doc_items }

unfoldable pub on_change : String → Page → Page
unfolding has_slash request_views
on_change text page = if has_slash text then request_views text page else page

-- `results.documentCount > 0`, where the count may be missing.
unfoldable pub any_counted : Option ℕ → Bool
any_counted none = false
any_counted (some n) = ltb 0 n

-- The list items that `$.each` appends.
unfoldable pub append_items : List String → List DocItem → List DocItem
append_items [] items = items
append_items (value ∷ links) items =
    append_items links (items ++ record { text = value; handlers = [] } ∷ [])

-- The callback of the documents of a service.
unfoldable pub on_documents : Option ℕ → List String → Page → Page
unfolding any_counted append_items bind_click alert
on_documents count links page =
    if any_counted count
    then record page {
      panel_visible = true;
      doc_items = bind_click fetch_graph (append_items links []);
      doc_graph_view = "";
    }
    else alert "No service documents" page

-- The rest of a callback after `Viz`, which may have thrown.
unfoldable pub show_service : Option String → Page → Page
show_service none page = page
show_service (some svg) page = record page { svc_view = "<hr>" <> svg }

unfoldable pub show_document : Option String → Page → Page
show_document none page = page
show_document (some svg) page = record page { doc_graph_view = "<hr>" <> svg }

-- `viz` is the `Viz` of viz.js on an entry of a response, which may be undefined; `none` is that
-- it throws. `html` is what `html()` reads of an item that was written as a text.
module _ (viz : Option String → Option String) (html : String → String) where
  -- `Viz(gData[text], "svg")`.
  unfoldable pub draw : String → HashMap String → Option String
  draw text data_ = viz (get text data_)

  -- The callback of the graph of a service.
  unfoldable pub on_service_graph : String → HashMap String → Page → Page
  unfolding draw show_service
  on_service_graph text data_ page = show_service (draw text data_) page

  -- The callback of the graph of a document.
  unfoldable pub on_document_graph : String → HashMap String → Page → Page
  unfolding draw show_document
  on_document_graph id data_ page = show_document (draw id data_) page

  -- The click handlers of an item, run in the order in which they were bound.
  unfoldable pub run_handlers : String → List ClickHandler → Page → Page
  unfolding send
  run_handlers text [] page = page
  run_handlers text (fetch_graph ∷ handlers) page =
      run_handlers text handlers (send (document_graph (html text)) page)
  run_handlers text (log_value ∷ handlers) page = run_handlers text handlers page

  unfoldable pub click_item : Option DocItem → Page → Page
  unfolding run_handlers
  click_item none page = page
  click_item (some i) page = run_handlers i.text i.handlers page

  -- A click on an item by its place in the list.
  unfoldable pub on_click : ℕ → Page → Page
  unfolding click_item
  on_click n page = click_item (get_elem? page.doc_items n) page

  unfoldable pub handle : Event → Page → Page
  unfolding on_change on_click on_listed on_service_graph on_document_graph on_documents
      error_message alert
  handle (changed text) page = on_change text page
  handle (clicked n) page = on_click n page
  handle (listed available) page = on_listed available page
  handle (service_drawn text data_) page = on_service_graph text data_ page
  handle (document_drawn id data_) page = on_document_graph id data_ page
  handle (documents_listed text count links) page = on_documents count links page
  handle (failed status e response_text) page = alert (error_message status e response_text) page

  unfoldable pub handle_all : List Event → Page → Page
  unfolding handle
  handle_all [] page = page
  handle_all (event ∷ events) page = handle_all events (handle event page)
