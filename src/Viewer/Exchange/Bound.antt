-- ===== src/Viewer/Exchange/Bound.antt =====
-- How many requests the page sends.
use xenon_ext.Prelude.{
  ℕ, ◌+◌, ◌≤◌, ap, Option, List, [], ◌∷◌, String, arith, if◌then◌else◌, Option-cases, inl, inr, All,
  length, length-append, get_elem?,
}
use xenon_ext.Viewer.{
  DocItem, Page, new_page, Event, clicked, changed, listed, service_drawn, document_drawn,
  documents_listed, failed, has_slash, handle, handle_all, ready, send,
}
use xenon_ext.Viewer.Shown.{clicked_requests}
use xenon_ext.Viewer.Requests.{
  FetchesOnce, handle-FetchesOnce, nth-FetchesOnce, fetches-requests_of,
}
use xenon_ext.Viewer.Exchange.Received.{news_of, handle-sent}

-- What an event may cost: two requests for the selection of a service, one for a click.
abbrev pub cost : Event → ℕ
cost (changed text) = if has_slash text then 2 else 0
cost (clicked n) = 1
cost _ = 0

abbrev pub total_cost : List Event → ℕ
total_cost [] = 0
total_cost (e ∷ events) = cost e + total_cost events

module _ (viz : Option String → Option String) (html : String → String) where
  clicked-length :
      (items : List DocItem) (n : ℕ)
      → All FetchesOnce items
      → length (clicked_requests viz html (get_elem? items n)) ≤ 1
  clicked-length items n h = elim (Option-cases (get_elem? items n)) [
    | inl e ↦ rw e (omega arith)
    | inr (i, e) ↦
        rw
          (
            e,
            fetches-requests_of viz html i.text i.handlers (nth-FetchesOnce viz html items n i h e),
          )
          (omega arith)
  ]

  news-length :
      (e : Event) (page : Page)
      → All FetchesOnce page.doc_items
      → length (news_of viz html e page) ≤ cost e
  news-length (changed text) page h = ground arith
  news-length (clicked n) page h = clicked-length page.doc_items n h
  news-length (listed available) page h = omega arith
  news-length (service_drawn text data_) page h = omega arith
  news-length (document_drawn id data_) page h = omega arith
  news-length (documents_listed text count links) page h = omega arith
  news-length (failed status e response) page h = omega arith

  sent_length :
      (events : List Event) (page : Page)
      → All FetchesOnce page.doc_items
      → length (handle_all viz html events page).sent ≤ length page.sent + total_cost events
  unfolding handle_all
  sent_length [] page h = omega arith
  sent_length (e ∷ events) page h =
      let page' = handle viz html e page in
      omega (
        arith,
        sent_length events page' (handle-FetchesOnce viz html e page h),
        ap length (handle-sent viz html e page),
        length-append page.sent (news_of viz html e page),
        news-length e page h,
      )

  -- After any events on the page as it is loaded, it has sent at most one request for the list of
  -- services, two for each selection of a service, and one for each click on a document, however
  -- often the documents were listed and the click handlers bound.
  pub requests_bounded :
      (events : List Event)
      → length (handle_all viz html events (ready new_page)).sent ≤ 1 + total_cost events
  unfolding ready send
  requests_bounded events = sent_length events (ready new_page) tt
