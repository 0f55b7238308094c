-- ===== src/Viewer/Exchange/Answering.antt =====
-- How the replies end.
use xenon_ext.Prelude.{
  ℕ, suc, ◌+◌, ◌≡◌, refl, ap, Option, List, [], ◌∷◌, ◌++◌, String, arith, length, length-append,
}
use xenon_ext.Viewer.{Request}
use xenon_ext.Viewer.Exchange.{
  Server, Exchange, Answer, answers, Answered, none_yet, one_more, without, reply, receive,
}
use xenon_ext.Viewer.Exchange.Received.{receive-reply}

module _ (viz : Option String → Option String) (html : String → String) (server : Server) where
  Answer-length :
      {s t : Exchange} → Answer viz html server s t → suc (length t.pending) ≡ length s.pending
  Answer-length {s} (answers before r after at) = omega (
    arith,
    ap (λ e. length e.pending) (receive-reply viz html server r (without (before ++ after) s.page)),
    ap length at,
    length-append before after,
    length-append before (r ∷ after),
  )

  Answered-length :
      {s t : Exchange} {n : ℕ}
      → Answered viz html server s n t
      → n + length t.pending ≡ length s.pending
  Answered-length none_yet = omega arith
  Answered-length (one_more a rest) = omega (arith, Answer-length a, Answered-length rest)

  -- Some order answers everything.
  pub drain :
      (pending : List Request) (s : Exchange)
      → s.pending ≡ pending
      → (t : Exchange) × Answered viz html server s (length pending) t × (t.pending ≡ [])
  drain [] s h = (s, none_yet, h)
  drain (r ∷ pending) s h =
      let (t, rest, e) =
        drain pending (receive viz html (reply server r) (without pending s.page))
          (ap (λ e. e.pending) (receive-reply viz html server r (without pending s.page))) in
      (t, one_more (answers [] r pending h) rest, e)

  -- Replies cannot go on forever: each takes one of the requests that are pending and sends none,
  -- so a run of n replies leaves n fewer, whatever their order; and all that are left can be
  -- answered.
  pub Answered-ends :
      {s t : Exchange} {n : ℕ}
      → Answered viz html server s n t
      → (n + length t.pending ≡ length s.pending)
        × (u : Exchange) × Answered viz html server t (length t.pending) u
        × (u.pending ≡ [])
  Answered-ends {t = t} run =
      let (u, rest, e) = drain t.pending t refl in (Answered-length run, u, rest, e)
