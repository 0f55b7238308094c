-- ===== src/Fsm/Dot/History.antt =====
-- The diagram of the versions of one document is the path that it took, in the order of the
-- versions.
use text.Mathlib.TextLemmas.{append_assoc as glue_assoc, append-nil as glue_empty}
use mathlib.Core.List.{Perm, Permᴰ, Pairwise, mem-cons_self}
use mathlib.Core.List.Permᴰ as PermD
use text.Mathlib.TextEquality.{IsScalar-prop}
use mathlib.Core.List.Pairwise
use mathlib.Core.Logic.{∥∥₁_elim}
use mathlib.Core.HLevel.{Π_prop, ⊥_prop}
use xenon_ext.Prelude.{
  ◌≡◌, ◌≢◌, ◌<◌, refl, sym, ap, ap₂, ◌∙◌, Option, none, some, List, [], ◌∷◌, ◌++◌, String, arith,
  Option-cases, inl, inr,
}
use xenon_ext.Fsm.Representation.{◌<>◌}
use xenon_ext.Fsm.Document.{FsmServiceDoc}
use xenon_ext.Fsm.Dot.{
  edge_line, show_nullable, insert_doc, sort_docs, step_line, append_docs,
  generate_history_dot_file,
}
use xenon_ext.Fsm.Dot.Edges.{Edge, lines, lines-append}

module _ {E : Type 0} where
  -- The step from a state into a document's state, if it has one.
  abbrev pub step : Option String → FsmServiceDoc E → List Edge
  step src e = elim e.state [
    | none ↦ []
    | some dest ↦
        record { source = show_nullable src; destination = dest; label = show_nullable e.trigger }
        ∷ []
  ]

  -- The steps between neighbours of a list of documents.
  abbrev pub steps : List (FsmServiceDoc E) → List Edge
  steps [] = []
  steps (d ∷ []) = []
  steps (d ∷ e ∷ docs) = step d.state e ++ steps (e ∷ docs)

  step_line_lem :
      (src : Option String) (e : FsmServiceDoc E) (docs : List (FsmServiceDoc E))
      → step_line src (e ∷ docs) ≡ lines (step src e)
  unfolding step_line lines
  step_line_lem src e docs = elim (Option-cases e.state) [
    | inl nowhere ↦ ground arith
    | inr (dest, there) ↦
        let line = edge_line (show_nullable src) dest (show_nullable e.trigger) in
        ground (arith, glue_empty line)
  ]

  append_docs_lem :
      (graph : String) (docs : List (FsmServiceDoc E))
      → append_docs graph docs ≡ graph <> lines (steps docs)
  unfolding append_docs
  append_docs_lem graph [] = unfold lines in sym (glue_empty graph)
  append_docs_lem graph (d ∷ []) = unfold lines step_line in refl
  append_docs_lem graph (d ∷ e ∷ docs) =
      append_docs_lem (graph <> step_line d.state (e ∷ docs)) (e ∷ docs)
      ∙ glue_assoc graph (step_line d.state (e ∷ docs)) (lines (steps (e ∷ docs)))
      ∙ rw (step_line_lem d.state e docs, lines-append (step d.state e) (steps (e ∷ docs)))

  -- Each version stands once.
  abbrev pub DistinctVersions : List (FsmServiceDoc E) → Type 0
  DistinctVersions = Pairwise (λ d e. d.document_version ≢ e.document_version)

  insert_doc_comm :
      (d e : FsmServiceDoc E) (docs : List (FsmServiceDoc E))
      → d.document_version ≢ e.document_version
      → insert_doc d (insert_doc e docs) ≡ insert_doc e (insert_doc d docs)
  unfolding insert_doc
  insert_doc_comm d e [] h = ground arith
  insert_doc_comm d e (x ∷ docs) h = ground (arith, insert_doc_comm d e docs h)

  sort_docs-Permᴰ :
      {docs docs' : List (FsmServiceDoc E)}
      → Permᴰ docs docs'
      → DistinctVersions docs
      → sort_docs docs ≡ sort_docs docs'
  unfolding sort_docs
  sort_docs-Permᴰ Permᴰ.nil h = refl
  sort_docs-Permᴰ (Permᴰ.cons same p) (Pairwise.cons away h) = cc (same, sort_docs-Permᴰ p h)
  sort_docs-Permᴰ (Permᴰ.swap {a} {b} {l} p q) (Pairwise.cons away h) =
      insert_doc_comm a b (sort_docs l) (away b mem-cons_self)
      ∙ ap₂ (λ x y. insert_doc x (insert_doc y (sort_docs l))) q p
  sort_docs-Permᴰ (Permᴰ.trans p q) h =
      sort_docs-Permᴰ p h
      ∙ sort_docs-Permᴰ q
          (PermD.pairwise (λ a b. Π_prop (λ e. ⊥_prop)) (λ a b away e. away (sym e)) p h)

  -- In ascending order of the versions.
  abbrev pub Ascending : List (FsmServiceDoc E) → Type 0
  Ascending = Pairwise (λ d e. d.document_version < e.document_version)

  sort_docs-Ascending : (docs : List (FsmServiceDoc E)) → Ascending docs → sort_docs docs ≡ docs
  unfolding sort_docs insert_doc
  sort_docs-Ascending [] h = refl
  sort_docs-Ascending (d ∷ []) h = refl
  sort_docs-Ascending (d ∷ e ∷ docs) (Pairwise.cons away h) =
      let first = away e mem-cons_self in rw (sort_docs-Ascending (e ∷ docs) h) (ground arith)

  -- Given in any order, the versions of a document make the diagram of their ascending order: the
  -- opening lines, a line for each step from a version to the next whose state is set, labelled
  -- with the trigger of the next, and the closing brace.
  pub generate_history_dot_file_perm :
      (versions docs : List (FsmServiceDoc E))
      → Ascending versions
      → Perm versions docs
      → generate_history_dot_file docs
        ≡ ("digraph G {\n\tnode [shape = box, \n\tstyle = filled];\n" <> lines (steps versions))
          <> "}"
  unfolding generate_history_dot_file
  generate_history_dot_file_perm versions docs ascending perm =
      let header : String = "digraph G {\n\tnode [shape = box, \n\tstyle = filled];\n" in
      let distinct : DistinctVersions versions =
        Pairwise.imp (λ d e p q. absurd (omega (arith, p, q))) ascending in
      ∥∥₁_elim perm (hlevel IsScalar-prop) (λ p.
        ap (λ ds. append_docs header ds <> "}")
          (sym (sort_docs-Permᴰ p distinct) ∙ sort_docs-Ascending versions ascending)
        ∙ ap (λ s. s <> "}") (append_docs_lem header versions))
