-- ===== src/Jaxrs/Template/Splitting.antt =====
-- The pieces of a template's text.
use Prim.Native.Char.{Char, code}
use Prim.Native.String as Text
use Prim.Native.String.append
use text.Mathlib.TextLemmas as TextLemmas
use xenon_ext.Prelude.{
  ℕ, ◌≡◌, refl, sym, ap, ◌∙◌, Bool-cases, inl, inr, false, ◌||◌, List, [], ◌∷◌, map, String, arith,
  ◌==◌, All,
}
use xenon_ext.Link.Parts.{slash-cons}
use xenon_ext.Fsm.Representation.{◌<>◌}
use xenon_ext.Jaxrs.Paths.{
  contains_char, is_blank, onto_first, pieces, onto_kept, without_trailing, split,
}
use xenon_ext.Jaxrs.Template.{Piece, word, hole, show, path_of, IsPiece}

pub contains_char-append :
    (n : ℕ) (s t : String) → contains_char n (s <> t) ≡ (contains_char n s || contains_char n t)
unfolding contains_char
contains_char-append n Text.[] t = ap (contains_char n) (append.nil t)
contains_char-append n (Text.◌∷◌ c s) t =
    ap (contains_char n) (append.cons c s t) ∙ ground (arith, contains_char-append n s t)

-- A text before the first of some pieces.
abbrev onto_text : String → List String → List String
onto_text s [] = s ∷ []
onto_text s (p ∷ ps) = (s <> p) ∷ ps

onto_first-text :
    (c : Char) (s : String) (l : List String)
    → onto_first c (onto_text s l) ≡ onto_text (Text.◌∷◌ c s) l
unfolding onto_first
onto_first-text c s [] = refl
onto_first-text c s (p ∷ ps) = ap (λ t. t ∷ ps) (sym (append.cons c s p))

onto_first-nil : (c : Char) (l : List String) → onto_text "" (onto_first c l) ≡ onto_first c l
unfolding onto_first
onto_first-nil c [] = ap (λ t. t ∷ []) (append.nil (Text.◌∷◌ c ""))
onto_first-nil c (p ∷ ps) = ap (λ t. t ∷ ps) (append.nil (Text.◌∷◌ c p))

pieces-nil : (t : String) → onto_text "" (pieces t) ≡ pieces t
unfolding pieces
pieces-nil Text.[] = ap (λ t. t ∷ []) (append.nil "")
pieces-nil (Text.◌∷◌ c s) = elim (Bool-cases (code c == 47)) [
  | inl e ↦ rw e (ap (λ t. t ∷ pieces s) (append.nil ""))
  | inr e ↦ rw e (onto_first-nil c (pieces s))
]

-- A text without slashes stands before the first piece of what follows.
pieces-append :
    (s t : String) → contains_char 47 s ≡ false → pieces (s <> t) ≡ onto_text s (pieces t)
unfolding pieces contains_char
pieces-append Text.[] t h = ap pieces (append.nil t) ∙ sym (pieces-nil t)
pieces-append (Text.◌∷◌ c s) t h =
    ap pieces (append.cons c s t) ∙ elim (Bool-cases (code c == 47)) [
      | inl e ↦ absurd (ground arith)
      | inr e ↦
          rw e
            (ap (onto_first c) (pieces-append s t (ground arith)) ∙ onto_first-text c s (pieces t))
    ]

no_slash-show : (p : Piece) → IsPiece p → contains_char 47 (show p) ≡ false
unfolding contains_char
no_slash-show (word s) h = h.0
no_slash-show (hole name) h =
    contains_char-append 47 "{" (name <> "}")
    ∙ ground (arith, contains_char-append 47 name "}", h.0)

-- The pieces of a template begin with an empty one.
pub pieces-path_of : (ps : List Piece) → All IsPiece ps → pieces (path_of ps) ≡ "" ∷ map show ps
unfolding pieces
pieces-path_of [] h = refl
pieces-path_of (p ∷ ps) (one, more) =
    ap pieces (slash-cons (show p <> path_of ps))
    ∙ ap (λ l. "" ∷ l)
        (pieces-append (show p) (path_of ps) (no_slash-show p one)
          ∙ ap (onto_text (show p)) (pieces-path_of ps more)
          ∙ ap (λ t. t ∷ map show ps) (TextLemmas.append-nil (show p)))

abbrev IsFull : String → Type 0
IsFull s = is_blank s ≡ false

show-IsFull : (p : Piece) → IsPiece p → IsFull (show p)
unfolding is_blank
show-IsFull (word s) h = h.2
show-IsFull (hole name) h = ap is_blank (append.cons _ Text.[] (name <> "}"))

All-IsFull : (ps : List Piece) → All IsPiece ps → All IsFull (map show ps)
All-IsFull [] h = tt
All-IsFull (p ∷ ps) (one, more) = (show-IsFull p one, All-IsFull ps more)

onto_kept-full : (s : String) (l : List String) → IsFull s → onto_kept s l ≡ s ∷ l
unfolding onto_kept
onto_kept-full s [] h = rw h refl
onto_kept-full s (p ∷ ps) h = refl

without_trailing-full : (l : List String) → All IsFull l → without_trailing l ≡ l
unfolding without_trailing
without_trailing-full [] h = refl
without_trailing-full (s ∷ l) (one, more) =
    ap (onto_kept s) (without_trailing-full l more) ∙ onto_kept-full s l one

-- The pieces that String.split makes of a template are an empty one and those of the template.
pub split-path_of :
    (p : Piece) (ps : List Piece)
    → All IsPiece (p ∷ ps)
    → split (path_of (p ∷ ps)) ≡ "" ∷ map show (p ∷ ps)
unfolding split without_trailing onto_kept
split-path_of p ps h =
    ap split (slash-cons (show p <> path_of ps))
    ∙ ap (λ t. without_trailing (pieces t)) (sym (slash-cons (show p <> path_of ps)))
    ∙ ap without_trailing (pieces-path_of (p ∷ ps) h)
    ∙ ap (onto_kept "") (without_trailing-full (map show (p ∷ ps)) (All-IsFull (p ∷ ps) h))
