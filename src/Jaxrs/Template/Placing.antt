-- ===== src/Jaxrs/Template/Placing.antt =====
-- Where the placeholder of a name stands in a template, and what it is replaced by.
use Prim.Native.Char.{Char}
use Prim.Native.String as Text
use Prim.Native.String.append
use mathlib.Core.Option
use xenon_ext.Prelude.{
  ℕ, zero, suc, ◌+◌, ◌≡◌, refl, sym, ap, ◌∙◌, Bool-cases, inl, inr, Bool, true, false, Option, none,
  some, List, [], ◌∷◌, ◌++◌, map, String, str_eq, eq_iff, arith, All, if◌then◌else◌, get_elem?,
  length,
}
use xenon_ext.Fsm.Representation.{◌<>◌}
use xenon_ext.Jaxrs.Paths.{contains_char, has_braces, before_brace, placeholder}
use xenon_ext.Jaxrs.Paths.Parameters.{is_placeholder_of, last_placeholder}
use xenon_ext.Jaxrs.Template.{Piece, word, hole, show, path_of, IsPiece}
use xenon_ext.Jaxrs.Template.Splitting.{contains_char-append}
use xenon_ext.Jaxrs.Template.Passing.{brace-cons}
use xenon_ext.Jaxrs.Template.Filling.{fill_piece, fill}
use xenon_ext.Jaxrs.Template.Built.{fill_all}

before_brace-cons :
    (c : Char) (s : String)
    → before_brace (Text.◌∷◌ c (s <> "}")) ≡ Option.map (Text.◌∷◌ c) (before_brace (s <> "}"))
unfolding before_brace
before_brace-cons c Text.[] =
    ap (λ t. before_brace (Text.◌∷◌ c t)) (append.nil "}")
    ∙ ap (λ t. Option.map (Text.◌∷◌ c) (before_brace t)) (sym (append.nil "}"))
before_brace-cons c (Text.◌∷◌ d s) =
    ap (λ t. before_brace (Text.◌∷◌ c t)) (append.cons d s "}")
    ∙ ap (λ t. Option.map (Text.◌∷◌ c) (before_brace t)) (sym (append.cons d s "}"))

before_brace-name : (name : String) → before_brace (name <> "}") ≡ some name
unfolding before_brace
before_brace-name Text.[] = ap before_brace (append.nil "}")
before_brace-name (Text.◌∷◌ c s) =
    ap before_brace (append.cons c s "}")
    ∙ before_brace-cons c s
    ∙ ap (Option.map (Text.◌∷◌ c)) (before_brace-name s)

placeholder-hole : (name : String) → placeholder (show (hole name)) ≡ some name
unfolding placeholder
placeholder-hole name = ap placeholder (brace-cons (name <> "}")) ∙ before_brace-name name

placeholder-word : (s : String) → contains_char 123 s ≡ false → placeholder s ≡ none
unfolding placeholder contains_char
placeholder-word Text.[] h = refl
placeholder-word (Text.◌∷◌ c s) h = ground arith

-- Not the placeholder of a name.
abbrev pub OtherHole : String → Piece → Type 0
OtherHole name (word s) = Unit
OtherHole name (hole other) = str_eq other name ≡ false

last_placeholder-append :
    (i : ℕ) (name : String) (xs ys : List String) (o : Option ℕ)
    → last_placeholder i name (xs ++ ys) o
      ≡ last_placeholder (i + length xs) name ys (last_placeholder i name xs o)
last_placeholder-append i name [] ys o = ap (λ n. last_placeholder n name ys o) (omega arith)
last_placeholder-append i name (x ∷ xs) ys o =
    let found = if is_placeholder_of name (placeholder x) then some i else o in
    last_placeholder-append (suc i) name xs ys found
    ∙ ap (λ n. last_placeholder n name ys (last_placeholder (suc i) name xs found)) (omega arith)

last_placeholder-others :
    (i : ℕ) (name : String) (ps : List Piece) (o : Option ℕ)
    → All IsPiece ps
    → All (OtherHole name) ps
    → last_placeholder i name (map show ps) o ≡ o
last_placeholder-others i name [] o h k = refl
last_placeholder-others i name (word s ∷ ps) o (one, more) (other, others) =
    ap
      (λ q.
        last_placeholder (suc i) name (map show ps)
          (if is_placeholder_of name q then some i else o))
      (placeholder-word s one.1)
    ∙ last_placeholder-others (suc i) name ps o more others
last_placeholder-others i name (hole n ∷ ps) o (one, more) (other, others) =
    ap
      (λ q.
        last_placeholder (suc i) name (map show ps)
          (if is_placeholder_of name q then some i else o))
      (placeholder-hole n)
    ∙ ap (λ (b : Bool). last_placeholder (suc i) name (map show ps) (if b then some i else o)) other
    ∙ last_placeholder-others (suc i) name ps o more others

map-show : (xs ys : List Piece) → map show (xs ++ ys) ≡ map show xs ++ map show ys
map-show [] ys = refl
map-show (x ∷ xs) ys = ap (λ l. show x ∷ l) (map-show xs ys)

length-map : (xs : List Piece) → length (map show xs) ≡ length xs
length-map [] = refl
length-map (x ∷ xs) = ap suc (length-map xs)

last_placeholder-at :
    (i : ℕ) (name : String) (after : List Piece) (o : Option ℕ)
    → All IsPiece after
    → All (OtherHole name) after
    → last_placeholder i name (show (hole name) ∷ map show after) o ≡ some i
last_placeholder-at i name after o h k =
    ap
      (λ q.
        last_placeholder (suc i) name (map show after)
          (if is_placeholder_of name q then some i else o))
      (placeholder-hole name)
    ∙ ap (λ (b : Bool). last_placeholder (suc i) name (map show after) (if b then some i else o))
        ((eq_iff name name).1 refl)
    ∙ last_placeholder-others (suc i) name after (some i) h k

-- The placeholder of a name is found where it stands last, behind the empty piece.
pub last_placeholder-path :
    (name : String) (before after : List Piece)
    → All IsPiece after
    → All (OtherHole name) after
    → last_placeholder 0 name ("" ∷ map show (before ++ hole name ∷ after)) none
      ≡ some (1 + length before)
last_placeholder-path name before after h k =
    let first = last_placeholder 0 name ("" ∷ map show before) none in
    ap (λ l. last_placeholder 0 name ("" ∷ l) none) (map-show before (hole name ∷ after))
    ∙ last_placeholder-append 0 name ("" ∷ map show before) (show (hole name) ∷ map show after) none
    ∙ last_placeholder-at (0 + length ("" ∷ map show before)) name after first h k
    ∙ ap some (omega (arith, length-map before))

contains_char-path :
    (n : ℕ) (before : List Piece) (p : Piece) (after : List Piece)
    → contains_char n (show p) ≡ true
    → contains_char n (path_of (before ++ p ∷ after)) ≡ true
contains_char-path n [] p after h =
    contains_char-append n "/" (show p <> path_of after)
    ∙ ground (arith, contains_char-append n (show p) (path_of after))
contains_char-path n (q ∷ before) p after h =
    contains_char-append n "/" (show q <> path_of (before ++ p ∷ after))
    ∙ ground (
      arith,
      contains_char-append n (show q) (path_of (before ++ p ∷ after)),
      contains_char-path n before p after h,
    )

pub has_braces-path :
    (name : String) (before after : List Piece)
    → has_braces (path_of (before ++ hole name ∷ after)) ≡ true
unfolding has_braces contains_char
has_braces-path name before after =
    let opened : contains_char 123 (show (hole name)) ≡ true =
      ap (contains_char 123) (brace-cons (name <> "}")) in
    let closed : contains_char 125 (show (hole name)) ≡ true =
      contains_char-append 125 "{" (name <> "}")
      ∙ ground (arith, contains_char-append 125 name "}") in
    ground (
      arith,
      contains_char-path 123 before (hole name) after opened,
      contains_char-path 125 before (hole name) after closed,
    )

-- The first text for the placeholder of a name.
abbrev pub first_of : String → List (String × String) → Option String
first_of other [] = none
first_of other ((name, replacement) ∷ fillings) =
    if str_eq other name then some replacement else first_of other fillings

abbrev filled : List (String × String) → Piece → Piece
filled [] p = p
filled ((name, replacement) ∷ fillings) p = filled fillings (fill_piece name replacement p)

filled-word : (fillings : List (String × String)) (s : String) → filled fillings (word s) ≡ word s
filled-word [] s = refl
filled-word ((name, replacement) ∷ fillings) s = filled-word fillings s

show-filled :
    (fillings : List (String × String)) (name : String)
    → show (filled fillings (hole name))
      ≡ Option.get_or (first_of name fillings) ("{" <> (name <> "}"))
show-filled [] name = refl
show-filled ((other, replacement) ∷ fillings) name = elim (Bool-cases (str_eq name other)) [
  | inl e ↦ rw e (ap show (filled-word fillings replacement))
  | inr e ↦ rw e (show-filled fillings name)
]

pub fill-middle :
    (name replacement : String) (before : List Piece) (p : Piece) (after : List Piece)
    → fill name replacement (before ++ p ∷ after)
      ≡ fill name replacement before ++ fill_piece name replacement p ∷ fill name replacement after
fill-middle name replacement [] p after = refl
fill-middle name replacement (q ∷ before) p after =
    ap (λ l. fill_piece name replacement q ∷ l) (fill-middle name replacement before p after)

length-fill :
    (name replacement : String) (ps : List Piece) → length (fill name replacement ps) ≡ length ps
length-fill name replacement [] = refl
length-fill name replacement (p ∷ ps) = ap suc (length-fill name replacement ps)

middle :
    (before : List Piece) (p : Piece) (after : List Piece) (n : ℕ)
    → n ≡ length before
    → get_elem? (map show (before ++ p ∷ after)) n ≡ some (show p)
middle [] p after n e = ap (get_elem? (show p ∷ map show after)) e
middle (q ∷ before) p after zero e = ground arith
middle (q ∷ before) p after (suc n) e = middle before p after n (ground arith)

-- What stands in the place of a piece of a template that was filled.
fill_all-nth :
    (fillings : List (String × String)) (before : List Piece) (p : Piece) (after : List Piece)
    (n : ℕ)
    → n ≡ length before
    → get_elem? (map show (fill_all fillings (before ++ p ∷ after))) n
      ≡ some (show (filled fillings p))
fill_all-nth [] before p after n e = middle before p after n e
fill_all-nth ((name, replacement) ∷ fillings) before p after n e =
    ap (λ l. get_elem? (map show (fill_all fillings l)) n)
      (fill-middle name replacement before p after)
    ∙ fill_all-nth fillings (fill name replacement before) (fill_piece name replacement p)
        (fill name replacement after) n (e ∙ sym (length-fill name replacement before))

pub fill_all-hole :
    (fillings : List (String × String)) (before : List Piece) (name : String) (after : List Piece)
    → get_elem? (map show (fill_all fillings (before ++ hole name ∷ after))) (length before)
      ≡ some (Option.get_or (first_of name fillings) ("{" <> (name <> "}")))
fill_all-hole fillings before name after =
    fill_all-nth fillings before (hole name) after (length before) refl
    ∙ ap some (show-filled fillings name)
