-- ===== src/Jaxrs/Template/Built.antt =====
-- The path of the operation that the client builds of a template.
use xenon_ext.Prelude.{
  ◌≡◌, refl, sym, ap, ◌∙◌, subst, Bool-cases, inl, inr, true, false, Option, none, some, List, [],
  ◌∷◌, ◌++◌, String, str_eq, All, All-parts, get_elem?,
}
use xenon_ext.Effect.{Attempt, value}
use xenon_ext.Jaxrs.Metadata.{
  ParamType, path, query, body, operation, header, cookie, ParamMetadata, and_then,
}
use xenon_ext.Jaxrs.Paths.{contains_char}
use xenon_ext.Jaxrs.Routing.{name_of}
use xenon_ext.Jaxrs.Client.{Gathered, replace_path, add_argument, add_parameter, gather}
use xenon_ext.Jaxrs.Client.Replacing.{replace_all, is_literal}
use xenon_ext.Jaxrs.Template.{Piece, word, hole, path_of, IsWord, IsPiece}
use xenon_ext.Jaxrs.Template.Filling.{fill_piece, fill, replace-fill}

-- A placeholder's name with the text that it is replaced by.
abbrev pub IsFilling : String × String → Type 0
IsFilling (name, replacement) =
    (contains_char 125 name ≡ false) × IsWord replacement × (is_literal replacement ≡ true)

abbrev pub fill_all : List (String × String) → List Piece → List Piece
fill_all [] ps = ps
fill_all ((name, replacement) ∷ fillings) ps = fill_all fillings (fill name replacement ps)

fill_all-append :
    (xs ys : List (String × String)) (ps : List Piece)
    → fill_all (xs ++ ys) ps ≡ fill_all ys (fill_all xs ps)
fill_all-append [] ys ps = refl
fill_all-append ((n, r) ∷ xs) ys ps = fill_all-append xs ys (fill n r ps)

fill_piece-IsPiece :
    (name replacement : String) (p : Piece)
    → IsWord replacement
    → IsPiece p
    → IsPiece (fill_piece name replacement p)
fill_piece-IsPiece name replacement (word s) r h = h
fill_piece-IsPiece name replacement (hole other) r h = elim (Bool-cases (str_eq other name)) [
  | inl e ↦ rw e r
  | inr e ↦ rw e h
]

pub fill-IsPiece :
    (name replacement : String) (ps : List Piece)
    → IsWord replacement
    → All IsPiece ps
    → All IsPiece (fill name replacement ps)
fill-IsPiece name replacement [] r h = tt
fill-IsPiece name replacement (p ∷ ps) r (one, more) =
    (fill_piece-IsPiece name replacement p r one, fill-IsPiece name replacement ps r more)

pub fill_all-IsPiece :
    (fillings : List (String × String)) (ps : List Piece)
    → All IsFilling fillings
    → All IsPiece ps
    → All IsPiece (fill_all fillings ps)
fill_all-IsPiece [] ps fs h = h
fill_all-IsPiece ((n, r) ∷ fillings) ps (one, more) h =
    fill_all-IsPiece fillings (fill n r ps) more (fill-IsPiece n r ps one.1 h)

abbrev pub filling_for : ParamType → String × String → List (String × String)
filling_for path filling = filling ∷ []
filling_for _ filling = []

module _ {V : Type 0} (text_of : V → String) where
  -- What the argument of a parameter fills.
  abbrev pub fillings_for : ParamType → String → Option (Option V) → List (String × String)
  fillings_for type_ name none = []
  fillings_for type_ name (some none) = []
  fillings_for type_ name (some (some arg)) = filling_for type_ (name, text_of arg)

  abbrev pub fillings_of : List (Option V) → List ParamMetadata → List (String × String)
  fillings_of args [] = []
  fillings_of args (p ∷ ps) =
      fillings_for p.type_ (name_of p) (get_elem? args p.parameter_index) ++ fillings_of args ps

  -- A call that returns, with the path that it leaves.
  abbrev Leaves : List Piece → Attempt (Gathered V) → Type 0
  Leaves own r = (after : Gathered V) × (r ≡ value after) × (after.method_uri ≡ some (path_of own))

  add_argument-Leaves :
      (type_ : ParamType) (name : String) (arg : V) (g : Gathered V) (own : List Piece)
      → g.method_uri ≡ some (path_of own)
      → All IsPiece own
      → All IsFilling (fillings_for type_ name (some (some arg)))
      → Leaves
          (fill_all (fillings_for type_ name (some (some arg))) own)
          (add_argument text_of type_ name arg g)
  unfolding add_argument replace_path replace_all
  add_argument-Leaves path name arg g own at h (one, more) =
      let replaced = replace-fill name (text_of arg) one.0 one.2 own h in
      (
        record g { method_uri = some (path_of (fill name (text_of arg) own)) },
        rw (at, replaced) refl,
        refl,
      )
  add_argument-Leaves query name arg g own at h fs = (_, refl, at)
  add_argument-Leaves body name arg g own at h fs = (_, refl, at)
  add_argument-Leaves operation name arg g own at h fs = (_, refl, at)
  add_argument-Leaves header name arg g own at h fs = (_, refl, at)
  add_argument-Leaves cookie name arg g own at h fs = (_, refl, at)

  add_parameter-Leaves :
      (p : ParamMetadata) (o : Option V) (g : Gathered V) (own : List Piece)
      → g.method_uri ≡ some (path_of own)
      → All IsPiece own
      → All IsFilling (fillings_for p.type_ (name_of p) (some o))
      → Leaves
          (fill_all (fillings_for p.type_ (name_of p) (some o)) own)
          (add_parameter text_of p (some o) g)
  unfolding add_parameter
  add_parameter-Leaves p none g own at h fs = (g, refl, at)
  add_parameter-Leaves p (some arg) g own at h fs =
      add_argument-Leaves p.type_ (name_of p) arg g own at h fs

  -- The argument of a parameter is not out of bounds.
  abbrev pub InRange : List (Option V) → ParamMetadata → Type 0
  InRange args p = (o : Option V) × (get_elem? args p.parameter_index ≡ some o)

  pub gather-Leaves :
      (args : List (Option V)) (ps : List ParamMetadata) (g : Gathered V) (own : List Piece)
      → g.method_uri ≡ some (path_of own)
      → All IsPiece own
      → All (InRange args) ps
      → All IsFilling (fillings_of args ps)
      → Leaves (fill_all (fillings_of args ps) own) (gather text_of args ps g)
  unfolding gather
  gather-Leaves args [] g own at h ranges fs = (g, refl, at)
  gather-Leaves args (p ∷ ps) g own at h ((o, in_range), ranges) fs =
      let name = name_of p in
      let (own_fs, later_fs) =
        All-parts IsFilling (fillings_for p.type_ name (some o)) (fillings_of args ps) (
          subst (λ x. All IsFilling (fillings_for p.type_ name x ++ fillings_of args ps)) in_range
            fs) in
      let (next, at_next, uri) = add_parameter-Leaves p o g own at h own_fs in
      let mine : List (String × String) = fillings_for p.type_ name (some o) in
      let filled = fill_all mine own in
      let (after, at_after, last) =
        gather-Leaves args ps next filled uri (fill_all-IsPiece mine own own_fs h) ranges
          later_fs in
      rw in_range (
        after,
        ap (and_then (gather text_of args ps)) at_next ∙ at_after,
        last ∙ ap (λ l. some (path_of l)) (sym (fill_all-append mine (fillings_of args ps) own)),
      )
