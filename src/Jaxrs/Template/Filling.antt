-- ===== src/Jaxrs/Template/Filling.antt =====
-- The replacement of a placeholder by a text.
use Prim.Native.String as Text
use Prim.Native.String.append
use text.Mathlib.Text.{starts_with}
use xenon_ext.Prelude.{
  ◌≡◌, refl, sym, ap, ◌∙◌, subst, Bool-cases, inl, inr, true, false, List, [], ◌∷◌, map, String,
  str_eq, eq_iff, All, if◌then◌else◌,
}
use xenon_ext.Effect.{value}
use xenon_ext.Fsm.Representation.{◌<>◌}
use xenon_ext.Jaxrs.Paths.{contains_char}
use xenon_ext.Jaxrs.Client.Replacing.{replace_from, onto, is_literal}
use xenon_ext.Jaxrs.Template.{Piece, word, hole, show, path_of, IsPiece}
use xenon_ext.Jaxrs.Template.Passing.{
  before, brace, hole-text, starts_otherwise, before-hole, replace_kept, replace_found,
}

abbrev pub fill_piece : String → String → Piece → Piece
fill_piece name replacement (word s) = word s
fill_piece name replacement (hole other) =
    if str_eq other name then word replacement else hole other

abbrev pub fill : String → String → List Piece → List Piece
fill name replacement ps = map (fill_piece name replacement) ps

module _ (name replacement : String) (no_brace : contains_char 125 name ≡ false)
    (literal : is_literal replacement ≡ true) where
  replace_other :
      (other t : String)
      → contains_char 123 other ≡ false
      → contains_char 125 other ≡ false
      → str_eq other name ≡ false
      → replace_from ("{" <> (name <> "}")) replacement 0 (("{" <> (other <> "}")) <> t)
        ≡ before ("{" <> (other <> "}")) (replace_from ("{" <> (name <> "}")) replacement 0 t)
  unfolding replace_from contains_char
  replace_other other t h k different =
      let starts : starts_with (Text.◌∷◌ brace (other <> ("}" <> t))) ("{" <> (name <> "}"))
          ≡ false =
        subst (λ u. starts_with u ("{" <> (name <> "}")) ≡ false) (hole-text other t)
          (starts_otherwise name other t no_brace k different) in
      let inside =
        replace_kept (name <> "}") replacement other ("}" <> t) h
        ∙ ap (before other) (replace_kept (name <> "}") replacement "}" t refl) in
      ap (replace_from ("{" <> (name <> "}")) replacement 0) (hole-text other t)
      ∙ rw starts (ap (onto brace) inside ∙ before-hole other _)

  replace_piece :
      (p : Piece) (t : String)
      → IsPiece p
      → replace_from ("{" <> (name <> "}")) replacement 0 (show p <> t)
        ≡ before
            (show (fill_piece name replacement p))
            (replace_from ("{" <> (name <> "}")) replacement 0 t)
  replace_piece (word s) t h = replace_kept (name <> "}") replacement s t h.1
  replace_piece (hole other) t h = elim (Bool-cases (str_eq other name)) [
    | inl e ↦ rw e (
        subst
          (λ o.
            replace_from ("{" <> (name <> "}")) replacement 0 (("{" <> (o <> "}")) <> t)
            ≡ before replacement (replace_from ("{" <> (name <> "}")) replacement 0 t))
          (sym ((eq_iff other name).0 e)) (replace_found (name <> "}") replacement t literal))
    | inr e ↦ rw e (replace_other other t h.1 h.2 e)
  ]

  -- The placeholders of a name in a template are replaced by a text.
  pub replace-fill :
      (ps : List Piece)
      → All IsPiece ps
      → replace_from ("{" <> (name <> "}")) replacement 0 (path_of ps)
        ≡ value (path_of (fill name replacement ps))
  unfolding replace_from contains_char
  replace-fill [] h = refl
  replace-fill (p ∷ ps) (one, more) =
      replace_kept (name <> "}") replacement "/" (show p <> path_of ps) refl
      ∙ ap (before "/") (
          replace_piece p (path_of ps) one
          ∙ ap (before (show (fill_piece name replacement p))) (replace-fill ps more))
