-- ===== src/Jaxrs/Template/Passing.antt =====
-- A replacement of a placeholder at the texts that it passes.
use Prim.Native.Char.{Char, code}
use Prim.Native.String as Text
use Prim.Native.String.append
use text.Mathlib.Text.{starts_with}
use text.Mathlib.TextEquality.{starts_with_iff}
use text.Mathlib.TextPositions.{starts_with-append}
use text.Mathlib.TextLemmas as TextLemmas
use xenon_ext.Prelude.{
  ℕ, ◌-◌, ◌≡◌, refl, sym, ap, ap₂, ◌∙◌, subst, Bool-cases, inl, inr, true, false, String, str_eq,
  eq_iff, arith, ◌==◌, if◌then◌else◌,
}
use xenon_ext.Effect.{Attempt, value, raise}
use xenon_ext.Fsm.Representation.{◌<>◌}
use xenon_ext.Jaxrs.Metadata.{and_then}
use xenon_ext.Jaxrs.Paths.{contains_char}
use xenon_ext.Jaxrs.Client.Replacing.{replace_from, onto, expand-literal, is_literal}

-- A text before what a replacement gives.
abbrev pub before : String → Attempt String → Attempt String
before s r = and_then (λ t. value (s <> t)) r

abbrev pub brace : Char
brace = "{"

pub brace-cons : (s : String) → "{" <> s ≡ Text.◌∷◌ brace s
brace-cons s = append.cons brace Text.[] s ∙ ap (Text.◌∷◌ brace) (append.nil s)

brace-text : (s t : String) → ("{" <> s) <> t ≡ Text.◌∷◌ brace (s <> t)
brace-text s t = ap (λ u. u <> t) (brace-cons s) ∙ append.cons brace s t

-- The number of the first character, or 0.
abbrev first_code : String → ℕ
first_code Text.[] = 0
first_code (Text.◌∷◌ c s) = code c

-- A text that does not begin with a brace does not start with a placeholder.
starts_elsewhere :
    (c : Char) (s pattern_ : String)
    → (code c == 123) ≡ false
    → starts_with (Text.◌∷◌ c s) ("{" <> pattern_) ≡ false
starts_elsewhere c s pattern_ h = elim (Bool-cases (starts_with (Text.◌∷◌ c s) ("{" <> pattern_))) [
  | inr no_start ↦ no_start
  | inl starts ↦
      let (rest, whole) = (starts_with_iff (Text.◌∷◌ c s) ("{" <> pattern_)).0 starts in
      let codes : 123 ≡ code c = ap first_code (sym (brace-text pattern_ rest) ∙ whole) in
      absurd (ground arith)
]

before-cons :
    (c : Char) (s : String) (r : Attempt String) → onto c (before s r) ≡ before (Text.◌∷◌ c s) r
unfolding onto
before-cons c s (value t) = ap value (sym (append.cons c s t))
before-cons c s (raise e) = refl

before-nil : (r : Attempt String) → before "" r ≡ r
before-nil (value t) = ap value (append.nil t)
before-nil (raise e) = refl

module _ (pattern_ replacement : String) where
  -- What has no opening brace is kept.
  pub replace_kept :
      (s t : String)
      → contains_char 123 s ≡ false
      → replace_from ("{" <> pattern_) replacement 0 (s <> t)
        ≡ before s (replace_from ("{" <> pattern_) replacement 0 t)
  unfolding replace_from contains_char
  replace_kept Text.[] t h =
      ap (replace_from ("{" <> pattern_) replacement 0) (append.nil t) ∙ sym (before-nil _)
  replace_kept (Text.◌∷◌ c s) t h =
      ap (replace_from ("{" <> pattern_) replacement 0) (append.cons c s t)
      ∙ rw (starts_elsewhere c (s <> t) pattern_ (ground arith))
          (ap (onto c) (replace_kept s t (ground arith)) ∙ before-cons c s _)

  replace_skip :
      (s t : String)
      → replace_from ("{" <> pattern_) replacement (Text.count s) (s <> t)
        ≡ replace_from ("{" <> pattern_) replacement 0 t
  unfolding replace_from
  replace_skip Text.[] t = ap (replace_from ("{" <> pattern_) replacement 0) (append.nil t)
  replace_skip (Text.◌∷◌ c s) t =
      ap₂ (λ n u. replace_from ("{" <> pattern_) replacement n u) (TextLemmas.length-cons c s)
        (append.cons c s t)
      ∙ replace_skip s t

  -- The placeholder itself is replaced.
  pub replace_found :
      (t : String)
      → is_literal replacement ≡ true
      → replace_from ("{" <> pattern_) replacement 0 (("{" <> pattern_) <> t)
        ≡ before replacement (replace_from ("{" <> pattern_) replacement 0 t)
  unfolding replace_from
  replace_found t h =
      let starts : starts_with (Text.◌∷◌ brace (pattern_ <> t)) ("{" <> pattern_) ≡ true =
        subst (λ u. starts_with u ("{" <> pattern_) ≡ true) (brace-text pattern_ t)
          (starts_with-append ("{" <> pattern_) t) in
      let counted = ap Text.count (brace-cons pattern_) ∙ TextLemmas.length-cons brace pattern_ in
      let skipped : Text.count ("{" <> pattern_) - 1 ≡ Text.count pattern_ =
        omega (arith, counted) in
      ap (replace_from ("{" <> pattern_) replacement 0) (brace-text pattern_ t)
      ∙ rw
          (starts, expand-literal ("{" <> pattern_) replacement h, skipped, replace_skip pattern_ t)
          refl

-- The characters before the first closing brace.
until_brace : String → String
until_brace Text.[] = ""
until_brace (Text.◌∷◌ c s) =
    let rest = until_brace s in if code c == 125 then "" else Text.◌∷◌ c rest

until_brace-name :
    (name t : String) → contains_char 125 name ≡ false → until_brace (name <> ("}" <> t)) ≡ name
unfolding until_brace contains_char
until_brace-name Text.[] t h =
    ap until_brace (append.nil ("}" <> t)) ∙ ap until_brace (append.cons _ Text.[] t)
until_brace-name (Text.◌∷◌ c s) t h =
    ap until_brace (append.cons c s ("}" <> t))
    ∙ ground (arith, until_brace-name s t (ground arith))

-- What follows the first character.
behind : String → String
behind Text.[] = ""
behind (Text.◌∷◌ c s) = s

pub hole-text :
    (name t : String) → ("{" <> (name <> "}")) <> t ≡ Text.◌∷◌ brace (name <> ("}" <> t))
hole-text name t =
    brace-text (name <> "}") t ∙ ap (Text.◌∷◌ brace) (TextLemmas.append_assoc name "}" t)

name_behind :
    (name t : String)
    → contains_char 125 name ≡ false
    → until_brace (behind (("{" <> (name <> "}")) <> t)) ≡ name
unfolding behind
name_behind name t h =
    ap (λ u. until_brace (behind u)) (hole-text name t) ∙ until_brace-name name t h

-- A placeholder starts with no placeholder of another name.
pub starts_otherwise :
    (name other t : String)
    → contains_char 125 name ≡ false
    → contains_char 125 other ≡ false
    → str_eq other name ≡ false
    → starts_with (("{" <> (other <> "}")) <> t) ("{" <> (name <> "}")) ≡ false
starts_otherwise name other t h k different =
    elim (Bool-cases (starts_with (("{" <> (other <> "}")) <> t) ("{" <> (name <> "}")))) [
      | inr no_start ↦ no_start
      | inl starts ↦
          let (rest, whole) =
            (starts_with_iff (("{" <> (other <> "}")) <> t) ("{" <> (name <> "}"))).0 starts in
          let same : other ≡ name =
            sym (name_behind other t k)
            ∙ ap (λ u. until_brace (behind u)) (sym whole)
            ∙ name_behind name rest h in
          let alike = (eq_iff other name).1 same in absurd (ground (arith, alike))
    ]

pub before-hole :
    (name : String) (r : Attempt String)
    → onto brace (before name (before "}" r)) ≡ before ("{" <> (name <> "}")) r
unfolding onto
before-hole name (value t) = ap value (sym (hole-text name t))
before-hole name (raise e) = refl
