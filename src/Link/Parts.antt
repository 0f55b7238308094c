-- ===== src/Link/Parts.antt =====
-- A link is the link of its service, a slash and an id.
use Prim.Native.Char.{Char, code}
use Prim.Native.String as Text
use Prim.Native.String.append
use text.Mathlib.TextEquality.{Char-path}
use xenon_ext.Prelude.{
  ◌≡◌, refl, sym, ap, ap₂, ◌∙◌, Bool-cases, Option-cases, inl, inr, ◌⊎◌, true, none, some, String,
  arith, ◌==◌,
}
use xenon_ext.Fsm.Representation.{◌<>◌}
use xenon_ext.Link.{before_slash, before_last_slash, behind_slash, self_link_to_id}

abbrev pub slash : Char
slash = "/"

pub slash-cons : (s : String) → "/" <> s ≡ Text.◌∷◌ slash s
slash-cons s = append.cons slash Text.[] s ∙ ap (Text.◌∷◌ slash) (append.nil s)

pub slash-char : (c : Char) → (code c == 47) ≡ true → c ≡ slash
slash-char c h = Char-path c slash (ground arith)

-- The two cases of the last slash of a text with a first character.
pub last_slash-cases :
    (c : Char) (s : String) (uri : String)
    → before_last_slash (Text.◌∷◌ c s) ≡ some uri
    → ((before : String) × (before_last_slash s ≡ some before) × (uri ≡ Text.◌∷◌ c before))
      ⊎ ((before_last_slash s ≡ none) × (c ≡ slash) × (uri ≡ ""))
unfolding before_last_slash before_slash
last_slash-cases c s uri h = elim (Option-cases (before_last_slash s)) [
  | inr (before, e) ↦ inl (before, e, ground arith)
  | inl e ↦ elim (Bool-cases (code c == 47)) [
    | inl at_slash ↦ inr (e, slash-char c at_slash, ground arith)
    | inr no_slash ↦ absurd (ground arith)
  ]
]

pub id-behind :
    (c : Char) (s : String) (before : String)
    → before_last_slash s ≡ some before
    → self_link_to_id (Text.◌∷◌ c s) ≡ self_link_to_id s
unfolding self_link_to_id behind_slash
id-behind c s before h = rw h refl

id-slash : (s : String) → before_last_slash s ≡ none → self_link_to_id (Text.◌∷◌ slash s) ≡ s
unfolding self_link_to_id behind_slash
id-slash s h = rw h refl

pub id-last :
    (c : Char) (s : String)
    → before_last_slash s ≡ none
    → c ≡ slash
    → self_link_to_id (Text.◌∷◌ c s) ≡ s
id-last c s h at_slash = ap (λ d. self_link_to_id (Text.◌∷◌ d s)) at_slash ∙ id-slash s h

-- A link with a slash is the link before it, the slash and the id.
pub link_parts :
    (link uri : String)
    → before_last_slash link ≡ some uri
    → link ≡ uri <> ("/" <> self_link_to_id link)
unfolding before_last_slash
link_parts Text.[] uri h = absurd (ground arith)
link_parts (Text.◌∷◌ c s) uri h = elim (last_slash-cases c s uri h) [
  | inl (before, e, same) ↦
      ap (Text.◌∷◌ c) (link_parts s before e)
      ∙ sym (append.cons c before ("/" <> self_link_to_id s))
      ∙ ap₂ (λ u id. u <> ("/" <> id)) (sym same) (sym (id-behind c s before e))
  | inr (e, at_slash, empty) ↦
      ap (λ d. Text.◌∷◌ d s) at_slash
      ∙ sym (slash-cons s)
      ∙ sym (append.nil ("/" <> s))
      ∙ ap₂ (λ u id. u <> ("/" <> id)) (sym empty) (sym (id-last c s e at_slash))
]
