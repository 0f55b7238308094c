-- ===== src/Link/Removing.antt =====
-- The removal of an id from a link.
use Prim.Native.Char.{Char}
use Prim.Native.String as Text
use text.Mathlib.Text.{starts_with}
use text.Mathlib.TextEquality.{starts_with_iff}
use text.Mathlib.TextLemmas as TextLemmas
use xenon_ext.Prelude.{
  ℕ, ◌+◌, ◌-◌, ◌≤◌, ◌≡◌, refl, sym, ap, ◌∙◌, subst, Bool-cases, inl, inr, true, some, String, arith,
  if◌then◌else◌,
}
use xenon_ext.Effect.{value}
use xenon_ext.Fsm.Representation.{◌<>◌}
use xenon_ext.Link.{before_last_slash, self_link_to_id}
use xenon_ext.Link.Parts.{slash, slash-cons, last_slash-cases, id-behind, id-last}
use xenon_ext.Jaxrs.Client.Replacing.{replace_from, replace_all, onto}

-- In how many places of a text a pattern occurs.
abbrev pub occurrences : String → String → ℕ
occurrences pattern_ Text.[] = 0
occurrences pattern_ (Text.◌∷◌ c s) =
    (if starts_with (Text.◌∷◌ c s) pattern_ then 1 else 0) + occurrences pattern_ s

starts_with_self : (s : String) → starts_with s s ≡ true
starts_with_self s = (starts_with_iff s s).1 (Text.[], TextLemmas.append-nil s)

-- All of a text is skipped.
replace_from-skip :
    (pattern_ : String) (s : String) → replace_from pattern_ "" (Text.count s) s ≡ value ""
unfolding replace_from
replace_from-skip pattern_ Text.[] = refl
replace_from-skip pattern_ (Text.◌∷◌ c s) =
    ap (λ n. replace_from pattern_ "" n (Text.◌∷◌ c s)) (TextLemmas.length-cons c s)
    ∙ replace_from-skip pattern_ s

-- A text that is a slash and an id starts with them.
starts_with-slash :
    (c : Char) (s : String) → c ≡ slash → starts_with (Text.◌∷◌ c s) ("/" <> s) ≡ true
starts_with-slash c s at_slash =
    subst (λ p. starts_with (Text.◌∷◌ c s) p ≡ true)
      (ap (λ d. Text.◌∷◌ d s) at_slash ∙ sym (slash-cons s)) (starts_with_self (Text.◌∷◌ c s))

occurs_last :
    (s uri : String) → before_last_slash s ≡ some uri → 1 ≤ occurrences ("/" <> self_link_to_id s) s
unfolding before_last_slash
occurs_last Text.[] uri h = absurd (ground arith)
occurs_last (Text.◌∷◌ c s) uri h = elim (last_slash-cases c s uri h) [
  | inl (before, e, same) ↦
      subst (λ id. 1 ≤ occurrences ("/" <> id) (Text.◌∷◌ c s)) (sym (id-behind c s before e))
        (omega (arith, occurs_last s before e))
  | inr (e, at_slash, empty) ↦
      subst (λ id. 1 ≤ occurrences ("/" <> id) (Text.◌∷◌ c s)) (sym (id-last c s e at_slash))
        (rw (starts_with-slash c s at_slash) (omega arith))
]

-- The removal of an occurrence of a pattern that starts here, and of what follows.
replace_from-here :
    (c : Char) (s : String) → c ≡ slash → replace_from ("/" <> s) "" 0 (Text.◌∷◌ c s) ≡ value ""
unfolding replace_from
replace_from-here c s at_slash =
    let counted = ap Text.count (slash-cons s) ∙ TextLemmas.length-cons slash s in
    let rest : Text.count ("/" <> s) - 1 ≡ Text.count s = omega (arith, counted) in
    rw (starts_with-slash c s at_slash, rest, replace_from-skip ("/" <> s) s) refl

-- If an id occurs once behind a slash, which is at the end, its removal leaves what stands before.
remove_last :
    (pattern_ s uri : String)
    → pattern_ ≡ "/" <> self_link_to_id s
    → before_last_slash s ≡ some uri
    → occurrences pattern_ s ≡ 1
    → replace_from pattern_ "" 0 s ≡ value uri
unfolding replace_from before_last_slash onto
remove_last pattern_ Text.[] uri p h once = absurd (ground arith)
remove_last pattern_ (Text.◌∷◌ c s) uri p h once = elim (last_slash-cases c s uri h) [
  | inl (before, e, same) ↦
      let pattern-is = p ∙ ap (λ id. "/" <> id) (id-behind c s before e) in
      let later = subst (λ r. 1 ≤ occurrences r s) (sym pattern-is) (occurs_last s before e) in
      elim (Bool-cases (starts_with (Text.◌∷◌ c s) pattern_)) [
        | inl first ↦ absurd (ground (arith, later))
        | inr not_first ↦
            rw (not_first, remove_last pattern_ s before pattern-is e (ground (arith, later)), same)
              refl
      ]
  | inr (e, at_slash, empty) ↦
      subst (λ r. replace_from r "" 0 (Text.◌∷◌ c s) ≡ value uri)
        (sym (p ∙ ap (λ id. "/" <> id) (id-last c s e at_slash)))
        (replace_from-here c s at_slash ∙ ap value (sym empty))
]

-- The removal of the id of a link behind a slash, wherever it occurs, leaves the link of the
-- service, if it occurs once.
pub replace_all-id :
    (link uri : String)
    → before_last_slash link ≡ some uri
    → occurrences ("/" <> self_link_to_id link) link ≡ 1
    → replace_all ("/" <> self_link_to_id link) "" link ≡ value uri
unfolding replace_all
replace_all-id link uri h once = remove_last ("/" <> self_link_to_id link) link uri refl h once
