-- ===== src/Jaxrs/Paths/Matching.antt =====
-- Which paths a template matches.
use xenon_ext.Prelude.{
  suc, ◌≡◌, ◌↔◌, refl, ap, true, ◌⊎◌, inl, inr, List, [], ◌∷◌, String, str_eq, eq_iff, arith,
  length, Bool-cases,
}
use xenon_ext.Jaxrs.Paths.{is_placeholder, tokens_match, dynamic_match, split}

-- The paths whose pieces are those of the template, but for the placeholders.
abbrev pub Fits : List String → List String → Type 0
Fits [] [] = Unit
Fits (e ∷ expected) (a ∷ actual) = ((e ≡ a) ⊎ (is_placeholder e ≡ true)) × Fits expected actual
Fits _ _ = ⊥

Fits-length :
    (expected actual : List String) → Fits expected actual → length actual ≡ length expected
Fits-length [] [] h = refl
Fits-length [] (a ∷ actual) h = elim h [ ]
Fits-length (e ∷ expected) [] h = elim h [ ]
Fits-length (e ∷ expected) (a ∷ actual) (p, h) = ap suc (Fits-length expected actual h)

tokens_match-Fits :
    (expected actual : List String)
    → length actual ≡ length expected
    → tokens_match expected actual ≡ true
    → Fits expected actual
unfolding tokens_match
tokens_match-Fits [] [] e h = tt
tokens_match-Fits [] (a ∷ actual) e h = ground arith
tokens_match-Fits (x ∷ expected) [] e h = ground arith
tokens_match-Fits (x ∷ expected) (a ∷ actual) e h = elim (Bool-cases (str_eq x a)) [
  | inl same ↦
      (inl ((eq_iff x a).0 same), tokens_match-Fits expected actual (ground arith) (ground arith))
  | inr differ ↦
      (inr (ground arith), tokens_match-Fits expected actual (ground arith) (ground arith))
]

Fits-tokens_match :
    (expected actual : List String) → Fits expected actual → tokens_match expected actual ≡ true
unfolding tokens_match
Fits-tokens_match [] [] h = refl
Fits-tokens_match [] (a ∷ actual) h = refl
Fits-tokens_match (x ∷ expected) [] h = refl
Fits-tokens_match (x ∷ expected) (a ∷ actual) (inl e, h) =
    ground (arith, eq_iff x a, Fits-tokens_match expected actual h)
Fits-tokens_match (x ∷ expected) (a ∷ actual) (inr e, h) =
    ground (arith, Fits-tokens_match expected actual h)

-- A path matches a template with parameters exactly if it has as many pieces, and each piece is
-- the one of the template or stands where the template has a placeholder.
pub dynamic_match_iff :
    (expected : List String) (path : String)
    → (dynamic_match expected path ≡ true) ↔ Fits expected (split path)
unfolding dynamic_match
dynamic_match_iff expected path = (
  λ h. tokens_match-Fits expected (split path) (ground arith) (ground arith),
  λ h.
      ground
        (arith, Fits-length expected (split path) h, Fits-tokens_match expected (split path) h),
)
