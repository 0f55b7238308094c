-- ===== src/Prelude/Lists.antt =====
-- Lists measured by native numbers, and predicates on all of their items.
use Prim.Native.Nat.{ℕ, zero, suc, ◌+◌}
use mathlib.Core.Path.{◌≡◌, refl, sym, subst}
use mathlib.Core.Logic.{◌⊎◌, inl, inr}
use mathlib.Core.Bool.{Bool}
use mathlib.Core.List.{List, [], ◌∷◌, ◌++◌, map}
use mathlib.Core.Option.{Option, none, some}
use native.Mathlib.Omega.{arith}
use xenon_ext.Prelude.Tests.{Bool-cases, if◌then◌else◌}

module _ {ℓ} {A : Type ℓ} where
  abbrev pub length : List A → ℕ
  length [] = 0
  length (x ∷ xs) = suc (length xs)

  abbrev pub get_elem? : List A → ℕ → Option A
  get_elem? [] i = none
  get_elem? (x ∷ xs) zero = some x
  get_elem? (x ∷ xs) (suc i) = get_elem? xs i

  abbrev pub drop : ℕ → List A → List A
  drop zero xs = xs
  drop (suc n) [] = []
  drop (suc n) (x ∷ xs) = drop n xs

  -- The items that pass a Boolean test, in order.
  abbrev pub keep : (A → Bool) → List A → List A
  keep p [] = []
  keep p (x ∷ xs) = let rest = keep p xs in if p x then x ∷ rest else rest

  pub length-append : (xs ys : List A) → length (xs ++ ys) ≡ length xs + length ys
  length-append [] ys = omega arith
  length-append (x ∷ xs) ys = omega (arith, length-append xs ys)

  pub drop-length : (xs : List A) → drop (length xs) xs ≡ []
  drop-length [] = refl
  drop-length (x ∷ xs) = drop-length xs

  pub drop-append : (xs ys : List A) → drop (length xs) (xs ++ ys) ≡ ys
  drop-append [] ys = refl
  drop-append (x ∷ xs) ys = drop-append xs ys

module _ {ℓ κ} {A : Type ℓ} (P : A → Type κ) where
  abbrev pub All : List A → Type κ
  All [] = Unit
  All (x ∷ xs) = P x × All xs

  pub All-append : (xs ys : List A) → All xs → All ys → All (xs ++ ys)
  All-append [] ys h k = k
  All-append (x ∷ xs) ys (p, h) k = (p, All-append xs ys h k)

  pub All-parts : (xs ys : List A) → All (xs ++ ys) → All xs × All ys
  All-parts [] ys h = (tt, h)
  All-parts (x ∷ xs) ys (p, h) = let (hs, ks) = All-parts xs ys h in ((p, hs), ks)

  -- What holds of all items holds of the one between two parts, and of the parts.
  pub All-middle : (xs : List A) (y : A) (zs : List A) → All (xs ++ y ∷ zs) → P y × All (xs ++ zs)
  All-middle [] y zs (p, h) = (p, h)
  All-middle (x ∷ xs) y zs (p, h) = let (q, k) = All-middle xs y zs h in (q, (p, k))

module _ {ℓ} {A : Type ℓ} where
  pub keep-append : (p : A → Bool) (xs ys : List A) → keep p (xs ++ ys) ≡ keep p xs ++ keep p ys
  keep-append p [] ys = refl
  keep-append p (x ∷ xs) ys = ground (arith, keep-append p xs ys)

pub All-map {ℓ κ ν} :
    {A : Type ℓ} {P : A → Type κ} {Q : A → Type ν} (f : (a : A) → P a → Q a) (xs : List A)
    → All P xs
    → All Q xs
All-map f [] h = tt
All-map f (x ∷ xs) (p, h) = (f x p, All-map f xs h)

module _ {ℓ κ} {A : Type ℓ} (P : A → Type κ) where
  pub All-keep : (p : A → Bool) (xs : List A) → All P xs → All P (keep p xs)
  All-keep p [] h = tt
  All-keep p (x ∷ xs) (h, hs) = elim (Bool-cases (p x)) [
    | inl kept ↦ rw kept (h, All-keep p xs hs)
    | inr left ↦ rw left (All-keep p xs hs)
  ]

  -- What holds of the images holds of the items by their images.
  pub All-images : {B : Type 0} (f : B → A) (ys : List B) → All P (map f ys) → All (λ b. P (f b)) ys
  All-images f [] h = tt
  All-images f (y ∷ ys) (h, hs) = (h, All-images f ys hs)

module _ {A : Type 0} where
  -- One of the items, by its place.
  abbrev pub Among : A → List A → Type 0
  Among a [] = ⊥
  Among a (x ∷ xs) = (a ≡ x) ⊎ Among a xs

  pub Among-self : (xs : List A) → All (λ a. Among a xs) xs
  Among-self [] = tt
  Among-self (x ∷ xs) = (inl refl, All-map (λ a h. inr h) xs (Among-self xs))

pub All-Among {κ} :
    {A : Type 0} (P : A → Type κ) (xs : List A) (a : A) → All P xs → Among a xs → P a
All-Among P [] a h there = elim there [ ]
All-Among P (x ∷ xs) a (p, h) (inl e) = subst P (sym e) p
All-Among P (x ∷ xs) a (p, h) (inr there) = All-Among P xs a h there

module _ {A : Type 0} where
  -- An item is the one between two parts, or among the parts.
  pub Among-middle :
      (a : A) (xs : List A) (y : A) (zs : List A)
      → Among a (xs ++ y ∷ zs)
      → (a ≡ y) ⊎ Among a (xs ++ zs)
  Among-middle a [] y zs there = there
  Among-middle a (x ∷ xs) y zs (inl e) = inr (inl e)
  Among-middle a (x ∷ xs) y zs (inr there) = elim (Among-middle a xs y zs there) [
    | inl e ↦ inl e
    | inr rest ↦ inr (inr rest)
  ]

  pub Among-left : (a : A) (xs ys : List A) → Among a xs → Among a (xs ++ ys)
  Among-left a (x ∷ xs) ys (inl e) = inl e
  Among-left a (x ∷ xs) ys (inr there) = inr (Among-left a xs ys there)
  Among-left a [] ys there = elim there [ ]

  pub Among-right : (a : A) (xs ys : List A) → Among a ys → Among a (xs ++ ys)
  Among-right a [] ys there = there
  Among-right a (x ∷ xs) ys there = inr (Among-right a xs ys there)

-- A run of steps.
pub data Star {A : Type 0} (R : A → A → Type 0) (a : A) : A → Type 0 where
  here : Star R a a
  next : {b c : A} → Star R a b → R b c → Star R a c
