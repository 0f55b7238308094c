-- ===== src/Effect.antt =====
-- Java code as computations over a world: a method returns or throws, and what it has done to the
-- world before it throws stays done.
use xenon_ext.Prelude.{◌≡◌, refl, fun_ext, sym, List, [], ◌∷◌, ◌++◌, String, arith}

pub data Throwable : Type 0 where
  illegal_state illegal_argument assertion_error user_exception : String → Throwable
  null_pointer : Throwable

pub data Attempt {ℓ} (A : Type ℓ) : Type ℓ where
  value : A → Attempt A
  raise : Throwable → Attempt A

abbrev pub Comp {ℓ} : Type 0 → Type ℓ → Type ℓ
Comp W A = W → Attempt A × W

module _ {W : Type 0} where
  abbrev pub done {ℓ} : {A : Type ℓ} → A → Comp W A
  done a w = (value a, w)

  abbrev pub throw {ℓ} : {A : Type ℓ} → Throwable → Comp W A
  throw e w = (raise e, w)

  -- What a call that throws or returns without touching the world amounts to.
  abbrev pub lift {ℓ} : {A : Type ℓ} → Attempt A → Comp W A
  lift r w = (r, w)

  abbrev pub modify : (W → W) → Comp W (Unit {0})
  modify f w = (value tt, f w)

  abbrev pub resume {ℓ κ} :
      {A : Type ℓ} {B : Type κ} → Attempt A × W → (A → Comp W B) → Attempt B × W
  resume (value a, w) f = f a w
  resume (raise e, w) f = (raise e, w)

  infixl 5 ◌>>=◌ ◌>>◌
  abbrev pub ◌>>=◌ {ℓ κ} : {A : Type ℓ} {B : Type κ} → Comp W A → (A → Comp W B) → Comp W B
  ◌>>=◌ m f w = resume (m w) f

  abbrev pub ◌>>◌ {ℓ} : {B : Type ℓ} → Comp W (Unit {0}) → Comp W B → Comp W B
  m >> k = m >>= λ _. k

  -- `for (A a : items) body(a);`
  unfoldable pub each {ℓ} : {A : Type ℓ} → (A → Comp W (Unit {0})) → List A → Comp W (Unit {0})
  each body [] = done tt
  each body (a ∷ items) = do body a; each body items

  pub >>-assoc {ℓ} :
      {B : Type ℓ} (m k : Comp W (Unit {0})) (l : Comp W B) (w : W)
      → ((m >> k) >> l) w ≡ (m >> (k >> l)) w
  >>-assoc m k l w = ground arith

  -- A loop over two lists in a row is one loop after the other.
  pub each-append {ℓ} :
      {A : Type ℓ} (body : A → Comp W (Unit {0})) (xs ys : List A) (w : W)
      → each body (xs ++ ys) w ≡ (each body xs >> each body ys) w
  unfolding each
  each-append body [] ys w = refl
  each-append body (x ∷ xs) ys w =
      rw (fun_ext (each-append body xs ys))
        (sym (>>-assoc (body x) (each body xs) (each body ys) w))
