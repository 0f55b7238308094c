-- ===== src/HashMap.antt =====
-- java.util.HashMap with String keys, as an association list; its iteration order is the list's.
use mathlib.Core.Option.{get_or}
use xenon_ext.Prelude.{
  ◌≡◌, refl, Option, none, some, List, [], ◌∷◌, String, arith, str_eq, eq_iff, if◌then◌else◌,
}

abbrev pub HashMap {ℓ} : Type ℓ → Type ℓ
HashMap V = List (String × V)

module _ {ℓ} {V : Type ℓ} where
  unfoldable pub get : String → HashMap V → Option V
  get k [] = none
  get k ((j, v) ∷ m) = if str_eq j k then some v else get k m

  -- `put` replaces the value of a key that is there, and adds an entry otherwise.
  unfoldable pub put : String → V → HashMap V → HashMap V
  put k v [] = (k, v) ∷ []
  put k v ((j, w) ∷ m) = if str_eq j k then (j, v) ∷ m else (j, w) ∷ put k v m

  -- `if (!m.containsKey(k)) m.put(k, v);`
  unfoldable pub put_if_absent : String → V → HashMap V → HashMap V
  unfolding get put
  put_if_absent k v m = elim (get k m) [ none ↦ put k v m | some present ↦ m ]

  unfoldable pub remove : String → HashMap V → HashMap V
  remove k [] = []
  remove k ((j, w) ∷ m) = let rest = remove k m in if str_eq j k then rest else (j, w) ∷ rest

  abbrev pub keys : HashMap V → List String
  keys [] = []
  keys ((j, w) ∷ m) = j ∷ keys m

  -- Each key occurs once.
  abbrev pub IsDistinct : HashMap V → Type ℓ
  IsDistinct [] = Unit
  IsDistinct ((j, w) ∷ m) = (get j m ≡ none) × IsDistinct m

  pub get-put :
      (k j : String) (v : V) (m : HashMap V)
      → get j (put k v m) ≡ (if str_eq k j then some v else get j m)
  unfolding get put
  get-put k j v [] = refl
  get-put k j v ((i, w) ∷ m) = ground (arith, eq_iff k j, eq_iff i k, eq_iff i j, get-put k j v m)

  pub get-put_if_absent :
      (k j : String) (v : V) (m : HashMap V)
      → get j (put_if_absent k v m) ≡ (if str_eq k j then some (get_or (get k m) v) else get j m)
  unfolding put_if_absent
  get-put_if_absent k j v m = ground (arith, get-put k j v m, eq_iff k j)

  pub get-remove :
      (k j : String) (m : HashMap V) → get j (remove k m) ≡ (if str_eq k j then none else get j m)
  unfolding get remove
  get-remove k j [] = ground arith
  get-remove k j ((i, w) ∷ m) = ground (arith, eq_iff k j, eq_iff i k, eq_iff i j, get-remove k j m)

  pub put-IsDistinct : (k : String) (v : V) (m : HashMap V) → IsDistinct m → IsDistinct (put k v m)
  unfolding get put
  put-IsDistinct k v [] h = (refl, tt)
  put-IsDistinct k v ((i, w) ∷ m) (fresh, h) =
      ground (arith, eq_iff k i, eq_iff i k, get-put k i v m, put-IsDistinct k v m h)
