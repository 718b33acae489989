-- ===== src/Prelude/Assoc.antt =====
-- Go's `map[string]V`: the list of its entries in the order in which one iteration meets them.
-- That order is not specified by Go, so what is proved holds for every list.
use mathlib.Core.List.{List, [], ◌∷◌}
use mathlib.Core.Option.{Option, none, some}
use mathlib.Core.Path.{◌≡◌, refl, subst}
use mathlib.Core.Logic.{inl, inr}
use native.Mathlib.Omega.{arith}
use aragorn.Prelude.Tests.{if◌then◌else◌, if_intro, Bool-cases}
use aragorn.Prelude.Text.{Str, str_eq, str_eq_iff}

abbrev pub Assoc {ℓ} : Type ℓ → Type ℓ
Assoc V = List (Str × V)

module _ {ℓ} {V : Type ℓ} where
  -- v, ok := m[k]
  unfoldable pub get : Str → Assoc V → Option V
  get k [] = none
  get k ((j, v) ∷ m) = if str_eq j k then some v else get k m

  -- m[k] = v
  unfoldable pub put : Str → V → Assoc V → Assoc V
  put k v [] = (k, v) ∷ []
  put k v ((j, w) ∷ m) = if str_eq j k then (j, v) ∷ m else (j, w) ∷ put k v m

  -- delete(m, k)
  unfoldable pub remove : Str → Assoc V → Assoc V
  remove k [] = []
  remove k ((j, v) ∷ m) = let rest = remove k m in if str_eq j k then rest else (j, v) ∷ rest

  pub get-put :
      (k j : Str) (v : V) (m : Assoc V)
      → get j (put k v m) ≡ (if str_eq k j then some v else get j m)
  unfolding get put
  get-put k j v [] = refl
  get-put k j v ((i, w) ∷ m) =
      ground (arith, str_eq_iff k j, str_eq_iff i k, str_eq_iff i j, get-put k j v m)

  pub get-remove :
      (k j : Str) (m : Assoc V) → get j (remove k m) ≡ (if str_eq k j then none else get j m)
  unfolding get remove
  get-remove k j [] = ground arith
  get-remove k j ((i, w) ∷ m) =
      ground (arith, str_eq_iff k j, str_eq_iff i k, str_eq_iff i j, get-remove k j m)

-- What holds of every value of a map.
module _ {ℓ κ} {V : Type ℓ} (P : V → Type κ) where
  abbrev pub AllValues : Assoc V → Type κ
  AllValues [] = Unit
  AllValues ((k, v) ∷ m) = P v × AllValues m

  pub AllValues-get : (k : Str) (v : V) (m : Assoc V) → AllValues m → get k m ≡ some v → P v
  unfolding get
  AllValues-get k v [] h e = cc
  AllValues-get k v ((j, w) ∷ m) (pw, h) e = elim (Bool-cases (str_eq j k)) [
    | inl hit ↦ subst P (ground (arith, hit)) pw
    | inr miss ↦ AllValues-get k v m h (ground (arith, miss))
  ]

  pub AllValues-put : (k : Str) (v : V) (m : Assoc V) → AllValues m → P v → AllValues (put k v m)
  unfolding put
  AllValues-put k v [] h p = (p, tt)
  AllValues-put k v ((j, w) ∷ m) (pw, h) p =
      if_intro AllValues (str_eq j k) _ _ (λ _. (p, h)) (λ _. (pw, AllValues-put k v m h p))

  pub AllValues-remove : (k : Str) (m : Assoc V) → AllValues m → AllValues (remove k m)
  unfolding remove
  AllValues-remove k [] h = tt
  AllValues-remove k ((j, w) ∷ m) (pw, h) =
      if_intro AllValues (str_eq j k) _ _ (λ _. AllValues-remove k m h)
        (λ _. (pw, AllValues-remove k m h))
