-- ===== src/Prelude/Sort.antt =====
-- sort.Strings, and the order in which package flag visits flags: by the bytes of their names.
use mathlib.Core.Path.{◌≡◌, refl}
use mathlib.Core.Bool.{Bool, true, false, ◌&&◌, ◌||◌}
use mathlib.Core.List.{List, [], ◌∷◌}
use mathlib.Core.Logic.{inl, inr}
use native.Mathlib.Omega.{arith}
use aragorn.Prelude.Tests.{ltb, ◌==◌, if◌then◌else◌, if_intro}
use aragorn.Prelude.Text.{Str}
use aragorn.Prelude.Lists.{Occurs}

-- `a <= b` on strings.
unfoldable pub str_leb : Str → Str → Bool
str_leb [] t = true
str_leb (a ∷ s) [] = false
str_leb (a ∷ s) (b ∷ t) = ltb a b || (a == b && str_leb s t)

module _ {ℓ} {A : Type ℓ} (key : A → Str) where
  insert : A → List A → List A
  insert x [] = x ∷ []
  insert x (y ∷ ys) =
      let rest = insert x ys in if str_leb (key x) (key y) then x ∷ y ∷ ys else y ∷ rest

  unfoldable pub sort_by : List A → List A
  unfolding insert
  sort_by [] = []
  sort_by (x ∷ xs) = insert x (sort_by xs)

  -- The head of a list is not below a key.
  abbrev AtLeast : Str → List A → Type 0
  AtLeast k [] = Unit
  AtLeast k (y ∷ ys) = str_leb k (key y) ≡ true

  abbrev pub Sorted : List A → Type 0
  Sorted [] = Unit
  Sorted (x ∷ xs) = AtLeast (key x) xs × Sorted xs

  leb_total : (s t : Str) → str_leb s t ≡ false → str_leb t s ≡ true
  unfolding str_leb
  leb_total [] t h = ground arith
  leb_total (a ∷ s) [] h = refl
  leb_total (a ∷ s) (b ∷ t) h = ground (arith, leb_total s t)

  insert-AtLeast :
      (k : Str) (x : A) (ys : List A)
      → str_leb k (key x) ≡ true
      → AtLeast k ys
      → AtLeast k (insert x ys)
  unfolding insert
  insert-AtLeast k x [] h hy = h
  insert-AtLeast k x (y ∷ ys) h hy =
      if_intro (AtLeast k) (str_leb (key x) (key y)) _ _ (λ _. h) (λ _. hy)

  insert-Sorted : (x : A) (ys : List A) → Sorted ys → Sorted (insert x ys)
  unfolding insert
  insert-Sorted x [] h = (tt, tt)
  insert-Sorted x (y ∷ ys) (hy, h) =
      if_intro Sorted (str_leb (key x) (key y)) _ _ (λ p. (p, (hy, h)))
        (λ p. (insert-AtLeast (key y) x ys (leb_total (key x) (key y) p) hy, insert-Sorted x ys h))

  pub sort_by-Sorted : (xs : List A) → Sorted (sort_by xs)
  unfolding sort_by
  sort_by-Sorted [] = tt
  sort_by-Sorted (x ∷ xs) = insert-Sorted x (sort_by xs) (sort_by-Sorted xs)

module _ {A : Type 0} (key : A → Str) where
  past :
      (z x y : A) (ys rest : List A)
      → (Occurs z (x ∷ ys) → Occurs z rest)
      → Occurs z (x ∷ y ∷ ys)
      → Occurs z (y ∷ rest)
  past z x y ys rest f (inl e) = inr (f (inl e))
  past z x y ys rest f (inr (inl e)) = inl e
  past z x y ys rest f (inr (inr h)) = inr (f (inr h))

  insert-Occurs : (z x : A) (ys : List A) → Occurs z (x ∷ ys) → Occurs z (insert key x ys)
  unfolding insert
  insert-Occurs z x [] h = h
  insert-Occurs z x (y ∷ ys) h =
      if_intro (Occurs z) (str_leb (key x) (key y)) _ _ (λ _. h)
        (λ _. past z x y ys (insert key x ys) (insert-Occurs z x ys) h)

  pub sort_by-Occurs : (z : A) (xs : List A) → Occurs z xs → Occurs z (sort_by key xs)
  unfolding sort_by
  sort_by-Occurs z [] h = h
  sort_by-Occurs z (x ∷ xs) (inl e) = insert-Occurs z x (sort_by key xs) (inl e)
  sort_by-Occurs z (x ∷ xs) (inr h) =
      insert-Occurs z x (sort_by key xs) (inr (sort_by-Occurs z xs h))
