-- ===== src/Prelude/Lists.antt =====
-- Lists measured and indexed by native numbers, predicates on lists, and Go's slices of them.
use Prim.Native.Nat.{ℕ, zero, suc, ◌+◌, ◌≤◌, ◌<◌}
use mathlib.Core.Path.{◌≡◌, refl, ap, subst}
use mathlib.Core.Logic.{◌⊎◌, inl, inr, ◌↔◌}
use mathlib.Core.Bool.{Bool, true, false}
use mathlib.Core.List.{List, [], ◌∷◌, ◌++◌, map}
use mathlib.Core.Option.{Option, none, some}
use native.Mathlib.Omega.{arith}

module _ {ℓ} {A : Type ℓ} where
  abbrev pub length : List A → ℕ
  length [] = 0
  length (x ∷ xs) = suc (length xs)

  abbrev pub get_elem? : List A → ℕ → Option A
  get_elem? [] i = none
  get_elem? (x ∷ xs) zero = some x
  get_elem? (x ∷ xs) (suc i) = get_elem? xs i

  -- A write out of bounds changes nothing.
  abbrev pub set : List A → ℕ → A → List A
  set [] i v = []
  set (x ∷ xs) zero v = v ∷ xs
  set (x ∷ xs) (suc i) v = x ∷ set xs i v

  abbrev pub take : ℕ → List A → List A
  take zero xs = []
  take (suc n) [] = []
  take (suc n) (x ∷ xs) = x ∷ take n xs

  abbrev pub is_empty : List A → Bool
  is_empty [] = true
  is_empty (_ ∷ _) = false

  pub length-append : (xs ys : List A) → length (xs ++ ys) ≡ length xs + length ys
  length-append [] ys = omega arith
  length-append (x ∷ xs) ys = omega (arith, length-append xs ys)

  pub get_elem?-of-lt : (xs : List A) (i : ℕ) → i < length xs → (a : A) × (get_elem? xs i ≡ some a)
  get_elem?-of-lt [] i h = elim h [ ]
  get_elem?-of-lt (x ∷ xs) zero h = (x, refl)
  get_elem?-of-lt (x ∷ xs) (suc i) h = get_elem?-of-lt xs i (omega arith)

  pub get_elem?-above : (xs : List A) (i : ℕ) → length xs ≤ i → get_elem? xs i ≡ none
  get_elem?-above [] i h = refl
  get_elem?-above (x ∷ xs) zero h = absurd (omega arith)
  get_elem?-above (x ∷ xs) (suc i) h = get_elem?-above xs i (omega arith)

-- An element of a list.
abbrev pub Occurs : {A : Type 0} → A → List A → Type 0
Occurs x [] = ⊥
Occurs x (y ∷ ys) = (x ≡ y) ⊎ Occurs x ys

pub map-Occurs :
    {A B : Type 0} (f : A → B) (x : A) (xs : List A) → Occurs x xs → Occurs (f x) (map f xs)
map-Occurs f x [] h = absurd h
map-Occurs f x (y ∷ ys) (inl e) = inl (ap f e)
map-Occurs f x (y ∷ ys) (inr h) = inr (map-Occurs f x ys h)

-- The elements that pass a Boolean test, in order.
unfoldable pub keep {ℓ} : {A : Type ℓ} → (A → Bool) → List A → List A
keep p [] = []
keep p (x ∷ xs) = let rest = keep p xs in elim (p x) [ true ↦ x ∷ rest | false ↦ rest ]

-- How many elements pass a Boolean test.
unfoldable pub count {ℓ} : {A : Type ℓ} → (A → Bool) → List A → ℕ
count p [] = 0
count p (x ∷ xs) = let rest = count p xs in elim (p x) [ true ↦ suc rest | false ↦ rest ]

module _ {ℓ κ} {A : Type ℓ} (P : A → Type κ) where
  abbrev pub All : List A → Type κ
  All [] = Unit
  All (x ∷ xs) = P x × All xs

  pub All-append : (xs ys : List A) → All xs → All ys → All (xs ++ ys)
  All-append [] ys hx hy = hy
  All-append (x ∷ xs) ys (px, hx) hy = (px, All-append xs ys hx hy)

  pub All-get_elem? : (xs : List A) (i : ℕ) (a : A) → All xs → get_elem? xs i ≡ some a → P a
  All-get_elem? [] i a h e = cc
  All-get_elem? (x ∷ xs) zero a (px, h) e = subst P (cc) px
  All-get_elem? (x ∷ xs) (suc i) a (px, h) e = All-get_elem? xs i a h e

  pub All-set : (xs : List A) (i : ℕ) (a : A) → All xs → P a → All (set xs i a)
  All-set [] i a h p = tt
  All-set (x ∷ xs) zero a (px, h) p = (p, h)
  All-set (x ∷ xs) (suc i) a (px, h) p = (px, All-set xs i a h p)

-- One element of `keep`.
pub keep_nil {ℓ} : {A : Type ℓ} → (p : A → Bool) → keep p [] ≡ []
unfolding keep
keep_nil p = refl

pub keep_hit {ℓ} :
    {A : Type ℓ} (p : A → Bool) (x : A) (xs : List A) → p x ≡ true → keep p (x ∷ xs) ≡ x ∷ keep p xs
unfolding keep
keep_hit p x xs h = ground arith

pub keep_miss {ℓ} :
    {A : Type ℓ} (p : A → Bool) (x : A) (xs : List A) → p x ≡ false → keep p (x ∷ xs) ≡ keep p xs
unfolding keep
keep_miss p x xs h = ground arith

pub map-nil : {A B : Type 0} (f : A → B) (xs : List A) → (map f xs ≡ []) ↔ (xs ≡ [])
map-nil f [] = ((λ h. refl), λ h. refl)
map-nil f (x ∷ xs) = ((λ h. cc), λ h. cc)

pub is_empty_iff {ℓ} : {A : Type ℓ} (xs : List A) → (is_empty xs ≡ true) ↔ (xs ≡ [])
is_empty_iff [] = ((λ h. refl), λ h. refl)
is_empty_iff (x ∷ xs) = ((λ h. cc), λ h. cc)
