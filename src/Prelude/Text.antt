-- ===== src/Prelude/Text.antt =====
-- Go strings as sequences of bytes, with the functions of package strings that the source calls.
use Prim.Native.Nat.{ℕ}
use Prim.Native.Char.{code}
use Prim.Native.String.{String}
use mathlib.Core.Path.{◌≡◌, refl}
use mathlib.Core.Logic.{◌↔◌}
use mathlib.Core.Bool.{Bool, true, false, ◌&&◌, ◌||◌}
use mathlib.Core.List.{List, [], ◌∷◌, ◌++◌}
use native.Mathlib.Omega.{arith}
use aragorn.Prelude.Tests.{◌==◌}

abbrev pub Str : Type 0
Str = List ℕ

-- The code points of a literal; these are its bytes, since the literals of the source are ASCII.
abbrev pub codes : String → Str
codes String.[] = []
codes (String.◌∷◌ c s) = code c ∷ codes s

-- `a == b` on strings.
unfoldable pub str_eq : Str → Str → Bool
str_eq [] [] = true
str_eq [] (_ ∷ _) = false
str_eq (_ ∷ _) [] = false
str_eq (a ∷ s) (b ∷ t) = a == b && str_eq s t

-- strings.HasPrefix(s, p), the prefix first.
unfoldable pub starts_with : Str → Str → Bool
starts_with [] s = true
starts_with (_ ∷ _) [] = false
starts_with (a ∷ p) (b ∷ s) = a == b && starts_with p s

-- strings.Contains(s, p), the sought text first.
unfoldable pub contains : Str → Str → Bool
unfolding starts_with
contains p [] = starts_with p []
contains p (b ∷ s) = starts_with p (b ∷ s) || contains p s

str_eq_sound : (a b : Str) → str_eq a b ≡ true → a ≡ b
unfolding str_eq
str_eq_sound [] [] h = refl
str_eq_sound [] (b ∷ t) h = ground arith
str_eq_sound (a ∷ s) [] h = ground arith
str_eq_sound (a ∷ s) (b ∷ t) h = ground (arith, str_eq_sound s t)

pub str_eq_refl : (a : Str) → str_eq a a ≡ true
unfolding str_eq
str_eq_refl [] = refl
str_eq_refl (a ∷ s) = ground (arith, str_eq_refl s)

pub str_eq_iff : (a b : Str) → (str_eq a b ≡ true) ↔ (a ≡ b)
str_eq_iff a b = (str_eq_sound a b, λ e. rw e (str_eq_refl b))

pub starts_with-append : (p s : Str) → starts_with p (p ++ s) ≡ true
unfolding starts_with
starts_with-append [] s = refl
starts_with-append (a ∷ p) s = ground (arith, starts_with-append p s)

pub contains_of_starts_with : (p s : Str) → starts_with p s ≡ true → contains p s ≡ true
unfolding contains
contains_of_starts_with p [] h = h
contains_of_starts_with p (b ∷ s) h = rw h

pub contains-append : (p s t : Str) → contains p t ≡ true → contains p (s ++ t) ≡ true
unfolding contains
contains-append p [] t h = h
contains-append p (b ∷ s) t h = ground (arith, contains-append p s t)
