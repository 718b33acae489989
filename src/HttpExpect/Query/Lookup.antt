-- ===== src/HttpExpect/Query/Lookup.antt =====
-- Where the lookup of one key panics.
use aragorn.Prelude.{
  Str, codes, str_eq, ℕ, ℤ, pos, negsuc, leb, ◌≡◌, refl, ◌↔◌, inl, inr, false, Option, none, some,
  panic, List, length, get_elem?-of-lt, arith, Bool-cases,
}
use aragorn.Prelude.Decimal.{atoi}
use aragorn.Json.{Value, Items, null, bool, num, str, arr, obj, items, field_of}
use aragorn.HttpExpect.Query.{index, is_beyond, at_index, in_object, lookup_json}

-- A key that reads as a negative number.
abbrev pub IsNegative : Str → Type 0
IsNegative k = (n : ℕ) × (atoi k ≡ some (negsuc n))

at_index-panic :
    (xs : List Value) (o : Option ℤ) → at_index xs o ≡ panic → (n : ℕ) × (o ≡ some (negsuc n))
unfolding at_index
at_index-panic xs none h = cc
at_index-panic xs (some (negsuc n)) h = (n, refl)
at_index-panic xs (some (pos i)) h = elim (Bool-cases (leb (length xs) i)) [
  | inl p ↦ cc (rw (p, at_index, is_beyond) at h)
  | inr p ↦
      let (v, found) = get_elem?-of-lt xs i (ground arith) in
      cc (rw (p, found, at_index, is_beyond, index) at h)
]

at_index-panics :
    (xs : List Value) (o : Option ℤ) (n : ℕ) → o ≡ some (negsuc n) → at_index xs o ≡ panic
unfolding at_index is_beyond index
at_index-panics xs o n h = rw h

-- A lookup panics exactly on an array, at a key other than "length" that reads as a negative number:
-- the bound from above is tested, and that from below is not.
pub lookup_json-panic_iff :
    (k : Str) (v : Value)
    → (lookup_json k v ≡ panic)
      ↔ ((xs : Items) × (v ≡ arr xs) × (str_eq k (codes "length") ≡ false) × IsNegative k)
unfolding lookup_json
lookup_json-panic_iff k (arr xs) = (to, from)
  where
    to :
        lookup_json k (arr xs) ≡ panic
        → (ys : Items) × (arr xs ≡ arr ys) × (str_eq k (codes "length") ≡ false) × IsNegative k
    to h = elim (Bool-cases (str_eq k (codes "length"))) [
      | inl p ↦ cc (rw (p, lookup_json) at h)
      | inr p ↦ (xs, refl, p, at_index-panic (items xs) (atoi k) (rw (p, lookup_json) at h))
    ]

    from :
        ((ys : Items) × (arr xs ≡ arr ys) × (str_eq k (codes "length") ≡ false) × IsNegative k)
        → lookup_json k (arr xs) ≡ panic
    from (ys, _, p, (n, q)) = rw p (at_index-panics (items xs) (atoi k) n q)
lookup_json-panic_iff k (obj fs) = (λ h. absurd (no_panic (field_of k fs) h), λ (xs, e, _, _). cc)
  where
    no_panic : (o : Option Value) → in_object o ≡ panic → ⊥
    no_panic none h = cc
    no_panic (some v) h = cc
lookup_json-panic_iff k null = (λ h. cc, λ (xs, e, _, _). cc)
lookup_json-panic_iff k (bool b) = (λ h. cc, λ (xs, e, _, _). cc)
lookup_json-panic_iff k (num b) = (λ h. cc, λ (xs, e, _, _). cc)
lookup_json-panic_iff k (str b) = (λ h. cc, λ (xs, e, _, _). cc)
