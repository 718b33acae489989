-- ===== src/HttpExpect/Query/Path.antt =====
-- Queries of several keys.
use aragorn.Prelude.{
  Str, codes, str_eq, ℕ, ◌==◌, ◌≡◌, ◌≢◌, All, some, refl, sym, ap, ◌∙◌, ◌↔◌, inl, inr, true, false,
  Outcome, ok, err, panic, wrap_err, wrap_err-eq-ok, ◌>>=◌, >>=-eq-ok, List, [], ◌∷◌, ◌++◌,
  append_assoc, append-nil, arith, Bool-cases,
}
use aragorn.Json.{Value, Items, Fields, arr, obj, field_of}
use aragorn.HttpExpect.Query.Lookup.{IsNegative, lookup_json-panic_iff}
use aragorn.HttpExpect.Query.{
  cons_head, in_object, split, join, lookup_json, query_from, query_json,
}

module _ (sep : ℕ) where
  split-cons : (s : Str) → (part : Str) × (parts : List Str) × (split sep s ≡ part ∷ parts)
  unfolding split
  split-cons [] = ([], [], refl)
  split-cons (c ∷ s) =
      let (part, parts, e) = split-cons s in
      elim (Bool-cases (c == sep)) [
        | inl p ↦ ([], split sep s, rw p)
        | inr p ↦ (c ∷ part, parts, rw (p, e, cons_head))
      ]

  -- Splitting texts that a separator joins.
  split-append : (a b : Str) → split sep (a ++ sep ∷ b) ≡ split sep a ++ split sep b
  unfolding split cons_head
  split-append [] b = let e : (sep == sep) ≡ true = ground arith in rw e
  split-append (c ∷ a) b =
      let (part, parts, e) = split-cons a in
      elim (Bool-cases (c == sep)) [
        | inl p ↦ rw p (ap (λ t. [] ∷ t) (split-append a b))
        | inr p ↦ rw (p, split-append a b, e)
      ]

-- What is found does not depend on the keys that an error would name.
query_from-seen :
    (seen other ks : List Str) (v r : Value)
    → query_from seen ks v ≡ ok r
    → query_from other ks v ≡ ok r
unfolding query_from ◌>>=◌
query_from-seen seen other [] v r h = h
query_from-seen seen other (k ∷ ks) v r h =
    let (u, found, rest) = >>=-eq-ok _ _ h in
    let one : lookup_json k v ≡ ok u = wrap_err-eq-ok _ _ found in
    rw one (query_from-seen (seen ++ k ∷ []) (other ++ k ∷ []) ks u r rest)

query_from-append :
    (seen ks ls : List Str) (v : Value)
    → query_from seen (ks ++ ls) v ≡ (query_from seen ks v >>= query_from (seen ++ ks) ls)
unfolding query_from ◌>>=◌
query_from-append seen [] ls v = rw append-nil
query_from-append seen (k ∷ ks) ls v =
    go (lookup_json k v) (query_from-append (seen ++ k ∷ []) ks ls)
  where
    go :
        (o : Outcome Str Value)
        → ((u : Value)
            → query_from (seen ++ k ∷ []) (ks ++ ls) u
              ≡ (query_from (seen ++ k ∷ []) ks u >>= query_from ((seen ++ k ∷ []) ++ ks) ls))
        → (wrap_err (λ e. join (codes ".") (seen ++ k ∷ []) ++ (codes ": " ++ e)) o
            >>= query_from (seen ++ k ∷ []) (ks ++ ls))
          ≡ ((wrap_err (λ e. join (codes ".") (seen ++ k ∷ []) ++ (codes ": " ++ e)) o
                >>= query_from (seen ++ k ∷ []) ks)
              >>= query_from (seen ++ k ∷ ks) ls)
    go (ok u) ih = rw (ih u, append_assoc)
    go (err e) ih = refl
    go panic ih = refl

-- A query of two parts finds what the second part finds in the value that the first part finds.
pub query_json-append :
    (a b : Str) (v r : Value)
    → (query_json (a ++ b'.' ∷ b) v ≡ ok r)
      ↔ ((u : Value) × (query_json a v ≡ ok u) × (query_json b u ≡ ok r))
unfolding query_json ◌>>=◌
query_json-append a b v r = (to, from)
  where
    whole :
        query_from [] (split b'.' (a ++ b'.' ∷ b)) v
        ≡ (query_from [] (split b'.' a) v >>= query_from (split b'.' a) (split b'.' b))
    whole = rw (split-append b'.' a b) (query_from-append [] (split b'.' a) (split b'.' b) v)

    to :
        query_from [] (split b'.' (a ++ b'.' ∷ b)) v ≡ ok r
        → (u : Value) × (query_from [] (split b'.' a) v ≡ ok u)
          × (query_from [] (split b'.' b) u ≡ ok r)
    to h =
        let (u, first, second) = >>=-eq-ok (query_from [] (split b'.' a) v) _ (sym whole ∙ h) in
        (u, first, query_from-seen (split b'.' a) [] (split b'.' b) u r second)

    from :
        ((u : Value) × (query_from [] (split b'.' a) v ≡ ok u)
          × (query_from [] (split b'.' b) u ≡ ok r))
        → query_from [] (split b'.' (a ++ b'.' ∷ b)) v ≡ ok r
    from (u, first, second) =
        whole ∙ rw first (query_from-seen [] (split b'.' a) (split b'.' b) u r second)

-- A query whose last key reads as a negative number panics where the keys before it find an array.
query_json-negative :
    (a k : Str) (v : Value) (xs : Items)
    → query_json a v ≡ ok (arr xs)
    → split b'.' k ≡ k ∷ []
    → str_eq k (codes "length") ≡ false
    → IsNegative k
    → query_json (a ++ b'.' ∷ k) v ≡ panic
unfolding query_json query_from ◌>>=◌
query_json-negative a k v xs found single other negative =
    let panics = (lookup_json-panic_iff k (arr xs)).1 (xs, refl, other, negative) in
    split_query ∙ rw (found, single, panics)
  where
    split_query :
        query_from [] (split b'.' (a ++ b'.' ∷ k)) v
        ≡ (query_from [] (split b'.' a) v >>= query_from (split b'.' a) (split b'.' k))
    split_query = rw (split-append b'.' a k) (query_from-append [] (split b'.' a) (split b'.' k) v)

-- A text without the separator is one part.
split-free : (sep : ℕ) (s : Str) → All (λ b. b ≢ sep) s → split sep s ≡ s ∷ []
unfolding split cons_head
split-free sep [] free = refl
split-free sep (c ∷ s) (other, free) =
    let miss : (c == sep) ≡ false = ground (arith, other) in rw (miss, split-free sep s free)

-- A key without a dot finds the field of that name.
pub query_json-field :
    (k : Str) (fs : Fields) (v : Value)
    → All (λ b. b ≢ b'.') k
    → field_of k fs ≡ some v
    → query_json k (obj fs) ≡ ok v
unfolding query_json query_from lookup_json in_object ◌>>=◌
query_json-field k fs v free found = rw (split-free b'.' k free, found)
