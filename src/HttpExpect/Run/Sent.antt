-- ===== src/HttpExpect/Run/Sent.antt =====
-- The URL that the run of an HTTP test sends: `test.Run` of testsuite/httpexpect/httpexpect.go.
use aragorn.Prelude.{
  Str, ℕ, ◌≡◌, ◌∙◌, refl, ap, subst, some, ok, ◌>>=◌, >>=-eq-ok, List, [], ◌∷◌, ◌++◌, append-nil,
  All, get_elem?, Option, none, err,
}
use aragorn.Prelude.Assoc.{Assoc}
use aragorn.Json.{Value, obj}
use aragorn.HttpExpect.Query.{query_json}
use aragorn.HttpExpect.Request.{Url}
use aragorn.HttpExpect.Replace.{replace, replace-hit, replace-free, replace-nil, IsFree}
use aragorn.HttpExpect.Prepare.{Prepared}
use aragorn.HttpExpect.Run.{Net, document_of, old_new, sent_url, fill_path, fill_query}
use aragorn.HttpExpect.Run.Vars.{
  IsName, var, IsVar, NoPanic, old_new-Opens, old_new-IsVarPair, old_new-first_match,
  old_new-first_match-none, old_new-ok, replace-var,
}

-- A variable in a text: the text before it, its name, and the value that is found for it, if any.
pub record Piece : Type 0 where
  pub before : Str
  pub name : Str
  pub value : Option Value

-- What stands for a variable at the end: the variable itself, where it has no value.
abbrev pub shown : (Value → Str) → Str → Option Value → Str
shown text name (some v) = text v
shown text name none = var name

-- The text with the variables, and the text with their values.
abbrev pub template : List Piece → Str → Str
template [] tail = tail
template (p ∷ ps) tail = p.before ++ (var p.name ++ template ps tail)

abbrev pub filled : (Value → Str) → List Piece → Str → Str
filled text [] tail = tail
filled text (p ∷ ps) tail = p.before ++ (shown text p.name p.value ++ filled text ps tail)

-- What the search for a name in the metadata gives: a value, or an error.
abbrev pub Finds : Assoc Value → Str → Option Value → Type 0
Finds md name (some v) = query_json name (obj (document_of md)) ≡ ok v
Finds md name none = (e : Str) × (query_json name (obj (document_of md)) ≡ err e)

-- The variable is one of those that were found in the test, and its value is what is found for it.
pub record IsFound (md : Assoc Value) (qs : List Str) (p : Piece) : Type 0 where
  pub free : IsFree b'{' p.before
  pub named : IsName p.name
  pub place : ℕ
  pub listed : get_elem? qs place ≡ some (var p.name)
  pub found : Finds md p.name p.value

replace-shown :
    (text : Value → Str) (md : Assoc Value) (qs : List Str) (pairs : List (Str × Str)) (place : ℕ)
    (name s : Str) (value : Option Value)
    → All IsVar qs
    → old_new text md qs ≡ ok pairs
    → IsName name
    → get_elem? qs place ≡ some (var name)
    → Finds md name value
    → replace pairs (var name ++ s) ≡ shown text name value ++ replace pairs s
replace-shown text md qs pairs place name s (some v) vars h named listed found =
    replace-hit pairs b'{' (b'{' ∷ (name ++ b'}' ∷ b'}' ∷ [])) (text v) s
      (old_new-first_match text md qs pairs place name s v vars named listed found h)
replace-shown text md qs pairs place name s none vars h named listed (e, missing) =
    replace-var pairs name s (old_new-IsVarPair text md qs pairs vars h) named
      (old_new-first_match-none text md qs pairs name s e vars named missing h)

replace-template :
    (text : Value → Str) (md : Assoc Value) (qs : List Str) (pairs : List (Str × Str))
    (ps : List Piece) (tail : Str)
    → All IsVar qs
    → old_new text md qs ≡ ok pairs
    → All (IsFound md qs) ps
    → IsFree b'{' tail
    → replace pairs (template ps tail) ≡ filled text ps tail
replace-template text md qs pairs [] tail vars h saved free =
    let all = old_new-Opens text md qs pairs vars h in
    let ended : replace pairs (tail ++ []) ≡ tail ++ [] =
      replace-free b'{' pairs tail [] all free ∙ ap (λ s. tail ++ s) (replace-nil pairs) in
    subst (λ s. replace pairs s ≡ s) (append-nil tail) ended
replace-template text md qs pairs (p ∷ ps) tail vars h (saved, more) free =
    let all = old_new-Opens text md qs pairs vars h in
    let rest = replace-template text md qs pairs ps tail vars h more free in
    let hit =
      replace-shown text md qs pairs saved.place p.name (template ps tail) p.value vars h
        saved.named saved.listed saved.found in
    replace-free b'{' pairs p.before (var p.name ++ template ps tail) all saved.free
    ∙ ap (λ s. p.before ++ s) (hit ∙ ap (λ s. shown text p.name p.value ++ s) rest)

-- Without a variable there is nothing to fill in.
filled-nothing :
    (text : Value → Str) (md : Assoc Value) (ps : List Piece) (tail : Str)
    → All (IsFound md []) ps
    → template ps tail ≡ filled text ps tail
filled-nothing text md [] tail saved = refl
filled-nothing text md (p ∷ ps) tail (saved, more) = let at = saved.listed in cc

-- The encoded path at the end.
abbrev pub left_raw : List Str → Str → Str
left_raw [] raw = raw
left_raw (q ∷ qs) raw = []

module _ {W : Type 0} (net : Net W) (md : Assoc Value) where
  fill_path-ok :
      (qs : List Str) (u : Url)
      → All IsVar qs
      → All (NoPanic md) qs
      → (u' : Url) × (fill_path net qs md u ≡ ok u')
  unfolding fill_path ◌>>=◌
  fill_path-ok [] u vars safe = (u, refl)
  fill_path-ok (q ∷ qs) u vars safe =
      let (pairs, e) = old_new-ok net.sprint md (q ∷ qs) vars safe in
      (record u { path = replace pairs u.path; raw_path = [] }, rw e refl)

  fill_query-ok :
      (qs : List Str) (u : Url)
      → All IsVar qs
      → All (NoPanic md) qs
      → (u' : Url) × (fill_query net qs md u ≡ ok u')
  unfolding fill_query ◌>>=◌
  fill_query-ok [] u vars safe = (u, refl)
  fill_query-ok (q ∷ qs) u vars safe =
      let text : Value → Str = λ v. net.query_escape (net.sprint v) in
      let (pairs, e) = old_new-ok text md (q ∷ qs) vars safe in
      (record u { raw_query = replace pairs u.raw_query }, rw e refl)

  fill_path-filled :
      (qs : List Str) (u u' : Url) (ps : List Piece) (tail : Str)
      → All IsVar qs
      → u.path ≡ template ps tail
      → All (IsFound md qs) ps
      → IsFree b'{' tail
      → fill_path net qs md u ≡ ok u'
      → (u'.path ≡ filled net.sprint ps tail)
        × (u'.raw_query ≡ u.raw_query)
        × (u'.origin ≡ u.origin)
        × (u'.raw_path ≡ left_raw qs u.raw_path)
  unfolding fill_path
  fill_path-filled [] u u' ps tail vars is saved free h =
      let same : u ≡ u' = cc h in
      subst
        (λ (x : Url).
          (x.path ≡ filled net.sprint ps tail)
          × (x.raw_query ≡ u.raw_query)
          × (x.origin ≡ u.origin)
          × (x.raw_path ≡ left_raw [] u.raw_path))
        same (is ∙ filled-nothing net.sprint md ps tail saved, refl, refl, refl)
  fill_path-filled (q ∷ qs) u u' ps tail vars is saved free h =
      let (pairs, found, e) = >>=-eq-ok _ _ h in
      let same : record u { path = replace pairs u.path; raw_path = [] } ≡ u' = cc e in
      subst
        (λ (x : Url).
          (x.path ≡ filled net.sprint ps tail)
          × (x.raw_query ≡ u.raw_query)
          × (x.origin ≡ u.origin)
          × (x.raw_path ≡ left_raw (q ∷ qs) u.raw_path))
        same
        (
          ap (replace pairs) is
              ∙ replace-template net.sprint md (q ∷ qs) pairs ps tail vars found saved free,
          refl,
          refl,
          refl,
        )

  fill_query-filled :
      (qs : List Str) (u u' : Url) (ps : List Piece) (tail : Str)
      → All IsVar qs
      → u.raw_query ≡ template ps tail
      → All (IsFound md qs) ps
      → IsFree b'{' tail
      → fill_query net qs md u ≡ ok u'
      → (u'.raw_query ≡ filled (λ v. net.query_escape (net.sprint v)) ps tail)
        × (u'.path ≡ u.path)
        × (u'.origin ≡ u.origin)
        × (u'.raw_path ≡ u.raw_path)
  unfolding fill_query
  fill_query-filled [] u u' ps tail vars is saved free h =
      let same : u ≡ u' = cc h in
      subst
        (λ (x : Url).
          (x.raw_query ≡ filled (λ v. net.query_escape (net.sprint v)) ps tail)
          × (x.path ≡ u.path)
          × (x.origin ≡ u.origin)
          × (x.raw_path ≡ u.raw_path))
        same
        (
          is ∙ filled-nothing (λ v. net.query_escape (net.sprint v)) md ps tail saved,
          refl,
          refl,
          refl,
        )
  fill_query-filled (q ∷ qs) u u' ps tail vars is saved free h =
      let (pairs, found, e) = >>=-eq-ok _ _ h in
      let same : record u { raw_query = replace pairs u.raw_query } ≡ u' = cc e in
      subst
        (λ (x : Url).
          (x.raw_query ≡ filled (λ v. net.query_escape (net.sprint v)) ps tail)
          × (x.path ≡ u.path)
          × (x.origin ≡ u.origin)
          × (x.raw_path ≡ u.raw_path))
        same
        (
          ap (replace pairs) is
              ∙ replace-template (λ v. net.query_escape (net.sprint v)) md (q ∷ qs) pairs ps tail
                  vars found saved free,
          refl,
          refl,
          refl,
        )

  -- The URL that a run sends, where the lookup of no variable panics and each opening brace of the path
  -- and of the query belongs to a variable that was found in the test: every value that is found stands
  -- in place of its variable, escaped in the query; a variable without a value, all else in the path and
  -- the query, and the rest of the URL is as it was, but for the encoded path, which is cleared where
  -- the path has a variable.
  pub sent_url-filled :
      (t : Prepared) (ps rs : List Piece) (tail end : Str)
      → All IsVar t.path_queries × All (NoPanic md) t.path_queries
      → All IsVar t.query_queries × All (NoPanic md) t.query_queries
      → (t.request.url.path ≡ template ps tail)
        × All (IsFound md t.path_queries) ps
        × IsFree b'{' tail
      → (t.request.url.raw_query ≡ template rs end)
        × All (IsFound md t.query_queries) rs
        × IsFree b'{' end
      → (u : Url) × (sent_url net t (some md) ≡ ok u)
        × (u.path ≡ filled net.sprint ps tail)
        × (u.raw_query ≡ filled (λ v. net.query_escape (net.sprint v)) rs end)
        × (u.origin ≡ t.request.url.origin)
        × (u.raw_path ≡ left_raw t.path_queries t.request.url.raw_path)
  unfolding sent_url ◌>>=◌
  sent_url-filled t ps rs tail end (vars, safe) (vars', safe') (is, saved, free)
        (is', saved', free') =
      let first = fill_path-ok t.path_queries t.request.url vars safe in
      let (u, path_filled) = first in
      let (path, query, origin, raw) =
        fill_path-filled t.path_queries t.request.url u ps tail vars is saved free path_filled in
      let (u', query_filled) = fill_query-ok t.query_queries u vars' safe' in
      let (query', path', origin', raw') =
        fill_query-filled t.query_queries u u' rs end vars' (query ∙ is') saved' free'
          query_filled in
      (u', rw path_filled query_filled, path' ∙ path, query', origin' ∙ origin, raw' ∙ raw)
