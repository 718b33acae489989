-- ===== src/GrpcExpect/Document/Flat.antt =====
-- Documents that `loadDoc` leaves as they are.
use aragorn.Prelude.{Str, ℕ, suc, ◌≡◌, refl, none, ok, ◌>>=◌}
use aragorn.Json.{Value, Items, Fields, null, bool, num, str, arr, obj, nil, cons, end, field}
use aragorn.GrpcExpect.Document.{
  Sources, Loaded, ref_of, raw_of, keep_loaded, load_with, load_items, load_fields, load_doc,
}

-- The value of a field that is no map.
abbrev pub IsNoObject : Value → Type 0
IsNoObject (obj fs) = ⊥
IsNoObject null = Unit
IsNoObject (bool b) = Unit
IsNoObject (num n) = Unit
IsNoObject (str s) = Unit
IsNoObject (arr xs) = Unit

-- No map of the document has "$ref" or "$raw" for a text, and none lies directly in a map.
unfoldable mutual
  pub IsFlat : Value → Type 0
  IsFlat null = Unit
  IsFlat (bool b) = Unit
  IsFlat (num n) = Unit
  IsFlat (str s) = Unit
  IsFlat (arr xs) = AllFlat xs
  IsFlat (obj fs) = (ref_of fs ≡ none) × (raw_of fs ≡ none) × AreFlat fs

  pub AllFlat : Items → Type 0
  AllFlat nil = Unit
  AllFlat (cons x xs) = IsFlat x × AllFlat xs

  pub AreFlat : Fields → Type 0
  AreFlat end = Unit
  AreFlat (field k v fs) = IsFlat v × IsNoObject v × AreFlat fs

keep-no_object : (v : Value) → IsNoObject v → keep_loaded v v ≡ ok v
unfolding keep_loaded
keep-no_object null h = refl
keep-no_object (bool b) h = refl
keep-no_object (num n) h = refl
keep-no_object (str s) h = refl
keep-no_object (arr xs) h = refl
keep-no_object (obj fs) h = absurd h

module _ (src : Sources) (load : Str → Value → Loaded Value) (path : Str) where
  mutual
    unfolding load_with IsFlat ◌>>=◌

    flat-with : (v : Value) → IsFlat v → load_with src load path v ≡ ok v
    flat-with null h = refl
    flat-with (bool b) h = refl
    flat-with (num n) h = refl
    flat-with (str s) h = refl
    flat-with (arr xs) h = rw (flat-items xs h)
    flat-with (obj fs) (r, w, h) = rw (r, w, flat-fields fs h)

    flat-items : (xs : Items) → AllFlat xs → load_items src load path xs ≡ ok xs
    flat-items nil h = refl
    flat-items (cons x xs) (hx, h) = rw (flat-with x hx, flat-items xs h)

    flat-fields : (fs : Fields) → AreFlat fs → load_fields src load path fs ≡ ok fs
    flat-fields end h = refl
    flat-fields (field k v fs) (hv, simple, h) =
        rw (flat-with v hv, keep-no_object v simple, flat-fields fs h)

  pub flat-load_with : (v : Value) → IsFlat v → load_with src load path v ≡ ok v
  flat-load_with v h = flat-with v h

-- A document whose maps have no "$ref" and no "$raw", and no map directly inside a map, is loaded as it
-- is.
pub load_doc-flat :
    (src : Sources) (n : ℕ) (path : Str) (v : Value) → IsFlat v → load_doc src (suc n) path v ≡ ok v
unfolding load_doc
load_doc-flat src n path v h = flat-load_with src (load_doc src n) path v h
