-- ===== src/GrpcExpect/Document/Nested.antt =====
-- A map directly inside a map makes `loadDoc` panic.
use aragorn.Prelude.{Str, ℕ, suc, ◌≡◌, none, panic, ◌>>=◌}
use aragorn.Json.{Value, Fields, null, bool, num, str, arr, obj, end, field}
use aragorn.GrpcExpect.Document.{
  Sources, Loaded, ref_of, raw_of, keep_loaded, load_with, load_fields, load_doc,
}
use aragorn.GrpcExpect.Document.Flat.{IsFlat, flat-load_with}

-- Every value of the map is flat.
abbrev pub ValuesFlat : Fields → Type 0
ValuesFlat end = Unit
ValuesFlat (field k v fs) = IsFlat v × ValuesFlat fs

-- Some value of the map is a map.
abbrev pub HasObject : Fields → Type 0
HasObject end = ⊥
HasObject (field k (obj gs) fs) = Unit
HasObject (field k null fs) = HasObject fs
HasObject (field k (bool b) fs) = HasObject fs
HasObject (field k (num n) fs) = HasObject fs
HasObject (field k (str s) fs) = HasObject fs
HasObject (field k (arr xs) fs) = HasObject fs

module _ (src : Sources) (load : Str → Value → Loaded Value) (path : Str) where
  fields-panic : (fs : Fields) → ValuesFlat fs → HasObject fs → load_fields src load path fs ≡ panic
  unfolding load_fields keep_loaded ◌>>=◌
  fields-panic end h o = absurd o
  fields-panic (field k (obj gs) fs) (hv, h) o = rw (flat-load_with src load path (obj gs) hv)
  fields-panic (field k null fs) (hv, h) o = rw (fields-panic fs h o)
  fields-panic (field k (bool b) fs) (hv, h) o = rw (fields-panic fs h o)
  fields-panic (field k (num n) fs) (hv, h) o = rw (fields-panic fs h o)
  fields-panic (field k (str s) fs) (hv, h) o = rw (fields-panic fs h o)
  fields-panic (field k (arr xs) fs) (hv, h) o =
      rw (flat-load_with src load path (arr xs) hv, fields-panic fs h o)

-- A document that has no "$ref" and no "$raw", and a map directly inside its outermost map, makes the
-- loading panic, where all else in it is flat.
pub load_doc-nested :
    (src : Sources) (n : ℕ) (path : Str) (fs : Fields)
    → ref_of fs ≡ none
    → raw_of fs ≡ none
    → ValuesFlat fs
    → HasObject fs
    → load_doc src (suc n) path (obj fs) ≡ panic
unfolding load_doc load_with ◌>>=◌
load_doc-nested src n path fs r w h o = rw (r, w, fields-panic src (load_doc src n) path fs h o)
