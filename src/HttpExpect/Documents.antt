-- ===== src/HttpExpect/Documents.antt =====
-- The documents of HTTP tests: `getDocumentField`, `getObjectField` and `fixRefInDoc` of
-- testsuite/httpexpect/config.go.
pub mod Fixed
use aragorn.Prelude.{
  Str, codes, str_eq, contains, Bool, true, false, Option, none, some, Outcome, ok, err, panic,
  ◌>>=◌, ◌⊎◌, inl, inr, List, [], ◌∷◌, ◌++◌, if◌then◌else◌,
}
use aragorn.Files.{Files, get_file_path}
use aragorn.Json.{
  Value, Items, Fields, null, bool, num, str, arr, obj, nil, cons, end, field, ref_key, ref_of,
  is_raw, raw_of,
}
use aragorn.HttpExpect.Response.{Document, raw, json}

-- Files, filepath.Abs, and json.Decode into an interface and into a map.
pub record Sources : Type 0 where
  pub files : Files
  pub abs : Str → Str ⊎ Str
  pub decode : Str → Outcome Str Value
  pub decode_object : Str → Outcome Str Fields

module _ (src : Sources) (root : Str) where
  -- A "$ref" without a scheme, by what filepath.Abs makes of its path.
  absolute : Str → Str ⊎ Str → Value
  absolute ref (inl e) = str ref
  absolute ref (inr p) = str (codes "file://" ++ p)

  fix_ref : Value → Value
  unfolding absolute
  fix_ref (str ref) =
      if contains (codes "://") ref
      then str ref
      else absolute ref (src.abs (get_file_path src.files root ref))
  fix_ref null = null
  fix_ref (bool b) = bool b
  fix_ref (num n) = num n
  fix_ref (arr xs) = arr xs
  fix_ref (obj fs) = obj fs

  -- `fixRefInInterface` and `fixRefInDoc`, which change slices and maps in place.
  unfoldable mutual
    unfolding fix_ref

    pub fix_ref_in_interface : Value → Value
    fix_ref_in_interface null = null
    fix_ref_in_interface (bool b) = bool b
    fix_ref_in_interface (num n) = num n
    fix_ref_in_interface (str s) = str s
    fix_ref_in_interface (arr xs) = arr (fix_ref_in_items xs)
    fix_ref_in_interface (obj fs) = obj (fix_ref_in_doc fs)

    pub fix_ref_in_items : Items → Items
    fix_ref_in_items nil = nil
    fix_ref_in_items (cons x xs) = cons (fix_ref_in_interface x) (fix_ref_in_items xs)

    pub fix_ref_in_doc : Fields → Fields
    fix_ref_in_doc end = end
    fix_ref_in_doc (field k v fs) =
        let fixed = fix_ref_in_interface v in
        field k (if str_eq k ref_key then fix_ref v else fixed) (fix_ref_in_doc fs)

  -- The file that a document refers to.
  referred : Bool → Option Str → Fields → Outcome Str Document
  referred is_bytes none fs = ok (json (obj fs))
  referred is_bytes (some ref) fs = do
    content ← src.files.read (get_file_path src.files root ref)
    if is_bytes then ok (raw content) else src.decode content >>= λ v. ok (json v)

  in_map : Option Str → Fields → Outcome Str Document
  unfolding referred
  in_map (some bytes) fs = ok (raw bytes)
  in_map none fs = referred (is_raw fs) (ref_of fs) fs

  -- `getDocumentField`
  unfoldable pub get_document_field : Value → Outcome Str Document
  unfolding in_map
  get_document_field (obj fs) = in_map (raw_of fs) fs
  get_document_field null = ok (json null)
  get_document_field (bool b) = ok (json (bool b))
  get_document_field (num n) = ok (json (num n))
  get_document_field (str s) = ok (json (str s))
  get_document_field (arr xs) = ok (json (arr xs))

  object_of : Option Str → Fields → Outcome Str Fields
  object_of none fs = ok fs
  object_of (some ref) fs = do
    content ← src.files.read (get_file_path src.files root ref)
    src.decode_object content

  -- `getObjectField`
  unfoldable pub get_object_field : Fields → Outcome Str Fields
  unfolding object_of
  get_object_field fs = object_of (ref_of fs) fs
