-- ===== src/HttpExpect/Documents/Fixed.antt =====
-- Mending the references of a schema a second time changes nothing.
use aragorn.Prelude.{
  Str, codes, str_eq, contains, contains-append, contains_of_starts_with, starts_with-append, true,
  false, ◌≡◌, refl, ap, ◌⊎◌, inl, inr, ◌++◌, Bool-cases,
}
use aragorn.Files.{get_file_path}
use aragorn.Json.{
  Value, Items, Fields, null, bool, num, str, arr, obj, nil, cons, end, field, ref_key,
}
use aragorn.HttpExpect.Documents.{
  Sources, absolute, fix_ref, fix_ref_in_interface, fix_ref_in_items, fix_ref_in_doc,
}

file_url : (p : Str) → contains (codes "://") (codes "file://" ++ p) ≡ true
file_url p =
    contains-append (codes "://") (codes "file") (codes "://" ++ p) (
      contains_of_starts_with (codes "://") (codes "://" ++ p) (starts_with-append (codes "://") p))

module _ (src : Sources) (root : Str) where
  absolute-fixed :
      (ref : Str) (r : Str ⊎ Str)
      → contains (codes "://") ref ≡ false
      → src.abs (get_file_path src.files root ref) ≡ r
      → fix_ref src root (absolute src root ref r) ≡ absolute src root ref r
  unfolding fix_ref absolute
  absolute-fixed ref (inl e) h same = rw (h, same) refl
  absolute-fixed ref (inr p) h same = rw (file_url p) refl

  fix_ref-fixed : (v : Value) → fix_ref src root (fix_ref src root v) ≡ fix_ref src root v
  unfolding fix_ref
  fix_ref-fixed null = refl
  fix_ref-fixed (bool b) = refl
  fix_ref-fixed (num n) = refl
  fix_ref-fixed (arr xs) = refl
  fix_ref-fixed (obj fs) = refl
  fix_ref-fixed (str ref) = elim (Bool-cases (contains (codes "://") ref)) [
    | inl h ↦ rw (h, h) refl
    | inr h ↦ rw h (absolute-fixed ref (src.abs (get_file_path src.files root ref)) h refl)
  ]

  mutual
    unfolding fix_ref_in_doc

    interface-fixed :
        (v : Value)
        → fix_ref_in_interface src root (fix_ref_in_interface src root v)
          ≡ fix_ref_in_interface src root v
    interface-fixed null = refl
    interface-fixed (bool b) = refl
    interface-fixed (num n) = refl
    interface-fixed (str s) = refl
    interface-fixed (arr xs) = ap arr (items-fixed xs)
    interface-fixed (obj fs) = ap obj (doc-fixed fs)

    items-fixed :
        (xs : Items)
        → fix_ref_in_items src root (fix_ref_in_items src root xs) ≡ fix_ref_in_items src root xs
    items-fixed nil = refl
    items-fixed (cons x xs) = rw (interface-fixed x, items-fixed xs) refl

    doc-fixed :
        (fs : Fields)
        → fix_ref_in_doc src root (fix_ref_in_doc src root fs) ≡ fix_ref_in_doc src root fs
    doc-fixed end = refl
    doc-fixed (field k v fs) = elim (Bool-cases (str_eq k ref_key)) [
      | inl h ↦ rw (h, fix_ref-fixed v, doc-fixed fs) refl
      | inr h ↦ rw (h, interface-fixed v, doc-fixed fs) refl
    ]

  -- Mending the references of a schema a second time changes nothing: those that were made absolute
  -- are seen to be so.
  fix_ref_in_doc_idempotent :
      (fs : Fields)
      → fix_ref_in_doc src root (fix_ref_in_doc src root fs) ≡ fix_ref_in_doc src root fs
  fix_ref_in_doc_idempotent fs = doc-fixed fs
