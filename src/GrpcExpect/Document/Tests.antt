-- ===== src/GrpcExpect/Document/Tests.antt =====
-- Documents over a directory whose file "a" refers to "b", and whose file "c" refers to itself.
use aragorn.Prelude.{
  Str, codes, str_eq, false, ◌≡◌, refl, none, some, ok, err, panic, ◌>>=◌, ◌++◌, if◌then◌else◌,
  arith, starts_with, subst,
}
use aragorn.Files.{is_abs}
use aragorn.Json.{Value, Fields, num, str, arr, obj, nil, cons, end, field, field_of}
use aragorn.GrpcExpect.Document.{
  Sources, too_deep, ref_of, raw_of, is_raw, resolve, read_json_file_to_doc, load_with, load_doc,
}
use aragorn.GrpcExpect.Document.Flat.{IsFlat}
use aragorn.GrpcExpect.Document.Nested.{ValuesFlat, load_doc-nested}
use aragorn.GrpcExpect.Document.Cyclic.{
  IsBounded, RefersBelow, AreRanked, load_doc-ends, load_doc-cyclic,
}

abbrev ref_to : Str → Fields
ref_to p = field (codes "$ref") (str p) end

-- The content of a file is its path; "/a" holds a reference to "b", "/c" one to "c", any other file an
-- empty document.
abbrev sources : Sources
sources = record {
  files = record { read = λ p. ok p; join = λ dir p. dir ++ p; dir = λ p. codes "/" };
  decode_object = λ content.
      if str_eq content (codes "/a")
      then ok (ref_to (codes "b"))
      else if str_eq content (codes "/c")
      then ok (ref_to (codes "c"))
      else ok end;
  base64 = λ s. s;
}

a_runs : load_doc sources 3 (codes "/") (obj (ref_to (codes "a"))) ≡ ok (obj end)
unfolding load_doc load_with ref_of raw_of is_raw field_of resolve str_eq starts_with ◌>>=◌
    read_json_file_to_doc is_abs
a_runs = refl

c_runs : load_doc sources 3 (codes "/") (obj (ref_to (codes "c"))) ≡ err too_deep
unfolding load_doc load_with ref_of raw_of is_raw field_of resolve str_eq starts_with ◌>>=◌
    read_json_file_to_doc is_abs
c_runs = refl

-- A list of two maps.
abbrev two : Value
two = arr (cons (obj (field (codes "n") (num (codes "1")) end)) (cons (obj end) nil))

two-IsFlat : IsFlat two
unfolding IsFlat ref_of raw_of field_of str_eq
two-IsFlat = ((refl, refl, (tt, tt, tt)), ((refl, refl, tt), tt))

abbrev nested : Fields
nested = field (codes "a") (obj end) end

nested_no_ref : ref_of nested ≡ none
unfolding ref_of field_of str_eq
nested_no_ref = refl

nested_no_raw : raw_of nested ≡ none
unfolding raw_of field_of str_eq
nested_no_raw = refl

nested-ValuesFlat : ValuesFlat nested
unfolding IsFlat ref_of raw_of field_of str_eq
nested-ValuesFlat = ((refl, refl, tt), tt)

load_doc-nested_example : load_doc sources 1 (codes "/") (obj nested) ≡ panic
load_doc-nested_example =
    load_doc-nested sources 0 (codes "/") nested nested_no_ref nested_no_raw nested-ValuesFlat tt

c_ref : ref_of (ref_to (codes "c")) ≡ some (codes "c")
unfolding ref_of field_of str_eq
c_ref = refl

c_not_raw : is_raw (ref_to (codes "c")) ≡ false
unfolding is_raw field_of str_eq
c_not_raw = refl

c_itself : resolve sources (codes "/") (codes "c") ≡ codes "/c"
unfolding resolve starts_with is_abs
c_itself = refl

c_decodes : sources.decode_object (codes "/c") ≡ ok (ref_to (codes "c"))
unfolding str_eq
c_decodes = refl

load_doc-cyclic_example : load_doc sources 7 (codes "/") (obj (ref_to (codes "c"))) ≡ err too_deep
load_doc-cyclic_example =
    load_doc-cyclic sources (codes "/c") (codes "/c") (codes "c") (ref_to (codes "c")) refl
      c_decodes c_ref c_not_raw c_itself 7

-- All files are empty.
abbrev empty : Sources
empty = record sources { decode_object = λ content. ok end }

empty_AreRanked : AreRanked empty (λ p. 0)
unfolding RefersBelow ref_of field_of
empty_AreRanked p content fs hr hd =
    let same : end ≡ fs = cc hd in
    subst (λ x. RefersBelow empty (λ q. 0) 0 (codes "/") (obj x)) same ((λ ref h. cc), tt)

a_RefersBelow : RefersBelow empty (λ p. 0) 1 (codes "/") (obj (ref_to (codes "a")))
unfolding RefersBelow
a_RefersBelow = ((λ ref h. omega arith), (tt, tt))

load_doc-ends_example : IsBounded (load_doc empty 2 (codes "/") (obj (ref_to (codes "a"))))
load_doc-ends_example =
    load_doc-ends empty (λ p. 0) empty_AreRanked 1 (codes "/") (obj (ref_to (codes "a")))
      a_RefersBelow
