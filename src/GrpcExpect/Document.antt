-- ===== src/GrpcExpect/Document.antt =====
-- The documents of gRPC tests: `loadDoc` and `newDocToMsgs` of testsuite/grpcexpect/config.go.
pub mod Nested
pub mod Flat
pub mod Cyclic
mod Tests
use aragorn.Prelude.{
  Str, codes, ℕ, zero, suc, Bool, true, false, Option, none, some, Outcome, ok, err, panic, ◌>>=◌,
  ◌⊎◌, inl, inr, List, [], ◌∷◌, map, if◌then◌else◌,
}
use aragorn.Files.{Files, is_abs}
use aragorn.Json.{
  Value, Items, Fields, null, bool, num, str, arr, obj, nil, cons, end, field, items, field_of,
}
unfoldable pub use aragorn.Json.{ref_of, is_raw, raw_of}

-- `too_deep`: the files that refer to one another nest deeper than the bound of the model. The source
-- has no bound.
pub data LoadError : Type 0 where
  failed : Str → LoadError
  too_deep : LoadError

abbrev pub Loaded : Type 0 → Type 0
Loaded = Outcome LoadError

-- `decode_object` is json.Decode into a `map[string]interface{}`, `base64` the standard encoding.
pub record Sources : Type 0 where
  pub files : Files
  pub decode_object : Str → Outcome Str Fields
  pub base64 : Str → Str

-- `newVal != v` where `v` holds a map: comparing two maps is a panic of the Go runtime, and a text
-- differs from a map.
compare_to_map : Value → Loaded Value
compare_to_map (obj fs) = panic
compare_to_map v = ok v

-- What the loop over a map keeps of a value `v` that was loaded as `w`.
keep_loaded : Value → Value → Loaded Value
unfolding compare_to_map
keep_loaded (obj fs) w = compare_to_map w
keep_loaded v w = ok w

read_error : {A : Type 0} → Outcome Str A → Loaded A
read_error (ok content) = ok content
read_error (err e) = err (failed e)
read_error panic = panic

module _ (src : Sources) where
  -- `readFileToBase64String`
  unfoldable pub read_file_to_base64_string : Str → Loaded Value
  unfolding read_error
  read_file_to_base64_string path = do
    content ← read_error (src.files.read path)
    ok (str (src.base64 content))

  -- `readJSONFileToDoc`; the first argument loads the document of the file. That the file stays open
  -- meanwhile is left out.
  unfoldable pub read_json_file_to_doc : (Str → Value → Loaded Value) → Str → Loaded Value
  unfolding read_error
  read_json_file_to_doc load path = do
    content ← read_error (src.files.read path)
    fs ← read_error (src.decode_object content)
    load (src.files.dir path) (obj fs)

  -- Where a "$ref" of the directory `path` leads.
  unfoldable pub resolve : Str → Str → Str
  resolve path ref = if is_abs ref then ref else src.files.join path ref

  -- A map with "$ref".
  load_ref : (Str → Value → Loaded Value) → Str → Fields → Str → Loaded Value
  unfolding resolve
  load_ref load path fs ref =
      if is_raw fs
      then read_file_to_base64_string (resolve path ref)
      else read_json_file_to_doc load (resolve path ref)

  -- A map, by its "$ref" and its "$raw"; `loop` is what the loop over its entries gives.
  load_map :
      (Str → Value → Loaded Value)
      → Str
      → Fields
      → Loaded Fields
      → Option Str
      → Option Str
      → Loaded Value
  unfolding load_ref
  load_map load path fs loop (some ref) raw = load_ref load path fs ref
  load_map load path fs loop none (some raw) = ok (str (src.base64 raw))
  load_map load path fs loop none none = loop >>= λ gs. ok (obj gs)

  -- `loadDoc`, with what loads the document of a file that is referred to. Slices and maps are changed
  -- in place in the source: here the changed value is returned.
  unfoldable mutual
    unfolding load_map keep_loaded

    pub load_with : (Str → Value → Loaded Value) → Str → Value → Loaded Value
    load_with load path null = ok null
    load_with load path (bool b) = ok (bool b)
    load_with load path (num n) = ok (num n)
    load_with load path (str s) = ok (str s)
    load_with load path (arr xs) = do ys ← load_items load path xs; ok (arr ys)
    load_with load path (obj fs) =
        let loop = load_fields load path fs in load_map load path fs loop (ref_of fs) (raw_of fs)

    pub load_items : (Str → Value → Loaded Value) → Str → Items → Loaded Items
    load_items load path nil = ok nil
    load_items load path (cons x xs) = do
      y ← load_with load path x
      ys ← load_items load path xs
      ok (cons y ys)

    pub load_fields : (Str → Value → Loaded Value) → Str → Fields → Loaded Fields
    load_fields load path end = ok end
    load_fields load path (field k v fs) = do
      w ← load_with load path v
      w' ← keep_loaded v w
      gs ← load_fields load path fs
      ok (field k w' gs)

  -- `loadDoc`, with a bound on the files that refer to one another.
  unfoldable pub load_doc : ℕ → Str → Value → Loaded Value
  unfolding load_with
  load_doc zero path v = err too_deep
  load_doc (suc n) path v = load_with (load_doc n) path v

  -- The documents of which `newDocToMsgs` makes messages; an absent document is one empty message.
  to_messages : Value → Loaded (List Value)
  to_messages (arr xs) = ok (items xs)
  to_messages (obj fs) = ok (obj fs ∷ [])
  to_messages null = ok (obj end ∷ [])
  to_messages (bool b) = err (failed (codes "invalid document type"))
  to_messages (num n) = err (failed (codes "invalid document type"))
  to_messages (str s) = err (failed (codes "invalid document type"))

  -- `newDocToMsgs`, before the messages are encoded; `path` is the path of the suite file.
  unfoldable pub new_doc_to_msgs : ℕ → Str → Value → Loaded (List Value)
  unfolding load_doc to_messages
  new_doc_to_msgs n path doc = do d ← load_doc n path doc; to_messages d
