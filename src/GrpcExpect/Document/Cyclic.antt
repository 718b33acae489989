-- ===== src/GrpcExpect/Document/Cyclic.antt =====
-- Files that refer to one another: where they do not come back to a file the loading ends, and where
-- one refers to itself it does not.
use aragorn.Prelude.{
  Str, ℕ, zero, suc, ◌≡◌, refl, ◌<◌, false, Option, none, some, Outcome, ok, err, panic, ◌>>=◌,
  arith, if_intro,
}
use aragorn.Json.{Value, Items, Fields, null, bool, num, str, arr, obj, nil, cons, end, field}
use aragorn.GrpcExpect.Document.{
  Sources, Loaded, failed, too_deep, ref_of, raw_of, is_raw, keep_loaded, compare_to_map,
  read_error, read_file_to_base64_string, read_json_file_to_doc, resolve, load_ref, load_map,
  load_with, load_items, load_fields, load_doc,
}

-- The bound of the model was not met.
abbrev pub IsBounded : {A : Type 0} → Loaded A → Type 0
IsBounded (ok a) = Unit
IsBounded (err (failed e)) = Unit
IsBounded (err too_deep) = ⊥
IsBounded panic = Unit

bind-IsBounded :
    {A B : Type 0} (m : Loaded A) (f : A → Loaded B)
    → IsBounded m
    → ((a : A) → m ≡ ok a → IsBounded (f a))
    → IsBounded (m >>= f)
unfolding ◌>>=◌
bind-IsBounded (ok a) f h k = k a refl
bind-IsBounded (err (failed e)) f h k = tt
bind-IsBounded (err too_deep) f h k = absurd h
bind-IsBounded panic f h k = tt

read-IsBounded : {A : Type 0} (o : Outcome Str A) → IsBounded (read_error o)
unfolding read_error
read-IsBounded (ok a) = tt
read-IsBounded (err e) = tt
read-IsBounded panic = tt

read-ok : {A : Type 0} (o : Outcome Str A) (a : A) → read_error o ≡ ok a → o ≡ ok a
unfolding read_error
read-ok (ok b) a h = cc
read-ok (err e) a h = cc
read-ok panic a h = cc

module _ (src : Sources) (rank : Str → ℕ) where
  -- Every file that a document of the directory `path` refers to has a rank below `n`.
  unfoldable mutual
    unfolding resolve

    pub RefersBelow : ℕ → Str → Value → Type 0
    RefersBelow n path null = Unit
    RefersBelow n path (bool b) = Unit
    RefersBelow n path (num m) = Unit
    RefersBelow n path (str s) = Unit
    RefersBelow n path (arr xs) = ItemsReferBelow n path xs
    RefersBelow n path (obj fs) =
        ((ref : Str) → ref_of fs ≡ some ref → rank (resolve src path ref) < n)
        × FieldsReferBelow n path fs

    pub ItemsReferBelow : ℕ → Str → Items → Type 0
    ItemsReferBelow n path nil = Unit
    ItemsReferBelow n path (cons x xs) = RefersBelow n path x × ItemsReferBelow n path xs

    pub FieldsReferBelow : ℕ → Str → Fields → Type 0
    FieldsReferBelow n path end = Unit
    FieldsReferBelow n path (field k v fs) = RefersBelow n path v × FieldsReferBelow n path fs

  -- The files refer to files of lower rank only.
  abbrev pub AreRanked : Type 0
  AreRanked =
      (p content : Str) (fs : Fields)
      → src.files.read p ≡ ok content
      → src.decode_object content ≡ ok fs
      → RefersBelow (rank p) (src.files.dir p) (obj fs)

  -- One level: what is referred to is loaded within the bound.
  module _ (n : ℕ) (load : Str → Value → Loaded Value)
      (deeper : (path : Str) (m : ℕ) (v : Value)
        → m < n
        → RefersBelow m path v
        → IsBounded (load path v))
      (ranked : AreRanked) where
    ref-IsBounded :
        (path : Str) (fs : Fields) (ref : Str)
        → rank (resolve src path ref) < n
        → IsBounded (load_ref src load path fs ref)
    unfolding load_ref read_file_to_base64_string read_json_file_to_doc
    ref-IsBounded path fs ref h =
        let p : Str = resolve src path ref in
        if_intro IsBounded (is_raw fs) _ _
          (λ _. bind-IsBounded (read_error (src.files.read p)) _ (read-IsBounded _) (λ c e. tt))
          (λ _. bind-IsBounded (read_error (src.files.read p)) _ (read-IsBounded _) (λ c e.
            bind-IsBounded (read_error (src.decode_object c)) _ (read-IsBounded _) (λ gs d.
              deeper (src.files.dir p) (rank p) (obj gs) h
                (ranked p c gs (read-ok _ c e) (read-ok _ gs d)))))

    map-IsBounded :
        (path : Str) (fs : Fields) (loop : Loaded Fields) (ref raw : Option Str)
        → ((r : Str) → ref ≡ some r → rank (resolve src path r) < n)
        → IsBounded loop
        → IsBounded (load_map src load path fs loop ref raw)
    unfolding load_map
    map-IsBounded path fs loop (some r) raw h k = ref-IsBounded path fs r (h r refl)
    map-IsBounded path fs loop none (some raw) h k = tt
    map-IsBounded path fs loop none none h k = bind-IsBounded loop _ k (λ gs e. tt)

    kept-IsBounded : (v w : Value) → IsBounded (keep_loaded v w)
    unfolding keep_loaded compare_to_map
    kept-IsBounded null w = tt
    kept-IsBounded (bool b) w = tt
    kept-IsBounded (num m) w = tt
    kept-IsBounded (str s) w = tt
    kept-IsBounded (arr xs) w = tt
    kept-IsBounded (obj fs) null = tt
    kept-IsBounded (obj fs) (bool b) = tt
    kept-IsBounded (obj fs) (num m) = tt
    kept-IsBounded (obj fs) (str s) = tt
    kept-IsBounded (obj fs) (arr xs) = tt
    kept-IsBounded (obj fs) (obj gs) = tt

    mutual
      unfolding load_with RefersBelow

      with-IsBounded :
          (path : Str) (v : Value) → RefersBelow n path v → IsBounded (load_with src load path v)
      with-IsBounded path null h = tt
      with-IsBounded path (bool b) h = tt
      with-IsBounded path (num m) h = tt
      with-IsBounded path (str s) h = tt
      with-IsBounded path (arr xs) h = bind-IsBounded _ _ (items-IsBounded path xs h) (λ ys e. tt)
      with-IsBounded path (obj fs) (h, hs) =
          map-IsBounded path fs (load_fields src load path fs) (ref_of fs) (raw_of fs) h
            (fields-IsBounded path fs hs)

      items-IsBounded :
          (path : Str) (xs : Items)
          → ItemsReferBelow n path xs
          → IsBounded (load_items src load path xs)
      items-IsBounded path nil h = tt
      items-IsBounded path (cons x xs) (hx, h) =
          bind-IsBounded _ _ (with-IsBounded path x hx) (λ y e.
            bind-IsBounded (load_items src load path xs) _ (items-IsBounded path xs h) (λ ys d. tt))

      fields-IsBounded :
          (path : Str) (fs : Fields)
          → FieldsReferBelow n path fs
          → IsBounded (load_fields src load path fs)
      fields-IsBounded path end h = tt
      fields-IsBounded path (field k v fs) (hv, h) =
          bind-IsBounded _ _ (with-IsBounded path v hv) (λ w e.
            bind-IsBounded (keep_loaded v w) _ (kept-IsBounded v w) (λ w' d.
              bind-IsBounded (load_fields src load path fs) _ (fields-IsBounded path fs h)
                (λ gs f. tt)))

  doc-IsBounded :
      AreRanked
      → (n : ℕ) (path : Str) (m : ℕ) (v : Value) → m < n
      → RefersBelow m path v
      → IsBounded (load_doc src n path v)
  unfolding load_doc
  doc-IsBounded ranked zero path m v h k = omega arith
  doc-IsBounded ranked (suc n) path m v h k =
      with-IsBounded m (load_doc src n)
        (λ path' m' v' h' k'.
          let less : m' < n = omega arith in doc-IsBounded ranked n path' m' v' less k')
        ranked path v k

  -- Where every file refers to files of lower rank only, a document whose files have ranks below `n` is
  -- loaded, or refused with an error of the files or with a panic, without exceeding the bound: a bound
  -- of one above `n` is enough.
  pub load_doc-ends :
      AreRanked
      → (n : ℕ) (path : Str) (v : Value) → RefersBelow n path v
      → IsBounded (load_doc src (suc n) path v)
  load_doc-ends ranked n path v h = doc-IsBounded ranked (suc n) path n v (omega arith) h

-- No bound is enough for a file that refers to itself: its loading does not end.
pub load_doc-cyclic :
    (src : Sources) (p content ref : Str) (fs : Fields)
    → src.files.read p ≡ ok content
    → src.decode_object content ≡ ok fs
    → ref_of fs ≡ some ref
    → is_raw fs ≡ false
    → resolve src (src.files.dir p) ref ≡ p
    → (n : ℕ) → load_doc src n (src.files.dir p) (obj fs) ≡ err too_deep
unfolding load_doc load_with load_map load_ref read_json_file_to_doc read_error ◌>>=◌
load_doc-cyclic src p content ref fs hr hd hf hw hp zero = refl
load_doc-cyclic src p content ref fs hr hd hf hw hp (suc n) =
    rw (hf, hw, hp, hr, hd, load_doc-cyclic src p content ref fs hr hd hf hw hp n)
