-- ===== src/Plugin/Registered.antt =====
-- What is found in the registry of plugins.
use aragorn.Prelude.{
  Str, str_eq, str_eq_iff, starts_with, starts_with-append, true, false, ◌≡◌, refl, sym, ap, ◌∙◌,
  subst, some, ok, inl, inr, [], ◌∷◌, if◌then◌else◌, if_intro, Bool-cases, arith, Occurs,
}
use aragorn.Prelude.Assoc.{Assoc, get, put, get-put}
use aragorn.Plugin.{
  Registration, registration_uri, register, get_plugin, for_type, test_suite_plugin,
  notifier_plugin,
}

kinds_apart :
    (a b : Str)
    → str_eq (registration_uri notifier_plugin a) (registration_uri test_suite_plugin b) ≡ false
unfolding registration_uri str_eq
kinds_apart a b = refl

module _ {P : Type 0} where
  register-ok :
      (r : Registration P) (reg reg' : Assoc (Registration P))
      → register r reg ≡ ok reg'
      → reg' ≡ put (registration_uri r.typ r.id) r reg
  unfolding register
  register-ok r reg reg' h = ground arith

  -- A plugin that was registered is found by its type and its id, whatever was registered before.
  -- A lookup under another URI finds what it found before.
  get_plugin-register :
      (r : Registration P) (reg reg' : Assoc (Registration P)) (t id : Str)
      → register r reg ≡ ok reg'
      → get_plugin t id reg' ≡ (
          if str_eq (registration_uri r.typ r.id) (registration_uri t id)
          then some r
          else get_plugin t id reg)
  unfolding get_plugin
  get_plugin-register r reg reg' t id h =
      let same = register-ok r reg reg' h in
      ap (get (registration_uri t id)) same
      ∙ get-put (registration_uri r.typ r.id) (registration_uri t id) r reg

  -- Registering a notifier leaves the lookup of test suites as it was.
  register_notifier :
      (r : Registration P) (reg reg' : Assoc (Registration P)) (id : Str)
      → r.typ ≡ notifier_plugin
      → register r reg ≡ ok reg'
      → get_plugin test_suite_plugin id reg' ≡ get_plugin test_suite_plugin id reg
  register_notifier r reg reg' id kind h =
      get_plugin-register r reg reg' test_suite_plugin id h
      ∙ subst
          (λ x.
            (if str_eq (registration_uri x r.id) (registration_uri test_suite_plugin id)
              then some r
              else get_plugin test_suite_plugin id reg)
            ≡ get_plugin test_suite_plugin id reg)
          (sym kind) (rw (kinds_apart r.id id) refl)

  -- What is found under a type is among what is listed for the type.
  pub for_type_complete :
      (t id : Str) (reg : Assoc (Registration P)) (r : Registration P)
      → get_plugin t id reg ≡ some r
      → Occurs r (for_type t reg)
  unfolding get_plugin get for_type registration_uri
  for_type_complete t id [] r h = cc
  for_type_complete t id ((k, s) ∷ reg) r h = elim (Bool-cases (str_eq k (registration_uri t id))) [
    | inl hit ↦
        let same : k ≡ registration_uri t id = (str_eq_iff k (registration_uri t id)).0 hit in
        let listed : starts_with t k ≡ true =
          subst (λ x. starts_with t x ≡ true) (sym same) (starts_with-append t (b'.' ∷ id)) in
        let found : s ≡ r = ground (arith, hit, h) in rw listed (inl (sym found))
    | inr miss ↦
        let rest = for_type_complete t id reg r (ground (arith, miss, h)) in
        if_intro (Occurs r) (starts_with t k) _ _ (λ _. inr rest) (λ _. rest)
  ]
