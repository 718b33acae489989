-- ===== src/GrpcExpect/Dial/Trust.antt =====
-- Which servers the transport of testsuite/grpcexpect/config.go trusts.
use aragorn.Prelude.{
  Str, str_eq, str_eq_iff, Bool, true, false, ◌||◌, ◌&&◌, if◌then◌else◌, ◌≡◌, ◌≢◌, ◌∙◌, refl, sym,
  ap, subst, ◌↔◌, ◌⊎◌, inl, inr, Option, none, some, ok, wrap_err-eq-ok, >>=-eq-ok, List, [], ◌∷◌,
  Bool-cases, arith,
}
use aragorn.Files.{Files, get_file_path}
use aragorn.GrpcExpect.Dial.{
  Link, TlsConfig, transport_credentials, ReadCerts, appended, roots_of, transport_dial_option,
}

-- Some certificate of a pool signs the chain of a server.
abbrev pub is_signed : (Str → Str → Bool) → List Str → Str → Bool
is_signed signs [] chain = false
is_signed signs (root ∷ roots) chain = signs root chain || is_signed signs roots chain

-- Package crypto/tls, at a pool that is not nil: the chain of a server is accepted without a look, or
-- it is signed by a certificate of the pool and stands for the name of the server, which is the host
-- that was dialled unless the configuration of TLS has another.
abbrev pub is_trusted : (Str → Str → Bool) → (Str → Str → Bool) → Str → TlsConfig → Str → Bool
is_trusted signs covers host t chain =
    t.insecure_skip_verify
    || (is_signed signs t.root_cas chain
        && covers (if str_eq t.server_name [] then host else t.server_name) chain)

module _ {O : Type 0} (files : Files) (read_certs : ReadCerts) (cfg : Link O) where
  -- The certificates of the file that the configuration names.
  pub record HasCerts (certs : List Str) : Type 0 where
    pub content : Str
    pub named : cfg.ca_path ≢ []
    pub reads : files.read (get_file_path files cfg.root cfg.ca_path) ≡ ok content
    pub certified : read_certs content ≡ some certs

  appended-ok : (o : Option (List Str)) (certs : List Str) → appended o ≡ ok certs → o ≡ some certs
  unfolding appended
  appended-ok none certs h = cc
  appended-ok (some cs) certs h = cc

  roots-HasCerts :
      (roots : List Str)
      → roots_of files read_certs cfg ≡ ok roots
      → ((cfg.ca_path ≡ []) × (roots ≡ [])) ⊎ HasCerts roots
  unfolding roots_of
  roots-HasCerts roots h = elim (Bool-cases (str_eq cfg.ca_path [])) [
    | inl e ↦ inl ((str_eq_iff cfg.ca_path []).0 e, cc (rw (e, roots_of) at h))
    | inr e ↦
        let (content, reads, rest) = >>=-eq-ok _ _ (rw (e, roots_of) at h) in
        inr (record {
          content = content;
          named = λ z. ground (arith, e, (str_eq_iff cfg.ca_path []).1 z);
          reads = wrap_err-eq-ok _ _ reads;
          certified = appended-ok (read_certs content) roots rest;
        })
  ]

  -- The parts of the credentials.
  credentials_of :
      (t : TlsConfig)
      → transport_dial_option files read_certs cfg ≡ ok (transport_credentials t)
      → (roots_of files read_certs cfg ≡ ok t.root_cas)
        × (t.insecure_skip_verify ≡ cfg.insecure)
        × (t.server_name ≡ cfg.server_host_override)
  unfolding transport_dial_option
  credentials_of t h = elim (Bool-cases cfg.tls) [
    | inr e ↦ let h' = rw (e, transport_dial_option) at h in cc
    | inl e ↦
        let (roots, found, rest) = >>=-eq-ok _ _ (rw (e, transport_dial_option) at h) in
        let same : record {
          server_name = cfg.server_host_override;
          root_cas = roots;
          insecure_skip_verify = cfg.insecure;
        }
            ≡ t =
          cc rest in
        (
          found ∙ ap ok (ap (λ (x : TlsConfig). x.root_cas) same),
          sym (ap (λ (x : TlsConfig). x.insecure_skip_verify) same),
          sym (ap (λ (x : TlsConfig). x.server_name) same),
        )
  ]

  or-true : (a b : Bool) → ((a || b) ≡ true) ↔ ((a ≡ true) ⊎ (b ≡ true))
  or-true true b = ((λ h. inl refl), λ h. refl)
  or-true false b = (inr, λ h. elim h [ inl e ↦ cc | inr e ↦ e ])

  and-true : (a b : Bool) → ((a && b) ≡ true) ↔ ((a ≡ true) × (b ≡ true))
  and-true true b = ((λ h. (refl, h)), λ h. h.1)
  and-true false b = ((λ h. cc), λ h. let e = h.0 in cc)

  -- The chain stands for the name of the server: the one that overrides it, or else the host of the
  -- address.
  abbrev pub IsNamed : (Str → Str → Bool) → (Str → Str) → Str → Type 0
  IsNamed covers host_of chain =
      ((cfg.server_host_override ≡ []) × (covers (host_of cfg.address) chain ≡ true))
      ⊎ ((cfg.server_host_override ≢ []) × (covers cfg.server_host_override chain ≡ true))

  IsNamed-iff :
      (covers : Str → Str → Bool) (host_of : Str → Str) (t : TlsConfig) (chain : Str)
      → t.server_name ≡ cfg.server_host_override
      → (covers (if str_eq t.server_name [] then host_of cfg.address else t.server_name) chain
          ≡ true)
        ↔ IsNamed covers host_of chain
  IsNamed-iff covers host_of t chain same = elim (Bool-cases (str_eq cfg.server_host_override [])) [
    | inl e ↦
        let empty = (str_eq_iff cfg.server_host_override []).0 e in
        rw (same, e)
          ((λ h. inl (empty, h)), λ h. elim h [ inl (p, q) ↦ q | inr (p, q) ↦ absurd (p empty) ])
    | inr e ↦
        let full : cfg.server_host_override ≢ [] =
          λ z. ground (arith, e, (str_eq_iff cfg.server_host_override []).1 z) in
        rw (same, e)
          ((λ h. inr (full, h)), λ h. elim h [ inl (p, q) ↦ absurd (full p) | inr (p, q) ↦ q ])
  ]

  signed_iff :
      (t : TlsConfig) (signs : Str → Str → Bool) (chain : Str)
      → roots_of files read_certs cfg ≡ ok t.root_cas
      → (is_signed signs t.root_cas chain ≡ true)
        ↔ ((certs : List Str) × HasCerts certs × (is_signed signs certs chain ≡ true))
  signed_iff t signs chain roots = (
    (λ e. elim (roots-HasCerts t.root_cas roots) [
      | inl (unnamed, empty) ↦ cc (ap (λ r. is_signed signs r chain) empty, e)
      | inr certs ↦ (t.root_cas, certs, e)
    ]),
    λ (certs, has, signed). elim (roots-HasCerts t.root_cas roots) [
      | inl (unnamed, empty) ↦ absurd (has.named unnamed)
      | inr found ↦
          let content : has.content ≡ found.content = cc (has.reads, found.reads) in
          let same : certs ≡ t.root_cas = cc (has.certified, found.certified, content) in
          subst (λ r. is_signed signs r chain ≡ true) same signed
    ],
  )

  -- With TLS, a connection trusts a server exactly when the configuration is insecure, or it names a
  -- file of certificates of which one signs the chain of the server, and the chain stands for the name
  -- that overrides the host of the server, or for the host of the address where there is none: without
  -- that file no server is trusted, whatever the host trusts.
  pub transport_dial_option-Trusts :
      (t : TlsConfig) (signs covers : Str → Str → Bool) (host_of : Str → Str) (chain : Str)
      → transport_dial_option files read_certs cfg ≡ ok (transport_credentials t)
      → (is_trusted signs covers (host_of cfg.address) t chain ≡ true) ↔ (
          (cfg.insecure ≡ true)
          ⊎ (((certs : List Str) × HasCerts certs × (is_signed signs certs chain ≡ true))
              × IsNamed covers host_of chain))
  transport_dial_option-Trusts t signs covers host_of chain h =
      let (roots, skip, name) = credentials_of t h in
      let either = or-true t.insecure_skip_verify _ in
      let both = and-true (is_signed signs t.root_cas chain) _ in
      let signed = signed_iff t signs chain roots in
      let named = IsNamed-iff covers host_of t chain name in
      (
        (λ trusted. elim (either.0 trusted) [
          | inl e ↦ inl (sym skip ∙ e)
          | inr e ↦ let (s, n) = both.0 e in inr (signed.0 s, named.0 n)
        ]),
        λ reason. elim reason [
          | inl e ↦ either.1 (inl (skip ∙ e))
          | inr (s, n) ↦ either.1 (inr (both.1 (signed.1 s, named.1 n)))
        ],
      )
