-- ===== src/GrpcExpect/Dial/Tests.antt =====
-- A connection with TLS and a file of one certificate.
use aragorn.Prelude.{
  Str, codes, str_eq, starts_with, true, false, ◌≡◌, ◌↔◌, ◌⊎◌, refl, none, some, ok, ◌>>=◌, List,
  [], ◌∷◌,
}
use aragorn.Files.{Files, get_file_path}
use aragorn.GrpcExpect.Dial.{
  Link, TlsConfig, transport_credentials, ReadCerts, transport_dial_option,
}
use aragorn.GrpcExpect.Dial.Trust.{
  is_signed, is_trusted, HasCerts, IsNamed, transport_dial_option-Trusts,
}

abbrev files : Files
files = record { read = λ p. ok p; join = λ dir p. p; dir = λ p. [] }

abbrev read_certs : ReadCerts
read_certs content = some (content ∷ [])

abbrev link : Link Unit
link = record {
  root = [];
  address = codes "h:1";
  proto_set_path = [];
  tls = true;
  ca_path = codes "/ca";
  server_host_override = [];
  insecure = false;
  oauth2 = none;
}

abbrev credentials : TlsConfig
credentials = record { server_name = []; root_cas = codes "/ca" ∷ []; insecure_skip_verify = false }

link_dials : transport_dial_option files read_certs link ≡ ok (transport_credentials credentials)
unfolding transport_dial_option get_file_path starts_with str_eq ◌>>=◌
link_dials = refl

-- The host of an address of one letter.
abbrev host_of : Str → Str
host_of [] = []
host_of (x ∷ _) = x ∷ []

transport_dial_option-Trusts_example :
    (is_trusted str_eq starts_with (codes "h") credentials (codes "/ca") ≡ true) ↔ (
      (false ≡ true)
      ⊎ (((certs : List Str) × HasCerts files read_certs link certs
            × (is_signed str_eq certs (codes "/ca") ≡ true))
          × IsNamed files read_certs link starts_with host_of (codes "/ca")))
transport_dial_option-Trusts_example =
    transport_dial_option-Trusts files read_certs link credentials str_eq starts_with host_of
      (codes "/ca") link_dials
