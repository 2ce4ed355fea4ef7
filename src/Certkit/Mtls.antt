-- ===== src/Certkit/Mtls.antt =====
-- certkit/mtls/mtls.go: a TLS configuration from three providers of keys. crypto/tls and crypto/x509
-- are parameters: they read the bytes given and keep what they need.
pub mod Releases
pub mod Providers
pub mod Demands
use Prim.Native.String.{String}
use albstractions.Prelude.{ℕ, ◌⊎◌, inl, inr, Option, none, some, List, [], ◌∷◌, nat_comparable}
use albstractions.Certkit.Keyloader.Slices.{Bytes, Buffers, contents}
use albstractions.Certkit.Keyloader.{Provided, free}

abbrev pub Provider : Type 0
Provider = Buffers → Provided × Buffers

-- The client authentication of a tls.Config.
pub data ClientAuth : Type 0 where
  no_client_cert require_and_verify_client_cert : ClientAuth

-- A tls.Config with the fields that the code sets; versions are the numbers of the protocol.
pub record Config (Cert Pool : Type 0) : Type 0 where
  pub certificates : List Cert
  pub client_auth : ClientAuth
  pub client_cas : Pool
  pub root_cas : Pool
  pub min_version : ℕ
  pub server_name : String

abbrev pub version_tls13 : ℕ
version_tls13 = 772

-- `X509KeyPair`, and `AppendCertsFromPEM` on a new pool; `none` is a failure.
pub record Crypto (Cert Pool : Type 0) : Type 0 where
  pub x509_key_pair : Bytes → Bytes → Option Cert
  pub append_certs_from_pem : Bytes → Option Pool

pub data Failure : Type 0 where
  load_certificate load_private_key parse_pair load_ca parse_ca : Failure

-- The bytes of a slice that a provider handed out; a nil slice has none.
abbrev pub pem : Provided → Buffers → Bytes
pem p b = elim p.key [ none ↦ [] | some key ↦ contents key b ]

module _ {Cert Pool : Type 0} where
  unfoldable pub with_server_name : String → Config Cert Pool → Config Cert Pool
  with_server_name name c = record c { server_name = name }

  -- The loop over the options.
  unfoldable pub apply_options :
      List (Config Cert Pool → Config Cert Pool) → Config Cert Pool → Config Cert Pool
  apply_options [] c = c
  apply_options (opt ∷ opts) c = apply_options opts (opt c)

module _ {Cert Pool : Type 0} (crypto : Crypto Cert Pool) where
  -- The end of `NewTLSConfig`, from the pool on.
  unfoldable pub build :
      List (Config Cert Pool → Config Cert Pool) → Cert → Bytes → Failure ⊎ Config Cert Pool
  build opts tls_cert ca_pem = elim (crypto.append_certs_from_pem ca_pem) [
    | none ↦ inl parse_ca
    | some ca_pool ↦ inr (
        apply_options opts (record {
          certificates = tls_cert ∷ [];
          client_auth = require_and_verify_client_cert;
          client_cas = ca_pool;
          root_cas = ca_pool;
          min_version = version_tls13;
          server_name = "";
        }))
  ]

  -- From the loading of the CA on; the deferred `freeCA` is the last thing done.
  unfoldable pub with_ca :
      List (Config Cert Pool → Config Cert Pool)
      → Cert
      → Provider
      → Buffers
      → (Failure ⊎ Config Cert Pool) × Buffers
  with_ca opts tls_cert ca b =
      let (p, b') = ca b in
      elim p.failure [
        | some err ↦ (inl load_ca, b')
        | none ↦ (build opts tls_cert (pem p b'), free p b')
      ]

  -- From the parsing of the pair on.
  unfoldable pub with_pair :
      List (Config Cert Pool → Config Cert Pool)
      → Bytes
      → Bytes
      → Provider
      → Buffers
      → (Failure ⊎ Config Cert Pool) × Buffers
  with_pair opts cert_pem key_pem ca b = elim (crypto.x509_key_pair cert_pem key_pem) [
    | none ↦ (inl parse_pair, b)
    | some tls_cert ↦ with_ca opts tls_cert ca b
  ]

  -- From the loading of the key on.
  unfoldable pub with_key :
      List (Config Cert Pool → Config Cert Pool)
      → Provided
      → Provider
      → Provider
      → Buffers
      → (Failure ⊎ Config Cert Pool) × Buffers
  with_key opts cert key ca b =
      let (p, b') = key b in
      elim p.failure [
        | some err ↦ (inl load_private_key, b')
        | none ↦
            let (result, b'') = with_pair opts (pem cert b') (pem p b') ca b' in
            (result, free p b'')
      ]

  unfoldable pub new_tls_config :
      List (Config Cert Pool → Config Cert Pool)
      → Provider
      → Provider
      → Provider
      → Buffers
      → (Failure ⊎ Config Cert Pool) × Buffers
  new_tls_config opts cert key ca b =
      let (p, b') = cert b in
      elim p.failure [
        | some err ↦ (inl load_certificate, b')
        | none ↦ let (result, b'') = with_key opts p key ca b' in (result, free p b'')
      ]
