-- ===== src/Certkit/Mtls/Demands.antt =====
-- certkit/mtls/mtls.go: what a configuration demands of the peers.
use Prim.Native.String.{String}
use albstractions.Prelude.{
  ◌≤◌, ◌≡◌, refl, ◌⊎◌, inl, inr, some, List, [], ◌∷◌, arith, Option-cases, nat_comparable,
}
use albstractions.Certkit.Keyloader.Slices.{Bytes, Buffers}
use albstractions.Certkit.Keyloader.{Provided}
use albstractions.Certkit.Mtls.{
  Provider, Config, Crypto, Failure, require_and_verify_client_cert, version_tls13, pem,
  with_server_name, apply_options, build, with_ca, with_pair, with_key, new_tls_config,
}

-- What any configuration made with `with_server_name` as its only options demands and presents, of
-- the bytes that the certificate, the key and the CA have.
pub record IsMutual {Cert Pool : Type 0} (crypto : Crypto Cert Pool)
    (cert_pem key_pem ca_pem : Bytes) (cfg : Config Cert Pool) : Type 0 where
  pub client_auth : cfg.client_auth ≡ require_and_verify_client_cert
  pub min_version : version_tls13 ≤ cfg.min_version
  pub presents :
      (tls_cert : Cert) × (crypto.x509_key_pair cert_pem key_pem ≡ some tls_cert)
      × (cfg.certificates ≡ tls_cert ∷ [])
  pub client_cas : crypto.append_certs_from_pem ca_pem ≡ some cfg.client_cas
  pub root_cas : crypto.append_certs_from_pem ca_pem ≡ some cfg.root_cas

abbrev pub server_names :
    {Cert Pool : Type 0} → List String → List (Config Cert Pool → Config Cert Pool)
server_names [] = []
server_names (name ∷ names) = with_server_name name ∷ server_names names

module _ {Cert Pool : Type 0} (crypto : Crypto Cert Pool) where
  apply_options-IsMutual :
      (names : List String) (cert_pem key_pem ca_pem : Bytes) (cfg : Config Cert Pool)
      → IsMutual crypto cert_pem key_pem ca_pem cfg
      → IsMutual crypto cert_pem key_pem ca_pem (apply_options (server_names names) cfg)
  unfolding apply_options with_server_name
  apply_options-IsMutual [] cert_pem key_pem ca_pem cfg m = m
  apply_options-IsMutual (name ∷ names) cert_pem key_pem ca_pem cfg m =
      apply_options-IsMutual names cert_pem key_pem ca_pem (record cfg { server_name = name })
        (record {
          client_auth = m.client_auth;
          min_version = m.min_version;
          presents = m.presents;
          client_cas = m.client_cas;
          root_cas = m.root_cas;
        })

  -- A failure, or a configuration with the property.
  abbrev pub Succeeds : Bytes → Bytes → Bytes → Failure ⊎ Config Cert Pool → Type 0
  Succeeds cert_pem key_pem ca_pem (inl f) = Unit
  Succeeds cert_pem key_pem ca_pem (inr cfg) = IsMutual crypto cert_pem key_pem ca_pem cfg

  build-Succeeds :
      (names : List String) (tls_cert : Cert) (cert_pem key_pem ca_pem : Bytes)
      → crypto.x509_key_pair cert_pem key_pem ≡ some tls_cert
      → Succeeds cert_pem key_pem ca_pem (build crypto (server_names names) tls_cert ca_pem)
  unfolding build
  build-Succeeds names tls_cert cert_pem key_pem ca_pem paired =
      elim (Option-cases (crypto.append_certs_from_pem ca_pem)) [
        | inl bad ↦ rw (bad, build) tt
        | inr (pool, ok) ↦
            rw (ok, build)
              (apply_options-IsMutual names cert_pem key_pem ca_pem _ (record {
                client_auth = refl;
                min_version = omega arith;
                presents = (tls_cert, paired, refl);
                client_cas = ok;
                root_cas = ok;
              }))
      ]

  with_pair-Succeeds :
      (names : List String) (cert_pem key_pem : Bytes) (ca : Provider) (b : Buffers)
      → Succeeds cert_pem key_pem
          (pem (ca b).0 (ca b).1)
          (with_pair crypto (server_names names) cert_pem key_pem ca b).0
  unfolding with_pair with_ca
  with_pair-Succeeds names cert_pem key_pem ca b =
      elim (Option-cases (crypto.x509_key_pair cert_pem key_pem)) [
        | inl bad ↦ rw (bad, with_pair) tt
        | inr (tls_cert, ok) ↦ elim (Option-cases (ca b).0.failure) [
          | inl loaded ↦
              rw (ok, loaded, with_pair, with_ca)
                (build-Succeeds names tls_cert cert_pem key_pem (pem (ca b).0 (ca b).1) ok)
          | inr (err, bad) ↦ rw (ok, bad, with_pair, with_ca) tt
        ]
      ]

  with_key-Succeeds :
      (names : List String) (cert : Provided) (key ca : Provider) (b : Buffers)
      → Succeeds
          (pem cert (key b).1)
          (pem (key b).0 (key b).1)
          (pem (ca (key b).1).0 (ca (key b).1).1)
          (with_key crypto (server_names names) cert key ca b).0
  unfolding with_key
  with_key-Succeeds names cert key ca b = elim (Option-cases (key b).0.failure) [
    | inl loaded ↦
        rw (loaded, with_key)
          (with_pair-Succeeds names (pem cert (key b).1) (pem (key b).0 (key b).1) ca (key b).1)
    | inr (err, bad) ↦ rw (bad, with_key) tt
  ]

  -- A configuration that `NewTLSConfig` returns, with server names as its options, requires and
  -- verifies the peer's certificate, takes no version below TLS 1.3, presents the one pair made of the
  -- bytes that the certificate's and the key's provider handed out, and checks peers, in either role,
  -- against the pool read from the bytes that the CA's provider handed out.
  pub new_tls_config-Succeeds :
      (names : List String) (cert key ca : Provider) (b : Buffers)
      → Succeeds
          (pem (cert b).0 (key (cert b).1).1)
          (pem (key (cert b).1).0 (key (cert b).1).1)
          (pem (ca (key (cert b).1).1).0 (ca (key (cert b).1).1).1)
          (new_tls_config crypto (server_names names) cert key ca b).0
  unfolding new_tls_config
  new_tls_config-Succeeds names cert key ca b = elim (Option-cases (cert b).0.failure) [
    | inl loaded ↦
        rw (loaded, new_tls_config) (with_key-Succeeds names (cert b).0 key ca (cert b).1)
    | inr (err, bad) ↦ rw (bad, new_tls_config) tt
  ]
