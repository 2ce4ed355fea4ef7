-- ===== src/Tests/Mtls.antt =====
-- The package certkit/mtls at concrete inputs.

use albstractions.Prelude.{
  ℕ, ◌≡◌, refl, inl, false, none, some, [], ◌∷◌, ◌==◌, if◌then◌else◌, nat_comparable, length,
}
use albstractions.Certkit.Keyloader.Slices.{Buffers, allocate, contents, clear, zeros}
use albstractions.Certkit.Keyloader.{EnvConfig, from_env, process_key, decode, free}
use albstractions.Certkit.Mtls.{
  pem, Provider, Crypto, Failure, with_ca, with_pair, with_key, new_tls_config,
}
use albstractions.Certkit.Mtls.Releases.{IsTidy, Clean, new_tls_config-Clean}
use albstractions.Certkit.Mtls.Providers.{from_env-IsTidy}
use albstractions.Certkit.Mtls.Demands.{Succeeds, server_names, new_tls_config-Succeeds}

-- A pair is made of two keys of the same length; a CA of any bytes at all.
abbrev crypto : Crypto ℕ ℕ
crypto = record {
  x509_key_pair = λ cert key. if length cert == length key then some (length cert) else none;
  append_certs_from_pem = λ ca. if length ca == 0 then none else some (length ca);
}

-- The variable 2 is not set.
abbrev environment : EnvConfig ℕ
environment = record {
  getter = λ v. if v == 2 then [] else 65 ∷ v ∷ [];
  decoder = none;
  trim_whitespace = false;
}

abbrev provider : ℕ → Provider
provider v = from_env environment v

abbrev memory : Buffers
memory = (9 ∷ []) ∷ []

provider-IsTidy : (v : ℕ) → IsTidy (provider v)
provider-IsTidy v = from_env-IsTidy environment v tt

new_tls_config-Clean_example :
    Clean memory (new_tls_config crypto [] (provider 0) (provider 1) (provider 2) memory).1
new_tls_config-Clean_example =
    new_tls_config-Clean crypto [] (provider 0) (provider 1) (provider 2) memory (provider-IsTidy 0)
      (provider-IsTidy 1) (provider-IsTidy 2)

abbrev after_cert : Buffers
after_cert = (provider 0 memory).1

abbrev after_key : Buffers
after_key = (provider 1 after_cert).1

new_tls_config-Succeeds_example :
    Succeeds crypto
      (pem (provider 0 memory).0 after_key)
      (pem (provider 1 after_cert).0 after_key)
      (pem (provider 3 after_key).0 (provider 3 after_key).1)
      (new_tls_config crypto
        (server_names ("db" ∷ []))
        (provider 0)
        (provider 1)
        (provider 3)
        memory).0
new_tls_config-Succeeds_example =
    new_tls_config-Succeeds crypto ("db" ∷ []) (provider 0) (provider 1) (provider 3) memory

-- The CA is not set: the certificate and the key are zeros, the older buffer is untouched.
unset_lem :
    new_tls_config crypto [] (provider 0) (provider 1) (provider 2) memory
    ≡ (inl Failure.load_ca, (9 ∷ []) ∷ (0 ∷ 0 ∷ []) ∷ (0 ∷ 0 ∷ []) ∷ [])
unfolding new_tls_config with_key with_pair with_ca from_env process_key decode free allocate clear
    zeros contents
unset_lem = refl
