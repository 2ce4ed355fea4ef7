-- ===== src/Certkit/Pki/Generate.antt =====
-- certkit/pki/pki.go: the generation of CA and of leaf certificates.
use Prim.Native.String.{String}
use albstractions.Prelude.{
  true, false, Option, none, some, List, [], ◌∷◌, nat_comparable, pos, ◌-ℤ◌,
}
use albstractions.Time.{Duration, add}
use albstractions.Certkit.Keyloader.Slices.{Bytes}
use albstractions.Certkit.Pki.{
  Bundle, CertConfig, CertOption, apply_options, ExtKeyUsage, server_auth, client_auth,
  cert_and_crl_sign, digital_signature, World, no_key, Result, bind, checked, resolve_serial,
  resolve_uris, check_sans, check_ca, issue,
}

-- A minute.
abbrev pub back_date : Duration
back_date = pos 60000000000

-- The configuration of a CA before its options.
abbrev pub ca_config : CertConfig
ca_config = record { max_path_len = pos 0; max_path_len_zero = true; serial = none; uris = [] }

-- The configuration of a leaf before its options.
abbrev pub leaf_config : CertConfig
leaf_config = record { max_path_len = pos 0; max_path_len_zero = false; serial = none; uris = [] }

module _ {U K : Type 0} (w : World U K) where
  unfoldable pub generate_cert :
      Option K
      → Bundle
      → String
      → List String
      → List Bytes
      → Duration
      → List ExtKeyUsage
      → List CertOption
      → Result Bundle
  generate_cert algorithm ca common_name dns_names ips validity usages opts =
      let cfg = apply_options opts leaf_config in
      bind (resolve_uris w cfg.uris) (λ resolved.
        bind (check_sans usages dns_names ips resolved) (λ uris.
          bind (check_ca w ca validity) (λ parsed. bind (checked no_key algorithm) (λ key.
            bind (resolve_serial w cfg) (λ serial.
              issue w
                (record {
                  serial_number = serial;
                  common_name = common_name;
                  organization = parsed.0.organization;
                  dns_names = dns_names;
                  ip_addresses = ips;
                  uris = uris;
                  not_before = w.now 1 -ℤ back_date;
                  not_after = add (w.now 0) validity;
                  key_usage = digital_signature;
                  ext_key_usage = usages;
                  basic_constraints_valid = false;
                  is_ca = false;
                  max_path_len = pos 0;
                  max_path_len_zero = false;
                })
                (some parsed.0) key parsed.1)))))

  unfoldable pub generate_server_cert :
      Option K
      → Bundle
      → String
      → List String
      → List Bytes
      → Duration
      → List CertOption
      → Result Bundle
  generate_server_cert algorithm ca name dns_names ips validity opts =
      generate_cert algorithm ca name dns_names ips validity (server_auth ∷ []) opts

  unfoldable pub generate_client_cert :
      Option K
      → Bundle
      → String
      → List String
      → List Bytes
      → Duration
      → List CertOption
      → Result Bundle
  generate_client_cert algorithm ca name dns_names ips validity opts =
      generate_cert algorithm ca name dns_names ips validity (client_auth ∷ []) opts

  unfoldable pub generate_peer_cert :
      Option K
      → Bundle
      → String
      → List String
      → List Bytes
      → Duration
      → List CertOption
      → Result Bundle
  generate_peer_cert algorithm ca name dns_names ips validity opts =
      generate_cert algorithm ca name dns_names ips validity (server_auth ∷ client_auth ∷ []) opts

  unfoldable pub generate_ca :
      Option K → String → String → Duration → List CertOption → Result Bundle
  generate_ca algorithm common_name org validity opts =
      let cfg = apply_options opts ca_config in
      bind (checked no_key algorithm) (λ key. bind (resolve_serial w cfg) (λ serial.
        issue w
          (record {
            serial_number = serial;
            common_name = common_name;
            organization = org ∷ [];
            dns_names = [];
            ip_addresses = [];
            uris = [];
            not_before = w.now 0 -ℤ back_date;
            not_after = add (w.now 1) validity;
            key_usage = cert_and_crl_sign;
            ext_key_usage = [];
            basic_constraints_valid = true;
            is_ca = true;
            max_path_len = cfg.max_path_len;
            max_path_len_zero = cfg.max_path_len_zero;
          })
          none key key))
