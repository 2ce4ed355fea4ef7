-- ===== src/Certkit/Pki/Issues.antt =====
-- certkit/pki/pki.go: what is known of a certificate that was issued.
use Prim.Native.String.{String}
use albstractions.Prelude.{
  ℕ, ◌^◌, ◌<◌, ◌≡◌, refl, sym, ap, ◌∙◌, ◌⊎◌, inl, inr, ◌≢◌, All, Bool-cases, [], ◌∷◌, true, false,
  ◌&&◌, Option, none, some, List, arith, nat_comparable, pos, ◌≤ℤ◌, ◌<ℤ◌, ltb_ℤ_false,
}
use albstractions.Time.{Duration, add}
use albstractions.Certkit.Keyloader.Slices.{Bytes}
use albstractions.Certkit.Pki.Results.{bind-inr, checked-inr, inr-eq, guards-inr}
use albstractions.Certkit.Pki.Serials.{resolve_serial-bounds}
use albstractions.Certkit.Pki.Uris.{Reproduces, resolve_uris-Reproduces}
use albstractions.Certkit.Pki.{
  Bundle, CertConfig, CertOption, ExtKeyUsage, server_auth, client_auth, Template, Certificate,
  World, not_a_ca, outlives_ca, no_key, not_created, bind, checked, apply_options, resolve_serial,
  resolve_uris, parse_ca, marshal_private_key, issue, needs_san, is_empty, check_sans, check_ca,
}
use albstractions.Certkit.Pki.Generate.{ca_config, leaf_config, generate_cert, generate_ca}

-- A bundle holds a certificate made from a template by a parent with its key.
pub record IsMade {U K : Type 0} (w : World U K) (template : Template U)
    (parent : Option Certificate) (key signer : K) (bundle : Bundle) : Type 0 where
  pub der : Bytes
  pub created : w.create_certificate template parent key signer ≡ some der
  pub written : bundle.cert_pem ≡ w.pem_encode "CERTIFICATE" der
  pub key_der : Bytes
  pub marshalled : w.marshal_key key ≡ some key_der
  pub key_written : bundle.key_pem ≡ w.pem_encode "PRIVATE KEY" key_der

pub issue-IsMade :
    {U K : Type 0} (w : World U K) (template : Template U) (parent : Option Certificate)
    (key signer : K) (bundle : Bundle)
    → issue w template parent key signer ≡ inr bundle
    → IsMade w template parent key signer bundle
unfolding issue marshal_private_key
issue-IsMade w template parent key signer bundle e =
    let (der, made, e') =
      bind-inr (checked not_created (w.create_certificate template parent key signer)) _ bundle e in
    let (key_pem, marshalled, e'') = bind-inr (marshal_private_key w key) _ bundle e' in
    let (key_der, got, wrote) = bind-inr _ _ key_pem marshalled in
    let whole = inr-eq _ bundle e'' in
    record {
      der = der;
      created = checked-inr _ _ der made;
      written = sym (ap (λ b. b.cert_pem) whole);
      key_der = key_der;
      marshalled = checked-inr _ _ key_der got;
      key_written = sym (ap (λ b. b.key_pem) whole) ∙ sym (inr-eq _ key_pem wrote);
    }

check_sans-named :
    {U : Type 0} (usages : List ExtKeyUsage) (dns_names : List String) (ips : List Bytes)
    (uris us : List U)
    → check_sans usages dns_names ips uris ≡ inr us
    → (uris ≡ us)
      × ((needs_san usages && is_empty dns_names && is_empty ips && is_empty us) ≡ false)
unfolding check_sans
check_sans-named usages dns_names ips uris us e = ground arith

-- Usages that need no name are not for servers.
needs_san-All :
    (usages : List ExtKeyUsage) → needs_san usages ≡ false → All (λ u. u ≢ server_auth) usages
unfolding needs_san
needs_san-All [] h = tt
needs_san-All (server_auth ∷ usages) h = absurd (cc)
needs_san-All (client_auth ∷ usages) h = ((λ e. absurd (cc)), needs_san-All usages h)

is_empty-false : {A : Type 0} (xs : List A) → is_empty xs ≡ false → xs ≢ []
is_empty-false [] h e = absurd (cc)
is_empty-false (x ∷ xs) h e = absurd (cc)

check_ca-within :
    {U K : Type 0} (w : World U K) (ca : Bundle) (validity : Duration) (cert : Certificate)
    (signer : K)
    → check_ca w ca validity ≡ inr (cert, signer)
    → (parse_ca w ca ≡ inr (cert, signer))
      × (cert.is_ca ≡ true)
      × (add (w.now 0) validity ≤ℤ cert.not_after)
unfolding check_ca
check_ca-within w ca validity cert signer e =
    let (parsed, got, e') = bind-inr (parse_ca w ca) _ (cert, signer) e in
    let (is_ca, lives, same) = guards-inr _ _ not_a_ca outlives_ca parsed (cert, signer) e' in
    (
      got ∙ ap inr same,
      sym (ap (λ p. p.0.is_ca) same) ∙ is_ca,
      ground (
        arith,
        ap (λ p. p.0.not_after) same,
        lives,
        ltb_ℤ_false cert.not_after (add (w.now 0) validity),
      ),
    )

-- A subject alternative name: a DNS name, an IP address or a URI.
pub data HasName {U : Type 0} (template : Template U) : Type 0 where
  by_dns : template.dns_names ≢ [] → HasName template
  by_ip : template.ip_addresses ≢ [] → HasName template
  by_uri : template.uris ≢ [] → HasName template

-- What holds of a leaf certificate: who signed it, that the signer is a CA, that it ends before the
-- signer does, that it is no CA itself, that one for servers has a name, that its URIs are those
-- asked for, and that its serial number is in bounds.
pub record IsIssued {U K : Type 0} (w : World U K) (ca : Bundle) (usages : List ExtKeyUsage)
    (uris : List Bytes) (bundle : Bundle) : Type 0 where
  pub template : Template U
  pub cert : Certificate
  pub key : K
  pub signer : K
  pub made : IsMade w template (some cert) key signer bundle
  pub by_ca : parse_ca w ca ≡ inr (cert, signer)
  pub signs : cert.is_ca ≡ true
  pub within : template.not_after ≤ℤ cert.not_after
  pub leaf : template.is_ca ≡ false
  pub usage : template.ext_key_usage ≡ usages
  pub named : All (λ u. u ≢ server_auth) usages ⊎ HasName template
  pub uris_kept : Reproduces w uris template.uris
  pub serial_in_bounds :
      (pos 0 <ℤ template.serial_number) × (template.serial_number <ℤ pos (256 ^ 20))

named-HasName :
    {U : Type 0} (usages : List ExtKeyUsage) (t : Template U)
    → (needs_san usages && is_empty t.dns_names && is_empty t.ip_addresses && is_empty t.uris)
      ≡ false
    → All (λ u. u ≢ server_auth) usages ⊎ HasName t
named-HasName usages t h = elim (Bool-cases (needs_san usages)) [
  | inr others ↦ inl (needs_san-All usages others)
  | inl serves ↦ elim (Bool-cases (is_empty t.dns_names)) [
    | inr dns ↦ inr (by_dns (is_empty-false t.dns_names dns))
    | inl no_dns ↦ elim (Bool-cases (is_empty t.ip_addresses)) [
      | inr ip ↦ inr (by_ip (is_empty-false t.ip_addresses ip))
      | inl no_ip ↦
          let uri : is_empty t.uris ≡ false = ground (arith, h, serves, no_dns, no_ip) in
          inr (by_uri (is_empty-false t.uris uri))
    ]
  ]
]

-- Whenever a leaf certificate is issued, it was made from a template by the certificate and the key of
-- the bundle given, which is that of a CA; it ends no later than the CA and is no CA itself; it has
-- the usages asked for and, if one of them is for servers, a name; its URIs are those asked for, byte
-- for byte; and its serial number is positive and of at most 20 octets. A random serial number is
-- drawn below 2 ^ 128, or the draw fails.
pub generate_cert-IsIssued :
    {U K : Type 0} (w : World U K) (algorithm : Option K) (ca : Bundle) (common_name : String)
    (dns_names : List String) (ips : List Bytes) (validity : Duration) (usages : List ExtKeyUsage)
    (opts : List CertOption) (bundle : Bundle)
    → ((w.random ≡ none) ⊎ ((n : ℕ) × (w.random ≡ some n) × (n < 2 ^ 128)))
    → generate_cert w algorithm ca common_name dns_names ips validity usages opts ≡ inr bundle
    → IsIssued w ca usages (apply_options opts leaf_config).uris bundle
unfolding generate_cert
generate_cert-IsIssued w algorithm ca common_name dns_names ips validity usages opts bundle draw e =
    let cfg = apply_options opts leaf_config in
    let (resolved, r, e1) = bind-inr (resolve_uris w cfg.uris) _ bundle e in
    let (uris, s, e2) = bind-inr (check_sans usages dns_names ips resolved) _ bundle e1 in
    let (parsed, p, e3) = bind-inr (check_ca w ca validity) _ bundle e2 in
    let (key, k, e4) = bind-inr (checked no_key algorithm) _ bundle e3 in
    let (serial, n, e5) = bind-inr (resolve_serial w cfg) _ bundle e4 in
    let (same, named) = check_sans-named usages dns_names ips resolved uris s in
    let (by_ca, signs, within) = check_ca-within w ca validity parsed.0 parsed.1 p in
    record {
      template = _;
      cert = parsed.0;
      key = key;
      signer = parsed.1;
      made = issue-IsMade w _ (some parsed.0) key parsed.1 bundle e5;
      by_ca = by_ca;
      signs = signs;
      within = within;
      leaf = refl;
      usage = refl;
      named = named-HasName usages _ named;
      uris_kept = resolve_uris-Reproduces w cfg.uris uris (r ∙ ap inr same);
      serial_in_bounds = resolve_serial-bounds w cfg serial draw n;
    }

-- What holds of a CA certificate: it signs itself, may sign others, and has the path length asked for.
pub record IsRoot {U K : Type 0} (w : World U K) (cfg : CertConfig) (bundle : Bundle) : Type 0 where
  pub template : Template U
  pub key : K
  pub made : IsMade w template none key key bundle
  pub authority : (template.basic_constraints_valid ≡ true) × (template.is_ca ≡ true)
  pub path_len : template.max_path_len ≡ cfg.max_path_len
  pub path_len_zero : template.max_path_len_zero ≡ cfg.max_path_len_zero
  pub serial_in_bounds :
      (pos 0 <ℤ template.serial_number) × (template.serial_number <ℤ pos (256 ^ 20))

-- Whenever a CA is generated, it is made from a template that says that it is a CA, with basic
-- constraints that are valid, by no parent and
-- with its own key, the one that the algorithm made; its path length is the one of its options; and
-- its serial number is positive and of at most 20 octets. A random serial number is drawn below
-- 2 ^ 128, or the draw fails.
pub generate_ca-IsRoot :
    {U K : Type 0} (w : World U K) (key : K) (common_name org : String) (validity : Duration)
    (opts : List CertOption) (bundle : Bundle)
    → ((w.random ≡ none) ⊎ ((n : ℕ) × (w.random ≡ some n) × (n < 2 ^ 128)))
    → generate_ca w (some key) common_name org validity opts ≡ inr bundle
    → (root : IsRoot w (apply_options opts ca_config) bundle) × (root.key ≡ key)
unfolding generate_ca bind
generate_ca-IsRoot w key common_name org validity opts bundle draw e =
    let cfg = apply_options opts ca_config in
    let (serial, n, e') = bind-inr (resolve_serial w cfg) _ bundle e in
    (
      record {
        template = _;
        key = key;
        made = issue-IsMade w _ none key key bundle e';
        authority = (refl, refl);
        path_len = refl;
        path_len_zero = refl;
        serial_in_bounds = resolve_serial-bounds w cfg serial draw n;
      },
      refl,
    )
