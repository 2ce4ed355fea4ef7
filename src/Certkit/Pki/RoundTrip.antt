-- ===== src/Certkit/Pki/RoundTrip.antt =====
-- certkit/pki/pki.go: a generated CA is read back, and issues certificates.
use Prim.Native.String.{String}
use albstractions.Prelude.{
  ℕ, ◌≡◌, refl, inr, ◌&&◌, true, false, Option, none, some, List, [], ◌∷◌, arith, nat_comparable,
  pos, ◌+ℤ◌, ◌≤ℤ◌, ◌<ℤ◌, +ℤ_parts,
}
use albstractions.Time.{Time, Duration, before, add}
use albstractions.Certkit.Keyloader.Slices.{Bytes}
use albstractions.Certkit.Pki.Results.{bind-inr}
use albstractions.Certkit.Pki.Issues.{IsMade, issue-IsMade}
use albstractions.Certkit.Pki.{
  Bundle, CertOption, Template, Certificate, World, bind, apply_options, resolve_serial, parse_ca,
  check_ca,
}
use albstractions.Certkit.Pki.Generate.{ca_config, generate_ca}

abbrev second : Duration
second = pos 1000000000

-- A certificate reads back a template, as a CA only with valid basic constraints, with the end of its validity cut to seconds.
pub record ReadsBack {U : Type 0} (t : Template U) (cert : Certificate) : Type 0 where
  pub is_ca : cert.is_ca ≡ (t.basic_constraints_valid && t.is_ca)
  pub organization : cert.organization ≡ t.organization
  pub ends : cert.not_after ≤ℤ t.not_after
  pub not_early : t.not_after <ℤ add cert.not_after second

-- What the libraries promise: PEM and PKCS #8 are read back, and so is a certificate.
pub record IsLibrary {U K : Type 0} (w : World U K) : Type 0 where
  pub pem : (kind : String) (der : Bytes) → w.pem_decode (w.pem_encode kind der) ≡ some der
  pub pkcs8 : (key : K) (der : Bytes) → w.marshal_key key ≡ some der → w.parse_key der ≡ some key
  pub x509 :
      (t : Template U) (parent : Option Certificate) (key signer : K) (der : Bytes)
      → w.create_certificate t parent key signer ≡ some der
      → (cert : Certificate) × (w.parse_certificate der ≡ some cert) × ReadsBack t cert

-- The bundle holds this certificate and key; the certificate is a CA's, of the organisation, and ends
-- less than a second before `limit`.
pub record IsAuthority {U K : Type 0} (w : World U K) (bundle : Bundle) (key : K) (org : String)
    (limit : Time) : Type 0 where
  pub cert : Certificate
  pub parsed : parse_ca w bundle ≡ inr (cert, key)
  pub authority : cert.is_ca ≡ true
  pub organization : cert.organization ≡ org ∷ []
  pub ends : cert.not_after ≤ℤ limit
  pub not_early : limit <ℤ add cert.not_after second

lives :
    (now later : Time) (validity leaf : Duration) (ends : Time)
    → add (add later leaf) second ≤ℤ add now validity
    → add now validity <ℤ add ends second
    → before ends (add later leaf) ≡ false
lives now later validity leaf ends soon early =
    ground (arith, +ℤ_parts (later +ℤ leaf) second, +ℤ_parts ends second)

module _ {U K : Type 0} (w : World U K) (l : IsLibrary w) where
  parse_ca-IsMade :
      (t : Template U) (key : K) (bundle : Bundle)
      → w.is_signer key ≡ true
      → IsMade w t none key key bundle
      → (cert : Certificate) × (parse_ca w bundle ≡ inr (cert, key)) × ReadsBack t cert
  unfolding parse_ca bind
  parse_ca-IsMade t key bundle signs made =
      let (cert, read, back) = l.x509 t none key key made.der made.created in
      (
        cert,
        rw
            (
              made.written,
              made.key_written,
              l.pem "CERTIFICATE" made.der,
              l.pem "PRIVATE KEY" made.key_der,
              read,
              l.pkcs8 key made.key_der made.marshalled,
              signs,
            )
            refl,
        back,
      )

  check_ca-passes :
      (bundle : Bundle) (cert : Certificate) (key : K) (clock : ℕ → Time) (leaf : Duration)
      → parse_ca w bundle ≡ inr (cert, key)
      → cert.is_ca ≡ true
      → before cert.not_after (add (clock 0) leaf) ≡ false
      → check_ca (record w { now = clock }) bundle leaf ≡ inr (cert, key)
  unfolding check_ca bind parse_ca
  check_ca-passes bundle cert key clock leaf parsed signs lives =
      let parsed' : parse_ca (record w { now = clock }) bundle ≡ inr (cert, key) = parsed in
      rw (parsed', check_ca, signs, lives) refl

  -- A bundle that `GenerateCA` made is read back as the bundle of a CA: its key is the one that was
  -- generated, its certificate is that of a CA of the organisation given, and it ends when the
  -- validity does, cut to seconds. And it issues: from whatever clock, a leaf passes the checks on the
  -- CA if its validity ends at least a second before that of the CA. The libraries keep the promises
  -- of `IsLibrary`, and the generated key signs.
  pub generate_ca-IsAuthority :
      (key : K) (common_name org : String) (validity : Duration) (opts : List CertOption)
      (bundle : Bundle) (clock : ℕ → Time) (leaf : Duration)
      → w.is_signer key ≡ true
      → generate_ca w (some key) common_name org validity opts ≡ inr bundle
      → add (add (clock 0) leaf) second ≤ℤ add (w.now 1) validity
      → (a : IsAuthority w bundle key org (add (w.now 1) validity)) × (check_ca
            (record w { now = clock })
            bundle
            leaf
          ≡ inr (a.cert, key))
  unfolding generate_ca bind
  generate_ca-IsAuthority key common_name org validity opts bundle clock leaf signs e soon =
      let cfg = apply_options opts ca_config in
      let (serial, n, e') = bind-inr (resolve_serial w cfg) _ bundle e in
      let (cert, parsed, back) =
        parse_ca-IsMade _ key bundle signs (issue-IsMade w _ none key key bundle e') in
      (
        record {
          cert = cert;
          parsed = parsed;
          authority = back.is_ca;
          organization = back.organization;
          ends = back.ends;
          not_early = back.not_early;
        },
        check_ca-passes bundle cert key clock leaf parsed back.is_ca
            (lives (w.now 1) (clock 0) validity leaf cert.not_after soon back.not_early),
      )
