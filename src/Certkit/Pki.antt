-- ===== src/Certkit/Pki.antt =====
-- certkit/pki/pki.go: CA and leaf certificates. Keys, parsing and encoding of certificates, PEM, URLs,
-- the random source and the clock are parameters.
pub mod Results
pub mod Serials
pub mod Uris
pub mod Generate
pub mod Issues
pub mod RoundTrip
pub mod Algorithms
use Prim.Native.String.{String}
use albstractions.Prelude.{
  ℕ, zero, suc, ◌/◌, ◌⊎◌, inl, inr, Bool, true, false, not, ◌&&◌, Option, none, some, List, [], ◌∷◌,
  ltb, ◌==◌, if◌then◌else◌, nat_comparable, ℤ, pos, pos_part, ◌+ℤ◌, leb_ℤ, eqb_ℤ,
}
use albstractions.Time.{Time, Duration, before, add}
use albstractions.Certkit.Keyloader.Slices.{Bytes}

pub record Bundle : Type 0 where
  pub cert_pem : Bytes
  pub key_pem : Bytes

pub record CertConfig : Type 0 where
  pub max_path_len : ℤ
  pub max_path_len_zero : Bool
  pub serial : Option ℤ
  pub uris : List Bytes

abbrev pub CertOption : Type 0
CertOption = CertConfig → CertConfig

unfoldable pub with_max_path_len : ℤ → CertOption
with_max_path_len n c = record c { max_path_len = n; max_path_len_zero = eqb_ℤ n (pos 0) }

unfoldable pub with_serial : Option ℤ → CertOption
with_serial serial c = record c { serial = serial }

unfoldable pub with_uris : List Bytes → CertOption
with_uris uris c = record c { uris = uris }

-- The loop over the options.
unfoldable pub apply_options : List CertOption → CertConfig → CertConfig
apply_options [] c = c
apply_options (opt ∷ opts) c = apply_options opts (opt c)

pub data ExtKeyUsage : Type 0 where
  server_auth client_auth : ExtKeyUsage

pub data KeyUsage : Type 0 where
  cert_and_crl_sign digital_signature : KeyUsage

-- The template of a certificate, with the fields that the code sets; `is_ca` and the path length
-- count if `basic_constraints_valid` is set.
pub record Template (U : Type 0) : Type 0 where
  pub serial_number : ℤ
  pub common_name : String
  pub organization : List String
  pub dns_names : List String
  pub ip_addresses : List Bytes
  pub uris : List U
  pub not_before : Time
  pub not_after : Time
  pub key_usage : KeyUsage
  pub ext_key_usage : List ExtKeyUsage
  pub basic_constraints_valid : Bool
  pub is_ca : Bool
  pub max_path_len : ℤ
  pub max_path_len_zero : Bool

-- A parsed certificate, with the fields that the code reads.
pub record Certificate : Type 0 where
  pub is_ca : Bool
  pub not_after : Time
  pub organization : List String
  pub raw : Bytes

-- The libraries: `U` are URLs, `K` private keys. `now` is the clock at each reading of a call; a
-- parent of `none` is the template itself. `random` is the draw of `rand.Int`.
pub record World (U K : Type 0) : Type 0 where
  pub parse_url : Bytes → Option U
  pub is_abs : U → Bool
  pub url_string : U → Bytes
  pub random : Option ℕ
  pub now : ℕ → Time
  pub pem_decode : Bytes → Option Bytes
  pub pem_encode : String → Bytes → Bytes
  pub parse_certificate : Bytes → Option Certificate
  pub parse_key : Bytes → Option K
  pub is_signer : K → Bool
  pub create_certificate : Template U → Option Certificate → K → K → Option Bytes
  pub marshal_key : K → Option Bytes

pub data Failure : Type 0 where
  bad_url not_absolute not_ascii not_normal : Failure
  no_san no_cert_pem bad_cert no_key_pem bad_key not_a_signer not_a_ca outlives_ca : Failure
  no_key no_random not_positive too_long not_created not_marshalled : Failure

abbrev pub Result : Type 0 → Type 0
Result A = Failure ⊎ A

-- A call whose error is returned at once.
unfoldable pub bind : {A B : Type 0} → Result A → (A → Result B) → Result B
bind (inl err) f = inl err
bind (inr a) f = f a

abbrev pub checked : {A : Type 0} → Failure → Option A → Result A
checked err none = inl err
checked err (some a) = inr a

unfoldable pub is_ascii : Bytes → Bool
is_ascii [] = true
is_ascii (c ∷ s) = if ltb 127 c then false else is_ascii s

-- `==` on strings.
unfoldable pub same_bytes : Bytes → Bytes → Bool
same_bytes [] [] = true
same_bytes [] (d ∷ t) = false
same_bytes (c ∷ s) [] = false
same_bytes (c ∷ s) (d ∷ t) = (c == d) && same_bytes s t

-- `len(n.Bytes()) <= k` for a magnitude.
unfoldable pub fits_octets : ℕ → ℕ → Bool
fits_octets zero n = n == 0
fits_octets (suc k) n = fits_octets k (n / 256)

unfoldable pub random_serial : {U K : Type 0} → World U K → Result ℤ
random_serial w = bind (checked no_random w.random) (λ serial. inr (pos serial +ℤ pos 1))

unfoldable pub resolve_serial : {U K : Type 0} → World U K → CertConfig → Result ℤ
resolve_serial w cfg = elim cfg.serial [
  | none ↦ random_serial w
  | some serial ↦
      if leb_ℤ serial (pos 0)
      then inl not_positive
      else if not (fits_octets 20 (pos_part serial))
      then inl too_long
      else inr serial
]

-- The loop over the usages.
unfoldable pub needs_san : List ExtKeyUsage → Bool
needs_san [] = false
needs_san (server_auth ∷ usages) = true
needs_san (client_auth ∷ usages) = needs_san usages

abbrev pub is_empty : {A : Type 0} → List A → Bool
is_empty [] = true
is_empty (x ∷ xs) = false

-- The check of `generateCert` on the names; it hands the URIs on.
unfoldable pub check_sans :
    {U : Type 0} → List ExtKeyUsage → List String → List Bytes → List U → Result (List U)
check_sans usages dns_names ips uris =
    if needs_san usages && is_empty dns_names && is_empty ips && is_empty uris
    then inl no_san
    else inr uris

module _ {U K : Type 0} (w : World U K) where
  -- The body of the loop of `resolveURIs`.
  unfoldable pub resolve_uri : Bytes → Result U
  resolve_uri raw = bind (checked bad_url (w.parse_url raw)) (λ u.
      if not (w.is_abs u)
      then inl not_absolute
      else if not (is_ascii raw)
      then inl not_ascii
      else if not (same_bytes (w.url_string u) raw)
      then inl not_normal
      else inr u)

  unfoldable pub resolve_uris : List Bytes → Result (List U)
  resolve_uris [] = inr []
  resolve_uris (raw ∷ uris) =
      bind (resolve_uri raw) (λ u. bind (resolve_uris uris) (λ us. inr (u ∷ us)))

  unfoldable pub parse_ca : Bundle → Result (Certificate × K)
  parse_ca ca = bind (checked no_cert_pem (w.pem_decode ca.cert_pem)) (λ cert_block.
      bind (checked bad_cert (w.parse_certificate cert_block)) (λ cert.
        bind (checked no_key_pem (w.pem_decode ca.key_pem)) (λ key_block.
          bind (checked bad_key (w.parse_key key_block))
            (λ key. if w.is_signer key then inr (cert, key) else inl not_a_signer))))

  unfoldable pub marshal_private_key : K → Result Bytes
  marshal_private_key key =
      bind (checked not_marshalled (w.marshal_key key))
        (λ der. inr (w.pem_encode "PRIVATE KEY" der))

  -- The end of both functions: the certificate, then the key.
  unfoldable pub issue : Template U → Option Certificate → K → K → Result Bundle
  issue template parent key signer =
      bind (checked not_created (w.create_certificate template parent key signer)) (λ cert_der.
        bind (marshal_private_key key) (λ key_pem.
          inr (record { cert_pem = w.pem_encode "CERTIFICATE" cert_der; key_pem = key_pem })))

  -- The checks of `generateCert` on the CA.
  unfoldable pub check_ca : Bundle → Duration → Result (Certificate × K)
  check_ca ca validity = bind (parse_ca ca) (λ parsed.
      if not parsed.0.is_ca
      then inl not_a_ca
      else if before parsed.0.not_after (add (w.now 0) validity)
      then inl outlives_ca
      else inr parsed)
