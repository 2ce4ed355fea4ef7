-- ===== src/Tests/Pki.antt =====
-- The package certkit/pki at concrete inputs.

use albstractions.Prelude.{
  ◌&&◌, ℕ, ◌+◌, ◌≡◌, refl, inl, inr, true, none, some, List, [], ◌∷◌, arith, leb, ◌==◌,
  if◌then◌else◌, nat_comparable, length, pos, ◌+ℤ◌,
}
use albstractions.Certkit.Keyloader.Slices.{Bytes}
use albstractions.Certkit.Pki.{
  Bundle, CertOption, Certificate, World, Failure, server_auth, bind, with_uris, with_serial,
  with_max_path_len, apply_options, is_ascii, same_bytes, fits_octets, random_serial,
  resolve_serial, resolve_uri, resolve_uris, parse_ca, marshal_private_key, issue, needs_san,
  check_sans, check_ca,
}
use albstractions.Certkit.Pki.Generate.{
  ca_config, leaf_config, generate_cert, generate_server_cert, generate_ca,
}
use albstractions.Certkit.Pki.Algorithms.{
  Generators, Parameters, mldsa_44, mldsa_65, mldsa_87, IsSound,
}
use albstractions.Certkit.Pki.Issues.{IsIssued, IsRoot, generate_cert-IsIssued, generate_ca-IsRoot}

program : Unit {0}
unfolding bind apply_options with_uris with_serial with_max_path_len is_ascii same_bytes fits_octets
    random_serial resolve_serial resolve_uri resolve_uris parse_ca marshal_private_key issue
    needs_san check_sans check_ca generate_cert generate_server_cert generate_ca ◌+ℤ◌
program = tt

-- Keys are numbers, and a URL is the bytes that it was read from, with small letters made of capital
-- ones. A certificate is written as a 1 for a CA and a 0 for a leaf.
abbrev small : Bytes → Bytes
small [] = []
small (c ∷ s) = (if c == 65 then 97 else c) ∷ small s

abbrev root : Certificate
root = record { is_ca = true; not_after = pos 1000; organization = "org" ∷ []; raw = 1 ∷ [] }

abbrev world : World Bytes ℕ
world = record {
  parse_url = λ s. some (small s);
  is_abs = λ s. leb 2 (length s);
  url_string = λ s. s;
  random = some 41;
  now = λ i. pos (100 + i);
  pem_decode = λ s. if length s == 0 then none else some s;
  pem_encode = λ kind s. s;
  parse_certificate = λ s. some root;
  parse_key = λ s. some 7;
  is_signer = λ k. true;
  create_certificate = λ t parent k signer.
      some ((if t.basic_constraints_valid && t.is_ca then 1 else 0) ∷ k ∷ signer ∷ []);
  marshal_key = λ k. some (k ∷ []);
}

abbrev ca : Bundle
ca = record { cert_pem = 1 ∷ 7 ∷ 7 ∷ []; key_pem = 7 ∷ [] }

made_lem : generate_ca world (some 7) "ca" "org" (pos 900) [] ≡ inr ca
unfolding program
made_lem = refl

abbrev named : List CertOption
named = with_uris ((115 ∷ 58 ∷ 97 ∷ []) ∷ []) ∷ []

abbrev leaf : Bundle
leaf = record { cert_pem = 0 ∷ 9 ∷ 7 ∷ []; key_pem = 9 ∷ [] }

leaf_lem :
    generate_cert world (some 9) ca "leaf" [] [] (pos 500) (server_auth ∷ []) named ≡ inr leaf
unfolding program
leaf_lem = refl

-- No name at all, a URI that would be rewritten, and a leaf that outlives its CA.
refused_lem :
    (generate_server_cert world (some 9) ca "leaf" [] [] (pos 500) [] ≡ inl Failure.no_san)
    × (generate_server_cert world
          (some 9)
          ca
          "leaf"
          []
          []
          (pos 500)
          (with_uris ((115 ∷ 58 ∷ 65 ∷ []) ∷ []) ∷ [])
        ≡ inl Failure.not_normal)
    × (generate_server_cert world (some 9) ca "leaf" ("api" ∷ []) [] (pos 901) []
        ≡ inl Failure.outlives_ca)
unfolding program
refused_lem = (refl, refl, refl)

generate_cert-IsIssued_example :
    IsIssued world ca (server_auth ∷ []) (apply_options named leaf_config).uris leaf
generate_cert-IsIssued_example =
    generate_cert-IsIssued world (some 9) ca "leaf" [] [] (pos 500) (server_auth ∷ []) named leaf
      (inr (41, refl, omega arith)) leaf_lem

generate_ca-IsRoot_example : (r : IsRoot world (apply_options [] ca_config) ca) × (r.key ≡ 7)
generate_ca-IsRoot_example =
    generate_ca-IsRoot world 7 "ca" "org" (pos 900) [] ca (inr (41, refl, omega arith)) made_lem

-- Generators of which one, of ML-DSA-87, fails.
abbrev generators : Generators ℕ ℕ
generators = record {
  ecdsa = λ c. (some 1, none);
  rsa = λ n. (some n, none);
  ed25519 = (some 2, none);
  mldsa = λ p. (elim p [ mldsa_87 ↦ (none, some 9) | _ ↦ (some 3, none) ]);
}

fails :
    (p : Parameters) → (generators.mldsa p).1 ≡ none → (k : ℕ) × ((generators.mldsa p).0 ≡ some k)
fails mldsa_44 h = (3, refl)
fails mldsa_65 h = (3, refl)
fails mldsa_87 h = absurd (cc)

generators-IsSound : IsSound generators
generators-IsSound = record {
  ecdsa = λ c. (1, refl);
  rsa = λ n. (n, refl);
  ed25519 = (2, refl);
  mldsa = fails;
}
