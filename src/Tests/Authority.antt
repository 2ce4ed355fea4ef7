-- ===== src/Tests/Authority.antt =====
-- A generated CA of the package certkit/pki, over libraries that read back what they write.
use Prim.Native.String.{String}
use mathlib.Core.Option.{some-injective}
use text.Mathlib.Text.{◌==◌ as same_text}
use text.Mathlib.TextEquality.{eq_iff}
use albstractions.Prelude.{
  ℕ, ◌+◌, ◌≡◌, refl, sym, ap, inr, Bool, ◌&&◌, true, false, Option, none, some, List, [], ◌∷◌,
  arith, ◌==◌, if◌then◌else◌, nat_comparable, pos, negsuc, ◌+ℤ◌, +ℤ_parts,
}
use albstractions.Time.{Time, add}
use albstractions.Certkit.Keyloader.Slices.{Bytes}
use albstractions.Certkit.Pki.{
  Bundle, Certificate, World, bind, apply_options, random_serial, resolve_serial,
  marshal_private_key, issue, check_ca,
}
use albstractions.Certkit.Pki.Generate.{generate_ca}
use albstractions.Certkit.Pki.RoundTrip.{IsLibrary, IsAuthority, generate_ca-IsAuthority}

-- A certificate is written as the bit for a CA and the second of its end. Only certificates of the
-- organisation `org` are made.
abbrev is_org : List String → Bool
is_org [] = false
is_org (o ∷ []) = same_text o "org"
is_org (o ∷ p ∷ os) = false

is_org-same : (o : List String) → is_org o ≡ true → o ≡ "org" ∷ []
is_org-same [] h = absurd (cc)
is_org-same (o ∷ []) h = ap (λ x. x ∷ []) ((eq_iff o "org").0 h)
is_org-same (o ∷ p ∷ os) h = absurd (cc)

abbrev write : Bool → Bool → Time → Option Bytes
write org ca (pos n) = if org then some ((if ca then 1 else 0) ∷ n ∷ []) else none
write org ca (negsuc n) = none

abbrev read : Bytes → Option Certificate
read (b ∷ n ∷ []) =
    some (record { is_ca = b == 1; not_after = pos n; organization = "org" ∷ []; raw = b ∷ n ∷ [] })
read der = none

-- Keys are numbers.
abbrev world : World Bytes ℕ
world = record {
  parse_url = λ s. some s;
  is_abs = λ s. true;
  url_string = λ s. s;
  random = some 41;
  now = λ i. pos (2000000000 + i);
  pem_decode = λ s. some s;
  pem_encode = λ kind s. s;
  parse_certificate = read;
  parse_key = λ s. elim s [ [] ↦ none | k ∷ rest ↦ some k ];
  is_signer = λ k. true;
  create_certificate = λ t parent k signer.
      write (is_org t.organization) (t.basic_constraints_valid && t.is_ca) t.not_after;
  marshal_key = λ k. some (k ∷ []);
}

write-read :
    (org ca : Bool) (ends : Time) (der : Bytes)
    → write org ca ends ≡ some der
    → (org ≡ true)
      × (read der
          ≡ some (record { is_ca = ca; not_after = ends; organization = "org" ∷ []; raw = der }))
write-read true true (pos n) der h = let same = some-injective _ _ h in rw⁻¹ same (refl, refl)
write-read true false (pos n) der h = let same = some-injective _ _ h in rw⁻¹ same (refl, refl)
write-read false ca (pos n) der h = absurd (cc)
write-read org ca (negsuc n) der h = absurd (cc)

world-IsLibrary : IsLibrary world
world-IsLibrary = record {
  pem = λ kind der. refl;
  pkcs8 = λ key der h. let same = some-injective _ _ h in rw⁻¹ same refl;
  x509 = λ t parent key signer der h.
      let (org, back) =
        write-read (is_org t.organization) (t.basic_constraints_valid && t.is_ca) t.not_after der
          h in
      (
        _,
        back,
        record {
          is_ca = refl;
          organization = sym (is_org-same t.organization org);
          ends = omega arith;
          not_early = omega (arith, +ℤ_parts t.not_after (pos 1000000000));
        },
      );
}

abbrev ca : Bundle
ca = record { cert_pem = 1 ∷ 5000000001 ∷ []; key_pem = 7 ∷ [] }

made_lem : generate_ca world (some 7) "ca" "org" (pos 3000000000) [] ≡ inr ca
unfolding bind apply_options random_serial resolve_serial marshal_private_key issue generate_ca ◌+ℤ◌
made_lem = refl

generate_ca-IsAuthority_example :
    (a : IsAuthority world ca 7 "org" (add (world.now 1) (pos 3000000000))) × (check_ca
        (record world { now = λ i. pos 3000000000 })
        ca
        (pos 500)
      ≡ inr (a.cert, 7))
unfolding ◌+ℤ◌
generate_ca-IsAuthority_example =
    generate_ca-IsAuthority world world-IsLibrary 7 "ca" "org" (pos 3000000000) [] ca
      (λ i. pos 3000000000) (pos 500) refl made_lem (omega arith)
