-- ===== src/Certkit/Pki/Serials.antt =====
-- certkit/pki/pki.go: the serial numbers of certificates.
use albstractions.Prelude.{
  ℕ, zero, suc, ◌/◌, ◌^◌, ◌<◌, ◌≡◌, ◌↔◌, ◌⊎◌, inr, true, Option, none, some, arith, nat_comparable,
  ℤ, pos, pos_part, ◌+ℤ◌, ◌<ℤ◌,
}
use albstractions.Certkit.Pki.Results.{bind-inr, checked-inr}
use albstractions.Certkit.Pki.{
  no_random, World, CertConfig, bind, checked, fits_octets, random_serial, resolve_serial,
}

-- A magnitude fits in `k` octets exactly when it is below 256 ^ k.
pub fits_octets_iff : (k n : ℕ) → (fits_octets k n ≡ true) ↔ (n < 256 ^ k)
unfolding fits_octets
fits_octets_iff zero n = ground arith
fits_octets_iff (suc k) n =
    let (to, back) = fits_octets_iff k (n / 256) in
    ((λ e. omega (arith, to e)), λ h. back (omega arith))

random_serial-bounds :
    {U K : Type 0} (w : World U K) (serial : ℤ)
    → ((w.random ≡ none) ⊎ ((n : ℕ) × (w.random ≡ some n) × (n < 2 ^ 128)))
    → random_serial w ≡ inr serial
    → (pos 0 <ℤ serial) × (serial <ℤ pos (256 ^ 20))
unfolding random_serial bind ◌+ℤ◌
random_serial-bounds w serial draw e =
    let (d, drew, sum) = bind-inr (checked no_random w.random) _ serial e in
    let drawn : w.random ≡ some d = checked-inr no_random w.random d drew in
    ground (arith, drawn, sum)

chosen-bounds :
    {U K : Type 0} (w : World U K) (cfg : CertConfig) (chosen : Option ℤ) (serial : ℤ)
    → ((w.random ≡ none) ⊎ ((n : ℕ) × (w.random ≡ some n) × (n < 2 ^ 128)))
    → resolve_serial w (record cfg { serial = chosen }) ≡ inr serial
    → (pos 0 <ℤ serial) × (serial <ℤ pos (256 ^ 20))
unfolding resolve_serial
chosen-bounds w cfg none serial draw e = random_serial-bounds w serial draw e
chosen-bounds w cfg (some chosen) serial draw e =
    ground (arith, fits_octets_iff 20 (pos_part chosen))

-- A serial number of an issued certificate is positive and has at most 20 octets, as RFC 5280 asks:
-- one that was given and is out of these bounds is refused, and a random one, drawn below 2 ^ 128,
-- lies between 1 and 2 ^ 128.
pub resolve_serial-bounds :
    {U K : Type 0} (w : World U K) (cfg : CertConfig) (serial : ℤ)
    → ((w.random ≡ none) ⊎ ((n : ℕ) × (w.random ≡ some n) × (n < 2 ^ 128)))
    → resolve_serial w cfg ≡ inr serial
    → (pos 0 <ℤ serial) × (serial <ℤ pos (256 ^ 20))
unfolding resolve_serial
resolve_serial-bounds w cfg serial draw e = chosen-bounds w cfg cfg.serial serial draw e
