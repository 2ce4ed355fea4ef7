-- ===== src/Certkit/Pki/Algorithms.antt =====
-- certkit/pki/pki.go: the key algorithms. The generators of the crypto packages are parameters.
use albstractions.Prelude.{
  ℕ, ◌≡◌, refl, ap, ◌⊎◌, inl, inr, Option, none, some, Option-cases, nat_comparable,
}

-- A value of the interface `crypto.Signer`: nil, or a key behind a pointer, which is nil itself for
-- `boxed none`.
pub data Signer (K : Type 0) : Type 0 where
  nil : Signer K
  boxed : Option K → Signer K

-- What a generator returns: a pointer that may be nil, beside an error.
abbrev pub Generated : Type 0 → Type 0 → Type 0
Generated K E = Option K × Option E

-- The result of a `KeyAlgorithm`.
abbrev pub KeyAlgorithm : Type 0 → Type 0 → Type 0
KeyAlgorithm K E = Signer K × Option E

pub data Curve : Type 0 where
  p256 p384 : Curve

pub data Parameters : Type 0 where
  mldsa_44 mldsa_65 mldsa_87 : Parameters

pub record Generators (K E : Type 0) : Type 0 where
  pub ecdsa : Curve → Generated K E
  pub rsa : ℕ → Generated K E
  pub ed25519 : Generated K E
  pub mldsa : Parameters → Generated K E

-- A pointer that is returned as the interface.
abbrev boxes : {K E : Type 0} → Generated K E → KeyAlgorithm K E
boxes (key, err) = (boxed key, err)

module _ {K E : Type 0} (g : Generators K E) where
  unfoldable pub ecdsa_p256 : KeyAlgorithm K E
  ecdsa_p256 = boxes (g.ecdsa p256)

  unfoldable pub ecdsa_p384 : KeyAlgorithm K E
  ecdsa_p384 = boxes (g.ecdsa p384)

  unfoldable pub rsa_2048 : KeyAlgorithm K E
  rsa_2048 = boxes (g.rsa 2048)

  unfoldable pub rsa_4096 : KeyAlgorithm K E
  rsa_4096 = boxes (g.rsa 4096)

  unfoldable pub ed25519 : KeyAlgorithm K E
  ed25519 = boxes g.ed25519

  unfoldable pub mldsa_key : Parameters → KeyAlgorithm K E
  mldsa_key params =
      let (key, err) = g.mldsa params in
      elim err [ some e ↦ (nil, some e) | none ↦ (boxed key, none) ]

  unfoldable pub mldsa44 : KeyAlgorithm K E
  mldsa44 = mldsa_key mldsa_44

  unfoldable pub mldsa65 : KeyAlgorithm K E
  mldsa65 = mldsa_key mldsa_65

  unfoldable pub mldsa87 : KeyAlgorithm K E
  mldsa87 = mldsa_key mldsa_87

-- The presets.
pub data Preset : Type 0 where
  is_ecdsa_p256 is_ecdsa_p384 is_rsa_2048 is_rsa_4096 is_ed25519 : Preset
  is_mldsa44 is_mldsa65 is_mldsa87 : Preset

abbrev pub algorithm : {K E : Type 0} → Generators K E → Preset → KeyAlgorithm K E
algorithm g is_ecdsa_p256 = ecdsa_p256 g
algorithm g is_ecdsa_p384 = ecdsa_p384 g
algorithm g is_rsa_2048 = rsa_2048 g
algorithm g is_rsa_4096 = rsa_4096 g
algorithm g is_ed25519 = ed25519 g
algorithm g is_mldsa44 = mldsa44 g
algorithm g is_mldsa65 = mldsa65 g
algorithm g is_mldsa87 = mldsa87 g

-- The generators hand out a key if they have no error; those that can only fail on a broken random
-- source, as all but ML-DSA do, have no error at all.
pub record IsSound {K E : Type 0} (g : Generators K E) : Type 0 where
  pub ecdsa : (c : Curve) → (k : K) × (g.ecdsa c ≡ (some k, none))
  pub rsa : (n : ℕ) → (k : K) × (g.rsa n ≡ (some k, none))
  pub ed25519 : (k : K) × (g.ed25519 ≡ (some k, none))
  pub mldsa : (p : Parameters) → (g.mldsa p).1 ≡ none → (k : K) × ((g.mldsa p).0 ≡ some k)

-- A key and no error, or the nil interface with an error: no key that looks as if it were there.
abbrev pub IsClean : {K E : Type 0} → KeyAlgorithm K E → Type 0
IsClean {K} {E} (signer, err) =
    ((k : K) × (signer ≡ boxed (some k)) × (err ≡ none))
    ⊎ ((e : E) × (signer ≡ nil) × (err ≡ some e))

module _ {K E : Type 0} (g : Generators K E) (s : IsSound g) where
  boxes-IsClean : (x : Generated K E) → ((k : K) × (x ≡ (some k, none))) → IsClean (boxes x)
  boxes-IsClean x (k, e) = inl (k, ap (λ p. boxed p.0) e, ap (λ p. p.1) e)

  mldsa_key-IsClean : (p : Parameters) → IsClean (mldsa_key g p)
  unfolding mldsa_key
  mldsa_key-IsClean p = elim (Option-cases (g.mldsa p).1) [
    | inl ok ↦ let (k, key) = s.mldsa p ok in rw (ok, mldsa_key) (inl (k, ap boxed key, refl))
    | inr (e, bad) ↦ rw (bad, mldsa_key) (inr (e, refl, refl))
  ]

  -- Every preset hands out a key and no error, or the nil interface and an error; never a nil key in an
  -- interface that is not nil. The generators keep the promises of `IsSound`.
  algorithm-IsClean : (p : Preset) → IsClean (algorithm g p)
  unfolding ecdsa_p256 ecdsa_p384 rsa_2048 rsa_4096 ed25519 mldsa44 mldsa65 mldsa87
  algorithm-IsClean is_ecdsa_p256 = boxes-IsClean _ (s.ecdsa p256)
  algorithm-IsClean is_ecdsa_p384 = boxes-IsClean _ (s.ecdsa p384)
  algorithm-IsClean is_rsa_2048 = boxes-IsClean _ (s.rsa 2048)
  algorithm-IsClean is_rsa_4096 = boxes-IsClean _ (s.rsa 4096)
  algorithm-IsClean is_ed25519 = boxes-IsClean _ s.ed25519
  algorithm-IsClean is_mldsa44 = mldsa_key-IsClean mldsa_44
  algorithm-IsClean is_mldsa65 = mldsa_key-IsClean mldsa_65
  algorithm-IsClean is_mldsa87 = mldsa_key-IsClean mldsa_87
