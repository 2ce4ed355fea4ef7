-- ===== src/Certkit/Mtls/Releases.antt =====
-- certkit/mtls/mtls.go: what a configuration leaves in memory.

use mathlib.Core.Path.{subst}
use native.Mathlib.Decide.{ℕ_discrete, dec_lt}
use albstractions.Prelude.{
  ℕ, zero, suc, ◌≤◌, ◌<◌, ◌≡◌, refl, sym, ◌∙◌, ◌≢◌, ◌⊎◌, inl, inr, none, some, List, [], ◌∷◌, arith,
  Option-cases, nat_comparable, length,
}
use albstractions.Certkit.Keyloader.Slices.{
  Bytes, Buffers, contents, zeros, clear, contents-clear, length-clear, IsZero, zeros-IsZero,
}
use albstractions.Certkit.Keyloader.{Provided, free}
use albstractions.Certkit.Mtls.{
  Provider, Config, Crypto, pem, with_ca, with_pair, with_key, new_tls_config,
}

-- What a provider promises: it only makes new buffers, all of them zeros but the one that its free
-- function zeros, and it hands out no free function with an error.
pub record IsTidy (p : Provider) : Type 0 where
  pub grows : (b : Buffers) → length b ≤ length (p b).1
  pub others : (b : Buffers) (n : ℕ) → n < length b → contents n (p b).1 ≡ contents n b
  pub owned : (b : Buffers) (n : ℕ) → (p b).0.frees ≡ some n → length b ≤ n
  pub zeroed :
      (b : Buffers) (n : ℕ) → length b ≤ n → (p b).0.frees ≢ some n → IsZero (contents n (p b).1)
  pub failed : (b : Buffers) → ((p b).0.failure ≡ none) ⊎ ((p b).0.frees ≡ none)

-- From `b` to `after` every buffer keeps its bytes, and every new one is zeros.
pub record Clean (b after : Buffers) : Type 0 where
  pub grows : length b ≤ length after
  pub others : (n : ℕ) → n < length b → contents n after ≡ contents n b
  pub zeroed : (n : ℕ) → length b ≤ n → IsZero (contents n after)

pub IsZero-absent : (n : ℕ) (b : Buffers) → length b ≤ n → IsZero (contents n b)
unfolding contents
IsZero-absent n [] h = tt
IsZero-absent zero (c ∷ b) h = absurd (omega arith)
IsZero-absent (suc n) (c ∷ b) h = IsZero-absent n b (omega arith)

Clean-refl : (b : Buffers) → Clean b b
Clean-refl b = record {
  grows = omega arith;
  others = λ n h. refl;
  zeroed = λ n h. IsZero-absent n b h;
}

-- A provider that fails.
failed-Clean : (p : Provider) (b : Buffers) → IsTidy p → (p b).0.frees ≡ none → Clean b (p b).1
failed-Clean p b t none' = record {
  grows = t.grows b;
  others = t.others b;
  zeroed = λ n h. t.zeroed b n h (λ e. cc);
}

contents-free :
    (p : Provided) (n : ℕ) (b : Buffers)
    → ((p.frees ≡ some n) × (contents n (free p b) ≡ zeros (contents n b)))
      ⊎ ((p.frees ≢ some n) × (contents n (free p b) ≡ contents n b))
unfolding free
contents-free p n b = elim (Option-cases p.frees) [
  | inl nothing ↦ inr ((λ e. cc), rw nothing refl)
  | inr (k, e) ↦ elim (ℕ_discrete n k) [
    | yes same ↦ inl (ground arith, rw e (ground (arith, contents-clear n k b)))
    | no other ↦ inr (ground arith, rw e (ground (arith, contents-clear n k b)))
  ]
]

length-free : (p : Provided) (b : Buffers) → length (free p b) ≡ length b
unfolding free
length-free p b =
    elim p.frees as (λ o. length (elim o [ none ↦ b | some key ↦ clear key b ]) ≡ length b) [
      | none ↦ refl
      | some key ↦ length-clear key b
    ]

-- A provider that succeeds, what is done with its key, and its free function.
scope-Clean :
    (p : Provider) (b after : Buffers)
    → IsTidy p
    → Clean (p b).1 after
    → Clean b (free (p b).0 after)
scope-Clean p b after t c = record {
  grows = omega (arith, t.grows b, c.grows, length-free (p b).0 after);
  others = λ n h. elim (contents-free (p b).0 n after) [
    | inl (frees, _) ↦ absurd (omega (arith, t.owned b n frees))
    | inr (_, kept) ↦ kept ∙ c.others n (omega (arith, t.grows b)) ∙ t.others b n h
  ];
  zeroed = λ n h. elim (contents-free (p b).0 n after) [
    | inl (_, cleared) ↦ subst IsZero (sym cleared) (zeros-IsZero (contents n after))
    | inr (other, kept) ↦ subst IsZero (sym kept) (elim (dec_lt n (length (p b).1)) [
      | yes below ↦ subst IsZero (sym (c.others n below)) (t.zeroed b n h other)
      | no above ↦ c.zeroed n (omega arith)
    ])
  ];
}

module _ {Cert Pool : Type 0} (crypto : Crypto Cert Pool) where
  with_ca-Clean :
      (opts : List (Config Cert Pool → Config Cert Pool)) (tls_cert : Cert) (ca : Provider)
      (b : Buffers)
      → IsTidy ca
      → Clean b (with_ca crypto opts tls_cert ca b).1
  unfolding with_ca
  with_ca-Clean opts tls_cert ca b t = elim (Option-cases (ca b).0.failure) [
    | inl ok ↦ rw (ok, with_ca) (scope-Clean ca b (ca b).1 t (Clean-refl (ca b).1))
    | inr (err, bad) ↦ rw (bad, with_ca) (failed-Clean ca b t (ground (arith, t.failed b)))
  ]

  with_pair-Clean :
      (opts : List (Config Cert Pool → Config Cert Pool)) (cert_pem key_pem : Bytes) (ca : Provider)
      (b : Buffers)
      → IsTidy ca
      → Clean b (with_pair crypto opts cert_pem key_pem ca b).1
  unfolding with_pair
  with_pair-Clean opts cert_pem key_pem ca b t =
      elim (Option-cases (crypto.x509_key_pair cert_pem key_pem)) [
        | inl bad ↦ rw (bad, with_pair) (Clean-refl b)
        | inr (tls_cert, ok) ↦ rw (ok, with_pair) (with_ca-Clean opts tls_cert ca b t)
      ]

  with_key-Clean :
      (opts : List (Config Cert Pool → Config Cert Pool)) (cert : Provided) (key ca : Provider)
      (b : Buffers)
      → IsTidy key
      → IsTidy ca
      → Clean b (with_key crypto opts cert key ca b).1
  unfolding with_key
  with_key-Clean opts cert key ca b t t' = elim (Option-cases (key b).0.failure) [
    | inl ok ↦
        rw (ok, with_key)
          (scope-Clean key b _ t
            (with_pair-Clean opts (pem cert (key b).1) (pem (key b).0 (key b).1) ca (key b).1 t'))
    | inr (err, bad) ↦ rw (bad, with_key) (failed-Clean key b t (ground (arith, t.failed b)))
  ]

  -- However `NewTLSConfig` ends, every buffer that was there keeps its bytes and every buffer made
  -- on the way is zeros: no key material that a provider handed out is left, on any error path. The
  -- providers make new buffers only, and zero all but the one that they hand out.
  pub new_tls_config-Clean :
      (opts : List (Config Cert Pool → Config Cert Pool)) (cert key ca : Provider) (b : Buffers)
      → IsTidy cert
      → IsTidy key
      → IsTidy ca
      → Clean b (new_tls_config crypto opts cert key ca b).1
  unfolding new_tls_config
  new_tls_config-Clean opts cert key ca b t t' t'' = elim (Option-cases (cert b).0.failure) [
    | inl ok ↦
        rw (ok, new_tls_config)
          (scope-Clean cert b _ t (with_key-Clean opts (cert b).0 key ca (cert b).1 t' t''))
    | inr (err, bad) ↦ rw (bad, new_tls_config) (failed-Clean cert b t (ground (arith, t.failed b)))
  ]
