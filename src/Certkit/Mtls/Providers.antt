-- ===== src/Certkit/Mtls/Providers.antt =====
-- certkit/keyloader/keyloader.go: the provider of FromEnv keeps what certkit/mtls asks of one.

use native.Mathlib.Decide.{ℕ_discrete}
use albstractions.Prelude.{
  ℕ, ◌≤◌, ◌≡◌, refl, ◌∙◌, ◌⊎◌, inl, inr, Bool, true, false, Option, none, some, arith, ◌==◌,
  Bool-cases, nat_comparable, length,
}
use albstractions.Certkit.Keyloader.Slices.{
  Bytes, Buffers, allocate, contents, contents-allocate, length-allocate,
}
use albstractions.Certkit.Keyloader.Runes.{drop_spaces}
use albstractions.Certkit.Keyloader.{Decoder, decode, process_key, EnvConfig, from_env}
use albstractions.Certkit.Keyloader.Zeroing.{IsCareful, Leaves, process_key-Leaves}
use albstractions.Certkit.Mtls.Releases.{IsTidy, IsZero-absent}

decode-owned :
    (d : Option Decoder) (key : ℕ) (b : Buffers) (n : ℕ)
    → (decode d key b).0.frees ≡ some n
    → (n ≡ key) ⊎ (n ≡ length b)
unfolding decode allocate
decode-owned none key b n e = ground arith
decode-owned (some d) key b n e = ground arith

decode-failed :
    (d : Option Decoder) (key : ℕ) (b : Buffers)
    → ((decode d key b).0.failure ≡ none) ⊎ ((decode d key b).0.frees ≡ none)
unfolding decode allocate
decode-failed none key b = inl refl
decode-failed (some d) key b = ground arith

process_key-owned :
    (trim : Bool) (d : Option Decoder) (original : ℕ) (b : Buffers) (n : ℕ)
    → (process_key trim d original b).0.frees ≡ some n
    → (n ≡ original) ⊎ (length b ≤ n)
unfolding process_key allocate
process_key-owned false d original b n e = ground (arith, decode-owned d original b n e)
process_key-owned true d original b n e =
    let trimmed = drop_spaces (contents original b) in
    ground (arith, length-allocate trimmed b, decode-owned d (length b) (allocate trimmed b).1 n)

process_key-failed :
    (trim : Bool) (d : Option Decoder) (original : ℕ) (b : Buffers)
    → ((process_key trim d original b).0.failure ≡ none)
      ⊎ ((process_key trim d original b).0.frees ≡ none)
unfolding process_key allocate
process_key-failed false d original b = decode-failed d original b
process_key-failed true d original b =
    ground (arith, decode-failed d (length b) (allocate (drop_spaces (contents original b)) b).1)

-- Bytes that are loaded into a new buffer and processed.
loaded-IsTidy :
    (val : Bytes) (trim : Bool) (d : Option Decoder)
    → IsCareful d
    → IsTidy (λ b. process_key trim d (allocate val b).0 (allocate val b).1)
unfolding allocate
loaded-IsTidy val trim d c =
    let leaves : (b : Buffers)
        → Leaves (length b) (allocate val b).1 (process_key trim d (length b) (allocate val b).1).0
            (process_key trim d (length b) (allocate val b).1).1 =
      λ b.
        process_key-Leaves trim d (length b) (allocate val b).1 c
          (omega (arith, length-allocate val b)) in
    record {
      grows = λ b. omega (arith, length-allocate val b, (leaves b).grows);
      others = λ b n h.
          (leaves b).others n (omega (arith, length-allocate val b)) (omega arith)
          ∙ ground (arith, contents-allocate n val b);
      owned = λ b n e. ground (
        arith,
        length-allocate val b,
        process_key-owned trim d (length b) (allocate val b).1 n e,
      );
      zeroed = λ b n h other.
          (leaves b).zeroed n
            (elim (ℕ_discrete n (length b)) [
              | yes same ↦ inl same
              | no apart ↦ inr (omega (arith, length-allocate val b))
            ])
            (λ e. other ((leaves b).frees_key ∙ e));
      failed = λ b. process_key-failed trim d (length b) (allocate val b).1;
    }

pub from_env-IsTidy :
    {P : Type 0} (cfg : EnvConfig P) (env_var : P)
    → IsCareful cfg.decoder
    → IsTidy (from_env cfg env_var)
unfolding from_env
from_env-IsTidy cfg env_var c =
    let val = cfg.getter env_var in
    elim (Bool-cases (length val == 0)) [
      | inl empty ↦
          rw (empty, from_env)
            (record {
              grows = λ b. omega arith;
              others = λ b n h. refl;
              owned = λ b n e. absurd (cc);
              zeroed = λ b n h other. IsZero-absent n b h;
              failed = λ b. inr refl;
            })
      | inr full ↦ rw (full, from_env) (loaded-IsTidy val cfg.trim_whitespace cfg.decoder c)
    ]
