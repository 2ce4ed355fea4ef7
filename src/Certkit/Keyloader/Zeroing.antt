-- ===== src/Certkit/Keyloader/Zeroing.antt =====
-- certkit/keyloader/keyloader.go: what key material a provider leaves in memory.
use mathlib.Core.Path.{subst}
use native.Mathlib.Decide.{ℕ_discrete, dec_lt}
use albstractions.Prelude.{
  ℕ, zero, suc, ◌≤◌, ◌<◌, ◌≡◌, refl, sym, ◌≢◌, ◌⊎◌, inl, inr, Bool, true, false, Option, none, some,
  [], ◌∷◌, arith, ◌==◌, if◌then◌else◌, ==_iff, Bool-cases, Option-cases, nat_comparable, length,
}
use Prim.Native.Nat.{bit_and}
use albstractions.Certkit.Keyloader.Slices.{
  Bytes, Buffers, allocate, contents, zeros, clear, contents-clear, length-clear, contents-allocate,
  length-allocate, IsZero, zeros-IsZero,
}
use albstractions.Certkit.Keyloader.Runes.{drop_spaces}
use albstractions.Certkit.Keyloader.{
  decode_failed, empty_decoded, empty_after_trimming, Decoder, Provided, fail, provide, free,
  decode, process_key, FileConfig, check_mode, from_file,
}

-- A decoder that hands out nothing when it fails.
abbrev pub Withholds : Decoder → Type 0
Withholds decoder = (cs : Bytes) → (decoder cs).1 ≡ true → (decoder cs).0 ≡ []

abbrev pub IsCareful : Option Decoder → Type 0
IsCareful none = Unit
IsCareful (some decoder) = Withholds decoder

-- The buffer of a key that was handed out.
abbrev pub IsKey : Provided → ℕ → Type 0
IsKey p n = p.key ≡ some n

-- From the buffers `before`, of which `owned` was handed over: every buffer that was there otherwise
-- is as it was, and of those owned or made since only a returned key may hold anything but zeros.
pub record Leaves (owned : ℕ) (before : Buffers) (p : Provided) (after : Buffers) : Type 0 where
  pub others : (n : ℕ) → n < length before → n ≢ owned → contents n after ≡ contents n before
  pub zeroed :
      (n : ℕ) → (n ≡ owned) ⊎ (length before ≤ n) → p.key ≢ some n → IsZero (contents n after)
  pub grows : length before ≤ length after
  pub frees_key : p.frees ≡ p.key

contents_absent : (n : ℕ) (b : Buffers) → length b ≤ n → contents n b ≡ []
unfolding contents
contents_absent n [] h = refl
contents_absent zero (c ∷ b) h = absurd (omega arith)
contents_absent (suc n) (c ∷ b) h = contents_absent n b (omega arith)

contents-made :
    (n key : ℕ) (bytes : Bytes) (b : Buffers)
    → contents n (clear key (allocate bytes b).1) ≡ (
        if n == key
        then zeros (contents n (allocate bytes b).1)
        else if n == length b
        then bytes
        else contents n b)
contents-made n key bytes b =
    ground (arith, contents-clear n key (allocate bytes b).1, contents-allocate n bytes b)

IsZero-made :
    (n key : ℕ) (bytes : Bytes) (b : Buffers)
    → (n ≡ key) ⊎ (length b ≤ n)
    → (n ≡ length b → bytes ≡ [])
    → IsZero (contents n (clear key (allocate bytes b).1))
IsZero-made n key bytes b h e = elim (ℕ_discrete n key) [
  | yes same ↦
      let zero' : contents n (clear key (allocate bytes b).1)
          ≡ zeros (contents n (allocate bytes b).1) =
        ground (arith, contents-made n key bytes b) in
      subst IsZero (sym zero') (zeros-IsZero (contents n (allocate bytes b).1))
  | no other ↦
      let none' : contents n (clear key (allocate bytes b).1) ≡ [] =
        ground (arith, contents-made n key bytes b, contents_absent n b) in
      subst IsZero (sym none') tt
]

-- After a new buffer is made and `key` is cleared, all is zeroed if that buffer is the key or empty.
made-Leaves :
    (key : ℕ) (bytes : Bytes) (b : Buffers) (p : Provided)
    → p.frees ≡ p.key
    → (p.key ≢ some (length b) → bytes ≡ [])
    → Leaves key b p (clear key (allocate bytes b).1)
made-Leaves key bytes b p same e = record {
  others = λ n h other. ground (arith, contents-made n key bytes b);
  zeroed = λ n h other. IsZero-made n key bytes b h (λ at_end. e (rw (← at_end) other));
  grows = omega (arith, length-clear key (allocate bytes b).1, length-allocate bytes b);
  frees_key = same;
}

decode-Leaves :
    (d : Option Decoder) (key : ℕ) (b : Buffers)
    → IsCareful d
    → key < length b
    → Leaves key b (decode d key b).0 (decode d key b).1
unfolding decode allocate
decode-Leaves none key b c fits = record {
  others = λ n h other. refl;
  zeroed = λ n h other. subst IsZero (sym (contents_absent n b (ground (arith, other)))) tt;
  grows = omega arith;
  frees_key = refl;
}
decode-Leaves (some decoder) key b c fits =
    let (bytes, failed) = decoder (contents key b) in
    elim (Bool-cases failed) [
      | inl bad ↦
          rw (bad, decode)
            (made-Leaves key bytes b (fail decode_failed) refl (λ _. c (contents key b) bad))
      | inr good ↦ elim (Bool-cases (length bytes == 0)) [
        | inl empty ↦
            rw (good, empty, decode)
              (made-Leaves key bytes b (fail empty_decoded) refl (λ _. ground arith))
        | inr full ↦
            rw (good, full, decode)
              (made-Leaves key bytes b (provide (length b)) refl (λ h. absurd (h refl)))
      ]
    ]

IsZero-cleared :
    (n key : ℕ) (b : Buffers)
    → (n ≢ key → IsZero (contents n b))
    → IsZero (contents n (clear key b))
IsZero-cleared n key b h = elim (ℕ_discrete n key) [
  | yes same ↦
      let zero' : contents n (clear key b) ≡ zeros (contents n b) =
        ground (arith, contents-clear n key b) in
      subst IsZero (sym zero') (zeros-IsZero (contents n b))
  | no other ↦
      let kept : contents n (clear key b) ≡ contents n b = ground (arith, contents-clear n key b) in
      subst IsZero (sym kept) (h other)
]

trimmed-Leaves :
    (d : Option Decoder) (original : ℕ) (trimmed : Bytes) (b : Buffers)
    → IsCareful d
    → original < length b
    → Leaves original b
        (decode d (length b) (allocate trimmed b).1).0
        (clear original (decode d (length b) (allocate trimmed b).1).1)
trimmed-Leaves d original trimmed b c fits =
    let b' = (allocate trimmed b).1 in
    let after = (decode d (length b) b').1 in
    let one_more = length-allocate trimmed b in
    let inner = decode-Leaves d (length b) b' c (omega arith) in
    record {
      others = λ n h other.
          ground
            (arith, contents-clear n original after, inner.others n, contents-allocate n trimmed b);
      zeroed = λ n h other.
          IsZero-cleared n original after
            λ apart. inner.zeroed n (ground (arith, dec_lt n (length b'), apart)) other;
      grows = omega (arith, inner.grows, length-clear original after);
      frees_key = inner.frees_key;
    }

pub process_key-Leaves :
    (trim : Bool) (d : Option Decoder) (original : ℕ) (b : Buffers)
    → IsCareful d
    → original < length b
    → Leaves original b (process_key trim d original b).0 (process_key trim d original b).1
unfolding process_key allocate
process_key-Leaves false d original b c fits = decode-Leaves d original b c fits
process_key-Leaves true d original b c fits =
    let trimmed = drop_spaces (contents original b) in
    elim (Bool-cases (length trimmed == 0)) [
      | inl empty ↦
          rw (empty, process_key)
            (made-Leaves original trimmed b (fail empty_after_trimming) refl (λ _. ground arith))
      | inr full ↦ rw (full, process_key) (trimmed-Leaves d original trimmed b c fits)
    ]

-- Whatever the outcome, processing a slice leaves nothing of it in memory but a key that is handed
-- out: the slice itself and every buffer made on the way are zeros. The decoder hands out nothing
-- when it fails.
process_key-zeroed :
    (trim : Bool) (d : Option Decoder) (original : ℕ) (b : Buffers) (n : ℕ)
    → IsCareful d
    → original < length b
    → (n ≡ original) ⊎ (length b ≤ n)
    → (process_key trim d original b).0.key ≢ some n
    → IsZero (contents n (process_key trim d original b).1)
process_key-zeroed trim d original b n c fits h other =
    (process_key-Leaves trim d original b c fits).zeroed n h other

free-cleared :
    (p : Provided) (n : ℕ) (b : Buffers)
    → p.frees ≡ p.key
    → (p.key ≢ some n → IsZero (contents n b))
    → IsZero (contents n (free p b))
unfolding free
free-cleared p n b same h = elim (Option-cases p.frees) [
  | inl nothing ↦ rw (nothing, free) (h (λ e. ground arith))
  | inr (key, e) ↦ rw (e, free) (IsZero-cleared n key b (λ apart. h (λ f. ground arith)))
]

-- Once the free function has run, the slice that was processed and every buffer made on the way are
-- zeros: a trimmed copy is in one buffer, as it is where it is no longer than the slice. The decoder
-- hands out nothing when it fails.
pub process_key-free :
    (trim : Bool) (d : Option Decoder) (original : ℕ) (b : Buffers) (n : ℕ)
    → IsCareful d
    → original < length b
    → (n ≡ original) ⊎ (length b ≤ n)
    → IsZero (contents n (free (process_key trim d original b).0 (process_key trim d original b).1))
process_key-free trim d original b n c fits h =
    let l = process_key-Leaves trim d original b c fits in
    free-cleared (process_key trim d original b).0 n (process_key trim d original b).1 l.frees_key
      (l.zeroed n h)

-- A decoder that fails after it made some bytes, as hex and base64 decoders do, leaves those bytes
-- in memory: no free function covers them.
pub decode-residue :
    (decoder : Decoder) (key : ℕ) (b : Buffers)
    → key < length b
    → (decoder (contents key b)).1 ≡ true
    → contents (length b) (free (decode (some decoder) key b).0 (decode (some decoder) key b).1)
      ≡ (decoder (contents key b)).0
unfolding decode free
decode-residue decoder key b fits failed =
    rw (failed, decode)
      (ground (arith, contents-made (length b) key (decoder (contents key b)).0 b))

-- With the check on, a file is read only if it can be examined and its mode gives group and others
-- nothing; else the provider fails and memory is as it was.
from_file-permissions :
    {P : Type 0} (cfg : FileConfig P) (path : P) (b : Buffers)
    → cfg.check_permissions ≡ true
    → ((mode : ℕ) × (cfg.filesystem.stat path ≡ some mode) × (bit_and mode 0o077 ≡ 0))
      ⊎ (((from_file cfg path b).0.key ≡ none) × ((from_file cfg path b).1 ≡ b))
unfolding from_file check_mode
from_file-permissions cfg path b on = elim (Option-cases (cfg.filesystem.stat path)) [
  | inl missing ↦ inr (rw (on, missing, from_file, check_mode) (refl, refl))
  | inr (mode, found) ↦ elim (Bool-cases (bit_and mode 0o077 == 0)) [
    | inl strict ↦ inl (mode, found, (==_iff _ _).0 strict)
    | inr loose ↦ inr (ground arith, ground arith)
  ]
]
