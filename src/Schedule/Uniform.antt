-- ===== src/Schedule/Uniform.antt =====
-- schedule/uniform.go. The random source is a parameter.
use mathlib.Core.Path.{subst}
use mathlib.Core.Option.{some-injective}
use albstractions.Prelude.{
  ℕ, ◌+◌, ◌-◌, ◌%◌, ◌≤◌, ◌<◌, ◌≡◌, refl, inl, inr, false, Option, none, some, arith, ltb,
  if◌then◌else◌, Bool-cases, nat_comparable, ℤ, pos, negsuc, ◌+ℤ◌, ◌-ℤ◌, ◌≤ℤ◌, ltb_ℤ, +ℤ_parts,
  -ℤ_parts,
}
use albstractions.Time.{Duration, max_duration}

-- `rand.Rand` as it is used: `uint64n n` draws below `n`.
pub record Source {ℓ} (R : Type ℓ) : Type ℓ where
  pub uint64n : ℕ → R → ℕ × R

-- The documented range of `Uint64N`.
pub record DrawsBelow {ℓ} {R : Type ℓ} (src : Source R) : Type ℓ where
  pub below : (n : ℕ) (g : R) → 0 < n → (src.uint64n n g).0 < n

pub record Uniform {ℓ} (R : Type ℓ) : Type ℓ where
  pub lo : Duration
  pub hi : Duration
  pub rng : R

unfoldable pub new_uniform {ℓ} : {R : Type ℓ} → Duration → Duration → R → Option (Uniform R)
new_uniform lo hi rng =
    if ltb_ℤ lo (pos 0)
    then none
    else if ltb_ℤ hi lo
    then none
    else some (record { lo = lo; hi = hi; rng = rng })

-- A conversion to uint64, and one to int64.
abbrev pub to_uint64 : ℤ → ℕ
to_uint64 (pos n) = n % 18446744073709551616
to_uint64 (negsuc n) = 18446744073709551615 - n % 18446744073709551616

abbrev pub to_int64 : ℕ → ℤ
to_int64 n =
    if ltb (n % 18446744073709551616) 9223372036854775808
    then pos (n % 18446744073709551616)
    else negsuc (18446744073709551615 - n % 18446744073709551616)

unfoldable pub next {ℓ} : {R : Type ℓ} → Source R → Uniform R → Duration × Uniform R
next src u =
    let (n, rng) = src.uint64n ((to_uint64 (u.hi -ℤ u.lo) + 1) % 18446744073709551616) u.rng in
    (u.lo +ℤ to_int64 n, record u { rng = rng })

draw_in_range :
    (lo hi n : ℕ) (w : ℤ)
    → w ≡ pos hi -ℤ pos lo
    → lo ≤ hi
    → hi < 9223372036854775808
    → n < (to_uint64 w + 1) % 18446744073709551616
    → (pos lo ≤ℤ pos lo +ℤ to_int64 n) × (pos lo +ℤ to_int64 n ≤ℤ pos hi)
draw_in_range lo hi n (negsuc k) e order fits drawn =
    absurd (ground (arith, -ℤ_parts (pos hi) (pos lo)))
draw_in_range lo hi n (pos k) e order fits drawn =
    let span : k + lo ≡ hi = ground (arith, -ℤ_parts (pos hi) (pos lo)) in
    ground (arith, +ℤ_parts (pos lo) (to_int64 n))

-- A draw needs a positive number of values, also where that number wraps to no more than 2^63.
span_positive :
    (lo hi : ℕ) (w : ℤ)
    → w ≡ pos hi -ℤ pos lo
    → lo ≤ hi
    → hi < 9223372036854775808
    → 0 < (to_uint64 w + 1) % 18446744073709551616
span_positive lo hi (negsuc k) e order fits = absurd (ground (arith, -ℤ_parts (pos hi) (pos lo)))
span_positive lo hi (pos k) e order fits =
    let span : k + lo ≡ hi = ground (arith, -ℤ_parts (pos hi) (pos lo)) in omega arith

next_in_range {ℓ} :
    {R : Type ℓ} (src : Source R) (lo hi : ℕ) (g : R)
    → DrawsBelow src
    → lo ≤ hi
    → hi < 9223372036854775808
    → (pos lo ≤ℤ (next src (record { lo = pos lo; hi = pos hi; rng = g })).0)
      × ((next src (record { lo = pos lo; hi = pos hi; rng = g })).0 ≤ℤ pos hi)
unfolding next
next_in_range src lo hi g d order fits =
    let count = (to_uint64 (pos hi -ℤ pos lo) + 1) % 18446744073709551616 in
    draw_in_range lo hi (src.uint64n count g).0 (pos hi -ℤ pos lo) refl order fits
      (d.below count g (span_positive lo hi (pos hi -ℤ pos lo) refl order fits))

-- Over int64 bounds every delay of a schedule that was made is within them, also when the range
-- spans every duration, where the number of values is 2^63; and the bounds stay as they are.
uniform_bounds {ℓ} :
    {R : Type ℓ} (src : Source R) (lo hi : Duration) (g : R) {u : Uniform R}
    → DrawsBelow src
    → hi ≤ℤ max_duration
    → new_uniform lo hi g ≡ some u
    → (lo ≤ℤ (next src u).0)
      × ((next src u).0 ≤ℤ hi)
      × ((next src u).1.lo ≡ lo)
      × ((next src u).1.hi ≡ hi)
unfolding new_uniform
uniform_bounds src (pos lo) (pos hi) g {u} d fits e = elim (Bool-cases (ltb_ℤ (pos hi) (pos lo))) [
  | inl empty ↦ absurd (ground arith)
  | inr order ↦
      let nonneg : ltb_ℤ (pos lo) (pos 0) ≡ false = ground arith in
      let same : record { lo = pos lo; hi = pos hi; rng = g } ≡ u =
        some-injective _ _ (rw (nonneg, order) at e) in
      let range = next_in_range src lo hi g d (ground arith) (ground arith) in
      subst
        (λ v.
          (pos lo ≤ℤ (next src v).0)
          × ((next src v).0 ≤ℤ pos hi)
          × ((next src v).1.lo ≡ pos lo)
          × ((next src v).1.hi ≡ pos hi))
        same (range.0, range.1, unfold next in refl, unfold next in refl)
]
uniform_bounds src (negsuc lo) (pos hi) g d fits e = absurd (ground arith)
uniform_bounds src (negsuc lo) (negsuc hi) g d fits e = absurd (ground arith)
uniform_bounds src (pos lo) (negsuc hi) g d fits e = absurd (ground arith)
