-- ===== src/Prelude/Threads.antt =====
-- States of numbered threads: one thread's state replaced, and sums over the first `n` threads.
use Prim.Native.Nat.{ℕ, zero, suc, ◌+◌, ◌≤◌, ◌<◌}
use mathlib.Core.Path.{◌≡◌, refl, ap}
use mathlib.Core.Logic.{◌≢◌}
use native.Mathlib.Decide.{dec_lt}
use native.Mathlib.Omega.{arith}
use mathlib.Core.Bool.{true, false}
use albstractions.Prelude.Tests.{◌==◌, if◌then◌else◌}

abbrev pub put {ℓ} : {A : Type ℓ} → ℕ → A → (ℕ → A) → ℕ → A
put i a f j = if i == j then a else f j

-- What holds of the new state and of every thread's state holds after one is replaced.
pub put-each {ℓ κ} :
    {A : Type ℓ} (P : A → Type κ) (i : ℕ) (a : A) (f : ℕ → A)
    → P a
    → ((j : ℕ) → P (f j))
    → (j : ℕ) → P (put i a f j)
put-each P i a f h k j = elim (i == j) as (λ b. P (if b then a else f j)) [ true ↦ h | false ↦ k j ]

module _ {ℓ} {A : Type ℓ} (weight : A → ℕ) where
  unfoldable pub sum_threads : ℕ → (ℕ → A) → ℕ
  sum_threads zero f = 0
  sum_threads (suc n) f = weight (f n) + sum_threads n f

  sum_threads-put_above :
      (n i : ℕ) (a : A) (f : ℕ → A) → n ≤ i → sum_threads n (put i a f) ≡ sum_threads n f
  unfolding sum_threads
  sum_threads-put_above zero i a f h = refl
  sum_threads-put_above (suc n) i a f h = ground (arith, sum_threads-put_above n i a f)

  -- Replacing one thread's state changes the sum by the difference of the weights.
  pub sum_threads-put :
      (n i : ℕ) (a : A) (f : ℕ → A)
      → i < n
      → sum_threads n (put i a f) + weight (f i) ≡ sum_threads n f + weight a
  unfolding sum_threads
  sum_threads-put zero i a f h = absurd (ground arith)
  sum_threads-put (suc n) i a f h = elim (dec_lt i n) [
    | yes below ↦ ground (arith, sum_threads-put n i a f below)
    | no top ↦ ground (arith, sum_threads-put_above n i a f)
  ]

  pub le-sum_threads : (n i : ℕ) (f : ℕ → A) → i < n → weight (f i) ≤ sum_threads n f
  unfolding sum_threads
  le-sum_threads zero i f h = absurd (ground arith)
  le-sum_threads (suc n) i f h = elim (dec_lt i n) [
    | yes below ↦ omega (arith, le-sum_threads n i f below)
    | no top ↦ let same : i ≡ n = omega arith in rw same (omega arith)
  ]

  pub sum_threads-eq_zero : (n : ℕ) (f : ℕ → A) → ((i : ℕ) → weight (f i) ≡ 0) → sum_threads n f ≡ 0
  unfolding sum_threads
  sum_threads-eq_zero zero f h = refl
  sum_threads-eq_zero (suc n) f h = omega (arith, h n, sum_threads-eq_zero n f h)

pub sum_threads-le {ℓ} :
    {A : Type ℓ} (v w : A → ℕ) (n : ℕ) (f : ℕ → A)
    → ((a : A) → v a ≤ w a)
    → sum_threads v n f ≤ sum_threads w n f
unfolding sum_threads
sum_threads-le v w zero f h = omega arith
sum_threads-le v w (suc n) f h = omega (arith, h (f n), sum_threads-le v w n f h)

-- Two threads' weights are part of the sum.
pub two_le-sum_threads :
    {A : Type 0} (weight : A → ℕ) (n i j : ℕ) (f : ℕ → A) (rest : A)
    → i < n
    → j < n
    → i ≢ j
    → weight (f i) + weight (f j) ≤ sum_threads weight n f + weight rest
two_le-sum_threads weight n i j f rest li lj apart =
    let change = sum_threads-put weight n i rest f li in
    let other = le-sum_threads weight n j (put i rest f) lj in
    let kept : put i rest f j ≡ f j = ground arith in omega (arith, change, ap weight kept, other)

-- A sum that is not zero has a thread that weighs.
pub sum_threads-positive :
    {A : Type 0} (weight : A → ℕ) (n : ℕ) (f : ℕ → A)
    → 0 < sum_threads weight n f
    → (j : ℕ) × (j < n) × (0 < weight (f j))
unfolding sum_threads
sum_threads-positive weight zero f h = absurd (omega arith)
sum_threads-positive weight (suc n) f h = elim (dec_lt 0 (weight (f n))) [
  | yes here ↦ (n, omega arith, here)
  | no below ↦
      let (j, lt, there) = sum_threads-positive weight n f (omega arith) in (j, omega arith, there)
]

pub put-same : {A : Type 0} (i : ℕ) (a : A) (f : ℕ → A) → put i a f i ≡ a
put-same i a f = ground arith

pub put-other : {A : Type 0} (i j : ℕ) (a : A) (f : ℕ → A) → i ≢ j → put i a f j ≡ f j
put-other i j a f apart = ground arith
