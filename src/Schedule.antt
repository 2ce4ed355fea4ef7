-- ===== src/Schedule.antt =====
-- The package schedule: the delay strategies. Floating point, the random source and the rate
-- limiter are parameters. `none` for the result of a constructor is a panic.
pub mod Floats
pub mod Exponential
pub mod Sine
pub mod Uniform
pub mod TokenBucket
use albstractions.Prelude.{
  ◌≡◌, Option, none, some, arith, if◌then◌else◌, nat_comparable, pos, ◌≤ℤ◌, ltb_ℤ,
}
use albstractions.Time.{Duration}

-- schedule/constant.go.
pub record Constant : Type 0 where
  pub delay : Duration

unfoldable pub new_constant : Duration → Option Constant
new_constant d = if ltb_ℤ d (pos 0) then none else some (record { delay = d })

unfoldable pub next : Constant → Duration
next c = c.delay

-- Every delay of a constant schedule that was made is the one asked for, and not negative.
pub next-new_constant :
    (d : Duration) {c : Constant} → new_constant d ≡ some c → (next c ≡ d) × (pos 0 ≤ℤ next c)
unfolding new_constant next
next-new_constant d e = ground arith
