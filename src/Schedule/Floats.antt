-- ===== src/Schedule/Floats.antt =====
-- Go's float64 as the schedules use it: a parameter with its operations. What the proofs need of
-- IEEE arithmetic is a law of its own, taken by the theorems that use it.
use albstractions.Prelude.{◌≡◌, Bool, true, false, nat_comparable, pos, ◌≤ℤ◌, ◌<ℤ◌, ◌-ℤ◌}
use albstractions.Time.{Duration}

pub record Floats : Type 1 where
  pub Float : Type 0
  pub one : Float
  pub two : Float
  pub pi : Float
  pub of_duration : Duration → Float
  pub to_duration : Float → Duration
  pub minus : Float → Float → Float
  pub times : Float → Float → Float
  pub over : Float → Float → Float
  pub cos : Float → Float
  pub less : Float → Float → Bool
  pub at_least : Float → Float → Bool

-- Integers up to 2^53 are exact, so a product with a factor of at least 1 is not below such a
-- delay; and a float below a converted duration truncates to no more than the duration.
pub record Grows (fl : Floats) (factor : fl.Float) : Type 0 where
  pub grows :
      (d m : Duration)
      → pos 0 <ℤ d
      → d ≤ℤ pos 9007199254740992
      → fl.less (fl.times (fl.of_duration d) factor) (fl.of_duration m) ≡ true
      → d ≤ℤ fl.to_duration (fl.times (fl.of_duration d) factor)
  pub below :
      (x : fl.Float) (m : Duration) → fl.less x (fl.of_duration m) ≡ true → fl.to_duration x ≤ℤ m

-- What a raised cosine is made of, and the truncation of a float. `Angle` is of finite floats, `Share`
-- of those from 0 to 1, `NonNeg` of the finite ones that are not negative: a NaN or an infinity is
-- none of them.
pub record Signed (fl : Floats) : Type 1 where
  pub Angle : fl.Float → Type 0
  pub Share : fl.Float → Type 0
  pub NonNeg : fl.Float → Type 0
  pub phase-Angle :
      (a d : Duration)
      → pos 0 -ℤ d <ℤ a
      → a <ℤ d
      → Angle (fl.times (fl.times (fl.over (fl.of_duration a) (fl.of_duration d)) fl.two) fl.pi)
  pub raised-Share : (x : fl.Float) → Angle x → Share (fl.over (fl.minus fl.one (fl.cos x)) fl.two)
  pub times-NonNeg :
      (d : Duration) (x : fl.Float) → pos 0 ≤ℤ d → Share x → NonNeg (fl.times (fl.of_duration d) x)
  pub truncates :
      (x : fl.Float) (d : Duration)
      → NonNeg x
      → fl.at_least x (fl.of_duration d) ≡ false
      → (pos 0 ≤ℤ fl.to_duration x) × (fl.to_duration x ≤ℤ d)
