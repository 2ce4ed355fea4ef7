-- ===== src/Tests/Schedule.antt =====
-- The package schedule at concrete inputs, with integers for the floats, a counter for the random
-- source and a limiter that refuses or grants.
use native.Mathlib.Nat.{mod-lt}
use albstractions.Prelude.{
  ℕ, ◌+◌, ◌-◌, ◌*◌, ◌/◌, ◌%◌, ◌≡◌, ◌&&◌, negsuc, refl, true, false, none, some, [], ◌∷◌, arith,
  if◌then◌else◌, nat_comparable, ℤ, pos, pos_part, ◌+ℤ◌, ◌-ℤ◌, ◌≤ℤ◌, ltb_ℤ, leb_ℤ,
}
use albstractions.Errors.{sentinel, canceled, is}
use albstractions.Schedule.Floats.{Floats, Signed}
use albstractions.Schedule.Exponential.{Exponential, next, reset, delays}
use albstractions.Schedule.Uniform.{Source, DrawsBelow, Uniform, new_uniform}
use albstractions.Schedule.Uniform
use albstractions.Schedule.Sine.{Sine, sine_bounds}
use albstractions.Schedule.Sine
use albstractions.Schedule.TokenBucket.{Limiter, World, wait, wait_reserved, wait_err}

program : Unit {0}
unfolding next reset delays new_uniform Uniform.next Sine.next Sine.delay_at Sine.offset Sine.rem
    wait wait_reserved wait_err is ◌+ℤ◌ ◌-ℤ◌
program = tt

-- Products of integers that are not negative; a cosine that is always 1.
abbrev product : ℤ → ℤ → ℤ
product a b = pos (pos_part a * pos_part b)

abbrev integers : Floats
integers = record {
  Float = ℤ;
  one = pos 1;
  two = pos 2;
  pi = pos 3;
  of_duration = λ d. d;
  to_duration = λ x. x;
  minus = λ a b. if leb_ℤ b a then pos (pos_part a - pos_part b) else pos 0;
  times = product;
  over = λ a b. pos (pos_part a / pos_part b);
  cos = λ _. pos 1;
  less = ltb_ℤ;
  at_least = λ a b. leb_ℤ b a;
}

-- Floats as thousandths, with a cosine that is 1 or -1.
abbrev square : ℤ → ℤ
square x = if ltb_ℤ (pos 1570) x && ltb_ℤ x (pos 4712) then negsuc 999 else pos 1000

abbrev thousandths : Floats
thousandths = record {
  Float = ℤ;
  one = pos 1000;
  two = pos 2000;
  pi = pos 3141;
  of_duration = λ d. pos (pos_part d * 1000);
  to_duration = λ x. pos (pos_part x / 1000);
  minus = λ a b. a -ℤ b;
  times = λ a b. pos (pos_part a * pos_part b / 1000);
  over = λ a b. pos (pos_part a * 1000 / pos_part b);
  cos = square;
  less = ltb_ℤ;
  at_least = λ a b. leb_ℤ b a;
}

square-raised : (x : ℤ) → pos (pos_part (pos 1000 -ℤ square x) * 1000 / 2000) ≤ℤ pos 1000
unfolding ◌-ℤ◌
square-raised x =
    elim (ltb_ℤ (pos 1570) x && ltb_ℤ x (pos 4712))
      as (λ b.
        pos (pos_part (pos 1000 -ℤ (if b then negsuc 999 else pos 1000)) * 1000 / 2000)
        ≤ℤ pos 1000) [ true ↦ omega arith | false ↦ omega arith ]

signs : Signed thousandths
signs = record {
  Angle = λ x. Unit;
  Share = λ x. (pos 0 ≤ℤ x) × (x ≤ℤ pos 1000);
  NonNeg = λ x. pos 0 ≤ℤ x;
  phase-Angle = λ a d above below. tt;
  raised-Share = λ x h. (omega arith, square-raised x);
  times-NonNeg = λ d x h k. omega arith;
  truncates = λ x d h l. (omega arith, ground arith);
}

abbrev backoff : Exponential integers
backoff = record { base = pos 100; max_delay = pos 1000; factor = pos 2; current = pos 800 }

backoff_lem :
    delays integers 5 (reset integers backoff)
    ≡ pos 100 ∷ pos 200 ∷ pos 400 ∷ pos 800 ∷ pos 1000 ∷ []
unfolding program
backoff_lem = refl

-- A counter modulo the number of values.
abbrev counter : Source ℕ
counter = record { uint64n = λ n g. (g % n, g + 1) }

counter-DrawsBelow : DrawsBelow counter
counter-DrawsBelow = record { below = λ n g h. mod-lt g h }

abbrev uniform : Uniform ℕ
uniform = record { lo = pos 5; hi = pos 9; rng = 13 }

abbrev sine : Sine
sine = record { lo = pos 5; hi = pos 9; period = pos 60; start = pos 1000 }

sine-IsValid : Sine.IsValid sine
sine-IsValid = record {
  lo_nonneg = omega arith;
  ordered = omega arith;
  period_positive = omega arith;
}

sine_bounds_example :
    (pos 5 ≤ℤ (Sine.next thousandths (pos 1000) (pos 1090) sine).0)
    × ((Sine.next thousandths (pos 1000) (pos 1090) sine).0 ≤ℤ pos 9)
    × Sine.IsValid (Sine.next thousandths (pos 1000) (pos 1090) sine).1
sine_bounds_example = sine_bounds thousandths sine (pos 1000) (pos 1090) signs sine-IsValid

-- A limiter that hands out reservations 7 away, and counts those not cancelled.
abbrev limiter : Limiter ℕ
limiter = record {
  reserve = λ n. (record { ok = true; delay = pos 7; cancel = some (λ m. m - 1) }, n + 1);
  wait = none;
  burst = none;
}

abbrev cancelled : World
cancelled = record {
  ended = none;
  interrupted = true;
  reason = sentinel canceled;
  has_deadline = false;
}

handed_back : wait cancelled limiter 4 ≡ (some (sentinel canceled), 4)
unfolding program
handed_back = refl
