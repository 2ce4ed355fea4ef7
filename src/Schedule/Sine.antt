-- ===== src/Schedule/Sine.antt =====
-- schedule/sine.go.
use native.Mathlib.Nat.{mod-lt}
use albstractions.Prelude.{
  ◌<◌, suc, ◌%◌, ◌≡◌, ap, ◌∙◌, inl, inr, false, Option, none, some, arith, if◌then◌else◌,
  Bool-cases, nat_comparable, ℤ, pos, negsuc, pos_part, ◌+ℤ◌, ◌-ℤ◌, ◌≤ℤ◌, ◌<ℤ◌, ltb_ℤ, leb_ℤ,
  +ℤ_parts, -ℤ_parts, eq_of_parts, pos-+ℤ,
}
use albstractions.Time.{Time, Duration, zero_time, max_duration, is_zero, sub, add-sub}
use albstractions.Schedule.Floats.{Floats, Signed}

pub record Sine : Type 0 where
  pub lo : Duration
  pub hi : Duration
  pub period : Duration
  pub start : Time

unfoldable pub new_sine : Duration → Duration → Duration → Option Sine
new_sine lo hi period =
    if ltb_ℤ lo (pos 0)
    then none
    else if ltb_ℤ hi lo
    then none
    else if leb_ℤ period (pos 0)
    then none
    else some (record { lo = lo; hi = hi; period = period; start = zero_time })

-- Go's `%` by a positive number: the sign is the dividend's.
unfoldable pub rem : ℤ → ℤ → ℤ
rem (pos a) p = pos (a % pos_part p)
rem (negsuc a) p = pos 0 -ℤ pos (suc a % pos_part p)

rem-add_self : (a p : ℤ) → pos 0 ≤ℤ a → pos 0 <ℤ p → rem (a +ℤ p) p ≡ rem a p
unfolding rem
rem-add_self (pos a) (pos p) ha hp = rw (pos-+ℤ a p) (ap pos (grind arith))
rem-add_self (negsuc a) p ha hp = absurd (ground arith)
rem-add_self (pos a) (negsuc p) ha hp = absurd (ground arith)

rem_bounds : (a p : ℤ) → pos 0 <ℤ p → (pos 0 -ℤ p <ℤ rem a p) × (rem a p <ℤ p)
unfolding rem
rem_bounds (pos a) (pos p) h =
    let below : a % p < p = mod-lt a (ground arith) in
    (omega (arith, below, -ℤ_parts (pos 0) (pos p)), omega (arith, below))
rem_bounds (negsuc a) (pos p) h =
    let below : suc a % p < p = mod-lt (suc a) (ground arith) in
    (
      omega (arith, below, -ℤ_parts (pos 0) (pos p), -ℤ_parts (pos 0) (pos (suc a % p))),
      omega (arith, below, h, -ℤ_parts (pos 0) (pos (suc a % p))),
    )
rem_bounds a (negsuc p) h = absurd (ground arith)

-- What `NewSine` makes sure of.
pub record IsValid (s : Sine) : Type 0 where
  pub lo_nonneg : pos 0 ≤ℤ s.lo
  pub ordered : s.lo ≤ℤ s.hi
  pub period_positive : pos 0 <ℤ s.period

pub new_sine-IsValid :
    (lo hi period : Duration) {s : Sine} → new_sine lo hi period ≡ some s → IsValid s
unfolding new_sine
new_sine-IsValid lo hi period e = ground arith

-- Between two instants at least as late as the start, the time elapsed grows by their difference.
sub-add :
    (start now d : Time)
    → start ≤ℤ now
    → pos 0 <ℤ d
    → sub (now +ℤ d) start <ℤ max_duration
    → sub (now +ℤ d) start ≡ sub now start +ℤ d
sub-add start now d after positive fits =
    let later : start ≤ℤ now +ℤ d = omega (arith, +ℤ_parts now d) in
    let less : sub now start <ℤ max_duration =
      ground (arith, -ℤ_parts now start, -ℤ_parts (now +ℤ d) start, +ℤ_parts now d) in
    let long = add-sub start (now +ℤ d) later fits in
    let short = add-sub start now after less in
    eq_of_parts _ _ (
      ground (
        arith,
        long,
        short,
        +ℤ_parts start (sub (now +ℤ d) start),
        +ℤ_parts start (sub now start),
        +ℤ_parts (sub now start) d,
        +ℤ_parts now d,
      ))

sub_nonneg : (start now : Time) → start ≤ℤ now → pos 0 ≤ℤ sub now start
sub_nonneg start now after = ground (arith, -ℤ_parts now start)

module _ (fl : Floats) where
  unfoldable pub offset : Sine → Duration → fl.Float
  offset s elapsed =
      let phase =
        fl.times
          (fl.times (fl.over (fl.of_duration (rem elapsed s.period)) (fl.of_duration s.period))
            fl.two)
          fl.pi in
      let scale = fl.over (fl.minus fl.one (fl.cos phase)) fl.two in
      fl.times (fl.of_duration (s.hi -ℤ s.lo)) scale

  unfoldable pub delay_at : Sine → Duration → Duration
  delay_at s elapsed =
      if fl.at_least (offset s elapsed) (fl.of_duration (s.hi -ℤ s.lo))
      then s.hi
      else s.lo +ℤ fl.to_duration (offset s elapsed)

  -- `Next`, with the clock's two readings; the first is asked for only without a start.
  unfoldable pub next : Time → Time → Sine → Duration × Sine
  next first now s =
      let s' = if is_zero s.start then record s { start = first } else s in
      (delay_at s' (sub now s'.start), s')

  offset-NonNeg :
      (s : Sine) (elapsed : Duration) (g : Signed fl) → IsValid s → g.NonNeg (offset s elapsed)
  unfolding offset
  offset-NonNeg s elapsed g v =
      let (above, below) = rem_bounds elapsed s.period v.period_positive in
      g.times-NonNeg (s.hi -ℤ s.lo) _ (omega (arith, v.ordered, -ℤ_parts s.hi s.lo))
        (g.raised-Share _ (g.phase-Angle (rem elapsed s.period) s.period above below))

  delay_at_bounds :
      (s : Sine) (elapsed : Duration)
      → Signed fl
      → IsValid s
      → (s.lo ≤ℤ delay_at s elapsed) × (delay_at s elapsed ≤ℤ s.hi)
  unfolding delay_at
  delay_at_bounds s elapsed g v =
      let o = offset s elapsed in
      elim (Bool-cases (fl.at_least o (fl.of_duration (s.hi -ℤ s.lo)))) [
        | inl top ↦ rw (top, delay_at) (omega (arith, v.ordered), omega arith)
        | inr inside ↦
            let cut = g.truncates o (s.hi -ℤ s.lo) (offset-NonNeg s elapsed g v) inside in
            rw (inside, delay_at)
              (
                omega (arith, cut, +ℤ_parts s.lo (fl.to_duration o), -ℤ_parts s.hi s.lo),
                omega (arith, cut, +ℤ_parts s.lo (fl.to_duration o), -ℤ_parts s.hi s.lo),
              )
      ]

  -- Of a well-formed schedule every delay is between the bounds, at any instant and whatever the start,
  -- and the schedule stays well-formed. The floats that its durations come to are as `Signed` says.
  pub sine_bounds :
      (s : Sine) (first now : Time)
      → Signed fl
      → IsValid s
      → (s.lo ≤ℤ (next first now s).0)
        × ((next first now s).0 ≤ℤ s.hi)
        × IsValid (next first now s).1
  unfolding next
  sine_bounds s first now g v = elim (Bool-cases (is_zero s.start)) [
    | inl fresh' ↦
        let s' = record s { start = first } in
        let v' : IsValid s' = ground (arith, v) in
        let inside = delay_at_bounds s' (sub now first) g v' in
        rw (fresh', next) (inside.0, inside.1, v')
    | inr old ↦
        let inside = delay_at_bounds s (sub now s.start) g v in
        rw (old, next) (inside.0, inside.1, v)
  ]

  delay_at_periodic :
      (s : Sine) (elapsed : Duration)
      → pos 0 ≤ℤ elapsed
      → IsValid s
      → delay_at s (elapsed +ℤ s.period) ≡ delay_at s elapsed
  unfolding delay_at offset
  delay_at_periodic s elapsed h v = rw (rem-add_self elapsed s.period h v.period_positive, offset)

  -- Of a well-formed schedule that has started, a period later the delay is the same, whatever the
  -- cosine is computed to: the phase is taken of the time elapsed since the start, while that is less
  -- than 292 years.
  sine_periodic :
      (s : Sine) (first now : Time)
      → IsValid s
      → is_zero s.start ≡ false
      → s.start ≤ℤ now
      → sub (now +ℤ s.period) s.start <ℤ max_duration
      → (next first (now +ℤ s.period) s).0 ≡ (next first now s).0
  unfolding next
  sine_periodic s first now v started after fits =
      rw (started, next)
        (ap (delay_at s) (sub-add s.start now s.period after v.period_positive fits)
          ∙ delay_at_periodic s (sub now s.start) (sub_nonneg s.start now after) v)
