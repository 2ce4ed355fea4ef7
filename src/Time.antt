-- ===== src/Time.antt =====
-- Go's `time.Time` and `time.Duration` as the modules use them: instants and durations in
-- nanoseconds over the integers, with the zero `Time` at 0. `Add` does not wrap (it would need
-- an instant 292 billion years out); `Sub` saturates to the range of an int64, as documented.
use albstractions.Prelude.{
  ◌≡◌, Bool, arith, ℤ, pos, negsuc, ◌+ℤ◌, ◌-ℤ◌, ◌≤ℤ◌, ◌<ℤ◌, ltb_ℤ, eqb_ℤ, if◌then◌else◌, +ℤ_parts,
  -ℤ_parts, eq_of_parts,
}

abbrev pub Time : Type 0
Time = ℤ

abbrev pub Duration : Type 0
Duration = ℤ

abbrev pub zero_time : Time
zero_time = pos 0

abbrev pub max_duration : Duration
max_duration = pos 9223372036854775807

abbrev pub min_duration : Duration
min_duration = negsuc 9223372036854775807

abbrev pub is_zero : Time → Bool
is_zero t = eqb_ℤ t zero_time

abbrev pub before : Time → Time → Bool
before t u = ltb_ℤ t u

abbrev pub add : Time → Duration → Time
add t d = t +ℤ d

-- The saturation of `Time.Sub`.
abbrev pub saturate : ℤ → Duration
saturate d =
    if ltb_ℤ max_duration d then max_duration else if ltb_ℤ d min_duration then min_duration else d

abbrev pub sub : Time → Time → Duration
sub t u = saturate (t -ℤ u)

-- The range of an int64.
abbrev pub IsDuration : Duration → Type 0
IsDuration d = (min_duration ≤ℤ d) × (d ≤ℤ max_duration)

pub add-sub : (now t : Time) → now ≤ℤ t → sub t now <ℤ max_duration → now +ℤ sub t now ≡ t
add-sub now t later exact =
    eq_of_parts _ _ (ground (arith, +ℤ_parts now (sub t now), -ℤ_parts t now))

pub sub_self : (t : Time) → sub t t ≡ pos 0
sub_self t = eq_of_parts _ _ (ground (arith, -ℤ_parts t t))

pub add_zero : (t : Time) → t +ℤ pos 0 ≡ t
add_zero t = eq_of_parts _ _ (omega (arith, +ℤ_parts t (pos 0)))
