-- ===== src/Schedule/Exponential.antt =====
-- schedule/exponential.go.
use albstractions.Prelude.{
  ℕ, zero, suc, ◌≡◌, refl, Option, none, some, List, [], ◌∷◌, arith, if◌then◌else◌, nat_comparable,
  pos, ◌≤ℤ◌, ◌<ℤ◌, ltb_ℤ, leb_ℤ,
}
use albstractions.Time.{Duration}
use albstractions.Schedule.Floats.{Floats, Grows}

module _ (fl : Floats) where
  pub record Exponential : Type 0 where
    pub base : Duration
    pub max_delay : Duration
    pub factor : fl.Float
    pub current : Duration

  -- `WithFactor`: the argument is `none` if it is below 1, NaN or infinite, which panics.
  unfoldable pub with_factor : Option fl.Float → Option (Exponential → Exponential)
  with_factor none = none
  with_factor (some f) = some (λ e. record e { factor = f })

  unfoldable pub apply_options : List (Exponential → Exponential) → Exponential → Exponential
  apply_options [] e = e
  apply_options (o ∷ os) e = apply_options os (o e)

  unfoldable pub new_exponential :
      Duration → Duration → List (Exponential → Exponential) → Option Exponential
  new_exponential base max_delay opts =
      if leb_ℤ base (pos 0)
      then none
      else if ltb_ℤ max_delay base
      then none
      else some (
          apply_options opts
            (record { base = base; max_delay = max_delay; factor = fl.two; current = base }))

  unfoldable pub next : Exponential → Duration × Exponential
  next e =
      let grown = fl.times (fl.of_duration e.current) e.factor in
      (
        e.current,
        record e {
          current =
              if fl.less grown (fl.of_duration e.max_delay)
              then fl.to_duration grown
              else e.max_delay;
        },
      )

  unfoldable pub reset : Exponential → Exponential
  reset e = record e { current = e.base }

  -- The first `n` delays.
  unfoldable pub delays : ℕ → Exponential → List Duration
  delays zero e = []
  delays (suc n) e = let (d, e') = next e in d ∷ delays n e'

  pub record IsValid (e : Exponential) : Type 0 where
    pub positive : pos 0 <ℤ e.base
    pub above_base : e.base ≤ℤ e.current
    pub below_max : e.current ≤ℤ e.max_delay
    pub exact : e.max_delay ≤ℤ pos 9007199254740992

  -- Delays that do not fall, each from `lo` to `hi`.
  abbrev pub Climbs : Duration → Duration → List Duration → Type 0
  Climbs lo hi [] = Unit
  Climbs lo hi (d ∷ ds) = (lo ≤ℤ d) × (d ≤ℤ hi) × Climbs d hi ds

  pub next-IsValid :
      (e : Exponential)
      → Grows fl e.factor
      → IsValid e
      → IsValid (next e).1 × (e.current ≤ℤ (next e).1.current)
  unfolding next
  next-IsValid e g v =
      let grown = fl.times (fl.of_duration e.current) e.factor in
      ground (arith, g.grows e.current e.max_delay, g.below grown e.max_delay)

  delays-climb :
      (n : ℕ) (e : Exponential) (lo : Duration)
      → Grows fl e.factor
      → IsValid e
      → lo ≤ℤ e.current
      → Climbs lo e.max_delay (delays n e)
  unfolding delays next
  delays-climb zero e lo g v h = tt
  delays-climb (suc n) e lo g v h =
      let (v', up) = next-IsValid e g v in
      (h, v.below_max, delays-climb n (next e).1 e.current g v' up)

  -- From any valid state, with a factor that does not shrink what it multiplies, a reset starts the
  -- sequence anew: the delays begin at the base, never fall and never pass the maximum.
  delays-reset :
      (n : ℕ) (e : Exponential)
      → Grows fl e.factor
      → IsValid e
      → Climbs e.base e.max_delay (delays n (reset e)) × (delays 1 (reset e) ≡ e.base ∷ [])
  unfolding reset
  delays-reset n e g v = (
    delays-climb n (reset e) e.base g (ground (arith, v)) (omega arith),
    unfold delays next in refl,
  )
