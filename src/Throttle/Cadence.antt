-- ===== src/Throttle/Cadence.antt =====
-- throttle/throttle.go: when the calls of a throttle are due.
use albstractions.Prelude.{
  ◌≡◌, refl, inl, inr, List, [], ◌∷◌, arith, if◌then◌else◌, Bool-cases, nat_comparable, All, ◌+ℤ◌,
  ◌<ℤ◌,
}
use albstractions.Time.{Time, Duration, max_duration, before, sub, add-sub, sub_self, add_zero}
use albstractions.Throttle.{Throttle, next_slot}

module _ {ℓ} {S : Type ℓ} where
  -- The turns that callers took, each with its instant and the delay drawn for it.
  unfoldable pub turns : List (Time × Duration) → Throttle S → List Duration
  turns [] t = []
  turns ((now, delay) ∷ rest) t = let (wait, t') = next_slot now delay t in wait ∷ turns rest t'

-- The cadence as documented, from the instant `earliest` at which the next call may start: the call
-- is due then, or at once if that has passed, and its successor its delay after it was due.
abbrev pub Spaced : Time → List (Time × Duration) → List Duration → Type 0
Spaced earliest [] waits = Unit
Spaced earliest (c ∷ calls) [] = ⊥
Spaced earliest ((now, delay) ∷ calls) (wait ∷ waits) =
    (now +ℤ wait ≡ (if before earliest now then now else earliest))
    × Spaced (now +ℤ wait +ℤ delay) calls waits

-- No wait is one that `Sub` cut short, 292 years.
abbrev pub IsExact : List Duration → Type 0
IsExact = All (λ d. d <ℤ max_duration)

module _ {ℓ} {S : Type ℓ} where
  next_slot-due :
      (now : Time) (delay : Duration) (t : Throttle S)
      → (next_slot now delay t).0 <ℤ max_duration
      → (now +ℤ (next_slot now delay t).0
          ≡ (if before t.next_allowed now then now else t.next_allowed))
        × ((next_slot now delay t).1.next_allowed ≡ now +ℤ (next_slot now delay t).0 +ℤ delay)
  unfolding next_slot
  next_slot-due now delay t exact = elim (Bool-cases (before t.next_allowed now)) [
    | inl past ↦ rw (past, next_slot, sub_self now, add_zero now) (refl, refl)
    | inr ahead ↦
        let reached : now +ℤ sub t.next_allowed now ≡ t.next_allowed =
          add-sub now t.next_allowed (ground arith) (rw (ahead, next_slot) at exact) in
        rw (ahead, next_slot, reached) (refl, refl)
  ]

  -- Of calls that take their turns one after another, with no wait as long as 292 years, each is due
  -- its predecessor's delay after that one was due, or at once if that has passed: the cadence does
  -- not drift with the instants at which the calls come.
  pub turns-Spaced :
      (calls : List (Time × Duration)) (t : Throttle S)
      → IsExact (turns calls t)
      → Spaced t.next_allowed calls (turns calls t)
  unfolding turns
  turns-Spaced [] t exact = tt
  turns-Spaced ((now, delay) ∷ rest) t exact =
      let (due, next) = next_slot-due now delay t exact.0 in
      (due, rw (← next) (turns-Spaced rest (next_slot now delay t).1 exact.1))
