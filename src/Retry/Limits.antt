-- ===== src/Retry/Limits.antt =====
-- retry/stop.go: a stop condition that counts attempts ends `Do`, whatever the function, the clock,
-- the schedule and the context do.
use mathlib.Core.Path.{subst}
use native.Mathlib.Decide.{dec_lt}
use albstractions.Prelude.{
  ℕ, zero, suc, ◌+◌, ◌≤◌, ◌<◌, ◌≡◌, refl, ◌≢◌, ◌⊎◌, inl, inr, true, some, List, [], ◌∷◌, ◌++◌,
  arith, guarded, Option-cases, nat_comparable, pos,
}
use albstractions.Time.{Duration, before}
use albstractions.Errors.{Error}
use albstractions.Retry.Stop.{StopFunc, max_attempts, any_halts}
use albstractions.Retry.{Retry, World, start, do_retry}
use albstractions.Retry.Attempts.{
  Verdict, goes_on, succeeded, halted, interrupted, verdict, finish, EndsAt, do_retry-start,
}

-- The condition halts every failed attempt from the `n`th on.
abbrev pub Caps : ℕ → StopFunc → Type 0
Caps n stop = (a : ℕ) (d : Duration) (e : Error) → n ≤ a → stop a d e ≡ true

goes_on-cases : (v : Verdict) → (v ≡ goes_on) ⊎ (v ≢ goes_on)
goes_on-cases goes_on = inl refl
goes_on-cases succeeded = inr (λ h. cc)
goes_on-cases (halted e) = inr (λ h. cc)
goes_on-cases (interrupted e) = inr (λ h. cc)

module _ {ℓ} {S : Type ℓ} (r : Retry S) (w : World) (s : S) where
  verdict_capped : (n : ℕ) → Caps (suc n) r.stop → verdict r w s n ≢ goes_on
  unfolding verdict
  verdict_capped n capped = λ h. elim (Option-cases (w.outcome (suc n))) [
    | inl ok ↦ ground arith
    | inr (e, failed) ↦ ground (arith, capped (suc n) (w.elapsed (suc n)) e (omega arith))
  ]

  -- The first attempt that does not go on, at or after the one numbered `i + 1`.
  first_end :
      (d i n : ℕ)
      → i + d ≡ n
      → verdict r w s n ≢ goes_on
      → ((j : ℕ) → j < i → verdict r w s j ≡ goes_on)
      → (m : ℕ) × (m ≤ n) × EndsAt r w s m
  first_end zero i n e end before =
      (n, omega arith, record { before = λ j h. before j (omega arith); ends = end })
  first_end (suc d) i n e end before = elim (goes_on-cases (verdict r w s i)) [
    | inr here ↦ (i, omega arith, record { before = before; ends = here })
    | inl on ↦ first_end d (suc i) n (omega arith) end (λ j h. elim (dec_lt j i) [
      | yes earlier ↦ before j earlier
      | no last ↦ let same : j ≡ i = omega arith in rw same on
    ])
  ]

  first_end_capped : (n : ℕ) → Caps (suc n) r.stop → (m : ℕ) × (m ≤ n) × EndsAt r w s m
  first_end_capped n capped =
      first_end n 0 n (omega arith) (verdict_capped n capped) (λ j h. absurd (omega arith))

module _ {ℓ} {S : Type ℓ} (r : Retry S) (w : World) (s : S) where
  -- With a cap of `n + 1` attempts the loop needs no more fuel than that.
  do_retry-Caps :
      (n fuel : ℕ)
      → Caps (suc n) r.stop
      → n < fuel
      → (m : ℕ) × (m ≤ n)
        × EndsAt r w (start r.schedule s) m
        × (do_retry fuel r w s ≡ some (finish r w (start r.schedule s) m))
  do_retry-Caps n fuel capped h =
      let (m, below, end) = first_end_capped r w (start r.schedule s) n capped in
      (m, below, end, do_retry-start r w s m fuel (omega arith) end)

any_halts-append :
    (before after : List StopFunc) (stop : StopFunc) (a : ℕ) (d : Duration) (e : Error)
    → stop a d e ≡ true
    → any_halts (before ++ stop ∷ after) a d e ≡ true
unfolding any_halts
any_halts-append [] after stop a d e h = rw h
any_halts-append (s ∷ before) after stop a d e h =
    ground (arith, any_halts-append before after stop a d e h)

max_attempts-Caps :
    (n : ℕ) {stop : StopFunc} → max_attempts (pos (suc n)) ≡ some stop → Caps (suc n) stop
unfolding max_attempts
max_attempts-Caps n e =
    λ a d x h. subst (λ (f : StopFunc). f a d x ≡ true) (guarded _ _ e).1 (ground arith)

-- With `MaxAttempts(n)` among the conditions of `Any`, `Do` returns after at most `n` attempts, and
-- as the verdicts on those say: at the first that does not go on.
pub do_retry-max_attempts {ℓ} :
    {S : Type ℓ} (r : Retry S) (w : World) (s : S) (n fuel : ℕ) (before after : List StopFunc)
    {stop : StopFunc}
    → max_attempts (pos n) ≡ some stop
    → r.stop ≡ any_halts (before ++ stop ∷ after)
    → n ≤ fuel
    → (m : ℕ) × (m < n)
      × EndsAt r w (start r.schedule s) m
      × (do_retry fuel r w s ≡ some (finish r w (start r.schedule s) m))
unfolding max_attempts
do_retry-max_attempts r w s zero fuel before after made e h = absurd (ground arith)
do_retry-max_attempts r w s (suc n) fuel before after {stop} made e h =
    let capped : Caps (suc n) r.stop = λ a d x g.
      rw e (any_halts-append before after stop a d x (max_attempts-Caps n made a d x g)) in
    let (m, below, end, returned) = do_retry-Caps r w s n fuel capped h in
    (m, omega arith, end, returned)
