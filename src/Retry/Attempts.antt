-- ===== src/Retry/Attempts.antt =====
-- retry/retry.go: a run of `Do`, from the verdict on each attempt by itself.
use mathlib.Core.Path.{subst}
use albstractions.Prelude.{
  ℕ, zero, suc, ◌+◌, ◌<◌, ◌≡◌, ◌≢◌, refl, sym, inl, inr, Option-cases, ltb_ℤ, Bool, true, false,
  Option, none, some, List, [], ◌∷◌, ◌++◌, arith, if◌then◌else◌, nat_comparable, pos,
}
use albstractions.Time.{Duration}
use albstractions.Errors.{Error}
use albstractions.Retry.{
  AttemptInfo, Schedule, Retry, World, sleep, Returned, fire, turn, attempts, start, do_retry,
}

pub data Verdict : Type 0 where
  succeeded goes_on : Verdict
  halted interrupted : Error → Verdict

abbrev pub error_of : Verdict → Option Error
error_of succeeded = none
error_of goes_on = none
error_of (halted e) = some e
error_of (interrupted e) = some e

-- Whether the schedule was asked for a delay.
abbrev pub delayed : Verdict → Bool
delayed succeeded = false
delayed (halted e) = false
delayed (interrupted e) = true
delayed goes_on = true

-- What the context makes of the delay `d` after an attempt: one that is not positive ends with the
-- context's error if the context is done when it begins, another if the context is done first.
abbrev pub cut_short : World → ℕ → Duration → Option Error
cut_short w attempt d =
    if (if ltb_ℤ (pos 0) d then w.interrupted attempt else w.done attempt)
    then some w.reason
    else none

-- A schedule before the first attempt: reset, if it can be.
abbrev pub renewed {ℓ} : {S : Type ℓ} → Option (S → S) → S → S
renewed none s = s
renewed (some reset) s = reset s

sleep-cut_short :
    (w : World) (attempt : ℕ) (d : Duration) → sleep w attempt d ≡ cut_short w attempt d
unfolding sleep
sleep-cut_short w attempt d = ground arith

start-renewed {ℓ} :
    {S : Type ℓ} (sched : Schedule S) (s : S) → start sched s ≡ renewed sched.reset s
unfolding start
start-renewed sched s = elim (Option-cases sched.reset) [
  | inl fixed ↦ rw (fixed, start) refl
  | inr (reset, resets) ↦ rw (resets, start) refl
]

module _ {ℓ} {S : Type ℓ} (r : Retry S) (w : World) (s : S) where
  -- The schedule after `i` delays, and the delay that it then gives.
  unfoldable pub state_at : ℕ → S
  state_at zero = s
  state_at (suc i) = (r.schedule.next (state_at i)).1

  abbrev pub delay_at : ℕ → Duration
  delay_at i = (r.schedule.next (state_at i)).0

  -- What becomes of the attempt numbered `i + 1`, if there is one.
  unfoldable pub verdict : ℕ → Verdict
  verdict i = elim (w.outcome (suc i)) [
    | none ↦ succeeded
    | some e ↦
        if r.stop (suc i) (w.elapsed (suc i)) e
        then halted e
        else elim (cut_short w (suc i) (delay_at i)) [
          | none ↦ goes_on
          | some ended ↦ interrupted ended
        ]
  ]

  abbrev pub info_at : ℕ → AttemptInfo
  info_at i = record {
    attempt = suc i;
    elapsed = w.elapsed (suc i);
    err = w.outcome (suc i);
    next = if delayed (verdict i) then delay_at i else pos 0;
  }

  -- The hook's calls for the first `n` attempts.
  unfoldable pub hooks_at : ℕ → List AttemptInfo
  hooks_at zero = []
  hooks_at (suc n) = if r.hooked then hooks_at n ++ info_at n ∷ [] else hooks_at n

  -- What `Do` returns if the attempt numbered `m + 1` is its last.
  abbrev pub finish : ℕ → Returned S
  finish m = record {
    err = error_of (verdict m);
    hooks = hooks_at (suc m);
    state = if delayed (verdict m) then state_at (suc m) else state_at m;
  }

  -- The attempts before the one numbered `m + 1` go on, and that one does not.
  pub record EndsAt (m : ℕ) : Type 0 where
    pub before : (i : ℕ) → i < m → verdict i ≡ goes_on
    pub ends : verdict m ≢ goes_on

  turn-goes_on :
      (i : ℕ)
      → verdict i ≡ goes_on
      → turn r w (suc i) (state_at i) (hooks_at i) ≡ inr (state_at (suc i), hooks_at (suc i))
  unfolding turn fire verdict hooks_at state_at
  turn-goes_on i h = ground (arith, sleep-cut_short w (suc i) (delay_at i))

  turn-ends :
      (i : ℕ) → verdict i ≢ goes_on → turn r w (suc i) (state_at i) (hooks_at i) ≡ inl (finish i)
  unfolding turn fire verdict hooks_at state_at
  turn-ends i h = ground (arith, sleep-cut_short w (suc i) (delay_at i))

  attempts-EndsAt :
      (d i m fuel : ℕ)
      → i + d ≡ m
      → d < fuel
      → EndsAt m
      → attempts fuel r w (suc i) (state_at i) (hooks_at i) ≡ some (finish m)
  unfolding attempts
  attempts-EndsAt d i m zero e h end = absurd (omega arith)
  attempts-EndsAt zero i m (suc fuel) e h end =
      let here : i ≡ m = omega arith in
      subst (λ n. attempts (suc fuel) r w (suc i) (state_at i) (hooks_at i) ≡ some (finish n)) here
        (rw (turn-ends i (λ h. end.ends (rw (← here) h)), attempts))
  attempts-EndsAt (suc d) i m (suc fuel) e h end =
      rw (turn-goes_on i (end.before i (omega arith)), attempts)
        (attempts-EndsAt d (suc i) m fuel (omega arith) (omega arith) end)

pub do_retry-start {ℓ} :
    {S : Type ℓ} (r : Retry S) (w : World) (s : S) (m fuel : ℕ)
    → m < fuel
    → EndsAt r w (start r.schedule s) m
    → do_retry fuel r w s ≡ some (finish r w (start r.schedule s) m)
unfolding do_retry state_at hooks_at
do_retry-start r w s m fuel h end =
    attempts-EndsAt r w (start r.schedule s) m 0 m fuel (omega arith) h end

-- `Do` ends with the first attempt that succeeds, that the stop condition halts or whose delay the
-- context cuts short, and not before: a delay that is not positive if the context is done when it
-- begins, another if the context is done first. It returns that attempt's error, nil on success, or the context's;
-- the hook was called once for each attempt, in order, with its number, its error and the delay
-- drawn after it; and the schedule, reset first if it can be, gave one delay for each attempt but a
-- last one that succeeded or was halted.
pub do_retry-EndsAt {ℓ} :
    {S : Type ℓ} (r : Retry S) (w : World) (s : S) (m fuel : ℕ)
    → m < fuel
    → EndsAt r w (renewed r.schedule.reset s) m
    → do_retry fuel r w s ≡ some (finish r w (renewed r.schedule.reset s) m)
do_retry-EndsAt r w s m fuel h end =
    let same = start-renewed r.schedule s in
    subst (λ s'. do_retry fuel r w s ≡ some (finish r w s' m)) same
      (do_retry-start r w s m fuel h (subst (λ s'. EndsAt r w s' m) (sym same) end))
