-- ===== src/Retry.antt =====
-- retry/retry.go: `Retry.Do`. The function that is retried, the clock and the context enter as what
-- each attempt sees of them; the loop takes fuel, and `none` means that it ran out.
pub mod Stop
pub mod Attempts
pub mod Limits
use albstractions.Prelude.{
  [], ℕ, zero, suc, ◌⊎◌, inl, inr, Bool, Option, none, some, List, ◌∷◌, ◌++◌, if◌then◌else◌,
  nat_comparable, pos, leb_ℤ,
}
use albstractions.Time.{Duration}
use albstractions.Errors.{Error}
use albstractions.Retry.Stop.{StopFunc}

-- A `Schedule` with its state; `reset` is there if it is a `Resetter`.
pub record Schedule {ℓ} (S : Type ℓ) : Type ℓ where
  pub next : S → Duration × S
  pub reset : Option (S → S)

-- What the hook is given.
pub record AttemptInfo : Type 0 where
  pub attempt : ℕ
  pub elapsed : Duration
  pub err : Option Error
  pub next : Duration

pub record Retry {ℓ} (S : Type ℓ) : Type ℓ where
  pub schedule : Schedule S
  pub stop : StopFunc
  pub hooked : Bool

-- `New`; `none` for an argument is nil, and for the result a panic. The option is `WithHook`.
unfoldable pub new {ℓ} :
    {S : Type ℓ} → Option (Schedule S) → Option StopFunc → Bool → Option (Retry S)
new none stop hooked = none
new (some s) none hooked = none
new (some s) (some stop) hooked = some (record { schedule = s; stop = stop; hooked = hooked })

-- One call of `Do` as the world answers it, by the attempt's number: what `fn` returns, the time
-- since the start, whether the context is done when the delay begins, and whether the `select` of
-- `sleep` takes the context's case. `reason` is `ctx.Err()` of a done context.
pub record World : Type 0 where
  pub outcome : ℕ → Option Error
  pub elapsed : ℕ → Duration
  pub done : ℕ → Bool
  pub interrupted : ℕ → Bool
  pub reason : Error

-- `sleep` after the given attempt.
unfoldable pub sleep : World → ℕ → Duration → Option Error
sleep w attempt d =
    if leb_ℤ d (pos 0)
    then (if w.done attempt then some w.reason else none)
    else if w.interrupted attempt
    then some w.reason
    else none

-- `Do` returns an error or nil, having called the hook, and leaves the schedule in a state.
pub record Returned {ℓ} (S : Type ℓ) : Type ℓ where
  pub err : Option Error
  pub hooks : List AttemptInfo
  pub state : S

module _ {ℓ} {S : Type ℓ} where
  -- `fire`.
  unfoldable pub fire : Retry S → AttemptInfo → List AttemptInfo → List AttemptInfo
  fire r info hooks = if r.hooked then hooks ++ info ∷ [] else hooks

  -- The body of the loop for one attempt: what `Do` returns, or the state to go on with.
  unfoldable pub turn :
      Retry S → World → ℕ → S → List AttemptInfo → Returned S ⊎ (S × List AttemptInfo)
  turn r w attempt s hooks =
      let elapsed = w.elapsed attempt in
      elim (w.outcome attempt) [
        | none ↦ inl (record {
          err = none;
          hooks =
              fire r (record { attempt = attempt; elapsed = elapsed; err = none; next = pos 0 })
                hooks;
          state = s;
        })
        | some e ↦
            if r.stop attempt elapsed e
            then inl (record {
              err = some e;
              hooks =
                  fire r
                    (record { attempt = attempt; elapsed = elapsed; err = some e; next = pos 0 })
                    hooks;
              state = s;
            })
            else (let (d, s') = r.schedule.next s in
                let hooks' =
                  fire r (record { attempt = attempt; elapsed = elapsed; err = some e; next = d })
                    hooks in
                elim (sleep w attempt d) [
                  | some ended ↦ inl (record { err = some ended; hooks = hooks'; state = s' })
                  | none ↦ inr (s', hooks')
                ])
      ]

  unfoldable pub attempts : ℕ → Retry S → World → ℕ → S → List AttemptInfo → Option (Returned S)
  attempts zero r w attempt s hooks = none
  attempts (suc fuel) r w attempt s hooks = elim (turn r w attempt s hooks) [
    | inl returned ↦ some returned
    | inr (s', hooks') ↦ attempts fuel r w (suc attempt) s' hooks'
  ]

  unfoldable pub start : Schedule S → S → S
  start sched s = elim sched.reset [ none ↦ s | some reset ↦ reset s ]

  unfoldable pub do_retry : ℕ → Retry S → World → S → Option (Returned S)
  do_retry fuel r w s = attempts fuel r w 1 (start r.schedule s) []
