-- ===== src/Tests/Retry.antt =====
-- The package retry at concrete inputs.
use albstractions.Prelude.{
  ℕ, zero, suc, ◌+◌, ◌*◌, ◌<◌, ◌≡◌, refl, true, false, none, some, [], ◌∷◌, arith, ◌==◌,
  if◌then◌else◌, nat_comparable, pos, leb_ℤ,
}
use albstractions.Errors.{Error, other, sentinel, canceled}
use albstractions.Retry.Stop.{StopFunc, max_attempts, max_elapsed, any_halts, all_halt}
use albstractions.Retry.{Schedule, Retry, World, sleep, fire, turn, attempts, start, do_retry}
use albstractions.Retry.Attempts.{
  goes_on, verdict, state_at, hooks_at, finish, EndsAt, do_retry-EndsAt,
}
use albstractions.Retry.Limits.{do_retry-max_attempts}

program : Unit {0}
unfolding max_attempts max_elapsed any_halts all_halt sleep fire turn attempts start do_retry
    verdict state_at hooks_at
program = tt

-- Delays of 1, 2, 3, … milliseconds, from 1 again after a reset.
abbrev counting : Schedule ℕ
counting = record { next = λ n. (pos n, n + 1); reset = some (λ _. 1) }

abbrev three : StopFunc
three attempt elapsed err = leb_ℤ (pos 3) (pos attempt)

abbrev retry : Retry ℕ
retry = record { schedule = counting; stop = any_halts (three ∷ []); hooked = true }

abbrev failure : Error
failure = sentinel (other 1)

-- Two failures, then success.
abbrev third_time : World
third_time = record {
  outcome = λ n. if n == 3 then none else some failure;
  elapsed = λ n. pos (10 * n);
  done = λ _. false;
  interrupted = λ _. false;
  reason = sentinel canceled;
}

abbrev hopeless : World
hopeless = record third_time { outcome = λ _. some failure }

third_time_result :
    do_retry 5 retry third_time 9
    ≡ some (record {
      err = none;
      hooks =
          record { attempt = 1; elapsed = pos 10; err = some failure; next = pos 1 }
          ∷ record { attempt = 2; elapsed = pos 20; err = some failure; next = pos 2 }
          ∷ record { attempt = 3; elapsed = pos 30; err = none; next = pos 0 }
          ∷ [];
      state = 3;
    })
unfolding program
third_time_result = refl

ends_third : EndsAt retry third_time 1 2
unfolding program
ends_third = record { before = before_third; ends = λ e. cc }
  where
    before_third : (i : ℕ) → i < 2 → verdict retry third_time 1 i ≡ goes_on
    before_third zero h = refl
    before_third (suc zero) h = refl
    before_third (suc (suc i)) h = absurd (omega arith)

do_retry-EndsAt_example : do_retry 5 retry third_time 9 ≡ some (finish retry third_time 1 2)
unfolding start
do_retry-EndsAt_example = do_retry-EndsAt retry third_time 9 2 5 (omega arith) ends_third

do_retry-max_attempts_example :
    (m : ℕ) × (m < 3)
    × EndsAt retry hopeless (start counting 9) m
    × (do_retry 3 retry hopeless 9 ≡ some (finish retry hopeless (start counting 9) m))
unfolding max_attempts
do_retry-max_attempts_example =
    do_retry-max_attempts retry hopeless 9 3 3 [] [] {stop = three} refl refl (omega arith)
