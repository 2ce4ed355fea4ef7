-- ===== src/Tests/Throttle.antt =====
-- The package throttle at concrete inputs.
use albstractions.Prelude.{
  ℕ, ◌+◌, ◌≤◌, ◌≡◌, refl, ◌≢◌, ◌⊎◌, true, false, Option, none, some, List, [], ◌∷◌, arith,
  nat_comparable, put, sum_threads, pos, ◌+ℤ◌, ◌-ℤ◌,
}
use albstractions.Time.{Time, Duration, zero_time}
use albstractions.Errors.{Error, sentinel, canceled}
use albstractions.Throttle.{
  Schedule, Throttle, World, next_slot, sleep, pace, do_paced, do_call, with_max_inflight, new,
}
use albstractions.Throttle.Cadence.{turns, Spaced, turns-Spaced}
use albstractions.Throttle.Transport.{round_trip, round_trip-body}
use albstractions.Throttle.Inflight.{
  System, Reach, Move, idle, queued, holding, holds, runs, pick, start, later, Reach-inflight,
}

program : Unit {0}
unfolding next_slot sleep pace do_paced do_call with_max_inflight new turns round_trip sum_threads
    ◌+ℤ◌ ◌-ℤ◌
program = tt

abbrev steady : Schedule ℕ
steady = record { next = λ n. (pos 10, n + 1); wait = none }

abbrev serial : Throttle ℕ
serial = record { next_allowed = zero_time; slots = some 1; used = 0; pace = 0 }

abbrev world : World
world = record {
  acquires = true;
  done_before = false;
  now = pos 1000;
  done_at_once = false;
  interrupted = false;
  reason = sentinel canceled;
}

-- The first call is not delayed, the next two keep the cadence, and a late one starts at once.
abbrev calls : List (Time × Duration)
calls = (pos 1000, pos 10) ∷ (pos 1001, pos 10) ∷ (pos 1013, pos 10) ∷ (pos 1100, pos 10) ∷ []

cadence : turns calls serial ≡ pos 0 ∷ pos 9 ∷ pos 7 ∷ pos 0 ∷ []
unfolding program
cadence = refl

turns-Spaced_example : Spaced zero_time calls (turns calls serial)
unfolding program
turns-Spaced_example = turns-Spaced calls serial (omega arith)

abbrev late : World
late = record world { done_before = true }

abbrev cut : World
cut = record world { interrupted = true; done_at_once = true }

abbrev answer : Option ℕ × Option Error
answer = (some 200, none)

round_trip-body_example :
    ((round_trip steady late answer true serial).closes
        + (round_trip steady late answer true serial).forwards
      ≡ 1)
    × ((((round_trip steady late answer true serial).forwards ≡ 0)
          × ((round_trip steady late answer true serial).err ≢ none)
          × ((round_trip steady late answer true serial).response ≡ none))
        ⊎ (((round_trip steady late answer true serial).forwards ≡ 1)
            × ((round_trip steady late answer true serial).err ≡ none)
            × ((round_trip steady late answer true serial).response ≡ some 200)))
round_trip-body_example = round_trip-body steady late answer true serial

-- Two callers on a serial throttle: one holds the slot, the other is queued.
abbrev crowded : System ℕ
crowded = record {
  throttle = record serial { used = 1 };
  pc = put 0 holding (put 1 queued (put 0 queued (λ _. idle)));
}

crowded-Reach : Reach steady 2 serial crowded
crowded-Reach =
    later
      (later (later start (pick 0 (omega arith) Move.arrive)) (pick 1 (omega arith) Move.arrive))
      (pick 0 (omega arith) (Move.acquire {n = 1} refl (omega arith)))

Reach-inflight_example :
    (sum_threads runs 2 crowded.pc ≤ 1)
    × (sum_threads holds 2 crowded.pc ≤ 1)
    × (crowded.throttle.used ≡ sum_threads holds 2 crowded.pc)
Reach-inflight_example = Reach-inflight steady 2 refl refl crowded-Reach
