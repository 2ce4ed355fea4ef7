-- ===== src/Tests/ReadThrough.antt =====
-- The read-through layer of the package cache at concrete inputs.
use albstractions.Prelude.{
  ℕ, ◌≤◌, ◌<◌, ◌≡◌, refl, ◌⊎◌, inl, inr, false, Option, none, some, List, [], ◌∷◌, arith, ◌==◌,
  if◌then◌else◌, nat_comparable, put, sum_threads, All, pos,
}
use albstractions.Errors.{sentinel, refused, is, background}
use albstractions.Cache.Ttl.{MemoryConfig}
use albstractions.Cache.Interface.{hit, absent}
use albstractions.Cache.Memory.{Memory, configure, new_memory}
use albstractions.Cache.ReadThrough.{
  ReadThrough, Loader, any_is, is_miss, load_and_store, get_context, new_read_through,
  with_miss_error,
}
use albstractions.Cache.ReadThrough.Reads.{IsLoader}
use albstractions.Tests.Fronts.{front}
use albstractions.Cache.ReadThrough.Stack.{
  Event, reads, deletes, passes, cleans, Told, replies, over_memory, stack-Told,
}
use albstractions.Cache.ReadThrough.Flight.{
  returned, panicked, idle, looking, waiting, leading, removing, closing, answered, Move, System,
  pick, Reach, start, later, fresh_group, join, finish, remove, close, wake, loads, leads,
  Reach-single,
}
use albstractions.Cache.ReadThrough.Flight.Progress.{Steps, none_yet, first, GoesOn, Reach-GoesOn}

-- One caller loads and another waits for it.
abbrev shared : System ℕ
shared = record {
  group = (join fresh_group).0;
  pc = put 1 (waiting 0) (put 1 looking (put 0 (leading 0) (put 0 looking (λ _. idle))));
}

shared-Reach : Reach 2 shared
unfolding join
shared-Reach =
    later
      (later
        (later (later start (pick 0 (omega arith) Move.arrive)) (pick 0 (omega arith) Move.enter))
        (pick 1 (omega arith) Move.arrive))
      (pick 1 (omega arith) Move.enter)

Reach-single_example :
    (sum_threads loads 2 shared.pc ≤ 1)
    × ((shared.group.entry ≡ none) ⊎ (0 < sum_threads leads 2 shared.pc))
Reach-single_example = Reach-single 2 shared-Reach

Reach-GoesOn_example : GoesOn 2 shared 1 0
Reach-GoesOn_example = Reach-GoesOn 2 (returned 7) shared-Reach (omega arith) refl

-- The load has ended by a panic, and then its waiter has the error.
abbrev crashed : System ℕ
crashed = record {
  group = close 0 (remove (finish 0 panicked shared.group));
  pc =
      put 0 (answered panicked)
        (put 0 (closing 0 panicked) (put 0 (removing 0 panicked) shared.pc));
}

abbrev told : System ℕ
told = record { group = crashed.group; pc = put 1 (answered panicked) crashed.pc }

crashed-Reach : Reach 2 crashed
unfolding join
crashed-Reach =
    later
      (later (later shared-Reach (pick 0 (omega arith) (Move.load panicked)))
        (pick 0 (omega arith) Move.delete))
      (pick 0 (omega arith) Move.release)

crashed-told : Steps 2 crashed told
unfolding join finish remove close wake
crashed-told = first (pick 1 (omega arith) (Move.wake_up refl)) none_yet

-- A table with one key; the error of a missing key is one that counts as a miss.
abbrev holds : ℕ → Unit {0} → Option ℕ
holds key t = if key == 4 then some 40 else none

abbrev load : Loader (Unit {0}) ℕ ℕ
load ctx key t = ((if key == 4 then inr 40 else inl (sentinel refused)), t)

abbrev layer : ReadThrough (ℕ → Option ℕ) (Unit {0}) ℕ ℕ
layer = record { front = front; load = load; miss_errs = refused ∷ []; shares = false }

made_lem :
    new_read_through (some front) (some load) (with_miss_error (refused ∷ []) ∷ []) ≡ some layer
unfolding new_read_through with_miss_error
made_lem = refl

nil_lem : new_read_through {S = ℕ → Option ℕ} {V = ℕ} none (some load) [] ≡ none
unfolding new_read_through
nil_lem = refl

load-IsLoader : IsLoader (refused ∷ []) load holds
load-IsLoader = record {
  loaded = λ ctx key v t h. ground arith;
  missing = λ ctx key err t h m. ground arith;
  keeps = λ ctx key other t. refl;
}

read_lem :
    ((get_context layer background 4 (tt, λ _. none)).0 ≡ hit 40)
    × ((get_context layer background 5 (tt, λ _. none)).0 ≡ absent)
unfolding get_context load_and_store is_miss any_is is
read_lem = (refl, refl)

-- A front that keeps an entry for ten nanoseconds by default.
abbrev short : MemoryConfig
short = record {
  default_ttl = pos 10;
  min_ttl = pos 0;
  max_ttl = pos 0;
  cleanup_interval = pos 0;
  rebuild_interval = pos 0;
}

abbrev memory : Memory ℕ ℕ
memory = record {
  cfg = short;
  entries = [];
  closed = false;
  runs_cleanup = false;
  runs_rebuild = false;
}

memory_made : new_memory ((λ c. record c { default_ttl = pos 10 }) ∷ []) ≡ some memory
unfolding new_memory configure
memory_made = refl

abbrev events : List (Event ℕ)
events =
    reads background 4
    ∷ passes 5
    ∷ reads background 4
    ∷ passes 5
    ∷ cleans
    ∷ reads background 5
    ∷ deletes background 4
    ∷ reads background 4
    ∷ []

stack-Told_example :
    All
      (Told (λ key. holds key tt))
      (replies (over_memory load (refused ∷ []) false) events (tt, (pos 100, memory)))
stack-Told_example =
    stack-Told load (refused ∷ []) false (λ key. holds key tt) load-IsLoader
      ((λ c. record c { default_ttl = pos 10 }) ∷ []) events (pos 100) tt memory_made (λ key. refl)
