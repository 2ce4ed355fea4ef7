-- ===== src/Tests/Sharded.antt =====
-- The sharded layer of the package cache at concrete inputs.

use albstractions.Prelude.{
  ℕ, ◌≡◌, refl, false, Option, none, some, List, [], ◌∷◌, arith, ◌==◌, if◌then◌else◌,
  nat_comparable, length, pos, negsuc,
}
use albstractions.Time.{Time, zero_time}
use albstractions.Errors.{sentinel, other, background}
use albstractions.Cache.Ttl.{default, MemoryConfig}
use albstractions.Cache.Interface.{Cache, absent}
use albstractions.Tests.Fronts.{front}
use albstractions.Cache.Sharded.{Sharded, modulo_shard, new_sharded, close_all, yield_shard, scan}
use albstractions.Cache.Memory.{Memory, configure, new_memory}
use albstractions.Cache.Memory.Interface.{Clocked}
use albstractions.Cache.Memory.Refinement
use albstractions.Cache.Sharded.Memories.{Call, gets, sets, deletes, cleans, run}
use albstractions.Cache.Sharded.Memories.Runs.{whole_calls, run-one}
use albstractions.Cache.Sharded.Scan.{collect, Scanned, scan-collects}

-- Maps as functions; each closes with an error.
abbrev backend : Cache (ℕ → Option ℕ) ℕ ℕ
backend = record front { close = some (λ s. (some (sentinel (other 1)), s)) }

abbrev nothing : ℕ → Option ℕ
nothing key = none

abbrev two : Sharded (ℕ → Option ℕ) ℕ
two = record { algorithm = λ key. key; shards = nothing ∷ nothing ∷ [] }

made_lem : new_sharded (pos 2) (some (λ key. key)) (some nothing) ≡ some two
unfolding new_sharded
made_lem = refl

-- The two's complement of -1 and of 3.
modulo_lem : (modulo_shard (negsuc 0) ≡ 18446744073709551615) × (modulo_shard (pos 3) ≡ 3)
unfolding modulo_shard
modulo_lem = (refl, refl)

closed_lem : length (close_all backend two.shards []).0 ≡ 2
unfolding close_all
closed_lem = refl

-- Backends that are lists of items, of which an empty one fails.
abbrev listed : Cache (List (ℕ × ℕ)) ℕ ℕ
listed = record {
  get = λ key s. (none, s);
  set = λ key val exp s. (zero_time, s);
  delete = λ key s. s;
  items = λ s. (s, s);
  get_context = λ ctx key s. (absent, s);
  set_context = λ ctx key val exp s. ((zero_time, none), s);
  delete_context = λ ctx key s. (none, s);
  items_context = λ ctx s. ((s, (if length s == 0 then some (sentinel (other 2)) else none)), s);
  close = none;
}

abbrev lists : List (List (ℕ × ℕ))
lists = ((1, 10) ∷ (3, 30) ∷ []) ∷ [] ∷ ((2, 20) ∷ []) ∷ []

scanned_lem :
    (scan listed background collect lists 0 []).0
    ≡ ((1, 10) ∷ (3, 30) ∷ [], some (sentinel (other 2)))
unfolding scan yield_shard
scanned_lem = refl

scan-collects_example :
    (given : List (ℕ × ℕ)) × ((scan listed background collect lists 0 []).0.0 ≡ given)
    × Scanned listed background 0 lists given (scan listed background collect lists 0 []).0.1
scan-collects_example = scan-collects listed background lists 0 []

-- Two `Memory`s of an entry for ten nanoseconds each.
abbrev short : MemoryConfig
short = record {
  default_ttl = pos 10;
  min_ttl = pos 0;
  max_ttl = pos 0;
  cleanup_interval = pos 0;
  rebuild_interval = pos 0;
}

abbrev memory : Memory ℕ ℕ
memory = record {
  cfg = short;
  entries = [];
  closed = false;
  runs_cleanup = false;
  runs_rebuild = false;
}

abbrev memories : Sharded (Clocked ℕ ℕ) ℕ
memories = record { algorithm = λ key. key; shards = (pos 100, memory) ∷ (pos 100, memory) ∷ [] }

abbrev shared_calls : List (Time × Call ℕ ℕ)
shared_calls =
    (pos 100, sets 3 30 default)
    ∷ (pos 101, sets 4 40 default)
    ∷ (pos 105, gets 3)
    ∷ (pos 110, gets 3)
    ∷ (pos 112, cleans 0)
    ∷ (pos 112, deletes 4)
    ∷ (pos 112, gets 4)
    ∷ []

short_made : new_memory ((λ c. record c { default_ttl = pos 10 }) ∷ []) ≡ some memory
unfolding new_memory configure
short_made = refl

memories_made : new_sharded (pos 2) (some (λ key. key)) (some (pos 100, memory)) ≡ some memories
unfolding new_sharded
memories_made = refl

run-one_example :
    run shared_calls memories ≡ some (Refinement.run (whole_calls shared_calls) memory)
run-one_example =
    run-one ((λ c. record c { default_ttl = pos 10 }) ∷ []) (pos 2) (λ key. key) shared_calls
      (pos 100) short_made memories_made
      (
        omega arith,
        (
          omega arith,
          (omega arith, (omega arith, (omega arith, (omega arith, (omega arith, tt))))),
        ),
      )
