-- ===== src/Tests/Cache.antt =====
-- The package cache at concrete inputs.
use albstractions.Prelude.{
  ℕ, ◌≡◌, refl, ◌⊎◌, inr, false, none, some, List, [], ◌∷◌, arith, leb, nat_comparable, lookup,
  insert, erase, Distinct, pos, ◌+ℤ◌, ◌-ℤ◌,
}
use albstractions.Time.{Time, zero_time}
use albstractions.Errors.{sentinel, canceled, Context}
use albstractions.Cache.Ttl.{
  default, never, keep, after, at, MemoryConfig, MemoryOption, clamp_lifetime, clamp_never,
  resolve_default, resolve_at, resolve_expiry, expired, raise_to_min, lower_to_max,
  with_default_ttl, with_min_ttl, with_max_ttl, with_cleanup_interval, with_rebuild_interval,
}
use albstractions.Cache.Ttl.Bounds.{
  IsValid, InBounds, resolve_expiry-InBounds, resolve_at-resolve_expiry,
}
use albstractions.Cache.Memory.{
  Memory, configure, new_memory, fresh, evict, read, get, set, delete, sweep, cleanup, copy_live,
  rebuild, snapshot, yield_all, items_context, items,
}
use albstractions.Cache.Memory.Liveness.{value_of}
use albstractions.Cache.Memory.Refinement.{
  Call, gets, sets, cleans, got, stored, nothing, perform, run, write, specify, spec_run,
  run-spec_run,
}
use albstractions.Cache.Memory.Items.{collect, items-collect}
use albstractions.Cache.Memory.Config.{Setting, min_ttl, max_ttl, default_ttl, option, options}

program : Unit {0}
unfolding with_default_ttl with_min_ttl with_max_ttl with_cleanup_interval with_rebuild_interval
    configure new_memory evict read get set delete sweep cleanup copy_live rebuild snapshot
    yield_all items_context items perform run write specify spec_run fresh expired resolve_expiry
    resolve_default resolve_at clamp_lifetime clamp_never raise_to_min lower_to_max lookup insert
    erase option options ◌+ℤ◌ ◌-ℤ◌
program = tt

abbrev settings : List Setting
settings = default_ttl (pos 50) ∷ min_ttl (pos 10) ∷ max_ttl (pos 100) ∷ []

abbrev opts : List MemoryOption
opts =
    (λ c. record c { default_ttl = pos 50 })
    ∷ (λ c. record c { min_ttl = pos 10 })
    ∷ (λ c. record c { max_ttl = pos 100 })
    ∷ []

abbrev cfg : MemoryConfig
cfg = record {
  default_ttl = pos 50;
  min_ttl = pos 10;
  max_ttl = pos 100;
  cleanup_interval = pos 0;
  rebuild_interval = pos 0;
}

abbrev empty : Memory ℕ ℕ
empty = record {
  cfg = cfg;
  entries = [];
  closed = false;
  runs_cleanup = false;
  runs_rebuild = false;
}

abbrev two : Memory ℕ ℕ
two = record empty {
  entries =
      (1, record { value = 10; expires_at = pos 1050 })
      ∷ (2, record { value = 20; expires_at = pos 1100 })
      ∷ [];
}

made : new_memory opts ≡ some empty
unfolding program
made = refl

options_made : options settings ≡ some opts
unfolding program
options_made = refl

abbrev calls : List (Time × Call ℕ ℕ)
calls =
    (pos 1000, sets 1 10 default)
    ∷ (pos 1001, sets 2 20 never)
    ∷ (pos 1020, sets 1 11 keep)
    ∷ (pos 1049, gets 1)
    ∷ (pos 1050, gets 1)
    ∷ (pos 1060, sets 1 12 keep)
    ∷ (pos 1101, cleans)
    ∷ (pos 1102, gets 2)
    ∷ (pos 1102, gets 1)
    ∷ []

-- A kept expiry stays, an elapsed one is not kept, and `never` is bounded by the maximum.
replies :
    run calls empty
    ≡ stored (pos 1050)
      ∷ stored (pos 1101)
      ∷ stored (pos 1050)
      ∷ got (some 11)
      ∷ got none
      ∷ stored (pos 1110)
      ∷ nothing
      ∷ got none
      ∷ got (some 12)
      ∷ []
unfolding program
replies = refl

cfg-IsValid : IsValid cfg
cfg-IsValid = record {
  min_nonneg = omega arith;
  max_nonneg = omega arith;
  ordered = inr (omega arith);
  default_fits = omega arith;
  min_fits = omega arith;
  max_fits = omega arith;
}

run-spec_run_example : run calls empty ≡ spec_run cfg calls (λ _. none)
unfolding program
run-spec_run_example = run-spec_run opts calls (pos 1000) refl (omega arith)

items-collect_example :
    Distinct (items collect (pos 1055) two [])
    × ((j : ℕ)
        → lookup j (items collect (pos 1055) two [])
          ≡ value_of (fresh (pos 1055) (lookup j two.entries)))
unfolding program
items-collect_example = items-collect (pos 1055) two (refl, (refl, tt))

abbrev dying : Context
dying = record { done = λ i. leb 1 i; reason = sentinel canceled; cause = sentinel canceled }

resolve_expiry-InBounds_example :
    ((cfg.max_ttl ≡ pos 0)
      × (resolve_expiry cfg (after (pos 500)) (pos 1000) zero_time false ≡ zero_time))
    ⊎ InBounds cfg (pos 1000) (resolve_expiry cfg (after (pos 500)) (pos 1000) zero_time false)
resolve_expiry-InBounds_example =
    resolve_expiry-InBounds cfg (after (pos 500)) (pos 1000) zero_time false cfg-IsValid refl

resolve_at-resolve_expiry_example :
    resolve_expiry cfg
      (at (resolve_expiry cfg default (pos 1000) zero_time false))
      (pos 1000)
      zero_time
      false
    ≡ resolve_expiry cfg default (pos 1000) zero_time false
resolve_at-resolve_expiry_example =
    resolve_at-resolve_expiry cfg default (pos 1000) zero_time false cfg-IsValid refl (omega arith)
