-- ===== src/Cache/Memory.antt =====
-- cache/memory.go: `Memory`, one map of entries with expiries. Each call takes the instant that it
-- reads from the clock first, and returns the new state beside its result; `none` is the pair of
-- a zero value and `false`.
pub mod Lookups
pub mod Liveness
pub mod Refinement
pub mod Items
pub mod Config
pub mod Interface
use albstractions.Prelude.{
  [], ℕ, suc, Bool, true, false, not, ◌&&◌, Option, none, some, List, ◌∷◌, if◌then◌else◌,
  Comparable, nat_comparable, Map, lookup, insert, erase, ltb_ℤ,
}
use albstractions.Time.{Time, zero_time}
use albstractions.Errors.{Error, Context, background}
use albstractions.Cache.Ttl.{
  Expiry, MemoryConfig, zero_config, MemoryOption, positive, resolve_expiry, expired,
}

pub record Entry {ℓ} (V : Type ℓ) : Type ℓ where
  pub value : V
  pub expires_at : Time

-- `closed` is whether the channel `done` is closed; the last two fields are the goroutines that
-- `NewMemory` started.
pub record Memory {ℓ} (K V : Type ℓ) : Type ℓ where
  pub cfg : MemoryConfig
  pub entries : Map K (Entry V)
  pub closed : Bool
  pub runs_cleanup : Bool
  pub runs_rebuild : Bool

unfoldable pub configure : List MemoryOption → MemoryConfig → MemoryConfig
configure [] c = c
configure (o ∷ os) c = configure os (o c)

-- `none` is the panic on a minimum above the maximum.
unfoldable pub new_memory {ℓ} : {K V : Type ℓ} → List MemoryOption → Option (Memory K V)
new_memory opts =
    let cfg = configure opts zero_config in
    if positive cfg.max_ttl && ltb_ℤ cfg.max_ttl cfg.min_ttl
    then none
    else some (record {
      cfg = cfg;
      entries = [];
      closed = false;
      runs_cleanup = positive cfg.cleanup_interval;
      runs_rebuild = positive cfg.rebuild_interval;
    })

-- What is live of a stored entry at `now`.
unfoldable pub fresh {ℓ} : {V : Type ℓ} → Time → Option (Entry V) → Option (Entry V)
fresh now none = none
fresh now (some e) = if expired e.expires_at now then none else some e

-- Of the existing entry, its expiry (the zero time where there is none) and whether it counts.
abbrev pub existing_expiry {ℓ} : {V : Type ℓ} → Option (Entry V) → Time
existing_expiry none = zero_time
existing_expiry (some e) = e.expires_at

abbrev pub found {ℓ} : {V : Type ℓ} → Time → Option (Entry V) → Bool
found now none = false
found now (some e) = not (expired e.expires_at now)

module _ {ℓ} {K V : Type ℓ} ⦃k : Comparable K⦄ where
  -- The part of `lookup` under the write lock, which looks again: `now` is the instant of the read.
  unfoldable pub evict : K → Time → Memory K V → Memory K V
  evict key now m = elim (lookup key m.entries) [
    | none ↦ m
    | some cur ↦
        if expired cur.expires_at now then record m { entries = erase key m.entries } else m
  ]

  -- The method `lookup`.
  unfoldable pub read : K → Time → Memory K V → Memory K V × Option V
  read key now m = elim (lookup key m.entries) [
    | none ↦ (m, none)
    | some e ↦ if not (expired e.expires_at now) then (m, some e.value) else (evict key now m, none)
  ]

  unfoldable pub get : K → Time → Memory K V → Memory K V × Option V
  get key now m = read key now m

  unfoldable pub set : K → V → Expiry → Time → Memory K V → Memory K V × Time
  set key val exp now m =
      let existing = lookup key m.entries in
      let expires_at =
        resolve_expiry m.cfg exp now (existing_expiry existing) (found now existing) in
      (
        record m {
          entries = insert key (record { value = val; expires_at = expires_at }) m.entries;
        },
        expires_at,
      )

  unfoldable pub delete : K → Memory K V → Memory K V
  delete key m = record m { entries = erase key m.entries }

  -- The loop of `cleanup` over the entries that `range` visits.
  unfoldable pub sweep : Map K (Entry V) → Time → Map K (Entry V) → Map K (Entry V)
  sweep [] now m = m
  sweep ((key, e) ∷ rest) now m =
      sweep rest now (if expired e.expires_at now then erase key m else m)

  unfoldable pub cleanup : Time → Memory K V → Memory K V
  cleanup now m = record m { entries = sweep m.entries now m.entries }

  -- The loop of `rebuild`, into the map `fresh`.
  unfoldable pub copy_live : Map K (Entry V) → Time → Map K (Entry V) → Map K (Entry V)
  copy_live [] now m = m
  copy_live ((key, e) ∷ rest) now m =
      copy_live rest now (if not (expired e.expires_at now) then insert key e m else m)

  unfoldable pub rebuild : Time → Memory K V → Memory K V
  rebuild now m = record m { entries = copy_live m.entries now [] }

  -- The snapshot of `ItemsContext`.
  unfoldable pub snapshot : Time → Map K (Entry V) → List (K × V)
  snapshot now [] = []
  snapshot now ((key, e) ∷ rest) =
      if not (expired e.expires_at now)
      then (key, e.value) ∷ snapshot now rest
      else snapshot now rest

module _ {ℓ} {K V : Type ℓ} where
  -- The second loop of `ItemsContext`: `yield` is the loop body with its state; the result is the
  -- terminal error. `i` counts the looks at the context.
  unfoldable pub yield_all {κ} :
      {S : Type κ} → Context → (S → K → V → S × Bool) → List (K × V) → ℕ → S → S × Option Error
  yield_all ctx yield [] i s = (s, none)
  yield_all ctx yield ((key, v) ∷ rest) i s =
      if ctx.done i
      then (s, some ctx.cause)
      else (let (s', more) = yield s key v in
          let tail = yield_all ctx yield rest (suc i) s' in if more then tail else (s', none))

module _ {ℓ} {K V : Type ℓ} ⦃k : Comparable K⦄ where
  unfoldable pub items_context {κ} :
      {S : Type κ} → Context → (S → K → V → S × Bool) → Time → Memory K V → S → S × Option Error
  items_context ctx yield now m s =
      if ctx.done 0 then (s, some ctx.cause) else yield_all ctx yield (snapshot now m.entries) 1 s

  unfoldable pub items {κ} : {S : Type κ} → (S → K → V → S × Bool) → Time → Memory K V → S → S
  unfolding items_context
  items yield now m s = (items_context background yield now m s).0

-- `Close`: the channel is closed once.
unfoldable pub close {ℓ} : {K V : Type ℓ} → Memory K V → Memory K V
close m = record m { closed = true }

-- The case that the `select` of `loop` takes.
pub data Selected : Type 0 where
  done : Selected
  tick : Time → Selected

-- `loop`, over the cases taken so far: `fn` is `cleanup` or `rebuild`. The result says whether the
-- goroutine still runs.
unfoldable pub loop {ℓ} :
    {K V : Type ℓ}
    → (Time → Memory K V → Memory K V)
    → List Selected
    → Memory K V
    → Memory K V × Bool
loop fn [] m = (m, true)
loop fn (done ∷ rest) m = (m, false)
loop fn (tick now ∷ rest) m = loop fn rest (fn now m)
