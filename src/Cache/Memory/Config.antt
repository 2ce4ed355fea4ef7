-- ===== src/Cache/Memory/Config.antt =====
-- cache/memory.go, cache/options.go, cache/ttl.go: the configurations that `NewMemory` accepts, and
-- what a read finds after a set under one.
use mathlib.Core.Option.{some-injective}
use mathlib.Core.Path.{subst}
use albstractions.Prelude.{
  ◌≡◌, inl, inr, Option, none, some, List, [], ◌∷◌, arith, if◌then◌else◌, guarded, Option-cases,
  Comparable, nat_comparable, All, pos, ◌≤ℤ◌,
}
use albstractions.Time.{Time, Duration, max_duration}
use albstractions.Cache.Ttl.{
  Expiry, MemoryConfig, MemoryOption, zero_config, expired, with_default_ttl, with_min_ttl,
  with_max_ttl, with_cleanup_interval, with_rebuild_interval,
}
use albstractions.Cache.Ttl.Bounds.{IsValid}
use albstractions.Cache.Memory.{Memory, configure, new_memory, read, set}
use albstractions.Cache.Memory.Lookups.{lookup-set}

-- The options that the package offers; only they make a `MemoryOption`.
pub data Setting : Type 0 where
  default_ttl min_ttl max_ttl cleanup_interval rebuild_interval : Duration → Setting

abbrev pub duration : Setting → Duration
duration (default_ttl d) = d
duration (min_ttl d) = d
duration (max_ttl d) = d
duration (cleanup_interval d) = d
duration (rebuild_interval d) = d

unfoldable pub option : Setting → Option MemoryOption
option (default_ttl d) = with_default_ttl d
option (min_ttl d) = with_min_ttl d
option (max_ttl d) = with_max_ttl d
option (cleanup_interval d) = with_cleanup_interval d
option (rebuild_interval d) = with_rebuild_interval d

-- The arguments of a call of `NewMemory`, left to right; `none` if one of them panics.
unfoldable pub options : List Setting → Option (List MemoryOption)
options [] = some []
options (s ∷ ss) = elim (option s) [
  | none ↦ none
  | some o ↦ elim (options ss) [ none ↦ none | some os ↦ some (o ∷ os) ]
]

-- Every field is an int64 that is not negative.
record IsSane (c : MemoryConfig) : Type 0 where
  default_sane : (pos 0 ≤ℤ c.default_ttl) × (c.default_ttl ≤ℤ max_duration)
  min_sane : (pos 0 ≤ℤ c.min_ttl) × (c.min_ttl ≤ℤ max_duration)
  max_sane : (pos 0 ≤ℤ c.max_ttl) × (c.max_ttl ≤ℤ max_duration)

option-IsSane :
    (s : Setting) (c : MemoryConfig) {o : MemoryOption}
    → option s ≡ some o
    → duration s ≤ℤ max_duration
    → IsSane c
    → IsSane (o c)
unfolding option with_default_ttl with_min_ttl with_max_ttl with_cleanup_interval
    with_rebuild_interval
option-IsSane (default_ttl d) c e h v =
    let (sign, same) = guarded _ _ e in subst (λ o. IsSane (o c)) same (ground (arith, sign, h, v))
option-IsSane (min_ttl d) c e h v =
    let (sign, same) = guarded _ _ e in subst (λ o. IsSane (o c)) same (ground (arith, sign, h, v))
option-IsSane (max_ttl d) c e h v =
    let (sign, same) = guarded _ _ e in subst (λ o. IsSane (o c)) same (ground (arith, sign, h, v))
option-IsSane (cleanup_interval d) c e h v =
    subst (λ o. IsSane (o c)) (guarded _ _ e).1 (ground (arith, v))
option-IsSane (rebuild_interval d) c e h v =
    subst (λ o. IsSane (o c)) (guarded _ _ e).1 (ground (arith, v))

configure-IsSane :
    (ss : List Setting) (c : MemoryConfig) {os : List MemoryOption}
    → options ss ≡ some os
    → All (λ s. duration s ≤ℤ max_duration) ss
    → IsSane c
    → IsSane (configure os c)
unfolding options configure
configure-IsSane [] c e fit v = subst (λ os. IsSane (configure os c)) (some-injective _ _ e) v
configure-IsSane (s ∷ ss) c e fit v = elim (Option-cases (option s)) [
  | inl panic ↦ absurd (ground arith)
  | inr (o, made) ↦ elim (Option-cases (options ss)) [
    | inl panic ↦ absurd (ground arith)
    | inr (os, rest) ↦
        subst (λ os. IsSane (configure os c)) (some-injective _ _ (rw (made, rest, options) at e))
          (configure-IsSane ss (o c) rest fit.1 (option-IsSane s c made fit.0 v))
  ]
]

-- Whatever options the package made, over int64 durations, a cache that the constructor returns
-- has a configuration under which expiries are bounded.
new_memory-IsValid {ℓ} :
    {K V : Type ℓ} (ss : List Setting) {os : List MemoryOption} {m : Memory K V}
    → options ss ≡ some os
    → All (λ s. duration s ≤ℤ max_duration) ss
    → new_memory os ≡ some m
    → IsValid m.cfg
unfolding new_memory
new_memory-IsValid ss {os} made fit e =
    let v = configure-IsSane ss zero_config made fit (ground arith) in ground (arith, v)

module _ {ℓ} {K V : Type ℓ} ⦃k : Comparable K⦄ where
  -- A read after a set finds the value until the expiry that the set returned, and then a miss;
  -- under another key it finds what it would have found.
  read-set :
      (j key : K) (val : V) (exp : Expiry) (now later : Time) (m : Memory K V)
      → (read j later (set key val exp now m).0).1 ≡ (
          if k.eqb key j
          then if expired (set key val exp now m).1 later then none else some val
          else (read j later m).1)
  unfolding read
  read-set j key val exp now later m = ground (arith, lookup-set j key val exp now m)
