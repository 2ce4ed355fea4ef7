-- ===== src/Cache/Sharded/Memories.antt =====
-- cache/sharded.go over cache/memory.go: a sharded cache whose backends are `Memory`s.
pub mod Steps
pub mod Shards
pub mod Runs
use albstractions.Prelude.{
  ℕ, Option, none, some, List, [], ◌∷◌, map, Comparable, nat_comparable, get_elem?,
}
use albstractions.Time.{Time}
use albstractions.Cache.Ttl.{Expiry}
use albstractions.Cache.Memory.{Memory, cleanup, rebuild}
use albstractions.Cache.Memory.Interface.{Clocked, memory_cache}
use albstractions.Cache.Memory.Refinement.{Reply, got, stored, nothing}
use albstractions.Cache.Sharded.{Sharded, put_elem, get, set, delete}

-- A call, or the maintenance of one backend.
pub data Call (K V : Type 0) : Type 0 where
  gets : K → Call K V
  sets : K → V → Expiry → Call K V
  deletes : K → Call K V
  cleans : ℕ → Call K V
  rebuilds : ℕ → Call K V

abbrev pub replying : {A B C : Type 0} → (A → B) → Option (A × C) → Option (B × C)
replying f none = none
replying f (some (a, c)) = some (f a, c)

-- The clock shows `now` to every backend.
abbrev pub at_time : {K V : Type 0} → Time → Sharded (Clocked K V) K → Sharded (Clocked K V) K
at_time now c = record c { shards = map (λ s. (now, s.1)) c.shards }

module _ {K V : Type 0} ⦃k : Comparable K⦄ where
  -- The maintenance of backend `i`, if there is one.
  abbrev pub maintain :
      (Memory K V → Memory K V) → ℕ → Sharded (Clocked K V) K → Sharded (Clocked K V) K
  maintain f i c = elim (get_elem? c.shards i) [
    | none ↦ c
    | some s ↦ record c { shards = put_elem i (s.0, f s.1) c.shards }
  ]

  unfoldable pub perform :
      Call K V → Time → Sharded (Clocked K V) K → Option (Reply V × Sharded (Clocked K V) K)
  perform (gets key) now c = replying got (get memory_cache key (at_time now c))
  perform (sets key val exp) now c = replying stored (set memory_cache key val exp (at_time now c))
  perform (deletes key) now c = replying (λ u. nothing) (delete memory_cache key (at_time now c))
  perform (cleans i) now c = some (nothing, maintain (cleanup now) i (at_time now c))
  perform (rebuilds i) now c = some (nothing, maintain (rebuild now) i (at_time now c))

  -- The replies; `none` is a panic of one of the calls.
  unfoldable pub run : List (Time × Call K V) → Sharded (Clocked K V) K → Option (List (Reply V))
  run [] c = some []
  run ((now, call) ∷ calls) c = elim (perform call now c) [
    | none ↦ none
    | some (reply, c') ↦ elim (run calls c') [ none ↦ none | some replies ↦ some (reply ∷ replies) ]
  ]
