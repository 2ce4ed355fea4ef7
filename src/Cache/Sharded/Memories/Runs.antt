-- ===== src/Cache/Sharded/Memories/Runs.antt =====
-- cache/sharded.go over cache/memory.go: a sharded cache of `Memory`s answers as one `Memory` does.
use native.Mathlib.Nat.{mod-lt}
use mathlib.Core.Path.{subst}
use mathlib.Core.Option.{some-injective}
use albstractions.Prelude.{
  ℕ, ◌%◌, ◌<◌, ◌≡◌, refl, sym, ap, ◌∙◌, inl, inr, none, some, List, [], ◌∷◌, arith, guarded,
  Option-cases, Comparable, nat_comparable, length, get_elem?, ℤ, pos, pos_part, ◌≤ℤ◌, ltb_ℤ,
  ltb_ℤ_false,
}
use albstractions.Time.{Time}
use albstractions.Cache.Ttl.{Expiry, MemoryConfig, MemoryOption}
use albstractions.Cache.Memory.{Memory, new_memory, cleanup, rebuild}
use albstractions.Cache.Memory.Interface.{Clocked, memory_cache}
use albstractions.Cache.Memory.Refinement.{
  nothing, Store, Agrees, Agrees-later, new_memory-Agrees, specify, spec_run, run-spec_run, Ordered,
}
use albstractions.Cache.Memory.Refinement
use albstractions.Cache.Sharded.{Sharded, put_elem, shard_index, at_shard}
use albstractions.Cache.Sharded
use albstractions.Cache.Sharded.Routing.{get_elem?-below}
use albstractions.Cache.Sharded.Memories.Steps.{part, Fits, Agrees-ext, Local, step-Fits}
use albstractions.Cache.Sharded.{copies, new_sharded}
use albstractions.Cache.Sharded.Memories.{
  Call, gets, sets, deletes, cleans, rebuilds, at_time, maintain, perform, run,
}
use albstractions.Cache.Sharded.Memories.Shards.{
  copies-same, get_elem?-lt, get_elem?-map, length-copies, length-map,
}

module _ {K V : Type 0} ⦃k : Comparable K⦄ where
  at_time-Fits :
      {now later : Time} {cfg : MemoryConfig} (c : Sharded (Clocked K V) K) (s : Store K V)
      → now ≤ℤ later
      → Fits now cfg c s
      → Fits later cfg (at_time later c) s
  at_time-Fits {now} {later} {cfg} c s h f =
      let same : length (at_time later c).shards ≡ length c.shards = length-map _ c.shards in
      record {
        full = omega (arith, same, f.full);
        fits = λ i y found.
            let there : elim (get_elem? c.shards i) [ none ↦ none | some x ↦ some (later, x.1) ]
                ≡ some y =
              sym (get_elem?-map _ c.shards i) ∙ found in
            rw same (elim (Option-cases (get_elem? c.shards i)) [
              | inl nowhere ↦ absurd (ground (arith, nowhere))
              | inr (x, at) ↦
                  let renewed : some (later, x.1) ≡ some y = rw at at there in
                  let (agrees, cfg_is) = f.fits i x at in
                  subst
                    (λ z.
                      Agrees later z.1 (part c.algorithm (length c.shards) i s) × (z.1.cfg ≡ cfg))
                    (some-injective _ _ renewed) (Agrees-later x.1 _ h agrees, cfg_is)
            ]);
      }

  abbrev Performs : Call K V → Refinement.Call K V → Type 0
  Performs call whole =
      (now : Time) (cfg : MemoryConfig) (c : Sharded (Clocked K V) K) (s : Store K V)
      → Fits now cfg (at_time now c) s
      → (c' : Sharded (Clocked K V) K) × Fits now cfg c' (specify cfg whole now s).0
        × (perform call now c ≡ some ((specify cfg whole now s).1, c'))

  -- The backend of a key at an instant.
  located :
      (key : K) (now : Time) {cfg : MemoryConfig} (c : Sharded (Clocked K V) K) {s : Store K V}
      → Fits now cfg (at_time now c) s
      → (m : Memory K V) × (get_elem?
            (at_time now c).shards
            (shard_index memory_cache (at_time now c) key)
          ≡ some (now, m))
        × (shard_index memory_cache (at_time now c) key < length (at_time now c).shards)
  unfolding shard_index
  located key now c f =
      let d = at_time now c in
      let i = d.algorithm key % length d.shards in
      let lt : i < length d.shards = mod-lt (d.algorithm key) f.full in
      let same : length d.shards ≡ length c.shards = length-map _ c.shards in
      let (x, found) = get_elem?-below c.shards i (omega (arith, lt, same)) in
      (x.1, get_elem?-map _ c.shards i ∙ rw found refl, lt)

  gets-Performs : (key : K) → Performs (gets key) (Refinement.gets key)
  unfolding perform Sharded.get at_shard Refinement.perform Local
  gets-Performs key now cfg c s f =
      let (m, found, lt) = located key now c f in
      let i = shard_index memory_cache (at_time now c) key in
      let (after, reply) =
        step-Fits (Refinement.gets key) now cfg (at_time now c) s i now m f lt found
          (unfold shard_index in refl) in
      let m' = (Refinement.perform (Refinement.gets key) now m).0 in
      let c' = record (at_time now c) { shards = put_elem i (now, m') (at_time now c).shards } in
      (c', after, rw (found, at_shard, Sharded.get) (ap (λ r. some (r, c')) reply))

  sets-Performs :
      (key : K) (val : V) (exp : Expiry) → Performs (sets key val exp) (Refinement.sets key val exp)
  unfolding perform Sharded.set at_shard Refinement.perform Local
  sets-Performs key val exp now cfg c s f =
      let (m, found, lt) = located key now c f in
      let i = shard_index memory_cache (at_time now c) key in
      let (after, reply) =
        step-Fits (Refinement.sets key val exp) now cfg (at_time now c) s i now m f lt found
          (unfold shard_index in refl) in
      let m' = (Refinement.perform (Refinement.sets key val exp) now m).0 in
      let c' = record (at_time now c) { shards = put_elem i (now, m') (at_time now c).shards } in
      (c', after, rw (found, at_shard, Sharded.set) (ap (λ r. some (r, c')) reply))

  deletes-Performs : (key : K) → Performs (deletes key) (Refinement.deletes key)
  unfolding perform Sharded.delete at_shard Refinement.perform Local
  deletes-Performs key now cfg c s f =
      let (m, found, lt) = located key now c f in
      let i = shard_index memory_cache (at_time now c) key in
      let (after, reply) =
        step-Fits (Refinement.deletes key) now cfg (at_time now c) s i now m f lt found
          (unfold shard_index in refl) in
      let m' = (Refinement.perform (Refinement.deletes key) now m).0 in
      let c' = record (at_time now c) { shards = put_elem i (now, m') (at_time now c).shards } in
      (c', after, rw (found, at_shard, Sharded.delete) (ap (λ r. some (r, c')) reply))

  cleans-Performs : (i : ℕ) → Performs (cleans i) Refinement.cleans
  unfolding perform Refinement.perform Local
  cleans-Performs i now cfg c s f = elim (Option-cases (get_elem? (at_time now c).shards i)) [
    | inl nowhere ↦ (
      (at_time now c),
      unfold specify in f,
      unfold specify in ap (λ d. some (nothing, d)) (rw (nowhere, maintain) refl),
    )
    | inr ((t, m), found) ↦
        let (after, reply) =
          step-Fits Refinement.cleans now cfg (at_time now c) s i t m f (get_elem?-lt _ i found)
            found tt in
        (
          record (at_time now c) { shards = put_elem i (t, cleanup now m) (at_time now c).shards },
          after,
          unfold specify in ap (λ d. some (nothing, d)) (rw (found, maintain) refl),
        )
  ]

  rebuilds-Performs : (i : ℕ) → Performs (rebuilds i) Refinement.rebuilds
  unfolding perform Refinement.perform Local
  rebuilds-Performs i now cfg c s f = elim (Option-cases (get_elem? (at_time now c).shards i)) [
    | inl nowhere ↦ (
      (at_time now c),
      unfold specify in f,
      unfold specify in ap (λ d. some (nothing, d)) (rw (nowhere, maintain) refl),
    )
    | inr ((t, m), found) ↦
        let (after, reply) =
          step-Fits Refinement.rebuilds now cfg (at_time now c) s i t m f (get_elem?-lt _ i found)
            found tt in
        (
          record (at_time now c) { shards = put_elem i (t, rebuild now m) (at_time now c).shards },
          after,
          unfold specify in ap (λ d. some (nothing, d)) (rw (found, maintain) refl),
        )
  ]

  -- The call of one cache.
  abbrev pub whole : Call K V → Refinement.Call K V
  whole (gets key) = Refinement.gets key
  whole (sets key val exp) = Refinement.sets key val exp
  whole (deletes key) = Refinement.deletes key
  whole (cleans i) = Refinement.cleans
  whole (rebuilds i) = Refinement.rebuilds

  abbrev pub whole_calls : List (Time × Call K V) → List (Time × Refinement.Call K V)
  whole_calls [] = []
  whole_calls ((now, call) ∷ calls) = (now, whole call) ∷ whole_calls calls

  perform-Performs : (call : Call K V) → Performs call (whole call)
  perform-Performs (gets key) = gets-Performs key
  perform-Performs (sets key val exp) = sets-Performs key val exp
  perform-Performs (deletes key) = deletes-Performs key
  perform-Performs (cleans i) = cleans-Performs i
  perform-Performs (rebuilds i) = rebuilds-Performs i

  run-Fits :
      (calls : List (Time × Call K V)) (now : Time) (cfg : MemoryConfig)
      (c : Sharded (Clocked K V) K) (s : Store K V)
      → Ordered now (whole_calls calls)
      → Fits now cfg c s
      → run calls c ≡ some (spec_run cfg (whole_calls calls) s)
  unfolding run spec_run
  run-Fits [] now cfg c s o f = refl
  run-Fits ((t, call) ∷ calls) now cfg c s o f =
      let (c', after, performed) = perform-Performs call t cfg c s (at_time-Fits c s o.0 f) in
      let rest = run-Fits calls t cfg c' (specify cfg (whole call) t s).0 o.1 after in
      rw (performed, run) (rw rest refl)

  new_sharded-Fits :
      (opts : List MemoryOption) (size : ℤ) (algorithm : K → ℕ) (now : Time) {m : Memory K V}
      {c : Sharded (Clocked K V) K}
      → new_memory opts ≡ some m
      → new_sharded size (some algorithm) (some (now, m)) ≡ some c
      → Fits now m.cfg c (λ _. none)
  unfolding new_sharded
  new_sharded-Fits opts size algorithm now {m} made sharded =
      let (large, c_is) = guarded (ltb_ℤ size (pos 1)) _ sharded in
      let all : List (Clocked K V) = copies (pos_part size) (now, m) in
      subst (λ d. Fits now m.cfg d (λ _. none)) c_is
        (record {
          full = omega (
            arith,
            length-copies {A = Clocked K V} (pos_part size) (now, m),
            ltb_ℤ_false size (pos 1) large,
          );
          fits = λ i x found.
              let same = copies-same (pos_part size) (now, m) i found in
              subst
                (λ y.
                  Agrees now y.1 (part algorithm (length all) i (λ _. none)) × (y.1.cfg ≡ m.cfg))
                (sym same) (Agrees-ext (λ j. ground arith) (new_memory-Agrees opts now made), refl);
        })

  -- A sharded cache of at least one new `Memory` answers every sequence of reads, sets and deletes, at
  -- instants that do not go back and with the maintenance of any backend in between, without a panic
  -- and as one `Memory` of the same options does.
  pub run-one :
      (opts : List MemoryOption) (size : ℤ) (algorithm : K → ℕ) (calls : List (Time × Call K V))
      (start : Time) {m : Memory K V} {c : Sharded (Clocked K V) K}
      → new_memory opts ≡ some m
      → new_sharded size (some algorithm) (some (start, m)) ≡ some c
      → Ordered start (whole_calls calls)
      → run calls c ≡ some (Refinement.run (whole_calls calls) m)
  run-one opts size algorithm calls start {m} {c} made sharded o =
      run-Fits calls start m.cfg c (λ _. none) o
        (new_sharded-Fits opts size algorithm start made sharded)
      ∙ ap some (sym (run-spec_run opts (whole_calls calls) start made o))
