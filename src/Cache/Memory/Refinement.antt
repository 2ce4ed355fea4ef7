-- ===== src/Cache/Memory/Refinement.antt =====
-- cache/memory.go: a `Memory` against a store that never removes an expired entry.
use albstractions.Prelude.{
  ◌≡◌, refl, ap, Option, none, some, List, [], ◌∷◌, arith, if◌then◌else◌, Comparable,
  nat_comparable, lookup, Distinct, ◌≤ℤ◌,
}
use albstractions.Time.{Time}
use albstractions.Cache.Ttl.{Expiry, MemoryConfig, MemoryOption, resolve_expiry}
use albstractions.Cache.Memory.{
  Entry, Memory, new_memory, fresh, evict, read, get, set, delete, cleanup, rebuild,
  existing_expiry, found,
}
use albstractions.Cache.Memory.Lookups.{
  lookup-cleanup, lookup-rebuild, lookup-evict, lookup-read, lookup-set, lookup-delete,
  cleanup-Distinct, rebuild-Distinct, read-Distinct, set-Distinct, delete-Distinct,
}
use albstractions.Cache.Memory.Liveness.{
  fresh_later, fresh_mono, fresh_twice, resolve_expiry-fresh, value_of,
}

-- What a user of the cache or its maintenance does, and what is seen of it.
pub data Call {ℓ} (K V : Type ℓ) : Type ℓ where
  gets : K → Call K V
  sets : K → V → Expiry → Call K V
  deletes : K → Call K V
  cleans : Call K V
  rebuilds : Call K V

pub data Reply {ℓ} (V : Type ℓ) : Type ℓ where
  got : Option V → Reply V
  stored : Time → Reply V
  nothing : Reply V

abbrev pub Store {ℓ} : Type ℓ → Type ℓ → Type ℓ
Store K V = K → Option (Entry V)

module _ {ℓ} {K V : Type ℓ} where
  -- The calls happen at instants that do not go back.
  abbrev pub Ordered : Time → List (Time × Call K V) → Type 0
  Ordered now [] = Unit
  Ordered now ((t, c) ∷ calls) = (now ≤ℤ t) × Ordered t calls

module _ {ℓ} {K V : Type ℓ} ⦃k : Comparable K⦄ where
  unfoldable pub perform : Call K V → Time → Memory K V → Memory K V × Reply V
  perform (gets key) now m = let (m', v) = get key now m in (m', got v)
  perform (sets key val exp) now m = let (m', t) = set key val exp now m in (m', stored t)
  perform (deletes key) now m = (delete key m, nothing)
  perform cleans now m = (cleanup now m, nothing)
  perform rebuilds now m = (rebuild now m, nothing)

  unfoldable pub run : List (Time × Call K V) → Memory K V → List (Reply V)
  run [] m = []
  run ((now, c) ∷ calls) m = let (m', reply) = perform c now m in reply ∷ run calls m'

  -- The store: a set and a delete at one key, and nothing else changes it.
  unfoldable pub write : K → Option (Entry V) → Store K V → Store K V
  write key o s j = if k.eqb key j then o else s j

  unfoldable pub specify : MemoryConfig → Call K V → Time → Store K V → Store K V × Reply V
  specify c (gets key) now s = (s, got (value_of (fresh now (s key))))
  specify c (sets key val exp) now s =
      let t = resolve_expiry c exp now (existing_expiry (s key)) (found now (s key)) in
      (write key (some (record { value = val; expires_at = t })) s, stored t)
  specify c (deletes key) now s = (write key none s, nothing)
  specify c cleans now s = (s, nothing)
  specify c rebuilds now s = (s, nothing)

  unfoldable pub spec_run : MemoryConfig → List (Time × Call K V) → Store K V → List (Reply V)
  spec_run c [] s = []
  spec_run c ((now, call) ∷ calls) s =
      let (s', reply) = specify c call now s in reply ∷ spec_run c calls s'

  -- The same is live in both.
  pub record Agrees (now : Time) (m : Memory K V) (s : Store K V) : Type ℓ where
    pub distinct : Distinct m.entries
    pub live : (j : K) → fresh now (lookup j m.entries) ≡ fresh now (s j)

  pub read-found :
      (key : K) (now : Time) (m : Memory K V)
      → (read key now m).1 ≡ value_of (fresh now (lookup key m.entries))
  unfolding read fresh
  read-found key now m = ground arith

  read-cfg : (key : K) (now : Time) (m : Memory K V) → (read key now m).0.cfg ≡ m.cfg
  unfolding read evict
  read-cfg key now m = ground arith

  -- What one call leaves, and what it answers.
  abbrev pub Matches : Call K V → Time → Memory K V → Store K V → Type ℓ
  Matches c now m s =
      Agrees now (perform c now m).0 (specify m.cfg c now s).0
      × ((perform c now m).1 ≡ (specify m.cfg c now s).1)
      × ((perform c now m).0.cfg ≡ m.cfg)

  pub perform-Matches :
      (c : Call K V) (now : Time) (m : Memory K V) (s : Store K V)
      → Agrees now m s
      → Matches c now m s
  unfolding perform specify
  perform-Matches (gets key) now m s a =
      unfold get in
      (
        record {
          distinct = read-Distinct key now m a.distinct;
          live = λ j.
              ground
                (arith, lookup-read j key now m, a.live j, fresh_twice now (lookup j m.entries));
        },
        ground (arith, read-found key now m, a.live key),
        read-cfg key now m,
      )
  perform-Matches (sets key val exp) now m s a =
      let same : (set key val exp now m).1
          ≡ resolve_expiry m.cfg exp now (existing_expiry (s key)) (found now (s key)) =
        unfold set in
        resolve_expiry-fresh m.cfg exp now (lookup key m.entries) (s key) (a.live key) in
      (
        record {
          distinct = set-Distinct key val exp now m a.distinct;
          live =
              λ j. unfold write in ground (arith, lookup-set j key val exp now m, a.live j, same);
        },
        ap stored same,
        unfold set in refl,
      )
  perform-Matches (deletes key) now m s a = (
    record {
      distinct = delete-Distinct key m a.distinct;
      live = λ j. unfold write in ground (arith, lookup-delete j key m, a.live j);
    },
    refl,
    unfold delete in refl,
  )
  perform-Matches cleans now m s a = (
    record {
      distinct = cleanup-Distinct now m a.distinct;
      live = λ j. ground (
        arith,
        lookup-cleanup j now m a.distinct,
        a.live j,
        fresh_twice now (lookup j m.entries),
      );
    },
    refl,
    unfold cleanup in refl,
  )
  perform-Matches rebuilds now m s a = (
    record {
      distinct = rebuild-Distinct now m;
      live = λ j. ground (
        arith,
        lookup-rebuild j now m a.distinct,
        a.live j,
        fresh_twice now (lookup j m.entries),
      );
    },
    refl,
    unfold rebuild in refl,
  )

  pub Agrees-later :
      {now later : Time} (m : Memory K V) (s : Store K V)
      → now ≤ℤ later
      → Agrees now m s
      → Agrees later m s
  Agrees-later {now} {later} m s h a = record {
    distinct = a.distinct;
    live = λ j. fresh_mono now later (lookup j m.entries) (s j) h (a.live j);
  }

  run-Agrees :
      (calls : List (Time × Call K V)) {now : Time} (m : Memory K V) (s : Store K V)
      → Ordered now calls
      → Agrees now m s
      → run calls m ≡ spec_run m.cfg calls s
  unfolding run spec_run
  run-Agrees [] m s o a = refl
  run-Agrees ((t, c) ∷ calls) m s o a =
      let (agrees, replies, cfg) = perform-Matches c t m s (Agrees-later m s o.0 a) in
      let rest = run-Agrees calls (perform c t m).0 (specify m.cfg c t s).0 o.1 agrees in
      ground (arith, rest, replies, cfg)

  pub new_memory-empty :
      (opts : List MemoryOption) {m : Memory K V} → new_memory opts ≡ some m → m.entries ≡ []
  unfolding new_memory
  new_memory-empty opts made = ground arith

  pub new_memory-Agrees :
      (opts : List MemoryOption) (now : Time) {m : Memory K V}
      → new_memory opts ≡ some m
      → Agrees now m (λ _. none)
  unfolding new_memory lookup
  new_memory-Agrees opts now made =
      let empty = new_memory-empty opts made in
      record { distinct = rw empty tt; live = λ j. rw empty }

  -- A cache from the constructor answers every sequence of calls, at instants that do not go back,
  -- as the store does that never removes anything but what is deleted: reads, the janitor and the
  -- rebuild remove only what nobody can see.
  pub run-spec_run :
      (opts : List MemoryOption) (calls : List (Time × Call K V)) (start : Time) {m : Memory K V}
      → new_memory opts ≡ some m
      → Ordered start calls
      → run calls m ≡ spec_run m.cfg calls (λ _. none)
  run-spec_run opts calls start {m} made o =
      run-Agrees calls m (λ _. none) o (new_memory-Agrees opts start made)

  -- A reader that found an entry expired removes, after whatever others did to the cache in
  -- between, nothing that is live at the instant of its read or after.
  evict-fresh :
      (j key : K) (stamp later : Time) (m : Memory K V)
      → stamp ≤ℤ later
      → fresh later (lookup j (evict key stamp m).entries) ≡ fresh later (lookup j m.entries)
  evict-fresh j key stamp later m h =
      ground (arith, lookup-evict j key stamp m, fresh_later stamp later (lookup j m.entries) h)
