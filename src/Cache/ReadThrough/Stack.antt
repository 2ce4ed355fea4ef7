-- ===== src/Cache/ReadThrough/Stack.antt =====
-- cache/readthrough.go over cache/memory.go: a read-through layer whose front is a `Memory`, while time
-- passes and the front's maintenance runs.
use mathlib.Core.Path.{subst}
use albstractions.Prelude.{
  ℕ, ◌≡◌, ◌∙◌, Bool, Option, none, some, List, [], ◌∷◌, arith, Comparable, nat_comparable, lookup,
  Distinct, All, pos, ◌≤ℤ◌, +ℤ_parts,
}
use albstractions.Time.{Time, add}
use albstractions.Errors.{Sentinel, Context}
use albstractions.Cache.Ttl.{MemoryOption, default}
use albstractions.Cache.Interface.{Answer, Tells, Within}
use albstractions.Cache.Memory.{Entry, Memory, new_memory, fresh, cleanup, rebuild}
use albstractions.Cache.Memory.Interface.{
  Clocked, memory_cache, serves, memory-IsCache, get_context, set_context, delete_context,
}
use albstractions.Cache.Memory.Lookups.{
  lookup-cleanup, lookup-rebuild, cleanup-Distinct, rebuild-Distinct, read-Distinct, set-Distinct,
  delete-Distinct,
}
use albstractions.Cache.Memory.Liveness.{value_of, fresh_twice, fresh_later}
use albstractions.Cache.Memory.Refinement.{new_memory-empty}
use albstractions.Cache.ReadThrough.{ReadThrough, Loader}
use albstractions.Cache.ReadThrough
use albstractions.Cache.ReadThrough.Reads.{IsLoader, get_context-keeps, get_context-Tells}

-- What happens to the stack; `passes` is time in nanoseconds.
pub data Event (K : Type 0) : Type 0 where
  reads : Context → K → Event K
  deletes : Context → K → Event K
  passes : ℕ → Event K
  cleans : Event K
  rebuilds : Event K

module _ {T K V : Type 0} ⦃k : Comparable K⦄ (r : ReadThrough (Clocked K V) T K V) where
  abbrev pub after_event : Event K → T × Clocked K V → T × Clocked K V
  after_event (reads ctx key) state = (ReadThrough.get_context r ctx key state).1
  after_event (deletes ctx key) state = (ReadThrough.delete_context r ctx key state).1
  after_event (passes d) (t, (now, m)) = (t, (add now (pos d), m))
  after_event cleans (t, (now, m)) = (t, (now, cleanup now m))
  after_event rebuilds (t, (now, m)) = (t, (now, rebuild now m))

  -- The key and the answer of a read.
  abbrev pub reply : Event K → T × Clocked K V → Option (K × Answer V)
  reply (reads ctx key) state = some (key, (ReadThrough.get_context r ctx key state).0)
  reply (deletes ctx key) state = none
  reply (passes d) state = none
  reply cleans state = none
  reply rebuilds state = none

  abbrev pub replies : List (Event K) → T × Clocked K V → List (Option (K × Answer V))
  replies [] state = []
  replies (e ∷ events) state = reply e state ∷ replies events (after_event e state)

abbrev pub Told : {K V : Type 0} → (K → Option V) → Option (K × Answer V) → Type 0
Told held none = Unit
Told held (some (key, answer)) = Tells (held key) answer

module _ {V : Type 0} where
  value_of-later :
      (now later : Time) (o : Option (Entry V)) (v : V)
      → now ≤ℤ later
      → value_of (fresh later o) ≡ some v
      → value_of (fresh now o) ≡ some v
  unfolding fresh
  value_of-later now later o v h e = ground (arith, fresh_later now later o h)

abbrev pub over_memory :
    {T K V : Type 0}
    → ⦃k : Comparable K⦄ → Loader T K V
    → List Sentinel
    → Bool
    → ReadThrough (Clocked K V) T K V
over_memory load miss_errs shares = record {
  front = memory_cache;
  load = load;
  miss_errs = miss_errs;
  shares = shares;
}

module _ {T K V : Type 0} ⦃k : Comparable K⦄ (load : Loader T K V) (miss_errs : List Sentinel)
    (shares : Bool) {holds : K → T → Option V} (held : K → Option V)
    (l : IsLoader miss_errs load holds) where
  -- What stays true of the stack besides `Within`: the source holds the same, and the map is one.
  abbrev Stays : T → Clocked K V → Type 0
  Stays t s = ((key : K) → holds key t ≡ held key) × Distinct s.1.entries

  reads-Stays :
      (ctx : Context) (key : K) (t : T) (s : Clocked K V)
      → Stays t s
      → Stays
          (ReadThrough.get_context (over_memory load miss_errs shares) ctx key (t, s)).1.0
          (ReadThrough.get_context (over_memory load miss_errs shares) ctx key (t, s)).1.1
  unfolding get_context set_context
  reads-Stays ctx key t s d =
      get_context-keeps (over_memory load miss_errs shares) Stays
        (λ ctx key t (now, m) h. (h.0, read-Distinct key now m h.1))
        (λ ctx key t s h. ((λ other. l.keeps ctx key other t ∙ h.0 other), h.1))
        (λ ctx key val t (now, m) h. (h.0, set-Distinct key val default now m h.1)) ctx key t s d

  abbrev Holds : T × Clocked K V → Type 0
  Holds (t, s) = Within serves holds t s × Stays t s

  after_event-Holds :
      (e : Event K) (state : T × Clocked K V)
      → Holds state
      → Holds (after_event (over_memory load miss_errs shares) e state)
  after_event-Holds (reads ctx key) (t, s) (w, stays) = (
    (get_context-Tells (over_memory load miss_errs shares) memory-IsCache l ctx key t s w).1,
    reads-Stays ctx key t s stays,
  )
  after_event-Holds (deletes ctx key) (t, (now, m)) (w, (source, d)) =
      unfold ReadThrough.delete_context in
      unfold delete_context in
      (
        (λ other v h. w other v (memory-IsCache.delete_keeps ctx key other v (now, m) h)),
        (source, delete-Distinct key m d),
      )
  after_event-Holds (passes n) (t, (now, m)) (w, stays) = (
    (λ other v h. w other v (
        value_of-later now (add now (pos n)) (lookup other m.entries) v
          (omega (arith, +ℤ_parts now (pos n))) h)),
    stays,
  )
  after_event-Holds cleans (t, (now, m)) (w, (source, d)) = (
    (λ other v h.
        w other v
          (ground (arith, lookup-cleanup other now m d, fresh_twice now (lookup other m.entries)))),
    (source, cleanup-Distinct now m d),
  )
  after_event-Holds rebuilds (t, (now, m)) (w, (source, d)) = (
    (λ other v h.
        w other v
          (ground (arith, lookup-rebuild other now m d, fresh_twice now (lookup other m.entries)))),
    (source, rebuild-Distinct now m),
  )

  reply-Told :
      (e : Event K) (state : T × Clocked K V)
      → Holds state
      → Told held (reply (over_memory load miss_errs shares) e state)
  reply-Told (reads ctx key) (t, s) (w, (source, d)) =
      subst
        (λ o.
          Tells o (ReadThrough.get_context (over_memory load miss_errs shares) ctx key (t, s)).0)
        (source key)
        (get_context-Tells (over_memory load miss_errs shares) memory-IsCache l ctx key t s w).0
  reply-Told (deletes ctx key) state h = tt
  reply-Told (passes n) state h = tt
  reply-Told cleans state h = tt
  reply-Told rebuilds state h = tt

  replies-Told :
      (events : List (Event K)) (state : T × Clocked K V)
      → Holds state
      → All (Told held) (replies (over_memory load miss_errs shares) events state)
  replies-Told [] state h = tt
  replies-Told (e ∷ events) state h =
      (reply-Told e state h, replies-Told events _ (after_event-Holds e state h))

  -- A read-through layer over a new `Memory`, and over a loader of a source that holds the same
  -- throughout, tells what the source holds in every read of any sequence of reads, deletes,
  -- maintenance and time: a value is the one that the source holds, and nothing means that the
  -- source has nothing. The loader keeps the promises of `IsLoader`.
  pub stack-Told :
      (opts : List MemoryOption) (events : List (Event K)) (now : Time) (t : T) {m : Memory K V}
      → new_memory opts ≡ some m
      → ((key : K) → holds key t ≡ held key)
      → All (Told held) (replies (over_memory load miss_errs shares) events (t, (now, m)))
  stack-Told opts events now t {m} made source =
      let empty = new_memory-empty opts made in
      replies-Told events (t, (now, m))
        ((λ key v h. absurd (unfold lookup fresh in ground (arith, empty))), (source, rw empty tt))
