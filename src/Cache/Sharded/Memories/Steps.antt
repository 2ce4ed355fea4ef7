-- ===== src/Cache/Sharded/Memories/Steps.antt =====
-- cache/sharded.go over cache/memory.go: each backend keeps, of a store of all keys, the keys that are
-- routed to it.

use mathlib.Core.Path.{subst}
use mathlib.Core.Option.{some-injective}
use albstractions.Prelude.{
  ℕ, ◌%◌, ◌<◌, ◌≡◌, refl, sym, ap, ◌∙◌, ◌≢◌, inl, inr, none, some, arith, ◌==◌, if◌then◌else◌,
  Bool-cases, Comparable, nat_comparable, length, get_elem?,
}
use albstractions.Time.{Time}
use albstractions.Cache.Ttl.{MemoryConfig}
use albstractions.Cache.Memory.{Memory, fresh}
use albstractions.Cache.Memory.Interface.{Clocked}
use albstractions.Cache.Memory.Refinement.{Store, Agrees, Matches, perform-Matches, specify, write}
use albstractions.Cache.Memory.Refinement
use albstractions.Cache.Sharded.{Sharded, put_elem}
use albstractions.Cache.Sharded.Routing.{get_elem?-put_elem, length-put_elem}

module _ {K V : Type 0} ⦃k : Comparable K⦄ where
  -- The part of a store that is routed to backend `i` of `n`.
  abbrev pub part : (K → ℕ) → ℕ → ℕ → Store K V → Store K V
  part algorithm n i s j = if algorithm j % n == i then s j else none

  -- Each backend agrees with its part of the store.
  pub record Fits (now : Time) (cfg : MemoryConfig) (c : Sharded (Clocked K V) K) (s : Store K V)
      : Type 0 where
    pub full : 0 < length c.shards
    pub fits :
        (i : ℕ) (x : Clocked K V)
        → get_elem? c.shards i ≡ some x
        → Agrees now x.1 (part c.algorithm (length c.shards) i s) × (x.1.cfg ≡ cfg)

  pub Agrees-ext :
      {now : Time} {m : Memory K V} {s s' : Store K V}
      → ((j : K) → s j ≡ s' j)
      → Agrees now m s
      → Agrees now m s'
  Agrees-ext {now} same a = record {
    distinct = a.distinct;
    live = λ j. a.live j ∙ ap (fresh now) (same j);
  }

  put-Fits :
      (now : Time) (cfg : MemoryConfig) (c : Sharded (Clocked K V) K) (s s' : Store K V) (i : ℕ)
      (x : Clocked K V)
      → Fits now cfg c s
      → i < length c.shards
      → Agrees now x.1 (part c.algorithm (length c.shards) i s')
      → x.1.cfg ≡ cfg
      → ((j : K) → c.algorithm j % length c.shards ≢ i → s j ≡ s' j)
      → Fits now cfg (record c { shards = put_elem i x c.shards }) s'
  put-Fits now cfg c s s' i x f lt new same apart =
      let n = length c.shards in
      let kept = length-put_elem c.shards i x in
      record {
        full = omega (arith, kept, f.full);
        fits = λ h y found.
            let there : (if i == h then some x else get_elem? c.shards h) ≡ some y =
              sym (get_elem?-put_elem c.shards i h x lt) ∙ found in
            rw kept (elim (Bool-cases (i == h)) [
              | inl here ↦
                  let now_there : some x ≡ some y = rw here at there in
                  let index : i ≡ h = ground arith in
                  let x_is : x ≡ y = some-injective _ _ now_there in
                  subst (λ g. Agrees now y.1 (part c.algorithm n g s') × (y.1.cfg ≡ cfg)) index
                    (subst (λ z. Agrees now z.1 (part c.algorithm n i s') × (z.1.cfg ≡ cfg)) x_is
                      (new, same))
              | inr other ↦
                  let was_there : get_elem? c.shards h ≡ some y = rw other at there in
                  let (old, cfg_is) = f.fits h y was_there in
                  (Agrees-ext (λ j. ground (arith, apart j)) old, cfg_is)
            ]);
      }

  -- The calls of backend `i`.
  unfoldable pub Local : (K → ℕ) → ℕ → ℕ → Refinement.Call K V → Type 0
  Local algorithm n i (Refinement.gets key) = algorithm key % n ≡ i
  Local algorithm n i (Refinement.sets key val exp) = algorithm key % n ≡ i
  Local algorithm n i (Refinement.deletes key) = algorithm key % n ≡ i
  Local algorithm n i Refinement.cleans = Unit
  Local algorithm n i Refinement.rebuilds = Unit

  -- A call of backend `i` does the same to its part and to the whole.
  Alike : (K → ℕ) → ℕ → ℕ → MemoryConfig → Refinement.Call K V → Time → Store K V → Type 0
  Alike algorithm n i cfg call now s =
      ((specify cfg call now (part algorithm n i s)).1 ≡ (specify cfg call now s).1)
      × ((j : K)
          → (specify cfg call now (part algorithm n i s)).0 j
            ≡ part algorithm n i (specify cfg call now s).0 j)
      × ((j : K) → algorithm j % n ≢ i → s j ≡ (specify cfg call now s).0 j)

  specify-Alike :
      (algorithm : K → ℕ) (n i : ℕ) (cfg : MemoryConfig) (call : Refinement.Call K V) (now : Time)
      (s : Store K V)
      → Local algorithm n i call
      → Alike algorithm n i cfg call now s
  unfolding Alike Local specify write
  specify-Alike algorithm n i cfg (Refinement.gets key) now s here =
      (ground arith, (λ j. refl), λ j apart. refl)
  specify-Alike algorithm n i cfg (Refinement.sets key val exp) now s here =
      let own : part algorithm n i s key ≡ s key = ground arith in
      (
        rw own refl,
        (λ j. rw own (ground (arith, k.eqb_iff key j))),
        λ j apart. ground (arith, k.eqb_iff key j),
      )
  specify-Alike algorithm n i cfg (Refinement.deletes key) now s here =
      (refl, (λ j. ground (arith, k.eqb_iff key j)), λ j apart. ground (arith, k.eqb_iff key j))
  specify-Alike algorithm n i cfg Refinement.cleans now s here =
      (refl, (λ j. refl), λ j apart. refl)
  specify-Alike algorithm n i cfg Refinement.rebuilds now s here =
      (refl, (λ j. refl), λ j apart. refl)

  -- A call of backend `i`, on the backend and on the store.
  pub step-Fits :
      (call : Refinement.Call K V) (now : Time) (cfg : MemoryConfig) (c : Sharded (Clocked K V) K)
      (s : Store K V) (i : ℕ) (t : Time) (m : Memory K V)
      → Fits now cfg c s
      → i < length c.shards
      → get_elem? c.shards i ≡ some (t, m)
      → Local c.algorithm (length c.shards) i call
      → Fits now cfg
          (record c { shards = put_elem i (t, (Refinement.perform call now m).0) c.shards })
          (specify cfg call now s).0
        × ((Refinement.perform call now m).1 ≡ (specify cfg call now s).1)
  unfolding Alike
  step-Fits call now cfg c s i t m f lt found here =
      let (agrees, cfg_is) = f.fits i (t, m) found in
      let own = part c.algorithm (length c.shards) i s in
      let (after, reply, kept) : Matches call now m own = perform-Matches call now m own agrees in
      let (alike, stores, apart) =
        specify-Alike c.algorithm (length c.shards) i cfg call now s here in
      let after' : Agrees now (Refinement.perform call now m).0 (specify cfg call now own).0 =
        subst (λ g. Agrees now (Refinement.perform call now m).0 (specify g call now own).0) cfg_is
          after in
      (
        put-Fits now cfg c s (specify cfg call now s).0 i _ f lt (Agrees-ext stores after')
            (kept ∙ cfg_is) apart,
        reply ∙ ap (λ g. (specify g call now own).1) cfg_is ∙ alike,
      )
