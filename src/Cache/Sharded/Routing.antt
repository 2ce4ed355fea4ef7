-- ===== src/Cache/Sharded/Routing.antt =====
-- cache/sharded.go: a sharded cache keeps the promise of its backends.
use native.Mathlib.Nat.{mod-lt}
use albstractions.Prelude.{
  Option, none, ℕ, zero, suc, ◌%◌, ◌<◌, ◌≡◌, refl, sym, ap, ◌∙◌, ◌≢◌, ◌⊎◌, inl, inr, true, some,
  List, [], ◌∷◌, arith, ◌==◌, if◌then◌else◌, Bool-cases, nat_comparable, length, get_elem?,
}
use albstractions.Time.{Time}
use albstractions.Cache.Ttl.{Expiry}
use albstractions.Cache.Interface.{Cache}
use albstractions.Cache.Sharded.{Sharded, put_elem, shard_index, at_shard, set}

-- What a backend promises of a set: its value is served, and other keys are as they were.
abbrev SetsOne : {S K V : Type 0} → Cache S K V → (K → S → Option V) → Type 0
SetsOne {S} {K} {V} backend view =
    (key other : K) (val : V) (exp : Expiry) (s : S)
    → ((other ≡ key) × (view other (backend.set key val exp s).1 ≡ some val))
      ⊎ ((other ≢ key) × (view other (backend.set key val exp s).1 ≡ view other s))

pub get_elem?-below :
    {S : Type 0} (xs : List S) (i : ℕ) → i < length xs → (s : S) × (get_elem? xs i ≡ some s)
get_elem?-below [] i h = absurd (omega arith)
get_elem?-below (x ∷ xs) zero h = (x, refl)
get_elem?-below (x ∷ xs) (suc i) h = get_elem?-below xs i (omega arith)

pub get_elem?-put_elem :
    {S : Type 0} (xs : List S) (i j : ℕ) (s : S)
    → i < length xs
    → get_elem? (put_elem i s xs) j ≡ (if i == j then some s else get_elem? xs j)
get_elem?-put_elem [] i j s h = absurd (omega arith)
get_elem?-put_elem (x ∷ xs) zero zero s h = ground arith
get_elem?-put_elem (x ∷ xs) zero (suc j) s h = ground arith
get_elem?-put_elem (x ∷ xs) (suc i) zero s h = ground arith
get_elem?-put_elem (x ∷ xs) (suc i) (suc j) s h = ground (arith, get_elem?-put_elem xs i j s)

pub length-put_elem :
    {S : Type 0} (xs : List S) (i : ℕ) (s : S) → length (put_elem i s xs) ≡ length xs
length-put_elem [] i s = refl
length-put_elem (x ∷ xs) zero s = refl
length-put_elem (x ∷ xs) (suc i) s = ap suc (length-put_elem xs i s)

abbrev served : {S K V : Type 0} → (K → S → Option V) → Option S → K → Option V
served view none key = none
served view (some s) key = view key s

module _ {S K V : Type 0} (backend : Cache S K V) (view : K → S → Option V) where
  -- What a sharded cache serves, if `view` is what its backends serve.
  unfoldable serves : K → Sharded S K → Option V
  serves key c = served view (get_elem? c.shards (shard_index backend c key)) key

module _ {S K V : Type 0} (backend : Cache S K V) (view : K → S → Option V) where
  shard_index-lt :
      (c : Sharded S K) (key : K)
      → 0 < length c.shards
      → shard_index backend c key < length c.shards
  unfolding shard_index
  shard_index-lt c key h = mod-lt (c.algorithm key) h

  serves-put_elem :
      (c : Sharded S K) (other : K) (i : ℕ) (s : S)
      → i < length c.shards
      → serves backend view other (record c { shards = put_elem i s c.shards })
        ≡ served view
            (if i == shard_index backend c other
              then some s
              else get_elem? c.shards (shard_index backend c other))
            other
  unfolding serves shard_index
  serves-put_elem c other i s lt =
      let j = c.algorithm other % length c.shards in
      ap (λ o. served view o other)
        (ap (λ n. get_elem? (put_elem i s c.shards) (c.algorithm other % n))
            (length-put_elem c.shards i s)
          ∙ get_elem?-put_elem c.shards i j s lt)

  -- A set through a sharded cache of at least one backend, each of which serves the value of a set and
  -- leaves its other keys alone, never panics, and is such a set itself: it serves the value, leaves
  -- every other key alone, those of the same backend too, and keeps the number of backends.
  set-SetsOne :
      (key other : K) (val : V) (exp : Expiry) (c : Sharded S K)
      → SetsOne backend view
      → 0 < length c.shards
      → (after : Time × Sharded S K) × (set backend key val exp c ≡ some after)
        × (length after.1.shards ≡ length c.shards)
        × (((other ≡ key) × (serves backend view other after.1 ≡ some val))
            ⊎ ((other ≢ key) × (serves backend view other after.1 ≡ serves backend view other c)))
  unfolding set at_shard serves
  set-SetsOne key other val exp c law full =
      let i = shard_index backend c key in
      let j = shard_index backend c other in
      let lt = shard_index-lt c key full in
      let (s, found) = get_elem?-below c.shards i lt in
      let t = (backend.set key val exp s).0 in
      let s' = (backend.set key val exp s).1 in
      let c' = record c { shards = put_elem i s' c.shards } in
      let kept : length c'.shards ≡ length c.shards = length-put_elem c.shards i s' in
      (
        (t, c'),
        rw (set, at_shard, found) refl,
        kept,
        (elim (law key other val exp s) [
          | inl (same, new) ↦ inl (
            same,
            (let alike : j ≡ i = ap (shard_index backend c) same in
                let here : (i == j) ≡ true = ground arith in
                serves-put_elem c other i s' lt ∙ rw here new),
          )
          | inr (apart, old) ↦ inr (
            apart,
            serves-put_elem c other i s' lt ∙ elim (Bool-cases (i == j)) [
              | inl shared ↦
                  (let alike : i ≡ j = ground arith in
                    let here : get_elem? c.shards j ≡ some s =
                      ap (get_elem? c.shards) (sym alike) ∙ found in
                    rw shared (old ∙ sym (ap (λ o. served view o other) here)))
              | inr elsewhere ↦ rw elsewhere refl
            ],
          )
        ]),
      )
