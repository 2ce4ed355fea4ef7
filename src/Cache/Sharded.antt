-- ===== src/Cache/Sharded.antt =====
-- cache/sharded.go: a cache that spreads its keys over backends. `none` is a panic.
pub mod Routing
pub mod Scan
pub mod Memories
use albstractions.Prelude.{
  ℕ, zero, suc, ◌-◌, ◌%◌, ◌^◌, Bool, true, false, not, Option, none, some, List, [], ◌∷◌, ◌++◌,
  if◌then◌else◌, nat_comparable, length, get_elem?, ℤ, pos, negsuc, pos_part, ltb_ℤ,
}
use albstractions.Time.{Time}
use albstractions.Errors.{Error, Context, background}
use albstractions.Cache.Ttl.{Expiry}
use albstractions.Cache.Interface.{Answer, Cache}

-- `uint64(key)` of an integer key.
unfoldable pub modulo_shard : ℤ → ℕ
modulo_shard (pos n) = n % 2 ^ 64
modulo_shard (negsuc n) = 2 ^ 64 - 1 - n % 2 ^ 64

pub record Sharded (S K : Type 0) : Type 0 where
  pub algorithm : K → ℕ
  pub shards : List S

abbrev pub copies : {S : Type 0} → ℕ → S → List S
copies zero s = []
copies (suc n) s = s ∷ copies n s

-- `constructor` makes the backend `s`. A function that is nil is `none`.
unfoldable pub new_sharded : {S K : Type 0} → ℤ → Option (K → ℕ) → Option S → Option (Sharded S K)
new_sharded size none constructor = none
new_sharded size (some algorithm) none = none
new_sharded size (some algorithm) (some s) =
    if ltb_ℤ size (pos 1)
    then none
    else some (record { algorithm = algorithm; shards = copies (pos_part size) s })

abbrev pub put_elem : {S : Type 0} → ℕ → S → List S → List S
put_elem i s [] = []
put_elem zero s (x ∷ xs) = s ∷ xs
put_elem (suc i) s (x ∷ xs) = x ∷ put_elem i s xs

module _ {S K V : Type 0} (backend : Cache S K V) where
  -- The index that `shard` computes.
  unfoldable pub shard_index : Sharded S K → K → ℕ
  shard_index c key = c.algorithm key % length c.shards

  -- An operation on the backend of a key.
  unfoldable pub at_shard : {A : Type 0} → (S → A × S) → K → Sharded S K → Option (A × Sharded S K)
  at_shard f key c = elim (get_elem? c.shards (shard_index c key)) [
    | none ↦ none
    | some s ↦
        let (a, s') = f s in
        some (a, record c { shards = put_elem (shard_index c key) s' c.shards })
  ]

  unfoldable pub get : K → Sharded S K → Option (Option V × Sharded S K)
  get key c = at_shard (backend.get key) key c

  unfoldable pub set : K → V → Expiry → Sharded S K → Option (Time × Sharded S K)
  set key val exp c = at_shard (backend.set key val exp) key c

  unfoldable pub delete : K → Sharded S K → Option (Unit {0} × Sharded S K)
  delete key c = at_shard (λ s. (tt, backend.delete key s)) key c

  unfoldable pub get_context : Context → K → Sharded S K → Option (Answer V × Sharded S K)
  get_context ctx key c = at_shard (backend.get_context ctx key) key c

  unfoldable pub set_context :
      Context → K → V → Expiry → Sharded S K → Option ((Time × Option Error) × Sharded S K)
  set_context ctx key val exp c = at_shard (backend.set_context ctx key val exp) key c

  unfoldable pub delete_context : Context → K → Sharded S K → Option (Option Error × Sharded S K)
  delete_context ctx key c = at_shard (backend.delete_context ctx key) key c

  -- The loop of `Close`, over the errors so far.
  unfoldable pub close_all : List S → List Error → List Error × List S
  close_all [] errs = (errs, [])
  close_all (s ∷ shards) errs = elim backend.close [
    | none ↦ let (errs', shards') = close_all shards errs in (errs', s ∷ shards')
    | some f ↦
        let (answer, s') = f s in
        let kept : List Error = elim answer [ none ↦ errs | some err ↦ errs ++ err ∷ [] ] in
        let (errs', shards') = close_all shards kept in (errs', s' ∷ shards')
  ]

  -- `Close`; the errors are those that `errors.Join` joins.
  unfoldable pub close : Sharded S K → List Error × Sharded S K
  close c = let (errs, shards) = close_all c.shards [] in (errs, record c { shards = shards })

  -- The loop over one backend's items: the state of the loop body, and whether it goes on.
  unfoldable pub yield_shard : {A : Type 0} → (A → K → V → A × Bool) → List (K × V) → A → A × Bool
  yield_shard yield [] a = (a, true)
  yield_shard yield ((key, v) ∷ rest) a =
      let (a', more) = yield a key v in
      let tail = yield_shard yield rest a' in if more then tail else (a', false)

  -- `ItemsContext`: the state of the loop body at the end with the terminal error, and the backends. `i`
  -- counts the looks at the context.
  unfoldable pub scan :
      {A : Type 0} → Context → (A → K → V → A × Bool) → List S → ℕ → A → (A × Option Error) × List S
  scan ctx yield [] i a = ((a, none), [])
  scan ctx yield (s ∷ shards) i a =
      let ((entries, failed), s') = backend.items_context ctx s in
      let (a', more) = yield_shard yield entries a in
      let (tail, shards') = scan ctx yield shards (suc i) a' in
      if ctx.done i
      then ((a, some ctx.cause), s ∷ shards)
      else if not more
      then ((a', none), s' ∷ shards)
      else elim failed [ some err ↦ ((a', some err), s' ∷ shards) | none ↦ (tail, s' ∷ shards') ]

  -- `Items`: the terminal error is dropped.
  unfoldable pub items : {A : Type 0} → (A → K → V → A × Bool) → Sharded S K → A → A × Sharded S K
  items yield c a =
      let (result, shards) = scan background yield c.shards 0 a in
      (result.0, record c { shards = shards })
