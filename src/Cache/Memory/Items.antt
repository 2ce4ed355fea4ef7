-- ===== src/Cache/Memory/Items.antt =====
-- cache/memory.go: what an iteration over a `Memory` yields, and when it ends with an error.
use mathlib.Core.Path.{subst}
use mathlib.Core.List.{append-nil, append_assoc}
use albstractions.Prelude.{
  ℕ, suc, ◌+◌, ◌≤◌, ◌<◌, ◌≡◌, refl, sym, ap, ◌∙◌, inl, inr, Bool, true, none, some, List, [], ◌∷◌,
  ◌++◌, arith, Bool-cases, Comparable, nat_comparable, length, Map, lookup, Distinct,
}
use albstractions.Time.{Time}
use albstractions.Errors.{Error, Context, background}
use albstractions.Cache.Memory.{Entry, Memory, fresh, snapshot, yield_all, items_context, items}
use albstractions.Cache.Memory.Liveness.{value_of}

module _ {ℓ} {K V : Type ℓ} ⦃k : Comparable K⦄ where
  -- The snapshot is a map of what is live: no key twice, and under each key the live value.
  lookup-snapshot :
      (j : K) (now : Time) (m : Map K (Entry V))
      → Distinct m
      → lookup j (snapshot now m) ≡ value_of (fresh now (lookup j m))
  unfolding lookup snapshot fresh
  lookup-snapshot j now [] d = refl
  lookup-snapshot j now ((key, e) ∷ m) d =
      ground (arith, k.eqb_iff key j, lookup-snapshot j now m d.1)

  snapshot-Distinct : (now : Time) (m : Map K (Entry V)) → Distinct m → Distinct (snapshot now m)
  unfolding snapshot fresh
  snapshot-Distinct now [] d = tt
  snapshot-Distinct now ((key, e) ∷ m) d =
      ground (arith, lookup-snapshot key now m d.1, snapshot-Distinct now m d.1)

module _ {ℓ} {K V : Type ℓ} where
  -- A loop body that goes on for all entries and keeps them.
  abbrev pub collect : List (K × V) → K → V → List (K × V) × Bool
  collect seen key v = (seen ++ (key, v) ∷ [], true)

  yield_all-collect :
      (l : List (K × V)) (i : ℕ) (seen : List (K × V))
      → yield_all background collect l i seen ≡ (seen ++ l, none)
  unfolding yield_all
  yield_all-collect [] i seen = ap (λ l. (l, none)) (sym (append-nil seen))
  yield_all-collect ((key, v) ∷ l) i seen =
      yield_all-collect l (suc i) (seen ++ (key, v) ∷ [])
      ∙ ap (λ l. (l, none)) (append_assoc seen ((key, v) ∷ []) l)

  yield_all-error {κ} :
      {S : Type κ} (ctx : Context) (yield : S → K → V → S × Bool) (l : List (K × V)) (i : ℕ) (s : S)
      {e : Error}
      → (yield_all ctx yield l i s).1 ≡ some e
      → (e ≡ ctx.cause) × ((n : ℕ) × (ctx.done n ≡ true) × (n < i + length l))
  unfolding yield_all
  yield_all-error ctx yield [] i s h = absurd (cc)
  yield_all-error ctx yield ((key, v) ∷ l) i s h = elim (Bool-cases (ctx.done i)) [
    | inl over ↦ (ground (arith, over), (i, over, omega arith))
    | inr on ↦ elim (Bool-cases (yield s key v).1) [
      | inl more ↦
          let (cause, (n, over, below)) =
            yield_all-error ctx yield l (suc i) (yield s key v).0 (rw (on, more, yield_all) at h) in
          (cause, (n, over, omega arith))
      | inr stop ↦ absurd (ground arith)
    ]
  ]

module _ {ℓ} {K V : Type ℓ} ⦃k : Comparable K⦄ where
  items-snapshot : (now : Time) (m : Memory K V) → items collect now m [] ≡ snapshot now m.entries
  unfolding items items_context
  items-snapshot now m = ap (λ p. p.0) (yield_all-collect (snapshot now m.entries) 1 [])

  -- Of a map without a repeated key, `Items` hands the loop body every live entry once, and nothing else: collected, they are a map
  -- without a repeated key that holds under each key the value that a read would find.
  pub items-collect :
      (now : Time) (m : Memory K V)
      → Distinct m.entries
      → Distinct (items collect now m [])
        × ((j : K) → lookup j (items collect now m []) ≡ value_of (fresh now (lookup j m.entries)))
  items-collect now m d =
      subst (λ l. Distinct l × ((j : K) → lookup j l ≡ value_of (fresh now (lookup j m.entries))))
        (sym (items-snapshot now m))
        (snapshot-Distinct now m.entries d, λ j. lookup-snapshot j now m.entries d)

  -- An iteration ends with an error only if the context was done at one of its looks, and the error
  -- is then the context's cause; a loop body that stops it is no error.
  items_context-error {κ} :
      {S : Type κ} (ctx : Context) (yield : S → K → V → S × Bool) (now : Time) (m : Memory K V)
      (s : S) {e : Error}
      → (items_context ctx yield now m s).1 ≡ some e
      → (e ≡ ctx.cause) × ((n : ℕ) × (ctx.done n ≡ true) × (n ≤ length (snapshot now m.entries)))
  unfolding items_context
  items_context-error ctx yield now m s h = elim (Bool-cases (ctx.done 0)) [
    | inl over ↦ (ground (arith, over), (0, over, omega arith))
    | inr on ↦
        let (cause, (n, over, below)) =
          yield_all-error ctx yield (snapshot now m.entries) 1 s (rw (on, items_context) at h) in
        (cause, (n, over, omega arith))
  ]
