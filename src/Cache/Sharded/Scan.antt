-- ===== src/Cache/Sharded/Scan.antt =====
-- cache/sharded.go: what an iteration over a sharded cache hands over.
use albstractions.Prelude.{
  ℕ, suc, ◌≡◌, refl, sym, ap, ◌∙◌, inl, inr, Bool, true, false, Option, some, none, List, [], ◌∷◌,
  ◌++◌, Bool-cases, Option-cases, nat_comparable,
}
use albstractions.Errors.{Error, Context}
use albstractions.Cache.Interface.{Cache}
use albstractions.Cache.Sharded.{yield_shard, scan}

-- The loop body that collects and never stops.
abbrev pub collect : {K V : Type 0} → List (K × V) → K → V → List (K × V) × Bool
collect acc key v = (acc ++ (key, v) ∷ [], true)

append_assoc : {A : Type 0} (xs ys zs : List A) → (xs ++ ys) ++ zs ≡ xs ++ (ys ++ zs)
append_assoc [] ys zs = refl
append_assoc (x ∷ xs) ys zs = ap (◌∷◌ x) (append_assoc xs ys zs)

append_nil : {A : Type 0} (xs : List A) → xs ++ [] ≡ xs
append_nil [] = refl
append_nil (x ∷ xs) = ap (◌∷◌ x) (append_nil xs)

module _ {S K V : Type 0} (backend : Cache S K V) where
  -- An iteration from the look at the context numbered `i` on: what it hands over, and the error with
  -- which it ends. The context is looked at before each backend; a backend that fails has handed over
  -- a part of its items.
  pub data Scanned (ctx : Context) : ℕ → List S → List (K × V) → Option Error → Type 0 where
    whole : {i : ℕ} → Scanned ctx i [] [] none
    ended :
        {i : ℕ} {s : S} {shards : List S}
        → ctx.done i ≡ true
        → Scanned ctx i (s ∷ shards) [] (some ctx.cause)
    fails :
        {i : ℕ} {s : S} {shards : List S} {part : List (K × V)} {err : Error}
        → ctx.done i ≡ false
        → (backend.items_context ctx s).0 ≡ (part, some err)
        → Scanned ctx i (s ∷ shards) part (some err)
    clean :
        {i : ℕ} {s : S} {shards : List S} {own rest : List (K × V)} {err : Option Error}
        → ctx.done i ≡ false
        → (backend.items_context ctx s).0 ≡ (own, none)
        → Scanned ctx (suc i) shards rest err
        → Scanned ctx i (s ∷ shards) (own ++ rest) err

  yield_shard-collect :
      (entries acc : List (K × V))
      → yield_shard backend collect entries acc ≡ (acc ++ entries, true)
  unfolding yield_shard
  yield_shard-collect [] acc = ap (λ l. (l, true)) (sym (append_nil acc))
  yield_shard-collect ((key, v) ∷ rest) acc =
      yield_shard-collect rest (acc ++ (key, v) ∷ [])
      ∙ ap (λ l. (l, true)) (append_assoc acc ((key, v) ∷ []) rest)

  -- An iteration that collects ends in one of three ways: without an error, having handed over the
  -- items of every backend in order, when no backend failed and the context was never seen done; with
  -- the cause of the context, having handed over the items of the backends before, all without an
  -- error; or with the error of the first backend that fails, after the items of those before and what
  -- that backend handed over.
  pub scan-collects :
      (ctx : Context) (shards : List S) (i : ℕ) (acc : List (K × V))
      → (given : List (K × V)) × ((scan backend ctx collect shards i acc).0.0 ≡ acc ++ given)
        × Scanned ctx i shards given (scan backend ctx collect shards i acc).0.1
  unfolding scan
  scan-collects ctx [] i acc = ([], sym (append_nil acc), whole)
  scan-collects ctx (s ∷ shards) i acc = elim (Bool-cases (ctx.done i)) [
    | inl over ↦ rw (over, scan) ([], sym (append_nil acc), ended over)
    | inr on ↦
        let own = (backend.items_context ctx s).0.0 in
        let now = (yield_shard backend collect own acc).0 in
        let goes_on : (yield_shard backend collect own acc).1 ≡ true =
          ap (λ p. p.1) (yield_shard-collect own acc) in
        let so_far : now ≡ acc ++ own = ap (λ p. p.0) (yield_shard-collect own acc) in
        rw (on, goes_on, scan)
          (elim (Option-cases (backend.items_context ctx s).0.1) [
            | inl ok ↦
                let (rest, handed, rest_ends) = scan-collects ctx shards (suc i) now in
                rw ok (
                  own ++ rest,
                  handed ∙ ap (λ l. l ++ rest) so_far ∙ append_assoc acc own rest,
                  clean on (ap (λ e. (own, e)) ok) rest_ends,
                )
            | inr (err, bad) ↦ rw bad (own, so_far, fails on (ap (λ e. (own, e)) bad))
          ])
  ]
