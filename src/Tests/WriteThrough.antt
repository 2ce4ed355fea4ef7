-- ===== src/Tests/WriteThrough.antt =====
-- The write-through layer of the package cache at concrete inputs.
use albstractions.Prelude.{
  ℕ, ◌+◌, ◌≤◌, ◌<◌, ◌≡◌, refl, ◌⊎◌, inl, ◌≢◌, zero, suc, Option, none, some, List, [], ◌∷◌, arith,
  ◌==◌, if◌then◌else◌, nat_comparable, put, sum_threads,
}
use albstractions.Errors.{background, sentinel, canceled, other}
use albstractions.Cache.Ttl.{default}
use albstractions.Cache.WriteThrough.{
  no_locks, enter, fill, idle, waiting, writing, Move, System, pick, Reach, start, later,
}
use albstractions.Cache.WriteThrough.Exclusion.{waits, writes, Reach-exclusive}
use albstractions.Cache.WriteThrough.Interleaving
use albstractions.Cache.WriteThrough.Interleaving.{
  to_store, to_front, done, lock_step, store_ok, update_front,
}
use albstractions.Cache.WriteThrough.Writes.{
  Writer, WriteThrough, new_write_through, with_deleter, set_context, call_deleter, delete_context,
  get_context,
}
use albstractions.Cache.WriteThrough.Coherence.{
  IsStore, Coherent, Op, set_op, delete_op, get_op, run, run-Coherent,
}
use albstractions.Tests.Fronts.{front, view, front-IsCache, front-IsFirm}

-- The first caller holds the lock and the second waits.
abbrev contended : System
contended = record {
  locks = fill 0 (enter (enter no_locks).1).1;
  pc = put 0 (writing 0) (put 1 (waiting 0) (put 0 (waiting 0) (λ _. idle)));
}

contended-Reach : Reach 2 contended
unfolding enter
contended-Reach =
    later (later (later start (pick 0 (omega arith) Move.lock)) (pick 1 (omega arith) Move.lock))
      (pick 0 (omega arith) (Move.send refl))

Reach-exclusive_example :
    (sum_threads writes 2 contended.pc ≤ 1)
    × ((contended.locks.entry ≡ none)
        ⊎ (0 < sum_threads writes 2 contended.pc + sum_threads waits 2 contended.pc))
Reach-exclusive_example = Reach-exclusive 2 contended-Reach

-- A store that refuses the value 13.
abbrev write : Writer (ℕ → Option ℕ) ℕ ℕ
write ctx key val t =
    if val == 13 then (some (sentinel (other 1)), t) else (none, put key (some val) t)

abbrev layer : WriteThrough (ℕ → Option ℕ) (ℕ → Option ℕ) ℕ ℕ
layer = record { front = front; writer = write; deleter = none }

made_lem :
    (new_write_through (some front) (some write) [] ≡ some layer)
    × (new_write_through {S = ℕ → Option ℕ} none (some write) [] ≡ none)
    × (with_deleter {T = ℕ → Option ℕ} {K = ℕ} none ≡ none)
unfolding new_write_through with_deleter
made_lem = (refl, refl, refl)

layer-IsStore : IsStore layer view
layer-IsStore = record {
  written = λ ctx key val t h. ground arith;
  write_others = λ ctx key other val t h. ground arith;
  delete_others = λ del given. absurd (cc);
}

abbrev ops : List (Op ℕ ℕ)
ops =
    set_op none background 1 5 default
    ∷ set_op none background 1 13 default
    ∷ set_op (some (sentinel canceled)) background 2 6 default
    ∷ set_op none background 2 7 default
    ∷ delete_op none background 1
    ∷ get_op background 2
    ∷ []

abbrev after_ops : (ℕ → Option ℕ) × (ℕ → Option ℕ)
after_ops = run layer ops ((λ _. none), λ _. none)

after_lem : (after_ops.0 1 ≡ some 5) × (after_ops.1 1 ≡ none) × (after_ops.1 2 ≡ some 7)
unfolding set_context call_deleter delete_context get_context
after_lem = (refl, refl, refl)

run-Coherent_example : Coherent view view after_ops
run-Coherent_example =
    run-Coherent layer front-IsCache front-IsFirm layer-IsStore ops ((λ _. none), λ _. none)
      (λ key v h. absurd (cc))

-- The first of two callers has written a value and updated the front, and still holds the lock.
abbrev locked : Interleaving.System ℕ
locked = record {
  locks = fill 0 (enter no_locks).1;
  pc = put 0 (writing 0) (put 0 (waiting 0) (λ _. idle));
  stage = put 0 to_store (put 0 to_store (λ _. to_store));
  store = none;
  front = none;
}

abbrev written : Interleaving.System ℕ
written = record locked {
  store = some 5;
  front = some 5;
  stage = put 0 done (put 0 (to_front (some 5)) locked.stage);
}

written-Reach : Interleaving.Reach 2 written
unfolding enter
written-Reach =
    let a = lock_step 0 (omega arith) (inl refl) Move.lock in
    let b = lock_step 0 (omega arith) (inl refl) (Move.send refl) in
    let c = store_ok 0 (some 5) (omega arith) refl refl in
    let d = update_front 0 (omega arith) refl refl in
    Interleaving.later
      (Interleaving.later (Interleaving.later (Interleaving.later (Interleaving.start none) a) b) c)
      d

written-calm : (i : ℕ) (o : Option ℕ) → i < 2 → written.stage i ≢ to_front o
written-calm zero o lt h = absurd (cc)
written-calm (suc i) o lt h = let e : written.stage (suc i) ≡ to_store = ground arith in absurd (cc)

Reach-Coherent_example : written.store ≡ some 5
Reach-Coherent_example = Interleaving.Reach-Coherent 2 written written-Reach written-calm 5 refl
