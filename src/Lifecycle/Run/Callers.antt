-- ===== src/Lifecycle/Run/Callers.antt =====
-- lifecycle/lifecycle.go: a group runs once, whoever calls `Run`.

use native.Mathlib.Decide.{dec_lt}
use albstractions.Prelude.{
  ℕ, ◌+◌, ◌≤◌, ◌<◌, ◌≡◌, refl, sym, ◌∙◌, ◌⊎◌, inl, inr, true, false, none, arith, ◌==◌, Bool-cases,
  nat_comparable, sum_threads, sum_threads-put, le-sum_threads, sum_threads-eq_zero,
  two_le-sum_threads,
}
use albstractions.Lifecycle.{Group, Once, fresh, entered, complete, begin_run, close_registration}
use albstractions.Lifecycle.Settling.{entries}
use albstractions.Lifecycle.Run.{
  Pc, outside, at_once, running, spawned, watching, closing, leaving, waiting, returned, panicked,
  State, Move, call, enter, begin, announce, finish, crash, close_done, leave, unwind, skip,
  return_err, System, Step, pick, evolve, Reach, start, later,
}

abbrev pub inside : Pc → ℕ
inside running = 1
inside spawned = 1
inside watching = 1
inside (closing b) = 1
inside (leaving b) = 1
inside p = 0

-- What a caller may count on.
abbrev pub Told : State → Pc → Type 0
Told s running = s.done ≡ false
Told s spawned = (s.done ≡ false) × (s.group.started ≡ true)
Told s watching = (s.done ≡ false) × (s.group.started ≡ true) × (s.ready ≡ true)
Told s (closing b) = (s.done ≡ false) × (s.group.started ≡ true) × (s.ready ≡ true)
Told s (leaving b) = (s.done ≡ true) × (s.group.started ≡ true) × (s.ready ≡ true)
Told s waiting = (s.done ≡ true) × (s.group.started ≡ true) × (s.ready ≡ true)
Told s (returned e) = (s.done ≡ true) × (s.group.started ≡ true) × (s.ready ≡ true) × (e ≡ s.err)
Told s p = Unit

-- Of the state alone.
abbrev pub Stands : State → Type 0
Stands s =
    ((s.once ≡ fresh) × (s.done ≡ false))
    ⊎ (s.once ≡ entered)
    ⊎ ((s.once ≡ complete) × (s.done ≡ true) × (s.group.started ≡ true) × (s.ready ≡ true))

entries-entered : (o : Once) → 0 < entries o → o ≡ entered
entries-entered entered h = refl
entries-entered o h = absurd (omega arith)

Move-inside :
    {s t : State} {p q : Pc}
    → Move s p t q
    → inside p ≤ entries s.once
    → entries t.once + inside p ≡ entries s.once + inside q
Move-inside call h = refl
Move-inside (enter e) h = ground arith
Move-inside begin h = refl
Move-inside announce h = refl
Move-inside (finish w e) h = refl
Move-inside (crash e) h = refl
Move-inside close_done h = refl
Move-inside {s = s} leave h = let o = entries-entered s.once h in rw o refl
Move-inside {s = s} unwind h = let o = entries-entered s.once h in rw o refl
Move-inside (skip e) h = refl
Move-inside (return_err e) h = refl

Move-Stands :
    {s t : State} {p q : Pc}
    → Move s p t q
    → inside p ≤ entries s.once
    → Told s p
    → Stands s
    → Stands t
Move-Stands call h k v = v
Move-Stands (enter e) h k v = inr (inl refl)
Move-Stands {s = s} begin h k v = inr (inl (entries-entered s.once h))
Move-Stands {s = s} announce h k v = inr (inl (entries-entered s.once h))
Move-Stands {s = s} (finish w e) h k v = inr (inl (entries-entered s.once h))
Move-Stands {s = s} (crash e) h k v = inr (inl (entries-entered s.once h))
Move-Stands {s = s} close_done h k v = inr (inl (entries-entered s.once h))
Move-Stands leave h k v = inr (inr (refl, k.0, k.1, k.2))
Move-Stands unwind h k v = inr (inr (refl, k.0, k.1, k.2))
Move-Stands (skip e) h k v = v
Move-Stands (return_err e) h k v = v

Move-Told : {s t : State} {p q : Pc} → Move s p t q → Told s p → Stands s → Told t q
unfolding begin_run close_registration
Move-Told call k v = tt
Move-Told {s = s} (enter e) k v = ground (arith, e)
Move-Told begin k v = (k, refl)
Move-Told announce k v = (k.0, k.1, refl)
Move-Told (finish w e) k v = k
Move-Told (crash e) k v = k
Move-Told close_done k v = (refl, k.1, k.2)
Move-Told leave k v = k
Move-Told unwind k v = tt
Move-Told {s = s} (skip e) k v = ground (arith, e)
Move-Told (return_err e) k v = (k.0, k.1, k.2, refl)

-- What a move leaves as it is: what is done stays done, with its error.
record Keeps (s t : State) : Type 0 where
  result : s.done ≡ true → (t.done ≡ true) × (t.err ≡ s.err)
  starts : s.group.started ≡ true → t.group.started ≡ true
  readies : s.ready ≡ true → t.ready ≡ true

same-Keeps : (s : State) → Keeps s s
same-Keeps s = record { result = λ h. (h, refl); starts = λ h. h; readies = λ h. h }

Move-Keeps : {s t : State} {p q : Pc} → Move s p t q → Told s p → Keeps s t
unfolding begin_run close_registration
Move-Keeps {s = s} call k = same-Keeps s
Move-Keeps (enter e) k = record { result = λ h. (h, refl); starts = λ h. h; readies = λ h. h }
Move-Keeps begin k = record { result = λ h. (h, refl); starts = λ h. refl; readies = λ h. h }
Move-Keeps announce k = record { result = λ h. (h, refl); starts = λ h. h; readies = λ h. refl }
Move-Keeps {s = s} (finish w e) k = record {
  result = λ h. absurd (ground arith);
  starts = λ h. h;
  readies = λ h. h;
}
Move-Keeps (crash e) k = record { result = λ h. (h, refl); starts = λ h. h; readies = λ h. h }
Move-Keeps close_done k = record { result = λ h. (refl, refl); starts = λ h. h; readies = λ h. h }
Move-Keeps leave k = record { result = λ h. (h, refl); starts = λ h. h; readies = λ h. h }
Move-Keeps unwind k = record { result = λ h. (h, refl); starts = λ h. h; readies = λ h. h }
Move-Keeps {s = s} (skip e) k = same-Keeps s
Move-Keeps {s = s} (return_err e) k = same-Keeps s

-- A caller that is not in the once does not touch `done`.
Move-done : {s t : State} {p q : Pc} → Move s p t q → inside p ≡ 0 → t.done ≡ s.done
Move-done call h = refl
Move-done (enter e) h = refl
Move-done begin h = refl
Move-done announce h = refl
Move-done (finish w e) h = refl
Move-done (crash e) h = refl
Move-done close_done h = absurd (omega (arith, h))
Move-done leave h = refl
Move-done unwind h = refl
Move-done (skip e) h = refl
Move-done (return_err e) h = refl

-- What another caller counts on outlasts a move.
other-Told :
    {s t : State} (r : Pc) → Keeps s t → ((inside r ≡ 0) ⊎ (t.done ≡ s.done)) → Told s r → Told t r
other-Told outside k d l = tt
other-Told at_once k d l = tt
other-Told running k d l = ground arith
other-Told spawned k d l = (ground arith, k.starts l.1)
other-Told watching k d l = (ground arith, k.starts l.1, k.readies l.2)
other-Told (closing b) k d l = (ground arith, k.starts l.1, k.readies l.2)
other-Told (leaving b) k d l = ((k.result l.0).0, k.starts l.1, k.readies l.2)
other-Told waiting k d l = ((k.result l.0).0, k.starts l.1, k.readies l.2)
other-Told (returned e) k d l =
    ((k.result l.0).0, k.starts l.1, k.readies l.2, l.3 ∙ sym (k.result l.0).1)
other-Told panicked k d l = tt

record Inv (n : ℕ) (s : System) : Type 0 where
  single : sum_threads inside n s.pc ≡ entries s.state.once
  stands : Stands s.state
  told : (i : ℕ) → i < n → Told s.state (s.pc i)

module _ (n : ℕ) where
  start-Inv :
      (g : Group)
      → Inv n (record {
        state = record { group = g; once = fresh; ready = false; done = false; err = none };
        pc = λ _. outside;
      })
  start-Inv g = record {
    single = sum_threads-eq_zero inside n (λ _. outside) (λ _. refl);
    stands = inl (refl, refl);
    told = λ i lt. tt;
  }

  entries-le : (o : Once) → entries o ≤ 1
  entries-le fresh = omega arith
  entries-le entered = omega arith
  entries-le complete = omega arith

  Step-Inv : {s t : System} → Step n s t → Inv n s → Inv n t
  Step-Inv {s} (pick i {t} {p} lt mv) v =
      let own : inside (s.pc i) ≤ entries s.state.once =
        omega (arith, le-sum_threads inside n i s.pc lt, v.single) in
      let keeps = Move-Keeps mv (v.told i lt) in
      record {
        single = omega (arith, Move-inside mv own, v.single, sum_threads-put inside n i p s.pc lt);
        stands = Move-Stands mv own (v.told i lt) v.stands;
        told = λ j lj. elim (Bool-cases (i == j)) [
          | inl same ↦ rw same (Move-Told mv (v.told i lt) v.stands)
          | inr other ↦
              let pair =
                two_le-sum_threads inside n i j s.pc outside lt lj (λ e. ground (arith, other)) in
              rw other (
                other-Told (s.pc j) keeps
                  (elim (dec_lt 0 (inside (s.pc i))) [
                    | yes mine ↦ inl (omega (arith, mine, pair, v.single, entries-le s.state.once))
                    | no others ↦ inr (Move-done mv (omega (arith, others)))
                  ])
                  (v.told j lj))
        ];
      }
  Step-Inv {s} (evolve g same) v = record {
    single = v.single;
    stands = ground (arith, v.stands);
    told = λ j lj.
        other-Told {s = s.state} {t = record s.state { group = g }} (s.pc j)
          (record { result = λ h. (h, refl); starts = λ h. same ∙ h; readies = λ h. h }) (inr refl)
          (v.told j lj);
  }

  Reach-Inv : {s : System} → Reach n s → Inv n s
  Reach-Inv (start g new) = start-Inv g
  Reach-Inv (later r st) = Step-Inv st (Reach-Inv r)

  -- Calls that returned have the same error.
  abbrev pub Agree : Pc → Pc → Type 0
  Agree (returned e) (returned f) = e ≡ f
  Agree p q = Unit

  Told-Agree : (s : State) (p q : Pc) → Told s p → Told s q → Agree p q
  Told-Agree s (returned e) (returned f) h k = h.3 ∙ sym k.3
  Told-Agree s p q h k = tt

  -- However many callers of `Run` a group has, at every moment: a caller is in its once exactly while
  -- the once is entered, and no other is. That caller has `Done` open until it leaves, and from its
  -- start of the goroutines on the group is started and from `Ready` on that is closed. A call past the
  -- once or returned has the group started and both channels closed, and one that returned has the one
  -- error on record, so that any two have the same.
  pub Reach-once :
      {s : System} (i j : ℕ)
      → Reach n s
      → i < n
      → j < n
      → (sum_threads inside n s.pc ≤ 1)
        × (sum_threads inside n s.pc ≡ entries s.state.once)
        × Told s.state (s.pc i)
        × Agree (s.pc i) (s.pc j)
  Reach-once {s} i j r li lj =
      let v = Reach-Inv r in
      (
        omega (arith, v.single, entries-le s.state.once),
        v.single,
        v.told i li,
        Told-Agree s.state (s.pc i) (s.pc j) (v.told i li) (v.told j lj),
      )
