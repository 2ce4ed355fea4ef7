-- ===== src/Cache/WriteThrough/Interleaving.antt =====
-- cache/writethrough.go: `SetContext` and `DeleteContext` of one key by many callers at once. A call
-- holds the lock of the key across the call of the store and the update of the front.
use albstractions.Prelude.{
  ℕ_discrete, ℕ, ◌≤◌, ◌<◌, ◌≡◌, refl, sym, ap, ◌∙◌, ◌≢◌, ◌⊎◌, inl, inr, Option, none, some, arith,
  nat_comparable, put, sum_threads, two_le-sum_threads, put-same, put-other,
}
use mathlib.Core.Path.{subst}
use albstractions.Cache.WriteThrough.{Locks, no_locks, Pc, idle, Move}
use albstractions.Cache.WriteThrough
use albstractions.Cache.WriteThrough.Exclusion.{writes, Reach-exclusive}

-- How far a caller that holds the lock has come: at the writer or the deleter, past it with the front
-- to be made `o`, or at the end.
pub data Stage (V : Type 0) : Type 0 where
  to_store : Stage V
  to_front : Option V → Stage V
  done : Stage V

-- What the store and the front have under the key.
pub record System (V : Type 0) : Type 0 where
  pub locks : Locks
  pub pc : ℕ → Pc
  pub stage : ℕ → Stage V
  pub store : Option V
  pub front : Option V

module _ {V : Type 0} where
  pub data Step (n : ℕ) (s : System V) : System V → Type 0 where
    -- A step of `lock` or `unlock`; who is past the lock gives it back at the end.
    lock_step :
        (i : ℕ) {w : Locks} {p : Pc}
        → i < n
        → (writes (s.pc i) ≡ 0) ⊎ (s.stage i ≡ done)
        → Move s.locks (s.pc i) w p
        → Step n s (record s { locks = w; pc = put i p s.pc; stage = put i to_store s.stage })
    -- The writer or the deleter leaves `o` in the store.
    store_ok :
        (i : ℕ) (o : Option V)
        → i < n
        → writes (s.pc i) ≡ 1
        → s.stage i ≡ to_store
        → Step n s (record s { store = o; stage = put i (to_front o) s.stage })
    store_fails :
        (i : ℕ)
        → i < n
        → writes (s.pc i) ≡ 1
        → s.stage i ≡ to_store
        → Step n s (record s { stage = put i done s.stage })
    -- A delete without a deleter.
    no_deleter :
        (i : ℕ)
        → i < n
        → writes (s.pc i) ≡ 1
        → s.stage i ≡ to_store
        → Step n s (record s { stage = put i (to_front none) s.stage })
    update_front :
        (i : ℕ) {o : Option V}
        → i < n
        → writes (s.pc i) ≡ 1
        → s.stage i ≡ to_front o
        → Step n s (record s { front = o; stage = put i done s.stage })
    -- The front drops its entry.
    expire : Step n s (record s { front = none })

  pub data Reach (n : ℕ) : System V → Type 0 where
    start :
        (store : Option V)
        → Reach n (record {
          locks = no_locks;
          pc = λ _. idle;
          stage = λ _. to_store;
          store = store;
          front = none;
        })
    later : {s t : System V} → Reach n s → Step n s t → Reach n t

  -- The locks of the calls are those of Cache/WriteThrough.
  Reach-locks :
      (n : ℕ) {s : System V}
      → Reach n s
      → WriteThrough.Reach n (record { locks = s.locks; pc = s.pc })
  Reach-locks n (start o) = WriteThrough.start
  Reach-locks n (later r (lock_step i lt _ mv)) =
      WriteThrough.later (Reach-locks n r) (WriteThrough.pick i lt mv)
  Reach-locks n (later r (store_ok i o lt _ _)) = Reach-locks n r
  Reach-locks n (later r (store_fails i lt _ _)) = Reach-locks n r
  Reach-locks n (later r (no_deleter i lt _ _)) = Reach-locks n r
  Reach-locks n (later r (update_front i lt _ _)) = Reach-locks n r
  Reach-locks n (later r expire) = Reach-locks n r

  -- A caller with the front to be updated is past the lock, and the store has what it brings.
  abbrev Told : Option V → Pc → Stage V → Type 0
  Told store p to_store = Unit
  Told store p (to_front o) = (writes p ≡ 1) × ((store ≡ o) ⊎ (o ≡ none))
  Told store p done = Unit

  abbrev Coherent : System V → Type 0
  Coherent s = (v : V) → s.front ≡ some v → s.store ≡ some v

  abbrev pub Pending : ℕ → System V → Type 0
  Pending n s = (i : ℕ) × (o : Option V) × (i < n) × (s.stage i ≡ to_front o)

  record Inv (n : ℕ) (s : System V) : Type 0 where
    told : (i : ℕ) → i < n → Told s.store (s.pc i) (s.stage i)
    coherent : Coherent s ⊎ Pending n s

  Told-put :
      (store : Option V) (n i : ℕ) (x : Stage V) (pc : ℕ → Pc) (stage : ℕ → Stage V)
      → Told store (pc i) x
      → ((j : ℕ) → j < n → i ≢ j → Told store (pc j) (stage j))
      → (j : ℕ) → j < n
      → Told store (pc j) (put i x stage j)
  Told-put store n i x pc stage new old j lt = elim (ℕ_discrete i j) [
    | yes same ↦
        let e : put i x stage j ≡ x = ground (arith, same) in
        rw e (subst (λ k. Told store (pc k) x) same new)
    | no apart ↦ rw (put-other i j x stage apart) (old j lt apart)
  ]

  -- Nobody but the caller that moves was to update the front, and that caller was not either.
  Pending-put :
      (n i : ℕ) (x : Stage V) (s t : System V)
      → ((o : Option V) → s.stage i ≢ to_front o)
      → t.stage ≡ put i x s.stage
      → Pending n s
      → Pending n t
  Pending-put n i x s t apart is (j, o, lt, at) =
      let other : i ≢ j = λ same. apart o (ap s.stage same ∙ at) in
      (j, o, lt, ap (λ f. f j) is ∙ put-other i j x s.stage other ∙ at)

  -- While one caller is past the lock no other is.
  Told-alone :
      (store store' : Option V) (n i j : ℕ) (pc : ℕ → Pc) (x : Stage V)
      → sum_threads writes n pc ≤ 1
      → i < n
      → j < n
      → i ≢ j
      → writes (pc i) ≡ 1
      → Told store (pc j) x
      → Told store' (pc j) x
  Told-alone store store' n i j pc to_store one li lj apart holds h = h
  Told-alone store store' n i j pc (to_front o) one li lj apart holds (h, _) =
      absurd (omega (arith, two_le-sum_threads writes n i j pc idle li lj apart))
  Told-alone store store' n i j pc done one li lj apart holds h = h

  Coherent-put :
      (n i : ℕ) (x : Stage V) (s t : System V)
      → ((o : Option V) → s.stage i ≢ to_front o)
      → (t.front ≡ s.front) × (t.store ≡ s.store) × (t.stage ≡ put i x s.stage)
      → Coherent s ⊎ Pending n s
      → Coherent t ⊎ Pending n t
  Coherent-put n i x s t apart (front, store, stage) (inl same) =
      inl (λ v h. store ∙ same v (sym front ∙ h))
  Coherent-put n i x s t apart (front, store, stage) (inr on_way) =
      inr (Pending-put n i x s t apart stage on_way)

  told_front :
      {n i : ℕ} {s : System V} {o : Option V}
      → Inv n s
      → i < n
      → s.stage i ≡ to_front o
      → (writes (s.pc i) ≡ 1) × ((s.store ≡ o) ⊎ (o ≡ none))
  told_front {n} {i} {s} v lt at = subst (λ x. Told s.store (s.pc i) x) at (v.told i lt)

  Step-Inv :
      (n : ℕ) {s t : System V} → sum_threads writes n s.pc ≤ 1 → Step n s t → Inv n s → Inv n t
  Step-Inv n {s} one (lock_step i {w} {p} lt free mv) v =
      let apart : (o : Option V) → s.stage i ≢ to_front o = λ o at. elim free [
        | inl out ↦ let (past, _) = told_front v lt at in absurd (omega (arith, past, out))
        | inr over ↦ absurd (cc)
      ] in
      record {
        told =
            Told-put s.store n i to_store (put i p s.pc) s.stage tt
              (λ j lj other. rw (put-other i j p s.pc other) (v.told j lj));
        coherent =
            Coherent-put n i to_store s (record s { stage = put i to_store s.stage }) apart
              (refl, refl, refl) v.coherent;
      }
  Step-Inv n {s} one (store_ok i o lt holds at) v = record {
    told =
        Told-put o n i (to_front o) s.pc s.stage (holds, inl refl)
          (λ j lj other.
            Told-alone s.store o n i j s.pc (s.stage j) one lt lj other holds (v.told j lj));
    coherent = inr (i, o, lt, put-same i (to_front o) s.stage);
  }
  Step-Inv n {s} one (store_fails i lt holds at) v = record {
    told = Told-put s.store n i done s.pc s.stage tt (λ j lj _. v.told j lj);
    coherent =
        Coherent-put n i done s (record s { stage = put i done s.stage }) (λ o is. absurd (cc))
          (refl, refl, refl) v.coherent;
  }
  Step-Inv n {s} one (no_deleter i lt holds at) v = record {
    told =
        Told-put s.store n i (to_front none) s.pc s.stage (holds, inr refl) (λ j lj _. v.told j lj);
    coherent = inr (i, none, lt, put-same i (to_front none) s.stage);
  }
  Step-Inv n {s} one (update_front i {o} lt holds at) v = record {
    told = Told-put s.store n i done s.pc s.stage tt (λ j lj _. v.told j lj);
    coherent =
        let (_, has) = told_front v lt at in
        inl (λ x is. elim has [ inl same ↦ same ∙ is | inr gone ↦ absurd (cc) ]);
  }
  Step-Inv n {s} one expire v = record { told = v.told; coherent = inl (λ v h. absurd (cc)) }

  Reach-Inv : (n : ℕ) {s : System V} → Reach n s → Inv n s
  Reach-Inv n (start o) = record { told = λ i lt. tt; coherent = inl (λ v h. absurd (cc)) }
  Reach-Inv n (later r st) = Step-Inv n ((Reach-exclusive n (Reach-locks n r)).0) st (Reach-Inv n r)

  -- While no caller past the lock has still to update the front, a value that the front holds is the
  -- value of the store, in whatever order the calls came and with entries that expire on the way. The
  -- store does not change when its call fails, and a front that is asked takes what it is given.
  pub Reach-Coherent :
      (n : ℕ) (s : System V)
      → Reach n s
      → ((i : ℕ) (o : Option V) → i < n → s.stage i ≢ to_front o)
      → (v : V) → s.front ≡ some v
      → s.store ≡ some v
  Reach-Coherent n s r calm v has =
      let inv = Reach-Inv n r in
      elim inv.coherent [ inl same ↦ same v has | inr (i, o, lt, at) ↦ absurd (calm i o lt at) ]
