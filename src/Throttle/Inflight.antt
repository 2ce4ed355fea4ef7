-- ===== src/Throttle/Inflight.antt =====
-- throttle/throttle.go: callers of one throttle in any interleaving, and the cap on calls in flight.
use albstractions.Prelude.{
  ℕ, ◌+◌, ◌≤◌, ◌<◌, ◌≡◌, refl, sym, ◌∙◌, ◌≢◌, Option, none, some, arith, nat_comparable, put,
  sum_threads, sum_threads-put, le-sum_threads, sum_threads-eq_zero, sum_threads-le,
}
use albstractions.Time.{Time, Duration}
use albstractions.Errors.{Error}
use albstractions.Throttle.{Schedule, Throttle, next_slot, take_slot, give_slot}

-- Where a caller stands in `Do`.
pub data Pc : Type 0 where
  idle : Pc
  queued : Pc  -- at the first `select`
  holding : Pc  -- past it, before `pace`
  paced : Duration → Pc  -- in `sleep`
  running : Pc  -- in `fn`
  returned : Option Error → Pc

-- One step of one caller, and what it does to the throttle. When a context ends is left open.
pub data Move {ℓ} {S : Type ℓ} (sched : Schedule S) (t : Throttle S)
    : Pc → Throttle S → Pc → Type ℓ where
  arrive : Move sched t idle t queued
  acquire : {n : ℕ} → t.slots ≡ some n → t.used < n → Move sched t queued (take_slot t) holding
  unbounded : t.slots ≡ none → Move sched t queued t holding
  give_up : {n : ℕ} (e : Error) → t.slots ≡ some n → Move sched t queued t (returned (some e))
  refuse : (e : Error) → Move sched t holding (give_slot t) (returned (some e))
  take_turn :
      (now : Time)
      → sched.wait ≡ none
      → Move sched t holding
          (next_slot now (sched.next t.pace).0 (record t { pace = (sched.next t.pace).1 })).1
          (paced (next_slot now (sched.next t.pace).0 t).0)
  granted :
      {wait : S → Option Error × S}
      → sched.wait ≡ some wait
      → (wait t.pace).0 ≡ none
      → Move sched t holding (record t { pace = (wait t.pace).1 }) running
  denied :
      {wait : S → Option Error × S} {e : Error}
      → sched.wait ≡ some wait
      → (wait t.pace).0 ≡ some e
      → Move sched t holding (give_slot (record t { pace = (wait t.pace).1 })) (returned (some e))
  wake : {d : Duration} → Move sched t (paced d) t running
  interrupt : {d : Duration} (e : Error) → Move sched t (paced d) (give_slot t) (returned (some e))
  finish : (result : Option Error) → Move sched t running (give_slot t) (returned result)

pub record System {ℓ} (S : Type ℓ) : Type ℓ where
  pub throttle : Throttle S
  pub pc : ℕ → Pc

-- Any one of `n` callers moves.
pub data Step {ℓ} {S : Type ℓ} (sched : Schedule S) (n : ℕ) (s : System S) : System S → Type ℓ where
  pick :
      (i : ℕ) {t : Throttle S} {p : Pc}
      → i < n
      → Move sched s.throttle (s.pc i) t p
      → Step sched n s (record { throttle = t; pc = put i p s.pc })

-- From a fresh throttle that nobody has called.
pub data Reach {ℓ} {S : Type ℓ} (sched : Schedule S) (n : ℕ) (t : Throttle S)
    : System S → Type ℓ where
  start : Reach sched n t (record { throttle = t; pc = λ _. idle })
  later : {s u : System S} → Reach sched n t s → Step sched n s u → Reach sched n t u

abbrev pub holds : Pc → ℕ
holds holding = 1
holds (paced d) = 1
holds running = 1
holds p = 0

abbrev pub runs : Pc → ℕ
runs running = 1
runs p = 0

module _ {ℓ} {S : Type ℓ} (sched : Schedule S) (n : ℕ) where
  -- The slots taken are those of the callers past the semaphore, and fit its capacity.
  record Inv (slots : Option ℕ) (s : System S) : Type 0 where
    capacity : s.throttle.slots ≡ slots
    counted : s.throttle.slots ≢ none → s.throttle.used ≡ sum_threads holds n s.pc
    bounded : (k : ℕ) → s.throttle.slots ≡ some k → s.throttle.used ≤ k

  Move-used :
      {t t' : Throttle S} {p p' : Pc}
      → Move sched t p t' p'
      → (t.slots ≢ none → holds p ≤ t.used)
      → (t'.slots ≡ t.slots)
        × (t.slots ≢ none → t'.used + holds p ≡ t.used + holds p')
        × ((k : ℕ) → t.slots ≡ some k → t.used ≤ k → t'.used ≤ k)
  unfolding next_slot
  Move-used arrive h = ground arith
  Move-used (acquire cap room) h = ground arith
  Move-used (unbounded none') h = ground arith
  Move-used (give_up e cap) h = ground arith
  Move-used (refuse e) h = ground arith
  Move-used (take_turn now plain) h = ground arith
  Move-used (granted w ok) h = ground arith
  Move-used (denied w e) h = ground arith
  Move-used wake h = ground arith
  Move-used (interrupt e) h = ground arith
  Move-used (finish r) h = ground arith

  Step-Inv : {slots : Option ℕ} {s u : System S} → Step sched n s u → Inv slots s → Inv slots u
  Step-Inv {s = s} (pick i {p = p} lt mv) inv =
      let (same, change, cap') =
        Move-used mv
          (λ some'. omega (arith, inv.counted some', le-sum_threads holds n i s.pc lt)) in
      record {
        capacity = same ∙ inv.capacity;
        counted = λ some'.
            let kept : s.throttle.slots ≢ none = λ e. some' (same ∙ e) in
            omega (arith, change kept, inv.counted kept, sum_threads-put holds n i p s.pc lt);
        bounded = λ k e. let e' = sym same ∙ e in cap' k e' (inv.bounded k e');
      }

  Reach-Inv : {t : Throttle S} {s : System S} → t.used ≡ 0 → Reach sched n t s → Inv t.slots s
  Reach-Inv fresh' start = record {
    capacity = refl;
    counted = λ _. omega (arith, fresh', sum_threads-eq_zero holds n (λ _. idle) (λ _. refl));
    bounded = λ k e. omega arith;
  }
  Reach-Inv fresh' (later r st) = Step-Inv st (Reach-Inv fresh' r)

  runs-le-holds : (p : Pc) → runs p ≤ holds p
  runs-le-holds running = omega arith
  runs-le-holds p = omega arith

  -- In every interleaving of any number of callers on a fresh throttle with a cap, at most as many
  -- calls of `fn` run as the cap allows, no more callers than that are past the semaphore, the paced
  -- ones counted, and the slots taken are exactly theirs.
  pub Reach-inflight :
      {t : Throttle S} {s : System S} {k : ℕ}
      → t.used ≡ 0
      → t.slots ≡ some k
      → Reach sched n t s
      → (sum_threads runs n s.pc ≤ k)
        × (sum_threads holds n s.pc ≤ k)
        × (s.throttle.used ≡ sum_threads holds n s.pc)
  Reach-inflight {s = s} {k = k} fresh' cap' r =
      let inv = Reach-Inv fresh' r in
      let here : s.throttle.slots ≡ some k = inv.capacity ∙ cap' in
      let counted : s.throttle.used ≡ sum_threads holds n s.pc = inv.counted (ground arith) in
      let bound = inv.bounded k here in
      (omega (arith, sum_threads-le runs holds n s.pc runs-le-holds), omega arith, counted)
