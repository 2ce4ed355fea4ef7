-- ===== src/Throttle.antt =====
-- throttle/throttle.go and throttle/roundtripper.go. A call of `Do` takes what the world answers at
-- each of its waits; the schedule is a parameter with its state.
pub mod Cadence
pub mod Calls
pub mod Transport
pub mod Inflight
use albstractions.Prelude.{
  [], ℕ, ◌+◌, ◌-◌, Bool, true, false, ◌||◌, Option, none, some, List, ◌∷◌, if◌then◌else◌,
  nat_comparable, ℤ, pos, negsuc, pos_part, ltb_ℤ, leb_ℤ, eqb_ℤ,
}
use albstractions.Time.{Time, Duration, zero_time, before, add, sub}
use albstractions.Errors.{Error}

-- A schedule: `wait` is there if it is a `Waiter`, with what `Wait` answers and leaves.
pub record Schedule {ℓ} (S : Type ℓ) : Type ℓ where
  pub next : S → Duration × S
  pub wait : Option (S → Option Error × S)

-- `slots` is the capacity of the channel `sem`, `none` if it is nil, and `used` how many slots are
-- taken; `pace` is the schedule's state.
pub record Throttle {ℓ} (S : Type ℓ) : Type ℓ where
  pub next_allowed : Time
  pub slots : Option ℕ
  pub used : ℕ
  pub pace : S

-- `WithMaxInflight(n)`: the new `sem`; the outer `none` is a panic.
unfoldable pub with_max_inflight : ℤ → Option (Option ℕ)
with_max_inflight n =
    if eqb_ℤ n (pos 0) || ltb_ℤ n (negsuc 0)
    then none
    else if eqb_ℤ n (negsuc 0)
    then some none
    else some (some (pos_part n))

-- `New`, where the last option that was given sets `sem`; a nil schedule panics.
unfoldable pub new {ℓ} : {S : Type ℓ} → Option S → List (Option ℕ) → Option (Throttle S)
new none opts = none
new (some s) opts =
    some (record { next_allowed = zero_time; slots = last (some 1) opts; used = 0; pace = s })
  where
    last : Option ℕ → List (Option ℕ) → Option ℕ
    last slots [] = slots
    last slots (o ∷ os) = last o os

-- One call of `Do` as the world answers it: whether the first `select` takes the semaphore's case
-- (else the context's), whether the context is done at the check after it, the instant that
-- `nextSlot` reads, whether the context is done where `sleep` has nothing to wait for, and whether
-- its `select` takes the context's case.
pub record World : Type 0 where
  pub acquires : Bool
  pub done_before : Bool
  pub now : Time
  pub done_at_once : Bool
  pub interrupted : Bool
  pub reason : Error

unfoldable pub sleep : World → Duration → Option Error
sleep w d =
    if leb_ℤ d (pos 0)
    then (if w.done_at_once then some w.reason else none)
    else if w.interrupted
    then some w.reason
    else none

-- What `Do` answers, whether it called `fn`, and the throttle with the slot taken and given back.
pub record Done {ℓ} (S : Type ℓ) : Type ℓ where
  pub err : Option Error
  pub called : Bool
  pub throttle : Throttle S

module _ {ℓ} {S : Type ℓ} where
  -- `nextSlot`: how long the caller waits.
  unfoldable pub next_slot : Time → Duration → Throttle S → Duration × Throttle S
  next_slot now delay t =
      let allowed = if before t.next_allowed now then now else t.next_allowed in
      (sub allowed now, record t { next_allowed = add allowed delay })

  -- `pace`.
  unfoldable pub pace : Schedule S → World → Throttle S → Option Error × Throttle S
  pace sched w t = elim sched.wait [
    | some wait ↦ let (err, s) = wait t.pace in (err, record t { pace = s })
    | none ↦
        let (delay, s) = sched.next t.pace in
        let (d, t') = next_slot w.now delay (record t { pace = s }) in (sleep w d, t')
  ]

  abbrev pub take_slot : Throttle S → Throttle S
  take_slot t = elim t.slots [ none ↦ t | some n ↦ record t { used = t.used + 1 } ]

  abbrev pub give_slot : Throttle S → Throttle S
  give_slot t = elim t.slots [ none ↦ t | some n ↦ record t { used = t.used - 1 } ]

  -- `Do` from the moment that the slot is taken.
  unfoldable pub do_paced : Schedule S → World → Option Error → Throttle S → Done S
  do_paced sched w result t =
      if w.done_before
      then record { err = some w.reason; called = false; throttle = t }
      else (let (err, t') = pace sched w t in
          elim err [
            | some e ↦ record { err = some e; called = false; throttle = t' }
            | none ↦ record { err = result; called = true; throttle = t' }
          ])

  -- `Do` by one caller: `result` is what `fn` returns if it is called.
  unfoldable pub do_call : Schedule S → World → Option Error → Throttle S → Done S
  do_call sched w result t = elim t.slots [
    | none ↦ do_paced sched w result t
    | some n ↦
        if w.acquires
        then (let d = do_paced sched w result (take_slot t) in
            record d { throttle = give_slot d.throttle })
        else record { err = some w.reason; called = false; throttle = t }
  ]
