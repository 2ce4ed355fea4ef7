-- ===== src/Throttle/Calls.antt =====
-- throttle/throttle.go: what one call of `Do` answers on each path, and what it leaves.
use albstractions.Prelude.{◌≡◌, ◌≢◌, ◌⊎◌, true, false, Option, none, some, arith, nat_comparable}
use albstractions.Errors.{Error}
use albstractions.Throttle.{Schedule, Throttle, World, next_slot, pace, do_paced, do_call}

module _ {ℓ} {S : Type ℓ} (sched : Schedule S) (w : World) (result : Option Error)
    (t : Throttle S) where
  -- Whether the call gets past its wait for a slot and the check of the context.
  abbrev pub Proceeds : Type 0
  Proceeds = ((t.slots ≡ none) ⊎ (w.acquires ≡ true)) × (w.done_before ≡ false)

  -- If `fn` ran, `Do` returns its result; if it did not, `Do` returns an error.
  pub do_call-called :
      (((do_call sched w result t).called ≡ true) × ((do_call sched w result t).err ≡ result))
      ⊎ (((do_call sched w result t).called ≡ false) × ((do_call sched w result t).err ≢ none))
  unfolding do_call do_paced
  do_call-called = ground arith

  -- Every path gives the slot back that it took, and leaves the number of slots alone.
  do_call-used :
      ((do_call sched w result t).throttle.used ≡ t.used)
      × ((do_call sched w result t).throttle.slots ≡ t.slots)
  unfolding do_call do_paced pace next_slot
  do_call-used = ground arith

  -- A caller that is cancelled before it has a slot, or right after, takes no turn: the cadence and
  -- the schedule are as before, and `fn` does not run.
  do_call-refused :
      ((t.slots ≢ none) × (w.acquires ≡ false)) ⊎ (w.done_before ≡ true)
      → ((do_call sched w result t).called ≡ false)
        × ((do_call sched w result t).err ≡ some w.reason)
        × (do_call sched w result t).throttle ≡ t
  unfolding do_call do_paced
  do_call-refused h = ground arith

  -- A caller that gets past both takes its turn once and for all: where the schedule is no `Waiter`,
  -- the delay is drawn and the cadence advances by it, whether or not the paced wait is cut short.
  do_call-turn :
      sched.wait ≡ none
      → Proceeds
      → ((do_call sched w result t).throttle.pace ≡ (sched.next t.pace).1)
        × ((do_call sched w result t).throttle.next_allowed
            ≡ (next_slot w.now (sched.next t.pace).0 t).1.next_allowed)
  unfolding do_call do_paced pace next_slot
  do_call-turn h p = ground arith
