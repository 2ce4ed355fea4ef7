-- ===== src/Throttle/Transport.antt =====
-- throttle/roundtripper.go: `RoundTripper`.
use albstractions.Prelude.{
  ℕ, ◌+◌, ◌≡◌, ◌≢◌, ◌⊎◌, Bool, not, ◌&&◌, Option, none, arith, if◌then◌else◌, nat_comparable,
}
use albstractions.Errors.{Error}
use albstractions.Throttle.{Schedule, Throttle, World, do_call}
use albstractions.Throttle.Calls.{do_call-called}

-- What `RoundTrip` answers, how often it closed the request's body and handed it to the inner
-- transport, and the throttle.
pub record Trip {ℓ κ} (R : Type κ) (S : Type ℓ) : Type (ℓ ⊔ κ) where
  pub response : Option R
  pub err : Option Error
  pub closes : ℕ
  pub forwards : ℕ
  pub throttle : Throttle S

-- `RoundTrip`, where `inner` is what the inner transport answers if it is asked, and `has_body`
-- whether the request has a body.
unfoldable pub round_trip {ℓ κ} :
    {R : Type κ} {S : Type ℓ}
    → Schedule S
    → World
    → Option R × Option Error
    → Bool
    → Throttle S
    → Trip R S
round_trip sched w inner has_body t =
    let d = do_call sched w inner.1 t in
    record {
      response = if d.called then inner.0 else none;
      err = d.err;
      closes = if not d.called && has_body then 1 else 0;
      forwards = if d.called then 1 else 0;
      throttle = d.throttle;
    }

-- The body of a request is closed or handed on, once, on every path; a request that is not
-- forwarded has an error and no response, and one that is has the inner transport's answer.
pub round_trip-body {ℓ κ} :
    {R : Type κ} {S : Type ℓ} (sched : Schedule S) (w : World) (inner : Option R × Option Error)
    (has_body : Bool) (t : Throttle S)
    → ((round_trip sched w inner has_body t).closes
          + (if has_body then (round_trip sched w inner has_body t).forwards else 0)
        ≡ (if has_body then 1 else 0))
      × ((((round_trip sched w inner has_body t).forwards ≡ 0)
            × ((round_trip sched w inner has_body t).err ≢ none)
            × ((round_trip sched w inner has_body t).response ≡ none))
          ⊎ (((round_trip sched w inner has_body t).forwards ≡ 1)
              × ((round_trip sched w inner has_body t).err ≡ inner.1)
              × ((round_trip sched w inner has_body t).response ≡ inner.0)))
unfolding round_trip
round_trip-body sched w inner has_body t =
    let answer = do_call-called sched w inner.1 t in (ground arith, ground (arith, answer))
