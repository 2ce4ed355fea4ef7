-- ===== src/Schedule/TokenBucket.antt =====
-- schedule/tokenbucket.go. The limiter is a parameter; it shows which of the optional methods it
-- has.
use mathlib.Core.Path.{subst}
use mathlib.Core.Option.{some-injective}
use albstractions.Prelude.{
  ◌≡◌, refl, ◌⊎◌, inl, inr, Bool, true, false, not, ◌&&◌, ◌||◌, Option, none, some, arith,
  if◌then◌else◌, Option-cases, nat_comparable, ℤ, pos, ◌≤ℤ◌, leb_ℤ, eqb_ℤ,
}
use albstractions.Time.{Duration, max_duration}
use albstractions.Errors.{
  canceled, deadline_exceeded, refused, Error, sentinel, wrap, wrap_both, is,
}

-- A reservation: `ok`, `delay`, and `cancel` on the limiter's state if it has that method.
pub record Reservation {ℓ} (L : Type ℓ) : Type ℓ where
  pub ok : Bool
  pub delay : Duration
  pub cancel : Option (L → L)

-- `wait` and `burst` are there if the limiter has them.
pub record Limiter {ℓ} (L : Type ℓ) : Type ℓ where
  pub reserve : L → Reservation L × L
  pub wait : Option (L → Option Error × L)
  pub burst : Option ℤ

-- One call of `Wait` as its context answers: `ctx.Err()` at the start, whether the `select` takes
-- the context's case, `ctx.Err()` then, and whether it has a deadline.
pub record World : Type 0 where
  pub ended : Option Error
  pub interrupted : Bool
  pub reason : Error
  pub has_deadline : Bool

abbrev pub is_context_error : Error → Bool
is_context_error e = is e canceled || is e deadline_exceeded

-- The kinds of error that `Wait` documents.
abbrev pub IsKnown : Error → Type 0
IsKnown e = (is e canceled || is e deadline_exceeded || is e refused) ≡ true

module _ {ℓ} {L : Type ℓ} where
  unfoldable pub next : Limiter L → L → Duration × L
  next lim l = let (r, l') = lim.reserve l in (if not r.ok then max_duration else r.delay, l')

  abbrev pub has_zero_burst : Limiter L → Bool
  has_zero_burst lim = elim lim.burst [ none ↦ false | some b ↦ eqb_ℤ b (pos 0) ]

  -- `waitErr`.
  unfoldable pub wait_err : World → Limiter L → Option Error → Option Error
  wait_err w lim none = none
  wait_err w lim (some e) =
      if is_context_error e
      then some e
      else if has_zero_burst lim
      then some (wrap_both (sentinel refused) e)
      else if w.has_deadline
      then some (wrap "schedule" (wrap_both (sentinel deadline_exceeded) e))
      else some (wrap_both (sentinel refused) e)

  -- `Wait` by a reservation.
  unfoldable pub wait_reserved : World → Limiter L → L → Option Error × L
  wait_reserved w lim l =
      let (r, l') = lim.reserve l in
      if not r.ok
      then (some (sentinel refused), l')
      else if leb_ℤ r.delay (pos 0)
      then (none, l')
      else if not w.interrupted
      then (none, l')
      else (some w.reason, elim r.cancel [ none ↦ l' | some cancel ↦ cancel l' ])

  unfoldable pub wait : World → Limiter L → L → Option Error × L
  wait w lim l = elim w.ended [
    | some e ↦ (some e, l)
    | none ↦ elim lim.wait [
      | some own ↦ let (err, l') = own l in (wait_err w lim err, l')
      | none ↦ wait_reserved w lim l
    ]
  ]

  wait_err-IsKnown :
      (w : World) (lim : Limiter L) (o : Option Error) (e : Error)
      → wait_err w lim o ≡ some e
      → IsKnown e
  unfolding wait_err is
  wait_err-IsKnown w lim none e h = absurd (cc)
  wait_err-IsKnown w lim (some f) e h = ground arith

  wait_err-none :
      (w : World) (lim : Limiter L) (o : Option Error) → wait_err w lim o ≡ none → o ≡ none
  unfolding wait_err
  wait_err-none w lim none h = refl
  wait_err-none w lim (some f) h = absurd (ground arith)

  wait_reserved-IsKnown :
      (w : World) (lim : Limiter L) (l : L) (e : Error)
      → IsKnown w.reason
      → (wait_reserved w lim l).0 ≡ some e
      → IsKnown e
  unfolding wait_reserved is
  wait_reserved-IsKnown w lim l e reason h = ground arith

  -- Every error of `Wait` matches a context error or `ErrRefused`, if the context's own do.
  wait-IsKnown :
      (w : World) (lim : Limiter L) (l : L) (e : Error)
      → ((f : Error) → w.ended ≡ some f → IsKnown f)
      → IsKnown w.reason
      → (wait w lim l).0 ≡ some e
      → IsKnown e
  unfolding wait
  wait-IsKnown w lim l e known reason h = elim (Option-cases w.ended) [
    | inr (f, over) ↦ subst IsKnown (some-injective _ _ (rw (over, wait) at h)) (known f over)
    | inl on ↦ elim (Option-cases lim.wait) [
      | inr (own, has) ↦ wait_err-IsKnown w lim (own l).0 e (rw (on, has, wait) at h)
      | inl plain ↦ wait_reserved-IsKnown w lim l e reason (rw (on, plain, wait) at h)
    ]
  ]

  -- `Wait` fails closed: it returns nil only if the context had not ended before, and the limiter's
  -- own wait succeeded or, without one, the reservation was granted and its delay waited for.
  wait_closed :
      (w : World) (lim : Limiter L) (l : L)
      → (wait w lim l).0 ≡ none
      → (w.ended ≡ none)
        × (((own : L → Option Error × L) × (lim.wait ≡ some own) × ((own l).0 ≡ none))
            ⊎ ((lim.wait ≡ none)
                × ((lim.reserve l).0.ok ≡ true)
                × (((lim.reserve l).0.delay ≤ℤ pos 0) ⊎ (w.interrupted ≡ false))))
  unfolding wait wait_reserved
  wait_closed w lim l h = elim (Option-cases w.ended) [
    | inr (e, over) ↦ absurd (ground arith)
    | inl on ↦ elim (Option-cases lim.wait) [
      | inr (own, has) ↦
          (on, inl (own, has, wait_err-none w lim (own l).0 (rw (on, has, wait) at h)))
      | inl plain ↦ (on, inr (ground arith))
    ]
  ]

  -- A caller cancelled during its sleep hands the reservation back, if that can be cancelled, and in
  -- no other case does it touch the limiter again.
  wait_reserved-cancel :
      (w : World) (lim : Limiter L) (l : L)
      → (wait_reserved w lim l).1 ≡ (
          if (lim.reserve l).0.ok && not (leb_ℤ (lim.reserve l).0.delay (pos 0)) && w.interrupted
          then elim (lim.reserve l).0.cancel [
            | none ↦ (lim.reserve l).1
            | some c ↦ c (lim.reserve l).1
          ]
          else (lim.reserve l).1)
  unfolding wait_reserved
  wait_reserved-cancel w lim l = ground arith
