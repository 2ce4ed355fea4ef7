-- ===== src/Cache/ReadThrough/Callers/Outcomes.antt =====
-- cache/readthrough.go: a flight group of whose loads every one gives what the source holds.
use mathlib.Core.Option.{some-injective}
use albstractions.Prelude.{
  ℕ, ◌≡◌, refl, ◌⊎◌, inl, inr, true, false, Option, none, some, arith, ◌==◌, Bool-cases,
  Option-cases, nat_comparable, put,
}
use mathlib.Core.Path.{subst}
use albstractions.Errors.{Error}
use albstractions.Cache.Interface.{Tells}
use albstractions.Cache.ReadThrough.{ReadThrough, answer_of}
use albstractions.Cache.ReadThrough.Flight.{
  Outcome, Group, Pc, removing, closing, answered, join, finish, remove, close, wake, Move, arrive,
  enter, load, delete, release, wake_up, give_up, abandon,
}
use albstractions.Cache.ReadThrough.Callers.{in_group}

module _ {S T K V : Type 0} (r : ReadThrough S T K V) (held : Option V) where
  -- Of how a load ended: what it gave is what the source holds.
  abbrev pub Right : Outcome (Error ⊎ V) → Type 0
  Right (Outcome.returned res) = Tells held (answer_of r res)
  Right (Outcome.abandoned res) = Tells held (answer_of r res)
  Right Outcome.panicked = Unit
  Right Outcome.goexit = Unit

  abbrev pub RightPc : Pc (Error ⊎ V) → Type 0
  RightPc (removing c o) = Right o
  RightPc (closing c o) = Right o
  RightPc (answered o) = Right o
  RightPc p = Unit

  abbrev pub RightCalls : Group (Error ⊎ V) → Type 0
  RightCalls g = (c : ℕ) (o : Outcome (Error ⊎ V)) → (g.calls c).outcome ≡ some o → Right o

  wake-Right :
      (kept : Option (Outcome (Error ⊎ V)))
      → ((o : Outcome (Error ⊎ V)) → kept ≡ some o → Right o)
      → RightPc (wake kept)
  unfolding wake
  wake-Right none h = tt
  wake-Right (some (Outcome.returned res)) h = h (Outcome.returned res) refl
  wake-Right (some (Outcome.abandoned res)) h = tt
  wake-Right (some Outcome.panicked) h = tt
  wake-Right (some Outcome.goexit) h = tt

  -- A load that ends puts what it gave on record.
  pub finish-Right :
      (g : Group (Error ⊎ V)) (c : ℕ) (o : Outcome (Error ⊎ V))
      → Right o
      → RightCalls g
      → RightCalls (finish c o g)
  unfolding finish
  finish-Right g c o right calls a o' h = elim (Bool-cases (c == a)) [
    | inl own ↦ subst Right (some-injective _ _ (rw own at h)) right
    | inr other ↦ calls a o' (rw other at h)
  ]

  new_call-Right :
      (c : ℕ) (g : Group (Error ⊎ V))
      → RightCalls g
      → (a : ℕ) (o : Outcome (Error ⊎ V))
      → (put c (record { done = false; outcome = none }) g.calls a).outcome ≡ some o
      → Right o
  new_call-Right c g calls a o kept = elim (Bool-cases (c == a)) [
    | inl own ↦ absurd (ground (arith, kept, own))
    | inr other ↦ calls a o (rw other at kept)
  ]

  pub Move-Right :
      {g g' : Group (Error ⊎ V)} {p p' : Pc (Error ⊎ V)}
      → Move g p g' p'
      → in_group p ≡ true
      → RightCalls g
      → RightPc p
      → RightCalls g' × RightPc p'
  unfolding join remove close
  Move-Right arrive within calls h = (calls, tt)
  Move-Right {g = g} enter within calls h = elim (Option-cases g.entry) [
    | inl free ↦ rw (free, join) (new_call-Right g.next g calls, tt)
    | inr (d, led) ↦ rw (led, join) (calls, tt)
  ]
  Move-Right (load o) within calls h = absurd (cc)
  Move-Right delete within calls h = (calls, h)
  Move-Right {g = g} (release {c} {o}) within calls h = (
    (λ a o' kept. elim (Bool-cases (c == a)) [
      | inl own ↦ calls c o' (rw own at kept)
      | inr other ↦ calls a o' (rw other at kept)
    ]),
    h,
  )
  Move-Right {g = g} (wake_up {c} done) within calls h =
      (calls, wake-Right (g.calls c).outcome (calls c))
  Move-Right give_up within calls h = (calls, tt)
  Move-Right (abandon done) within calls h = (calls, tt)
