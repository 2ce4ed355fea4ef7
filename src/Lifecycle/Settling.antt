-- ===== src/Lifecycle/Settling.antt =====
-- lifecycle/lifecycle.go: what one step of a thread does to a group that is settled, frozen or ended.

use albstractions.Prelude.{
  ℕ, ◌+◌, ◌≡◌, refl, ◌⊎◌, inl, inr, Bool, true, false, not, ◌||◌, none, some, arith, if◌then◌else◌,
  nat_comparable,
}
use albstractions.Errors.{Error, unexpected_exit}
use albstractions.Lifecycle.{
  Body, Group, Once, fresh, entered, complete, register, require, defer, serve_teardown, serve_body,
  is_context_err, shutting_down, record_cause, cancel, complete_once, handle, collect, begin_run,
  close_registration,
}
use albstractions.Lifecycle.Steps.{
  Pc, leaving, handling, stopping, cancelling, completing, exited, judge, leave, Parent, Move,
  launch, return_fn, test_error, test_context, call_handler, append_error, first, cancel_context,
  finish, second, call_shutdown, parent_ends, signalled, call_require, call_serve, call_serve_body,
  call_defer, call_run, run_wakes,
}

abbrev pub is_fresh : Once → Bool
is_fresh fresh = true
is_fresh o = false

abbrev pub is_complete : Once → Bool
is_complete complete = true
is_complete o = false

abbrev pub entries : Once → ℕ
entries entered = 1
entries o = 0

abbrev pub in_once : Pc → ℕ
in_once cancelling = 1
in_once completing = 1
in_once p = 0

-- Before the once of `shutdown` the context is not done and there is no cause; in it, past its critical
-- section, registration is closed; after it, the context is done too.
abbrev pub Settled : Group → Type 0
Settled g =
    ((g.shutdown_once ≡ fresh) × (g.ended ≡ false) × (g.cause ≡ none))
    ⊎ ((g.shutdown_once ≡ entered) × (g.stopped ≡ true))
    ⊎ ((g.shutdown_once ≡ complete) × (g.ended ≡ true) × (g.stopped ≡ true))

-- What registration and shutdown leave alone once shutdown has begun.
abbrev pub Frozen : Group → Group → Type 0
Frozen g g' =
    (is_fresh g'.shutdown_once ≡ false)
    × (g'.cause ≡ g.cause)
    × (g'.teardowns ≡ g.teardowns)
    × (g'.server_teardowns ≡ g.server_teardowns)

-- A goroutine that has exited did so with the context done, and so does who ends the once.
abbrev pub Left : Bool → Pc → Type 0
Left ended exited = ended ≡ true
Left ended completing = ended ≡ true
Left ended p = Unit

register-Settled : (b : Body) (g : Group) → Settled g → Settled (register b g)
unfolding register
register-Settled b g h = ground arith

in_once-stopped : (g : Group) → g.shutdown_once ≡ entered → Settled g → g.stopped ≡ true
in_once-stopped g e (inl (new, _, _)) = absurd (ground arith)
in_once-stopped g e (inr (inl (_, shut))) = shut
in_once-stopped g e (inr (inr (over, _, _))) = absurd (ground arith)

pub complete-ended : (g : Group) → g.shutdown_once ≡ complete → Settled g → g.ended ≡ true
complete-ended g e (inl (new, _, _)) = absurd (ground arith)
complete-ended g e (inr (inl (inside, _))) = absurd (ground arith)
complete-ended g e (inr (inr (_, over, _))) = over

pub Move-Settled :
    {parent : Parent} {g g' : Group} {p p' : Pc}
    → Move parent g p g' p'
    → Settled g
    → Left g.ended p
    → Settled g'
unfolding require serve_teardown serve_body defer handle collect begin_run close_registration
    record_cause cancel complete_once
Move-Settled (launch e) h l = h
Move-Settled (return_fn raw) h l = h
Move-Settled test_error h l = h
Move-Settled test_context h l = h
Move-Settled {g = g} call_handler h l = ground arith
Move-Settled append_error h l = h
Move-Settled (first e) h l = inr (inl (refl, refl))
Move-Settled {g = g} (cancel_context e) h l = inr (inl (e, in_once-stopped g e h))
Move-Settled {g = g} (finish e) h l = inr (inr (refl, l, in_once-stopped g e h))
Move-Settled (second e) h l = h
Move-Settled call_shutdown h l = h
Move-Settled (parent_ends _ _ _) h l = h
Move-Settled (signalled _ _) h l = h
Move-Settled {g = g} (call_require name) h l = register-Settled _ g h
Move-Settled {g = g} (call_serve name) h l = ground arith
Move-Settled {g = g} (call_serve_body name) h l = register-Settled _ g h
Move-Settled {g = g} (call_defer t c e) h l = ground arith
Move-Settled (call_run e) h l = h
Move-Settled {g = g} (run_wakes e) h l = elim h [
  | inl (new, on, _) ↦ absurd (cc)
  | inr (inl (inside, _)) ↦ inr (inl (inside, refl))
  | inr (inr (over, _, _)) ↦ inr (inr (over, e, refl))
]

-- Every step from a group whose shutdown has begun.
pub Move-Frozen :
    {parent : Parent} {g g' : Group} {p p' : Pc}
    → Move parent g p g' p'
    → Settled g
    → is_fresh g.shutdown_once ≡ false
    → Frozen g g'
unfolding register require serve_teardown serve_body defer handle collect begin_run
    close_registration record_cause cancel complete_once
Move-Frozen {g = g} (launch e) h f = (f, refl, refl, refl)
Move-Frozen {g = g} (return_fn raw) h f = (f, refl, refl, refl)
Move-Frozen {g = g} test_error h f = (f, refl, refl, refl)
Move-Frozen {g = g} test_context h f = (f, refl, refl, refl)
Move-Frozen {g = g} call_handler h f = ground arith
Move-Frozen {g = g} append_error h f = (f, refl, refl, refl)
Move-Frozen {g = g} (first e) h f = absurd (ground arith)
Move-Frozen {g = g} (cancel_context e) h f = (f, refl, refl, refl)
Move-Frozen {g = g} (finish e) h f = (refl, refl, refl, refl)
Move-Frozen {g = g} (second e) h f = (f, refl, refl, refl)
Move-Frozen {g = g} call_shutdown h f = (f, refl, refl, refl)
Move-Frozen {g = g} (parent_ends _ _ _) h f = (f, refl, refl, refl)
Move-Frozen {g = g} (signalled _ _) h f = (f, refl, refl, refl)
Move-Frozen {g = g} (call_require name) h f = ground arith
Move-Frozen {g = g} (call_serve name) h f = ground arith
Move-Frozen {g = g} (call_serve_body name) h f = ground arith
Move-Frozen {g = g} (call_defer t c e) h f = ground arith
Move-Frozen {g = g} (call_run e) h f = (f, refl, refl, refl)
Move-Frozen {g = g} (run_wakes e) h f = (f, refl, refl, refl)

-- Of the once: how many threads are in it.
pub Move-entries :
    {parent : Parent} {g g' : Group} {p p' : Pc}
    → Move parent g p g' p'
    → entries g'.shutdown_once + in_once p ≡ entries g.shutdown_once + in_once p'
unfolding register require serve_teardown serve_body defer handle collect begin_run
    close_registration record_cause cancel complete_once judge leave
Move-entries (launch e) = refl
Move-entries (return_fn raw) = refl
Move-entries {g = g} (test_error {r = none}) = refl
Move-entries {g = g} (test_error {r = some e}) = ground arith
Move-entries {g = g} test_context = ground arith
Move-entries {g = g} call_handler = ground arith
Move-entries append_error = refl
Move-entries {g = g} (first e) = ground arith
Move-entries {g = g} (cancel_context e) = ground arith
Move-entries {g = g} (finish e) = ground arith
Move-entries (second e) = refl
Move-entries call_shutdown = refl
Move-entries (parent_ends _ _ _) = refl
Move-entries (signalled _ _) = refl
Move-entries {g = g} (call_require name) = ground arith
Move-entries {g = g} (call_serve name) = ground arith
Move-entries {g = g} (call_serve_body name) = ground arith
Move-entries {g = g} (call_defer t c e) = ground arith
Move-entries (call_run e) = refl
Move-entries (run_wakes e) = refl

judge-Left :
    (ended parent_ended : Bool) (g : Group) (b : Body) (e : Error)
    → Left ended (judge parent_ended g b (some e))
unfolding judge
judge-Left ended parent_ended g b e =
    elim (not (shutting_down parent_ended g) || not (is_context_err e))
      as (λ c. Left ended (if c then handling b e else leaving b)) [ true ↦ tt | false ↦ tt ]

leave-Left : (g : Group) (b : Body) → Left g.ended (leave g b)
unfolding leave
leave-Left g b =
    elim g.ended
      as (λ c. Left c (if not c then stopping (some (unexpected_exit b.kind b.name)) else exited)) [
        | true ↦ refl
        | false ↦ tt
      ]

pub Move-ended :
    {parent : Parent} {g g' : Group} {p p' : Pc}
    → Move parent g p g' p'
    → Settled g
    → Left g.ended p
    → ((g'.ended ≡ g.ended) ⊎ (g'.ended ≡ true)) × Left g'.ended p'
unfolding register require serve_teardown serve_body defer handle collect begin_run
    close_registration record_cause cancel complete_once judge leave
Move-ended (launch e) h l = (inl refl, tt)
Move-ended (return_fn raw) h l = (inl refl, tt)
Move-ended {g = g} (test_error {r = none}) h l = (inl refl, tt)
Move-ended {parent = parent} {g = g} (test_error {b = b} {r = some e}) h l =
    (inl refl, judge-Left g.ended parent.ended g b e)
Move-ended {g = g} (test_context {b = b}) h l = (inl refl, leave-Left g b)
Move-ended {g = g} call_handler h l = (ground arith, tt)
Move-ended append_error h l = (inl refl, tt)
Move-ended {g = g} (first e) h l = (inl refl, tt)
Move-ended {g = g} (cancel_context e) h l = (inr refl, refl)
Move-ended {g = g} (finish e) h l = (inl refl, l)
Move-ended {g = g} (second e) h l = (inl refl, complete-ended g e h)
Move-ended call_shutdown h l = (inl refl, tt)
Move-ended (parent_ends _ _ _) h l = (inl refl, tt)
Move-ended (signalled _ _) h l = (inl refl, tt)
Move-ended {g = g} (call_require name) h l = (ground arith, tt)
Move-ended {g = g} (call_serve name) h l = (ground arith, tt)
Move-ended {g = g} (call_serve_body name) h l = (ground arith, tt)
Move-ended {g = g} (call_defer t c e) h l = (ground arith, tt)
Move-ended (call_run e) h l = (inl refl, tt)
Move-ended (run_wakes e) h l = (inl refl, tt)

pub Left-later : (old new : Bool) (p : Pc) → (new ≡ old) ⊎ (new ≡ true) → Left old p → Left new p
Left-later old new exited h l = ground arith
Left-later old new completing h l = ground arith
Left-later old new p h l = tt
