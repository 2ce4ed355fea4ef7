-- ===== src/Lifecycle/Explanations.antt =====
-- lifecycle/lifecycle.go: where the causes come from that threads bring to `shutdown`.

use mathlib.Core.Path.{subst}
use albstractions.Prelude.{
  sym, ◌≢◌, Bool-cases, ◌≡◌, refl, ◌⊎◌, inl, inr, true, false, not, ◌||◌, Option, none, some, List,
  [], ◌∷◌, ◌++◌, arith, if◌then◌else◌, nat_comparable,
}
use albstractions.Errors.{Error, sentinel, signal, of_process, unexpected_exit}
use albstractions.Lifecycle.{
  Body, Group, register, require, defer, serve_teardown, serve_body, is_context_err, shutting_down,
  record_cause, cancel, complete_once, handle, collect, begin_run, close_registration,
}
use albstractions.Lifecycle.Steps.{
  Pc, returned, collecting, leaving, handling, stopping, exited, judge, leave, Parent, Move, launch,
  return_fn, test_error, test_context, call_handler, append_error, first, cancel_context, finish,
  second, call_shutdown, parent_ends, signalled, call_require, call_serve, call_serve_body,
  call_defer, call_run, run_wakes,
}

-- The error is among those collected.
abbrev pub Collected : Error → List Error → Type 0
Collected e [] = ⊥
Collected e (x ∷ xs) = (x ≡ e) ⊎ Collected e xs

pub Collected-append :
    (e f : Error) (errs : List Error) → Collected e errs → Collected e (errs ++ f ∷ [])
Collected-append e f [] h = absurd h
Collected-append e f (x ∷ errs) (inl here) = inl here
Collected-append e f (x ∷ errs) (inr there) = inr (Collected-append e f errs there)

Collected-last : (e : Error) (errs : List Error) → Collected e (errs ++ e ∷ [])
Collected-last e [] = inl refl
Collected-last e (x ∷ errs) = inr (Collected-last e errs)

pub leave-ended : (g : Group) (b : Body) → g.ended ≡ true → leave g b ≡ exited
unfolding leave
leave-ended g b over = rw over refl

pub leave-open :
    (g : Group) (b : Body)
    → g.ended ≡ false
    → leave g b ≡ stopping (some (unexpected_exit b.kind b.name))
unfolding leave
leave-open g b on = rw on refl

-- Where a cause that a thread brings to `shutdown` comes from, of the group before and after the step
-- that takes it there: a call of `Shutdown`, an error that the thread was collecting, the end of a
-- goroutine while the group runs, a signal, or the end of the parent's context.
pub data Origin (parent : Parent) (g g' : Group) (p : Pc) : Option Error → Type 0 where
  from_call : Origin parent g g' p none
  from_error :
      (b : Body) (e : Error)
      → p ≡ collecting b e
      → Collected e g'.errs
      → Origin parent g g' p (some (of_process b.kind b.name e))
  from_exit :
      (b : Body)
      → p ≡ leaving b
      → g.ended ≡ false
      → Origin parent g g' p (some (unexpected_exit b.kind b.name))
  from_signal :
      g.started ≡ true → g.cfg.signals ≢ [] → Origin parent g g' p (some (sentinel signal))
  from_parent :
      g.cfg.has_parent ≡ true → parent.ended ≡ true → Origin parent g g' p (some parent.cause)

-- Where a thread was before the steps of `collectError` and `shutdown`.
abbrev pub Comes : Parent → Group → Group → Pc → Pc → Type 0
Comes parent g g' p (handling b e) = p ≡ returned b (some e)
Comes parent g g' p (collecting b e) = p ≡ handling b e
Comes parent g g' p (stopping c) = Origin parent g g' p c
Comes parent g g' p q = Unit

judge-Comes :
    (parent : Parent) (g g' : Group) (b : Body) (e : Error)
    → Comes parent g g' (returned b (some e)) (judge parent.ended g b (some e))
unfolding judge
judge-Comes parent g g' b e =
    elim (not (shutting_down parent.ended g) || not (is_context_err e))
      as (λ c. Comes parent g g' (returned b (some e)) (if c then handling b e else leaving b)) [
        | true ↦ refl
        | false ↦ tt
      ]

leave-Comes :
    (parent : Parent) (g g' : Group) (b : Body) → Comes parent g g' (leaving b) (leave g b)
leave-Comes parent g g' b = elim (Bool-cases g.ended) [
  | inl over ↦ subst (Comes parent g g' (leaving b)) (sym (leave-ended g b over)) tt
  | inr on ↦ subst (Comes parent g g' (leaving b)) (sym (leave-open g b on)) (from_exit b refl on)
]

pub Move-Comes :
    {parent : Parent} {g g' : Group} {p p' : Pc} → Move parent g p g' p' → Comes parent g g' p p'
unfolding register require serve_teardown serve_body defer handle collect begin_run
    close_registration record_cause cancel complete_once judge
Move-Comes {parent = parent} {g = g} (launch e) = tt
Move-Comes {parent = parent} {g = g} (return_fn raw) = tt
Move-Comes {parent = parent} {g = g} (test_error {r = none}) = tt
Move-Comes {parent = parent} {g = g} (test_error {b = b} {r = some e}) = judge-Comes parent g g b e
Move-Comes {parent = parent} {g = g} (test_context {b = b}) = leave-Comes parent g g b
Move-Comes {parent = parent} {g = g} (call_handler {b = b} {e = e}) = refl
Move-Comes {parent = parent} {g = g} (append_error {b = b} {e = e}) =
    from_error b e refl (Collected-last e g.errs)
Move-Comes {parent = parent} {g = g} (first {c = c} e) = tt
Move-Comes {parent = parent} {g = g} (cancel_context e) = tt
Move-Comes {parent = parent} {g = g} (finish e) = tt
Move-Comes {parent = parent} {g = g} (second e) = tt
Move-Comes {parent = parent} {g = g} call_shutdown = from_call
Move-Comes {parent = parent} {g = g} (parent_ends began had over) = from_parent had over
Move-Comes {parent = parent} {g = g} (signalled began some_signals) = from_signal began some_signals
Move-Comes {parent = parent} {g = g} (call_require name) = tt
Move-Comes {parent = parent} {g = g} (call_serve name) = tt
Move-Comes {parent = parent} {g = g} (call_serve_body name) = tt
Move-Comes {parent = parent} {g = g} (call_defer t c e) = tt
Move-Comes {parent = parent} {g = g} (call_run e) = tt
Move-Comes {parent = parent} {g = g} (run_wakes e) = tt

-- A step appends one error, or none.
pub data Grown (errs new : List Error) : Type 0 where
  same : new ≡ errs → Grown errs new
  one : (e : Error) → new ≡ errs ++ e ∷ [] → Grown errs new

pub Move-Grown :
    {parent : Parent} {g g' : Group} {p p' : Pc} → Move parent g p g' p' → Grown g.errs g'.errs
unfolding register require serve_teardown serve_body defer handle collect begin_run
    close_registration record_cause cancel complete_once judge leave
Move-Grown {parent = parent} {g = g} (launch e) = same refl
Move-Grown {parent = parent} {g = g} (return_fn raw) = same refl
Move-Grown {parent = parent} {g = g} (test_error {r = none}) = same refl
Move-Grown {parent = parent} {g = g} (test_error {b = b} {r = some e}) = same refl
Move-Grown {parent = parent} {g = g} (test_context {b = b}) = same refl
Move-Grown {parent = parent} {g = g} call_handler = same (ground arith)
Move-Grown {parent = parent} {g = g} (append_error {b = b} {e = e}) = one e refl
Move-Grown {parent = parent} {g = g} (first {c = c} e) = same refl
Move-Grown {parent = parent} {g = g} (cancel_context e) = same refl
Move-Grown {parent = parent} {g = g} (finish e) = same refl
Move-Grown {parent = parent} {g = g} (second e) = same refl
Move-Grown {parent = parent} {g = g} call_shutdown = same refl
Move-Grown {parent = parent} {g = g} (parent_ends _ _ _) = same refl
Move-Grown {parent = parent} {g = g} (signalled _ _) = same refl
Move-Grown {parent = parent} {g = g} (call_require name) = same (ground arith)
Move-Grown {parent = parent} {g = g} (call_serve name) = same (ground arith)
Move-Grown {parent = parent} {g = g} (call_serve_body name) = same (ground arith)
Move-Grown {parent = parent} {g = g} (call_defer t c e) = same (ground arith)
Move-Grown {parent = parent} {g = g} (call_run e) = same refl
Move-Grown {parent = parent} {g = g} (run_wakes e) = same refl

-- The cause changes only where a thread that is at `shutdown` brings it.
pub Move-cause :
    {parent : Parent} {g g' : Group} {p p' : Pc}
    → Move parent g p g' p'
    → (g'.cause ≡ g.cause) ⊎ (p ≡ stopping g'.cause)
unfolding register require serve_teardown serve_body defer handle collect begin_run
    close_registration record_cause cancel complete_once judge leave
Move-cause {parent = parent} {g = g} (launch e) = inl refl
Move-cause {parent = parent} {g = g} (return_fn raw) = inl refl
Move-cause {parent = parent} {g = g} (test_error {r = none}) = inl refl
Move-cause {parent = parent} {g = g} (test_error {b = b} {r = some e}) = inl refl
Move-cause {parent = parent} {g = g} (test_context {b = b}) = inl refl
Move-cause {parent = parent} {g = g} (call_handler {b = b} {e = e}) = inl (ground arith)
Move-cause {parent = parent} {g = g} (append_error {b = b} {e = e}) = inl refl
Move-cause {parent = parent} {g = g} (first {c = c} e) = inr refl
Move-cause {parent = parent} {g = g} (cancel_context e) = inl refl
Move-cause {parent = parent} {g = g} (finish e) = inl refl
Move-cause {parent = parent} {g = g} (second e) = inl refl
Move-cause {parent = parent} {g = g} call_shutdown = inl refl
Move-cause {parent = parent} {g = g} (parent_ends began had over) = inl refl
Move-cause {parent = parent} {g = g} (signalled began some_signals) = inl refl
Move-cause {parent = parent} {g = g} (call_require name) = inl (ground arith)
Move-cause {parent = parent} {g = g} (call_serve name) = inl (ground arith)
Move-cause {parent = parent} {g = g} (call_serve_body name) = inl (ground arith)
Move-cause {parent = parent} {g = g} (call_defer t c e) = inl (ground arith)
Move-cause {parent = parent} {g = g} (call_run e) = inl refl
Move-cause {parent = parent} {g = g} (run_wakes e) = inl refl
