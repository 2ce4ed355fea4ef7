-- ===== src/Lifecycle/Causes.antt =====
-- lifecycle/lifecycle.go: where the cause of a shutdown comes from, and which errors are collected.

use albstractions.Prelude.{
  ℕ, ◌+◌, ◌++◌, ◌≡◌, refl, true, none, some, List, [], ◌∷◌, arith, nat_comparable, sum_threads,
  sum_threads-put, sum_threads-eq_zero,
}
use albstractions.Errors.{Error}
use albstractions.Lifecycle.{
  GroupOption, Group, new_group, register, require, defer, serve_teardown, serve_body, record_cause,
  cancel, complete_once, handle, collect, begin_run, close_registration,
}
use albstractions.Lifecycle.Steps.{
  Pc, idle, collecting, judge, leave, Parent, Move, launch, return_fn, test_error, test_context,
  call_handler, append_error, first, cancel_context, finish, second, call_shutdown, parent_ends,
  signalled, call_require, call_serve, call_serve_body, call_defer, call_run, run_wakes, System,
  Step, pick, end_parent, Steps, stay, later, fresh_system,
}
use albstractions.Lifecycle.Histories.{Explained, Steps-Inv, asked}

-- The weights of errors, and of the error that a thread is about to collect.
abbrev pub total : (Error → ℕ) → List Error → ℕ
total weight [] = 0
total weight (e ∷ errs) = weight e + total weight errs

abbrev pub collects : (Error → ℕ) → Pc → ℕ
collects weight (collecting b e) = weight e
collects weight p = 0

total-append :
    (weight : Error → ℕ) (errs : List Error) (e : Error)
    → total weight (errs ++ e ∷ []) ≡ total weight errs + weight e
total-append weight [] e = omega arith
total-append weight (x ∷ errs) e = omega (arith, total-append weight errs e)

-- With an error handler, and it is kept.
Move-handled :
    (weight : Error → ℕ) {parent : Parent} {g g' : Group} {p p' : Pc}
    → Move parent g p g' p'
    → g.cfg.has_handler ≡ true
    → (g'.cfg.has_handler ≡ true)
      × (total weight g'.handled + (total weight g.errs + collects weight p)
          ≡ total weight g.handled + (total weight g'.errs + collects weight p'))
unfolding register require serve_teardown serve_body defer handle collect begin_run
    close_registration record_cause cancel complete_once judge leave
Move-handled weight {parent = parent} {g = g} (launch e) h = (h, refl)
Move-handled weight {parent = parent} {g = g} (return_fn raw) h = (h, refl)
Move-handled weight {parent = parent} {g = g} (test_error {r = none}) h = (h, refl)
Move-handled weight {parent = parent} {g = g} (test_error {b = b} {r = some e}) h = ground arith
Move-handled weight {parent = parent} {g = g} (test_context {b = b}) h = ground arith
Move-handled weight {g = g} (call_handler {e = e}) h =
    ground (arith, total-append weight g.handled e)
Move-handled weight {parent = parent} {g = g} (append_error {b = b} {e = e}) h =
    (h, omega (arith, total-append weight g.errs e))
Move-handled weight {parent = parent} {g = g} (first {c = c} e) h = (h, omega arith)
Move-handled weight {parent = parent} {g = g} (cancel_context e) h = (h, omega arith)
Move-handled weight {parent = parent} {g = g} (finish e) h = (h, omega arith)
Move-handled weight {parent = parent} {g = g} (second e) h = (h, refl)
Move-handled weight {parent = parent} {g = g} call_shutdown h = (h, refl)
Move-handled weight {parent = parent} {g = g} (parent_ends _ _ _) h = (h, refl)
Move-handled weight {parent = parent} {g = g} (signalled _ _) h = (h, refl)
Move-handled weight {parent = parent} {g = g} (call_require name) h = ground arith
Move-handled weight {parent = parent} {g = g} (call_serve name) h = ground arith
Move-handled weight {parent = parent} {g = g} (call_serve_body name) h = ground arith
Move-handled weight {parent = parent} {g = g} (call_defer t c e) h = ground arith
Move-handled weight {parent = parent} {g = g} (call_run e) h = (h, refl)
Move-handled weight {parent = parent} {g = g} (run_wakes e) h = (h, refl)

module _ (n : ℕ) where
  -- At every moment of a group's life the cause that it records is one of these: nil; the error with
  -- which the function of a goroutine has returned, under that goroutine's kind and name, and then it
  -- is among the errors collected for `Run` to return; the unexpected exit of a goroutine, under its
  -- kind and name, which ended while the group's context was not done; a signal, in a group that
  -- waits for signals; or the cause of the parent's context, as it is, in a group that has a parent
  -- which was done.
  pub Steps-Explained :
      (opts : List GroupOption) (parent : Parent) (s : System)
      → Steps n (fresh_system (new_group opts) parent) s
      → Explained n (fresh_system (new_group opts) parent) s s.group.cause
  unfolding new_group
  Steps-Explained opts parent s st =
      let root = fresh_system (new_group opts) parent in
      (Steps-Inv n root st
        (record { reached = stay; explained = asked; brings = λ i. tt })).explained

  record Handled (weight : Error → ℕ) (s : System) : Type 0 where
    kept : s.group.cfg.has_handler ≡ true
    counted :
        total weight s.group.handled
        ≡ total weight s.group.errs + sum_threads (collects weight) n s.pc

  Step-Handled :
      (weight : Error → ℕ) {s t : System} → Step n s t → Handled weight s → Handled weight t
  Step-Handled weight {s} (pick i {p = p} lt mv) h =
      let (kept, change) = Move-handled weight mv h.kept in
      record {
        kept = kept;
        counted = omega (arith, change, h.counted, sum_threads-put (collects weight) n i p s.pc lt);
      }
  Step-Handled weight end_parent h = record { kept = h.kept; counted = h.counted }

  Steps-Handled :
      (weight : Error → ℕ) {s t : System} → Steps n s t → Handled weight s → Handled weight t
  Steps-Handled weight stay h = h
  Steps-Handled weight (later st step) h = Step-Handled weight step (Steps-Handled weight st h)

  -- In a group with an error handler, the errors that the handler was called with are those collected
  -- and those that a goroutine is about to collect, each as often: however errors are weighed, the
  -- weights of the two come to the same.
  pub Steps-handled :
      (opts : List GroupOption) (parent : Parent) (s : System) (weight : Error → ℕ)
      → (new_group opts).cfg.has_handler ≡ true
      → Steps n (fresh_system (new_group opts) parent) s
      → total weight s.group.handled
        ≡ total weight s.group.errs + sum_threads (collects weight) n s.pc
  unfolding new_group
  Steps-handled opts parent s weight has st =
      let start : Handled weight (fresh_system (new_group opts) parent) = record {
        kept = has;
        counted = omega (arith, sum_threads-eq_zero (collects weight) n (λ _. idle) (λ _. refl));
      } in
      (Steps-Handled weight st start).counted
