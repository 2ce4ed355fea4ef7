-- ===== src/Lifecycle/Finality.antt =====
-- lifecycle/lifecycle.go: the wait for goroutines at the end of `run`, and that shutdown comes to its
-- end.

use albstractions.Prelude.{
  ℕ, ◌+◌, ◌≡◌, refl, ◌∙◌, true, arith, nat_comparable, length, sum_threads, sum_threads-put,
  le-sum_threads,
}
use albstractions.Lifecycle.{
  Group, register, require, defer, serve_teardown, serve_body, record_cause, cancel, complete_once,
  handle, collect, begin_run, close_registration,
}
use albstractions.Lifecycle.Steps.{
  Pc, in_fn, returned, leaving, handling, collecting, Parent, Move, launch, return_fn, test_error,
  test_context, call_handler, append_error, first, cancel_context, finish, second, call_shutdown,
  parent_ends, signalled, call_require, call_serve, call_serve_body, call_defer, call_run,
  run_wakes, System, Step, pick, end_parent, Steps, stay, later,
}

-- A goroutine of the group that may still collect an error.
abbrev pub works : Pc → ℕ
works (in_fn b) = 1
works (returned b r) = 1
works (leaving b) = 1
works (handling b e) = 1
works (collecting b e) = 1
works p = 0

-- Those, with the ones that have not begun: no more than the `WaitGroup` counts.
abbrev pub busy : ℕ → System → ℕ
busy n s = sum_threads works n s.pc + length s.group.launched

-- `run` has begun and registration is closed.
abbrev pub Closed : Group → Type 0
Closed g = (g.started ≡ true) × (g.stopped ≡ true)

Move-final :
    {parent : Parent} {g g' : Group} {p p' : Pc}
    → Move parent g p g' p'
    → Closed g
    → works p + length g.launched ≡ 0
    → (g'.errs ≡ g.errs) × Closed g' × (works p' + length g'.launched ≡ 0)
unfolding register require serve_teardown serve_body defer handle collect begin_run
    close_registration record_cause cancel complete_once
Move-final {g = g} (launch e) c h = absurd (ground (arith, e))
Move-final (return_fn raw) c h = absurd (omega (arith, h))
Move-final test_error c h = absurd (omega (arith, h))
Move-final test_context c h = absurd (omega (arith, h))
Move-final call_handler c h = absurd (omega (arith, h))
Move-final append_error c h = absurd (omega (arith, h))
Move-final (first e) c h = (refl, (c.0, refl), h)
Move-final (cancel_context e) c h = (refl, c, h)
Move-final (finish e) c h = (refl, c, h)
Move-final (second e) c h = (refl, c, h)
Move-final call_shutdown c h = (refl, c, h)
Move-final (parent_ends _ _ _) c h = (refl, c, h)
Move-final (signalled _ _) c h = (refl, c, h)
Move-final {g = g} (call_require name) c h = ground arith
Move-final {g = g} (call_serve name) c h = ground arith
Move-final {g = g} (call_serve_body name) c h = ground arith
Move-final {g = g} (call_defer t k e) c h = ground arith
Move-final {g = g} (call_run e) c h = absurd (ground arith)
Move-final (run_wakes e) c h = (refl, (c.0, refl), h)

module _ (n : ℕ) where
  Step-final :
      {s t : System}
      → Step n s t
      → Closed s.group
      → busy n s ≡ 0
      → (t.group.errs ≡ s.group.errs) × Closed t.group × (busy n t ≡ 0)
  Step-final {s} (pick i {g = g} {p = p} lt mv) c h =
      let own = le-sum_threads works n i s.pc lt in
      let (same, closed, quiet) = Move-final mv c (omega (arith, own, h)) in
      (same, closed, omega (arith, quiet, own, h, sum_threads-put works n i p s.pc lt))
  Step-final end_parent c h = (refl, c, h)

  -- Once `run` has begun, registration is closed and no goroutine of the group is left that could
  -- still collect an error, no step of any caller adds one: what `Run` returns after its wait is all
  -- that the goroutines ever collect.
  pub Steps-final :
      (s t : System)
      → s.group.started ≡ true
      → s.group.stopped ≡ true
      → busy n s ≡ 0
      → Steps n s t
      → (t.group.errs ≡ s.group.errs) × (busy n t ≡ 0)
  Steps-final s t began shut quiet steps = let (same, closed, still) = go steps in (same, still)
    where
      go :
          {u : System}
          → Steps n s u
          → (u.group.errs ≡ s.group.errs) × Closed u.group × (busy n u ≡ 0)
      go stay = (refl, (began, shut), quiet)
      go (later st step) =
          let (same, closed, still) = go st in
          let (same', closed', still') = Step-final step closed still in
          (same' ∙ same, closed', still')
