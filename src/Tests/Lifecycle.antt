-- ===== src/Tests/Lifecycle.antt =====
-- The package lifecycle at concrete inputs.
use albstractions.Prelude.{
  ℕ, ◌+◌, ◌*◌, ◌≤◌, ◌≡◌, refl, ◌↔◌, true, false, none, some, List, [], ◌∷◌, arith, ◌==◌,
  if◌then◌else◌, nat_comparable, put, sum_threads, All, pos, ◌+ℤ◌, ◌≤ℤ◌,
}
use albstractions.Errors.{Error, sentinel, canceled, other, of_process, is}
use albstractions.Lifecycle.{
  Body, GroupOption, Group, with_error_handler, with_signals, apply_options, new_group, register,
  require, serve_teardown, is_context_err, shutting_down, record_cause, cancel, complete_once,
  handle, collect, begin_run,
}
use albstractions.Lifecycle.Steps.{
  idle, in_fn, returned, handling, collecting, stopping, cancelling, completing, exited, judge,
  Parent, Move, System, pick, Steps, stay, later, fresh_system,
}
use albstractions.Lifecycle.Settling.{in_once, Settled, Frozen}
use albstractions.Lifecycle.Shutdown.{Steps-Settled, Steps-exited, Steps-Frozen}
use albstractions.Lifecycle.Histories.{Explained}
use albstractions.Lifecycle.Causes.{total, collects, Steps-Explained, Steps-handled}
use albstractions.Lifecycle.Drain.{
  World, Cut, Drained, run_teardowns, end_run, end_run-callbacks, end_run-err,
}

-- A group with a handler and one required goroutine, `db`.
abbrev options : List GroupOption
options = with_error_handler ∷ with_signals (15 ∷ []) ∷ []

abbrev parent : Parent
parent = record { ended = false; cause = sentinel canceled }

abbrev db : Body
db = record { kind = "required process"; name = "db"; serves = false }

abbrev failure : Error
failure = sentinel (other 5)

abbrev running : Group
running = begin_run (require "db" (new_group options))

abbrev begun : System
begun = record {
  group = record running { launched = [] };
  parent = parent;
  pc = put 0 (in_fn db) (put 1 idle (put 1 idle (λ _. idle)));
}

begun-Steps : Steps 2 (fresh_system (new_group options) parent) begun
unfolding new_group apply_options with_error_handler with_signals require register begin_run
begun-Steps =
    later
      (later (later stay (pick 1 (omega arith) (Move.call_require "db")))
        (pick 1 (omega arith) (Move.call_run refl)))
      (pick 0 (omega arith) (Move.launch {b = db} refl))

-- `db` fails, and its error is about to be collected.
abbrev noticed : System
noticed = record {
  group = handle failure begun.group;
  parent = parent;
  pc =
      put 0 (collecting db failure)
        (put 0 (handling db failure) (put 0 (returned db (some failure)) begun.pc));
}

noticed-Steps : Steps 2 begun noticed
unfolding judge shutting_down is_context_err is new_group apply_options with_error_handler
    with_signals require register begin_run
noticed-Steps =
    later
      (later (later stay (pick 0 (omega arith) (Move.return_fn (some failure))))
        (pick 0 (omega arith) Move.test_error))
      (pick 0 (omega arith) Move.call_handler)

-- It is in the once.
abbrev closing : System
closing = record {
  group =
      record_cause (some (of_process "required process" "db" failure))
        (collect failure noticed.group);
  parent = parent;
  pc =
      put 0 cancelling
        (put 0 (stopping (some (of_process "required process" "db" failure))) noticed.pc);
}

closing-Steps : Steps 2 noticed closing
unfolding collect handle new_group apply_options with_error_handler with_signals require register
    begin_run
closing-Steps =
    later (later stay (pick 0 (omega arith) Move.append_error))
      (pick 0 (omega arith) (Move.first refl))

-- It is gone, and a late registration has no effect.
abbrev closed : System
closed = record {
  group = serve_teardown "api" (complete_once (cancel closing.group));
  parent = parent;
  pc = put 1 idle (put 0 exited (put 0 completing closing.pc));
}

closed-Steps : Steps 2 closing closed
unfolding record_cause cancel
closed-Steps =
    later
      (later (later stay (pick 0 (omega arith) (Move.cancel_context refl)))
        (pick 0 (omega arith) (Move.finish refl)))
      (pick 1 (omega arith) (Move.call_serve "api"))

abbrev join_steps : {n : ℕ} {s t u : System} → Steps n s t → Steps n t u → Steps n s u
join_steps h stay = h
join_steps h (later k step) = later (join_steps h k) step

to_closing : Steps 2 (fresh_system (new_group options) parent) closing
to_closing = join_steps (join_steps begun-Steps noticed-Steps) closing-Steps

Steps-Settled_example : (sum_threads in_once 2 closing.pc ≤ 1) × Settled closing.group
Steps-Settled_example = Steps-Settled 2 options parent closing to_closing

Steps-exited_example : closed.group.ended ≡ true
Steps-exited_example =
    Steps-exited 2 options parent closed 0 (join_steps to_closing closed-Steps) refl

Steps-Frozen_example : Frozen closing.group closed.group
unfolding record_cause
Steps-Frozen_example = Steps-Frozen 2 options parent closing closed to_closing refl closed-Steps

Steps-Explained_example :
    Explained 2 (fresh_system (new_group options) parent) closed closed.group.cause
Steps-Explained_example =
    Steps-Explained 2 options parent closed (join_steps to_closing closed-Steps)

Steps-handled_example :
    total (λ e. if is e (other 5) then 1 else 0) noticed.group.handled
    ≡ total (λ e. if is e (other 5) then 1 else 0) noticed.group.errs
      + sum_threads (collects (λ e. if is e (other 5) then 1 else 0)) 2 noticed.pc
unfolding new_group apply_options with_error_handler with_signals
Steps-handled_example =
    Steps-handled 2 options parent noticed (λ e. if is e (other 5) then 1 else 0) refl
      (join_steps begun-Steps noticed-Steps)

-- Two servers, the second of which does not drain; three callbacks, the last of which is not reached.
abbrev winding : Group
winding = record closed.group {
  server_teardowns = "api" ∷ "admin" ∷ [];
  teardowns =
      record { timeout = pos 5; callback = 1 }
      ∷ record { timeout = pos 500; callback = 2 }
      ∷ record { timeout = pos 5; callback = 3 }
      ∷ [];
}

abbrev world : World
world = record {
  shut = λ i. if i == 1 then some (sentinel (other 9)) else none;
  spent = λ i. i == 2;
  clock = λ i. pos (i * 10);
  limit = pos 100;
  late = [];
}

winding_lem :
    (end_run world winding).called
    ≡ record { callback = 1; deadline = pos 5 } ∷ record { callback = 2; deadline = pos 100 } ∷ []
unfolding end_run run_teardowns ◌+ℤ◌
winding_lem = refl

end_run-callbacks_example :
    Cut world 0 winding.teardowns (end_run world winding).called
    × All (λ c. c.deadline ≤ℤ world.limit) (end_run world winding).called
end_run-callbacks_example = end_run-callbacks world winding

end_run-err_example :
    ((end_run world winding).err ≡ none)
    ↔ ((winding.errs ≡ []) × Drained world 0 winding.server_teardowns × (world.late ≡ []))
end_run-err_example = end_run-err world winding
