-- ===== src/Tests/Runs.antt =====
-- The runs of a group of the package lifecycle, and their ends, at concrete inputs.
use albstractions.Prelude.{
  ◌≤◌, ◌<◌, ◌≡◌, refl, true, false, none, some, [], ◌∷◌, arith, nat_comparable, put, sum_threads,
  pos,
}
use albstractions.Errors.{sentinel, canceled, other}
use albstractions.Lifecycle.{
  Body, fresh, complete, new_group, apply_options, register, require, begin_run, close_registration,
}
use albstractions.Lifecycle.Drain.{World, end_run, drain, append_errs, run_teardowns}
use albstractions.Lifecycle.Steps.{
  idle, in_fn, stopping, Parent, System, pick, Steps, stay, later, fresh_system,
}
use albstractions.Lifecycle.Steps
use albstractions.Lifecycle.Finality.{busy, Steps-final}
use albstractions.Lifecycle.Progress.{Ends, Steps-Ends}
use albstractions.Lifecycle.Run
use albstractions.Lifecycle.Run.{State, Reach}
use albstractions.Lifecycle.Run.Callers.{inside, Told, Agree, Reach-once}
use albstractions.Lifecycle.Settling.{entries}

abbrev parent : Parent
parent = record { ended = false; cause = sentinel canceled }

abbrev db : Body
db = record { kind = "required process"; name = "db"; serves = false }

-- A group that runs its one goroutine.
abbrev begun : System
begun = record {
  group = record (begin_run (require "db" (new_group []))) { launched = [] };
  parent = parent;
  pc = put 0 (in_fn db) (put 1 idle (put 1 idle (λ _. idle)));
}

begun-Steps : Steps 2 (fresh_system (new_group []) parent) begun
unfolding new_group apply_options require register begin_run
begun-Steps =
    later
      (later (later stay (pick 1 (omega arith) (Steps.Move.call_require "db")))
        (pick 1 (omega arith) (Steps.Move.call_run refl)))
      (pick 0 (omega arith) (Steps.Move.launch {b = db} refl))

Steps-Ends_example :
    Ends 2 (record begun { pc = put 0 (Steps.returned db (some (sentinel (other 5)))) begun.pc }) 0
Steps-Ends_example =
    Steps-Ends 2 [] parent begun 0 (some (sentinel (other 5))) begun-Steps (omega arith) refl

-- A group whose goroutines are gone, and a late call of `Shutdown`.
abbrev quiet : System
quiet = record {
  group = record (new_group []) { started = true; stopped = true; errs = sentinel (other 5) ∷ [] };
  parent = parent;
  pc = λ _. idle;
}

abbrev asked : System
asked = record quiet { pc = put 1 (stopping none) quiet.pc }

Steps-final_example : (asked.group.errs ≡ quiet.group.errs) × (busy 2 asked ≡ 0)
unfolding new_group sum_threads
Steps-final_example =
    Steps-final 2 quiet asked refl refl refl
      (later stay (pick 1 (omega arith) Steps.Move.call_shutdown))

-- Two callers of `Run`, of whom the first runs.
abbrev world : World
world = record {
  shut = λ i. none;
  spent = λ i. false;
  clock = λ i. pos 0;
  limit = pos 30;
  late = [];
}

abbrev made : State
made = record { group = new_group []; once = fresh; ready = false; done = false; err = none }

abbrev over : State
over = record made {
  group = close_registration (record (begin_run made.group) { ended = true });
  once = complete;
  ready = true;
  done = true;
}

abbrev both : Run.System
both = record {
  state = over;
  pc = put 1 (Run.returned none) (
      put 1 Run.waiting (
        put 1 Run.at_once (
          put 0 (Run.returned none) (
            put 0 Run.waiting (
              put 0 (Run.leaving false) (
                put 0 (Run.closing false) (
                  put 0 Run.watching (
                    put 0 Run.spawned
                      (put 0 Run.running (put 0 Run.at_once (λ _. Run.outside)))))))))));
}

zero-lt : 0 < 2
zero-lt = omega arith

one-lt : 1 < 2
one-lt = omega arith

both-Reach : Reach 2 both
unfolding new_group begin_run close_registration end_run drain append_errs run_teardowns
both-Reach =
    let r0 = Run.Reach.start (new_group []) refl in
    let r1 = Run.Reach.later r0 (Run.pick 0 zero-lt Run.Move.call) in
    let r2 = Run.Reach.later r1 (Run.pick 0 zero-lt (Run.Move.enter refl)) in
    let r3 = Run.Reach.later r2 (Run.pick 0 zero-lt Run.Move.begin) in
    let r4 = Run.Reach.later r3 (Run.pick 0 zero-lt Run.Move.announce) in
    let r5 =
      Run.Reach.later r4 (Run.evolve (record (begin_run made.group) { ended = true }) refl) in
    let r6 = Run.Reach.later r5 (Run.pick 0 zero-lt (Run.Move.finish world refl)) in
    let r7 = Run.Reach.later r6 (Run.pick 0 zero-lt Run.Move.close_done) in
    let r8 = Run.Reach.later r7 (Run.pick 0 zero-lt Run.Move.leave) in
    let r9 = Run.Reach.later r8 (Run.pick 0 zero-lt (Run.Move.return_err refl)) in
    let r10 = Run.Reach.later r9 (Run.pick 1 one-lt Run.Move.call) in
    let r11 = Run.Reach.later r10 (Run.pick 1 one-lt (Run.Move.skip refl)) in
    Run.Reach.later r11 (Run.pick 1 one-lt (Run.Move.return_err refl))

Reach-once_example :
    (sum_threads inside 2 both.pc ≤ 1)
    × (sum_threads inside 2 both.pc ≡ entries over.once)
    × Told over (both.pc 0)
    × Agree 2 (both.pc 0) (both.pc 1)
Reach-once_example = Reach-once 2 0 1 both-Reach zero-lt one-lt
