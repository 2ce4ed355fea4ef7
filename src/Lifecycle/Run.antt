-- ===== src/Lifecycle/Run.antt =====
-- lifecycle/lifecycle.go: the callers of `Run`, and the channels behind `Ready` and `Done`.
pub mod Callers
use albstractions.Prelude.{ℕ, ◌<◌, ◌≡◌, Bool, true, false, Option, none, List, nat_comparable, put}
use albstractions.Errors.{Error}
use albstractions.Lifecycle.{Group, Once, fresh, entered, complete, begin_run, close_registration}
use albstractions.Lifecycle.Drain.{World, end_run}

-- Where a caller of `Run` stands: the states from `running` to `leaving` are in the once.
pub data Pc : Type 0 where
  outside : Pc
  at_once : Pc
  running : Pc
  spawned : Pc  -- the pending goroutines are started
  watching : Pc  -- `Ready` is closed, and the group's context is waited for
  closing : Bool → Pc  -- at the deferred close of `done`; whether a callback panicked
  leaving : Bool → Pc
  waiting : Pc  -- past the once
  returned : Option (List Error) → Pc
  panicked : Pc

-- The group with the fields of `Run`: the once, the two channels and the error.
pub record State : Type 0 where
  pub group : Group
  pub once : Once
  pub ready : Bool
  pub done : Bool
  pub err : Option (List Error)

pub data Move (s : State) : Pc → State → Pc → Type 0 where
  call : Move s outside s at_once
  enter : s.once ≡ fresh → Move s at_once (record s { once = entered }) running
  begin : Move s running (record s { group = begin_run s.group }) spawned
  announce : Move s spawned (record s { ready = true }) watching
  finish :
      (w : World)
      → s.group.ended ≡ true
      → Move s watching
          (record s { group = close_registration s.group; err = (end_run w s.group).err })
          (closing false)
  -- A teardown callback panics.
  crash :
      s.group.ended ≡ true
      → Move s watching (record s { group = close_registration s.group }) (closing true)
  close_done :
      {crashed : Bool} → Move s (closing crashed) (record s { done = true }) (leaving crashed)
  leave : Move s (leaving false) (record s { once = complete }) waiting
  unwind : Move s (leaving true) (record s { once = complete }) panicked
  skip : s.once ≡ complete → Move s at_once s waiting
  return_err : s.done ≡ true → Move s waiting s (returned s.err)

pub record System : Type 0 where
  pub state : State
  pub pc : ℕ → Pc

-- One of `n` callers moves, or others change the group, which only `Run` starts.
pub data Step (n : ℕ) (s : System) : System → Type 0 where
  pick :
      (i : ℕ) {t : State} {p : Pc}
      → i < n
      → Move s.state (s.pc i) t p
      → Step n s (record { state = t; pc = put i p s.pc })
  evolve :
      (g : Group)
      → g.started ≡ s.state.group.started
      → Step n s (record s { state = record s.state { group = g } })

-- From a group that was just made.
pub data Reach (n : ℕ) : System → Type 0 where
  start :
      (g : Group)
      → g.started ≡ false
      → Reach n (record {
        state = record { group = g; once = fresh; ready = false; done = false; err = none };
        pc = λ _. outside;
      })
  later : {s t : System} → Reach n s → Step n s t → Reach n t
