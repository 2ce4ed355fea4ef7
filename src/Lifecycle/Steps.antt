-- ===== src/Lifecycle/Steps.antt =====
-- lifecycle/lifecycle.go: the goroutines of a group and the callers of its methods, in any
-- interleaving. A thread is a goroutine of the group or any other caller.
use Prim.Native.String.{String}
use albstractions.Prelude.{
  ℕ, ◌<◌, ◌≡◌, ◌≢◌, Bool, true, false, not, ◌||◌, Option, none, some, List, [], ◌∷◌, if◌then◌else◌,
  nat_comparable, put,
}
use albstractions.Time.{Duration}
use albstractions.Errors.{Error, sentinel, signal, of_process, unexpected_exit}
use albstractions.Lifecycle.{
  Body, Group, fresh, entered, complete, require, defer, serve_teardown, serve_body, listen_result,
  is_context_err, shutting_down, record_cause, cancel, complete_once, handle, collect, begin_run,
  close_registration,
}

-- Where a thread stands.
pub data Pc : Type 0 where
  idle : Pc
  in_fn : Body → Pc
  returned : Body → Option Error → Pc  -- past `fn`, before the test of its error
  leaving : Body → Pc  -- before the test of the context
  handling : Body → Error → Pc  -- at the start of `collectError`
  collecting : Body → Error → Pc  -- past the error handler
  stopping : Option Error → Pc  -- at `shutdown`
  cancelling : Pc  -- in the once, past its critical section
  completing : Pc  -- in the once, past the cancel of the context
  exited : Pc

-- The result of `fn`: `raw` is what the function given to `Require`, or `ListenAndServe`, returns.
abbrev pub result : Body → Option Error → Option Error
result b raw = if b.serves then listen_result raw else raw

-- The first test of `requireNamed`.
unfoldable pub judge : Bool → Group → Body → Option Error → Pc
judge parent_ended g b none = leaving b
judge parent_ended g b (some err) =
    if not (shutting_down parent_ended g) || not (is_context_err err)
    then handling b err
    else leaving b

-- The second.
unfoldable pub leave : Group → Body → Pc
leave g b = if not g.ended then stopping (some (unexpected_exit b.kind b.name)) else exited

-- The world around a group: whether the parent's context is done, and with what cause.
pub record Parent : Type 0 where
  pub ended : Bool
  pub cause : Error

-- One step of one thread.
pub data Move (parent : Parent) (g : Group) : Pc → Group → Pc → Type 0 where
  launch :
      {b : Body} {rest : List Body}
      → g.launched ≡ b ∷ rest
      → Move parent g idle (record g { launched = rest }) (in_fn b)
  return_fn :
      {b : Body} (raw : Option Error) → Move parent g (in_fn b) g (returned b (result b raw))
  test_error :
      {b : Body} {r : Option Error} → Move parent g (returned b r) g (judge parent.ended g b r)
  test_context : {b : Body} → Move parent g (leaving b) g (leave g b)
  call_handler : {b : Body} {e : Error} → Move parent g (handling b e) (handle e g) (collecting b e)
  append_error :
      {b : Body} {e : Error}
      → Move parent g (collecting b e) (collect e g) (stopping (some (of_process b.kind b.name e)))
  first :
      {c : Option Error}
      → g.shutdown_once ≡ fresh
      → Move parent g (stopping c) (record_cause c g) cancelling
  cancel_context : g.shutdown_once ≡ entered → Move parent g cancelling (cancel g) completing
  finish : g.shutdown_once ≡ entered → Move parent g completing (complete_once g) exited
  second : {c : Option Error} → g.shutdown_once ≡ complete → Move parent g (stopping c) g exited
  -- `Shutdown`, the function given to `context.AfterFunc`, and the goroutine that waits for a signal.
  call_shutdown : Move parent g idle g (stopping none)
  parent_ends :
      g.started ≡ true
      → g.cfg.has_parent ≡ true
      → parent.ended ≡ true
      → Move parent g idle g (stopping (some parent.cause))
  signalled :
      g.started ≡ true
      → g.cfg.signals ≢ []
      → Move parent g idle g (stopping (some (sentinel signal)))
  -- Registrations, by a thread that is not in the group.
  call_require : (name : String) → Move parent g idle (require name g) idle
  call_serve : (name : String) → Move parent g idle (serve_teardown name g) idle
  call_serve_body : (name : String) → Move parent g idle (serve_body name g) idle
  call_defer :
      (timeout : Duration) (callback : ℕ) {g' : Group}
      → defer timeout callback g ≡ some g'
      → Move parent g idle g' idle
  -- The steps of `run` up to its teardown.
  call_run : g.started ≡ false → Move parent g idle (begin_run g) idle
  run_wakes : g.ended ≡ true → Move parent g idle (close_registration g) idle

pub record System : Type 0 where
  pub group : Group
  pub parent : Parent
  pub pc : ℕ → Pc

-- One of `n` threads moves, or the parent's context ends.
pub data Step (n : ℕ) (s : System) : System → Type 0 where
  pick :
      (i : ℕ) {g : Group} {p : Pc}
      → i < n
      → Move s.parent s.group (s.pc i) g p
      → Step n s (record s { group = g; pc = put i p s.pc })
  end_parent : Step n s (record s { parent = record { ended = true; cause = s.parent.cause } })

pub data Steps (n : ℕ) (s : System) : System → Type 0 where
  stay : Steps n s s
  later : {t u : System} → Steps n s t → Step n t u → Steps n s u

-- A group that was just made.
abbrev pub fresh_system : Group → Parent → System
fresh_system g parent = record { group = g; parent = parent; pc = λ _. idle }
