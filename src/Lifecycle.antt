-- ===== src/Lifecycle.antt =====
-- lifecycle/lifecycle.go: a group, its options and its operations, each with the critical section
-- that it takes. The goroutines and their interleavings are in Lifecycle/Steps, the part of `run`
-- after the group's context is done in Lifecycle/Drain.
pub mod Steps
pub mod Settling
pub mod Shutdown
pub mod Explanations
pub mod Histories
pub mod Causes
pub mod Drain
pub mod Run
pub mod Finality
pub mod Progress
use Prim.Native.String.{String}
use albstractions.Prelude.{
  [], ℕ, Bool, true, false, not, ◌&&◌, ◌||◌, Option, none, some, List, ◌∷◌, ◌++◌, if◌then◌else◌,
  nat_comparable, pos, leb_ℤ,
}
use albstractions.Time.{Duration}
use albstractions.Errors.{Error, canceled, deadline_exceeded, server_closed, is}

pub record Config : Type 0 where
  pub graceful : Duration
  pub signals : List ℕ
  pub has_handler : Bool
  pub has_parent : Bool

-- A goroutine body as `requireNamed` makes it; a server's runs `ListenAndServe`.
pub record Body : Type 0 where
  pub kind : String
  pub name : String
  pub serves : Bool

-- A callback is named by a number.
pub record Teardown : Type 0 where
  pub timeout : Duration
  pub callback : ℕ

-- `sync.Once`.
pub data Once : Type 0 where
  fresh entered complete : Once

-- `ended` is whether the group's context is done. `launched` are the bodies that were handed to a
-- `go` statement and have not begun. `handled` is what the error handler was called with.
pub record Group : Type 0 where
  pub cfg : Config
  pub ended : Bool
  pub shutdown_once : Once
  pub cause : Option Error
  pub started : Bool
  pub stopped : Bool
  pub pending : List Body
  pub launched : List Body
  pub server_teardowns : List String
  pub teardowns : List Teardown
  pub errs : List Error
  pub handled : List Error

abbrev pub GroupOption : Type 0
GroupOption = Config → Config

-- `none` is a panic.
unfoldable pub with_graceful_timeout : Duration → Option GroupOption
with_graceful_timeout d = if leb_ℤ d (pos 0) then none else some (λ c. record c { graceful = d })

unfoldable pub with_context : GroupOption
with_context c = record c { has_parent = true }

unfoldable pub with_signals : List ℕ → GroupOption
with_signals sigs c = record c { signals = c.signals ++ sigs }

unfoldable pub with_error_handler : GroupOption
with_error_handler c = record c { has_handler = true }

-- The loop over the options in `New`.
unfoldable pub apply_options : List GroupOption → Config → Config
apply_options [] c = c
apply_options (o ∷ opts) c = apply_options opts (o c)

-- Of 30 seconds.
abbrev pub default_graceful_timeout : Duration
default_graceful_timeout = pos 30000000000

unfoldable pub new_group : List GroupOption → Group
new_group opts = record {
  cfg = apply_options opts (record {
    graceful = default_graceful_timeout;
    signals = [];
    has_handler = false;
    has_parent = false;
  });
  ended = false;
  shutdown_once = fresh;
  cause = none;
  started = false;
  stopped = false;
  pending = [];
  launched = [];
  server_teardowns = [];
  teardowns = [];
  errs = [];
  handled = [];
}

unfoldable pub register : Body → Group → Group
register b g =
    if g.stopped
    then g
    else if g.started
    then record g { launched = g.launched ++ b ∷ [] }
    else record g { pending = g.pending ++ b ∷ [] }

unfoldable pub require : String → Group → Group
require name g = register (record { kind = "required process"; name = name; serves = false }) g

-- `none` is a panic.
unfoldable pub defer : Duration → ℕ → Group → Option Group
defer timeout callback g =
    if leb_ℤ timeout (pos 0)
    then none
    else if g.stopped
    then some g
    else some (record g {
      teardowns = g.teardowns ++ record { timeout = timeout; callback = callback } ∷ [];
    })

-- The two critical sections of `Serve`: the teardown, then the goroutine.
unfoldable pub serve_teardown : String → Group → Group
serve_teardown name g =
    if not g.stopped then record g { server_teardowns = g.server_teardowns ++ name ∷ [] } else g

unfoldable pub serve_body : String → Group → Group
serve_body name g = register (record { kind = "http server"; name = name; serves = true }) g

-- What a server's body makes of the result of `ListenAndServe`.
unfoldable pub listen_result : Option Error → Option Error
listen_result none = none
listen_result (some err) = if not (is err server_closed) then some err else none

unfoldable pub is_context_err : Error → Bool
is_context_err err = is err canceled || is err deadline_exceeded

-- `parent_ended` is whether the parent's context is done.
unfoldable pub shutting_down : Bool → Group → Bool
shutting_down parent_ended g = g.ended || (g.cfg.has_parent && parent_ended)

-- The critical section of `shutdown`, the cancel of the group's context that follows it in the once,
-- and the end of the once.
unfoldable pub record_cause : Option Error → Group → Group
record_cause cause g = record g { shutdown_once = entered; cause = cause; stopped = true }

unfoldable pub cancel : Group → Group
cancel g = record g { ended = true }

unfoldable pub complete_once : Group → Group
complete_once g = record g { shutdown_once = complete }

-- The first part of `collectError`, and the second.
unfoldable pub handle : Error → Group → Group
handle raw g = if g.cfg.has_handler then record g { handled = g.handled ++ raw ∷ [] } else g

unfoldable pub collect : Error → Group → Group
collect raw g = record g { errs = g.errs ++ raw ∷ [] }

-- The first part of `run`, which spawns the goroutines registered so far.
unfoldable pub begin_run : Group → Group
begin_run g = record g { started = true; pending = []; launched = g.launched ++ g.pending }

-- The part of `run` once the context is done.
unfoldable pub close_registration : Group → Group
close_registration g = record g { stopped = true }

unfoldable pub shutdown_cause : Group → Option Error
shutdown_cause g = g.cause
