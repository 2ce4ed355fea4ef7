-- ===== src/Lifecycle/Drain.antt =====
-- lifecycle/lifecycle.go: the part of `run` after the group's context is done: servers, teardown
-- callbacks, and the errors that `Run` returns.
use Prim.Native.String.{String}
use mathlib.Core.Path.{subst}
use albstractions.Prelude.{
  ℕ, suc, ◌+◌, ◌≡◌, refl, ap, ◌≢◌, ◌↔◌, ◌⊎◌, inl, inr, Bool, true, false, Option, none, some, List,
  [], ◌∷◌, ◌++◌, arith, if◌then◌else◌, Bool-cases, Option-cases, nat_comparable, length, All, ◌≤ℤ◌,
  ltb_ℤ_iff,
}
use albstractions.Time.{Time, before, add}
use albstractions.Errors.{Error, wrap, of_process}
use albstractions.Lifecycle.{Teardown, Group, close_registration}

-- What the run meets: the result of each server's `Shutdown` in the order of registration, whether
-- the budget is spent at each look at its context, the clock at those looks, the instant at which
-- the budget ends, and the errors that goroutines collect after the servers have drained.
pub record World : Type 0 where
  pub shut : ℕ → Option Error
  pub spent : ℕ → Bool
  pub clock : ℕ → Time
  pub limit : Time
  pub late : List Error

-- The function that `Serve` registers for teardown: its error, and whether it closes the server.
unfoldable pub shut_server : String → Option Error → Option Error × Bool
shut_server name none = (none, false)
shut_server name (some err) = (some (of_process "http server" name (wrap "shutdown" err)), true)

-- The servers drain concurrently; their errors are kept by place.
unfoldable pub drain : World → ℕ → List String → List (Option Error × Bool)
drain w i [] = []
drain w i (name ∷ names) = shut_server name (w.shut i) ∷ drain w (suc i) names

unfoldable pub append_errs : List (Option Error × Bool) → List Error → List Error
append_errs [] errs = errs
append_errs ((none, closes) ∷ rest) errs = append_errs rest errs
append_errs ((some err, closes) ∷ rest) errs = append_errs rest (errs ++ err ∷ [])

-- A callback that was called, with the deadline of its context.
pub record Called : Type 0 where
  pub callback : ℕ
  pub deadline : Time

-- `context.WithTimeout` under a context with the deadline `limit`.
abbrev pub earlier : Time → Time → Time
earlier limit t = if before t limit then t else limit

unfoldable pub run_teardowns : World → ℕ → List Teardown → List Called
run_teardowns w i [] = []
run_teardowns w i (td ∷ rest) =
    let later = run_teardowns w (suc i) rest in
    if w.spent i
    then []
    else record { callback = td.callback; deadline = earlier w.limit (add (w.clock i) td.timeout) }
      ∷ later

-- `errors.Join`; `none` is nil.
abbrev pub join : List Error → Option (List Error)
join [] = none
join (e ∷ errs) = some (e ∷ errs)

pub record Ended : Type 0 where
  pub servers : List (Option Error × Bool)
  pub called : List Called
  pub err : Option (List Error)

unfoldable pub end_run : World → Group → Ended
unfolding close_registration
end_run w group =
    let g = close_registration group in
    let servers = drain w 0 g.server_teardowns in
    record {
      servers = servers;
      called = run_teardowns w 0 g.teardowns;
      err = join (append_errs servers g.errs ++ w.late);
    }

abbrev pub callbacks : List Teardown → List ℕ
callbacks [] = []
callbacks (td ∷ rest) = td.callback ∷ callbacks rest

abbrev pub called_callbacks : List Called → List ℕ
called_callbacks [] = []
called_callbacks (c ∷ rest) = c.callback ∷ called_callbacks rest

-- The callbacks called are the first of those registered, and the rest is left out only because the
-- budget was spent at the look after the last.
pub record Cut (w : World) (i : ℕ) (tds : List Teardown) (called : List Called) : Type 0 where
  pub rest : List ℕ
  pub prefix : called_callbacks called ++ rest ≡ callbacks tds
  pub why : (rest ≡ []) ⊎ (w.spent (i + length called) ≡ true)

run_teardowns-Cut : (w : World) (i : ℕ) (tds : List Teardown) → Cut w i tds (run_teardowns w i tds)
unfolding run_teardowns
run_teardowns-Cut w i [] = record { rest = []; prefix = refl; why = inl refl }
run_teardowns-Cut w i (td ∷ tds) = elim (Bool-cases (w.spent i)) [
  | inl spent ↦ rw spent (record {
    rest = callbacks (td ∷ tds);
    prefix = refl;
    why = inr (subst (λ k. w.spent k ≡ true) (omega arith) spent);
  })
  | inr funds ↦ rw funds (
      let c = run_teardowns-Cut w (suc i) tds in
      record {
        rest = c.rest;
        prefix = ap (◌∷◌ td.callback) c.prefix;
        why = elim c.why [
          | inl all_called ↦ inl all_called
          | inr cut ↦ inr (subst (λ k. w.spent k ≡ true) (omega arith) cut)
        ];
      })
]

earlier-le : (limit t : Time) → earlier limit t ≤ℤ limit
earlier-le limit t = elim (Bool-cases (before t limit)) [
  | inl sooner ↦ rw sooner (let lt = ltb_ℤ_iff t limit in ground (arith, lt))
  | inr no_sooner ↦ rw no_sooner (omega arith)
]

run_teardowns-deadline :
    (w : World) (i : ℕ) (tds : List Teardown)
    → All (λ c. c.deadline ≤ℤ w.limit) (run_teardowns w i tds)
unfolding run_teardowns
run_teardowns-deadline w i [] = tt
run_teardowns-deadline w i (td ∷ tds) = elim (Bool-cases (w.spent i)) [
  | inl spent ↦ rw spent tt
  | inr funds ↦
      rw funds
        (earlier-le w.limit (add (w.clock i) td.timeout), run_teardowns-deadline w (suc i) tds)
]

-- The callbacks that a run calls are the first of those registered, in the order of registration;
-- one is left out only when the budget was spent before it; and no callback's deadline lies after the
-- end of the budget.
pub end_run-callbacks :
    (w : World) (g : Group)
    → Cut w 0 g.teardowns (end_run w g).called
      × All (λ c. c.deadline ≤ℤ w.limit) (end_run w g).called
unfolding end_run
end_run-callbacks w g = (run_teardowns-Cut w 0 g.teardowns, run_teardowns-deadline w 0 g.teardowns)

-- Every server drains in time.
abbrev pub Drained : World → ℕ → List String → Type 0
Drained w i [] = Unit
Drained w i (name ∷ names) = (w.shut i ≡ none) × Drained w (suc i) names

append-not_empty : {A : Type 0} (xs : List A) (x : A) (ys : List A) → (xs ++ x ∷ ys) ≢ []
append-not_empty [] x ys = λ e. cc
append-not_empty (z ∷ xs) x ys = λ e. cc

append_errs-Drained :
    (w : World) (i : ℕ) (names : List String) (errs : List Error)
    → (append_errs (drain w i names) errs ≡ []) ↔ ((errs ≡ []) × Drained w i names)
unfolding append_errs drain shut_server
append_errs-Drained w i [] errs = ((λ e. (e, tt)), λ h. h.0)
append_errs-Drained w i (name ∷ names) errs = elim (Option-cases (w.shut i)) [
  | inl ok ↦ rw ok (
      let (to, back) = append_errs-Drained w (suc i) names errs in
      ((λ e. let (none', rest) = to e in (none', (refl, rest))), λ h. back (h.0, h.1.1)))
  | inr (err, bad) ↦ rw bad (
      let failed = of_process "http server" name (wrap "shutdown" err) in
      let (to, back) = append_errs-Drained w (suc i) names (errs ++ failed ∷ []) in
      ((λ e. absurd (append-not_empty errs failed [] (to e).0)), λ h. absurd (cc)))
]

join_iff : (errs late : List Error) → (join (errs ++ late) ≡ none) ↔ ((errs ≡ []) × (late ≡ []))
join_iff [] [] = ((λ e. (refl, refl)), λ h. refl)
join_iff [] (e ∷ late) = ((λ e. cc), λ h. cc)
join_iff (e ∷ errs) late = ((λ e. cc), λ h. cc)

-- `Run` returns nil exactly when no goroutine's error was collected, before the servers drained or
-- after, and every server drained in time.
pub end_run-err :
    (w : World) (g : Group)
    → ((end_run w g).err ≡ none) ↔ ((g.errs ≡ []) × Drained w 0 g.server_teardowns × (w.late ≡ []))
unfolding end_run
end_run-err w g =
    let (to, back) = join_iff (append_errs (drain w 0 g.server_teardowns) g.errs) w.late in
    let (to', back') = append_errs-Drained w 0 g.server_teardowns g.errs in
    (
      (λ e. let (none', late) = to e in let (errs, ok) = to' none' in (errs, ok, late)),
      λ h. back (back' (h.0, h.1), h.2),
    )
