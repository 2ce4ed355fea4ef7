-- ===== src/Lifecycle/Progress.antt =====
-- lifecycle/lifecycle.go: a goroutine that returns brings the group down and is gone.
use mathlib.Core.Path.{subst}
use albstractions.Prelude.{
  ℕ, ◌<◌, ◌≡◌, refl, sym, ap, ◌∙◌, ◌≢◌, ◌⊎◌, inl, inr, true, not, ◌||◌, Option, none, some, List,
  arith, Bool-cases, nat_comparable, put, sum_threads-positive, put-same, put-other,
}
use albstractions.Errors.{Error}
use albstractions.Lifecycle.{
  Body, GroupOption, Group, Once, fresh, entered, complete, new_group, is_context_err,
  shutting_down, record_cause, cancel, complete_once,
}
use albstractions.Lifecycle.Steps.{
  cancel_context, Pc, in_fn, returned, leaving, handling, collecting, stopping, cancelling,
  completing, exited, result, judge, Parent, Move, return_fn, test_error, test_context,
  call_handler, append_error, first, finish, second, System, Step, pick, Steps, stay, later,
  fresh_system,
}
use albstractions.Lifecycle.Explanations.{leave-ended, leave-open}
use albstractions.Lifecycle.Settling.{in_once, complete-ended}
use albstractions.Lifecycle.Shutdown.{Inv, Step-Inv, Steps-Inv, fresh-Inv}

steps_after : {n : ℕ} {s t u : System} → Step n s t → Steps n t u → Steps n s u
steps_after st stay = later stay st
steps_after st (later rest last) = later (steps_after st rest) last

in_once-cases : (p : Pc) → 0 < in_once p → (p ≡ cancelling) ⊎ (p ≡ completing)
in_once-cases cancelling h = inl refl
in_once-cases completing h = inr refl
in_once-cases p h = absurd (omega arith)

once-cases : (o : Once) → (o ≡ fresh) ⊎ (o ≡ entered) ⊎ (o ≡ complete)
once-cases fresh = inl refl
once-cases entered = inr (inl refl)
once-cases complete = inr (inr refl)

module _ (n : ℕ) where
  -- Finitely many steps lead to where the thread is gone and the group's context is done.
  pub record Ends (s : System) (i : ℕ) : Type 0 where
    pub after : System
    pub steps : Steps n s after
    pub gone : after.pc i ≡ exited
    pub ended : after.group.ended ≡ true

  via : {s t : System} {i : ℕ} → Step n s t → Ends t i → Ends s i
  via st e = record {
    after = e.after;
    steps = steps_after st e.steps;
    gone = e.gone;
    ended = e.ended;
  }

  now : {s : System} {i : ℕ} → s.pc i ≡ exited → s.group.ended ≡ true → Ends s i
  now {s} at over = record { after = s; steps = stay; gone = at; ended = over }

  -- A move of the thread, and how it goes on.
  moves-Ends :
      {s : System} {i : ℕ} {p p' : Pc} {g : Group}
      → Inv n s
      → i < n
      → s.pc i ≡ p
      → Move s.parent s.group p g p'
      → (Inv n (record s { group = g; pc = put i p' s.pc })
          → put i p' s.pc i ≡ p'
          → Ends (record s { group = g; pc = put i p' s.pc }) i)
      → Ends s i
  moves-Ends {s} {i} {p} {p'} {g} v lt at mv rest =
      let st : Step n s (record s { group = g; pc = put i p' s.pc }) =
        pick i lt (subst (λ q. Move s.parent s.group q g p') (sym at) mv) in
      via st (rest (Step-Inv n st v) (put-same i p' s.pc))

  complete-Ends :
      {s : System} {i : ℕ} {c : Option Error}
      → Inv n s
      → i < n
      → s.pc i ≡ stopping c
      → s.group.shutdown_once ≡ complete
      → Ends s i
  complete-Ends {s} {i} v lt at over =
      moves-Ends v lt at (second over) (λ v' at'. now at' (complete-ended s.group over v.settled))

  -- Another thread is in the once, past the cancel of the context.
  completing-Ends :
      {s : System} {i j : ℕ} {c : Option Error}
      → Inv n s
      → i < n
      → j < n
      → s.pc i ≡ stopping c
      → s.pc j ≡ completing
      → s.group.shutdown_once ≡ entered
      → Ends s i
  unfolding complete_once
  completing-Ends {s} {i} {j} v lt lj at there over =
      let st : Step n s (record s { group = complete_once s.group; pc = put j exited s.pc }) =
        pick j lj (
          subst (λ q. Move s.parent s.group q (complete_once s.group) exited) (sym there)
            (finish over)) in
      let apart : j ≢ i = λ e. ground (arith, sym there ∙ ap s.pc e ∙ at) in
      via st (complete-Ends (Step-Inv n st v) lt (put-other j i exited s.pc apart ∙ at) refl)

  -- Another thread is in the once.
  entered-Ends :
      {s : System} {i : ℕ} {c : Option Error}
      → Inv n s
      → i < n
      → s.pc i ≡ stopping c
      → s.group.shutdown_once ≡ entered
      → Ends s i
  unfolding cancel
  entered-Ends {s} {i} {c} v lt at over =
      let (j, lj, here) = sum_threads-positive in_once n s.pc (ground (arith, v.inside, over)) in
      elim (in_once-cases (s.pc j) here) [
        | inr there ↦ completing-Ends v lt lj at there over
        | inl there ↦
            let st : Step n s (record s { group = cancel s.group; pc = put j completing s.pc }) =
              pick j lj (
                subst (λ q. Move s.parent s.group q (cancel s.group) completing) (sym there)
                  (cancel_context over)) in
            let apart : j ≢ i = λ e. ground (arith, sym there ∙ ap s.pc e ∙ at) in
            via st (
              completing-Ends (Step-Inv n st v) lt lj (put-other j i completing s.pc apart ∙ at)
                (put-same j completing s.pc) over)
      ]

  stopping-Ends :
      {s : System} {i : ℕ} {c : Option Error} → Inv n s → i < n → s.pc i ≡ stopping c → Ends s i
  unfolding record_cause cancel complete_once
  stopping-Ends {s} {i} {c} v lt at = elim (once-cases s.group.shutdown_once) [
    | inl new ↦ moves-Ends v lt at (first new) (λ v' at'.
        moves-Ends v' lt at' (cancel_context refl)
          (λ v'' at''. moves-Ends v'' lt at'' (finish refl) (λ _ last. now last refl)))
    | inr (inl other) ↦ entered-Ends v lt at other
    | inr (inr over) ↦ complete-Ends v lt at over
  ]

  leaving-Ends : {s : System} {i : ℕ} {b : Body} → Inv n s → i < n → s.pc i ≡ leaving b → Ends s i
  leaving-Ends {s} {i} {b} v lt at = moves-Ends v lt at test_context (λ v' at'.
      elim (Bool-cases s.group.ended) [
        | inl over ↦ now (at' ∙ leave-ended s.group b over) over
        | inr on ↦ stopping-Ends v' lt (at' ∙ leave-open s.group b on)
      ])

  collecting-Ends :
      {s : System} {i : ℕ} {b : Body} {e : Error}
      → Inv n s
      → i < n
      → s.pc i ≡ collecting b e
      → Ends s i
  collecting-Ends v lt at = moves-Ends v lt at append_error (λ v' at'. stopping-Ends v' lt at')

  handling-Ends :
      {s : System} {i : ℕ} {b : Body} {e : Error}
      → Inv n s
      → i < n
      → s.pc i ≡ handling b e
      → Ends s i
  handling-Ends v lt at = moves-Ends v lt at call_handler (λ v' at'. collecting-Ends v' lt at')

  returned-Ends :
      {s : System} {i : ℕ} {b : Body} (r : Option Error)
      → Inv n s
      → i < n
      → s.pc i ≡ returned b r
      → Ends s i
  unfolding judge
  returned-Ends none v lt at = moves-Ends v lt at test_error (λ v' at'. leaving-Ends v' lt at')
  returned-Ends {s} {i} {b} (some e) v lt at = moves-Ends v lt at test_error (λ v' at'.
      elim (Bool-cases (not (shutting_down s.parent.ended s.group) || not (is_context_err e))) [
        | inl bad ↦ handling-Ends {b = b} {e = e} v' lt (at' ∙ rw bad refl)
        | inr clean ↦ leaving-Ends {b = b} v' lt (at' ∙ rw clean refl)
      ])

  -- In every state that a group reaches, when the function of a goroutine returns, with whatever
  -- result, the goroutine does not hang: from where it has that result, finitely many steps lead to
  -- where it is gone and the group's context is done.
  pub Steps-Ends :
      (opts : List GroupOption) (parent : Parent) (s : System) (i : ℕ) {b : Body}
      (raw : Option Error)
      → Steps n (fresh_system (new_group opts) parent) s
      → i < n
      → s.pc i ≡ in_fn b
      → Ends (record s { pc = put i (returned b (result b raw)) s.pc }) i
  Steps-Ends opts parent s i {b} raw reach lt at =
      let st : Step n s (record s { pc = put i (returned b (result b raw)) s.pc }) = pick i lt (
        subst (λ q. Move s.parent s.group q s.group (returned b (result b raw))) (sym at)
          (return_fn raw)) in
      returned-Ends (result b raw) (Step-Inv n st (Steps-Inv n reach (fresh-Inv n opts parent))) lt
        (put-same i (returned b (result b raw)) s.pc)
