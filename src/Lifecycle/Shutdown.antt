-- ===== src/Lifecycle/Shutdown.antt =====
-- lifecycle/lifecycle.go: shutdown happens once, over every interleaving of the callers of a group
-- and its goroutines.
use mathlib.Core.Path.{subst}
use albstractions.Prelude.{
  ℕ, ◌≤◌, ◌≡◌, refl, ◌∙◌, inl, true, false, List, arith, nat_comparable, sum_threads,
  sum_threads-put, sum_threads-eq_zero, put-each,
}
use albstractions.Lifecycle.{GroupOption, new_group}
use albstractions.Lifecycle.Steps.{
  idle, exited, Parent, System, Step, pick, end_parent, Steps, stay, later, fresh_system,
}
use albstractions.Lifecycle.Settling.{
  Frozen, Left, Left-later, Move-Frozen, Move-Settled, Move-ended, Move-entries, Settled, entries,
  in_once, is_fresh,
}

module _ (n : ℕ) where
  pub record Inv (s : System) : Type 0 where
    pub settled : Settled s.group
    pub inside : sum_threads in_once n s.pc ≡ entries s.group.shutdown_once
    pub left : (i : ℕ) → Left s.group.ended (s.pc i)

  pub Step-Inv : {s t : System} → Step n s t → Inv s → Inv t
  Step-Inv {s} (pick i {g = g} {p = p} lt mv) inv = record {
    settled = Move-Settled mv inv.settled (inv.left i);
    inside = omega (arith, Move-entries mv, inv.inside, sum_threads-put in_once n i p s.pc lt);
    left =
        let (change, here) = Move-ended mv inv.settled (inv.left i) in
        put-each (Left g.ended) i p s.pc here
          (λ j. Left-later s.group.ended g.ended (s.pc j) change (inv.left j));
  }
  Step-Inv end_parent inv = record { settled = inv.settled; inside = inv.inside; left = inv.left }

  pub Steps-Inv : {s t : System} → Steps n s t → Inv s → Inv t
  Steps-Inv stay inv = inv
  Steps-Inv (later st step) inv = Step-Inv step (Steps-Inv st inv)

  pub fresh-Inv :
      (opts : List GroupOption) (parent : Parent) → Inv (fresh_system (new_group opts) parent)
  unfolding new_group
  fresh-Inv opts parent = record {
    settled = inl (refl, refl, refl);
    inside = sum_threads-eq_zero in_once n (λ _. idle) (λ _. refl);
    left = λ i. tt;
  }

  -- At every moment of a group's life, whoever calls it and however its goroutines run: at most one
  -- thread is in the once of `shutdown`; before it the group's context is not done and there is no
  -- cause; from its critical section on registration is closed; and once it is complete the context is
  -- done.
  pub Steps-Settled :
      (opts : List GroupOption) (parent : Parent) (s : System)
      → Steps n (fresh_system (new_group opts) parent) s
      → (sum_threads in_once n s.pc ≤ 1) × Settled s.group
  Steps-Settled opts parent s st =
      let inv = Steps-Inv st (fresh-Inv opts parent) in (ground (arith, inv.inside), inv.settled)

  -- A goroutine of the group exits only with the group's context done: one that returns, with an
  -- error or without, while the group runs brings the shutdown about before it is gone.
  pub Steps-exited :
      (opts : List GroupOption) (parent : Parent) (s : System) (i : ℕ)
      → Steps n (fresh_system (new_group opts) parent) s
      → s.pc i ≡ exited
      → s.group.ended ≡ true
  Steps-exited opts parent s i st gone =
      subst (Left s.group.ended) gone ((Steps-Inv st (fresh-Inv opts parent)).left i)

  -- From the moment that shutdown has begun, neither its cause nor the teardowns change any more,
  -- whatever is registered, fails or is shut down later.
  pub Steps-Frozen :
      (opts : List GroupOption) (parent : Parent) (s t : System)
      → Steps n (fresh_system (new_group opts) parent) s
      → is_fresh s.group.shutdown_once ≡ false
      → Steps n s t
      → Frozen s.group t.group
  Steps-Frozen opts parent s t reach f stay = (f, refl, refl, refl)
  Steps-Frozen opts parent s t reach f (later {t = u} st (pick i lt mv)) =
      let (f', c, d, v) = Steps-Frozen opts parent s u reach f st in
      let (f'', c', d', v') =
        Move-Frozen mv (Steps-Inv st (Steps-Inv reach (fresh-Inv opts parent))).settled f' in
      (f'', c' ∙ c, d' ∙ d, v' ∙ v)
  Steps-Frozen opts parent s t reach f (later {t = u} st end_parent) =
      Steps-Frozen opts parent s u reach f st
