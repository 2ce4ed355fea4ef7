-- ===== src/Lifecycle/Histories.antt =====
-- lifecycle/lifecycle.go: a cause that is recorded, and the moment of the run that explains it.
use mathlib.Core.Path.{subst}
use albstractions.Errors.{sentinel, signal, of_process, unexpected_exit}
use albstractions.Prelude.{
  ◌≢◌, false, put, put-same, put-other, ℕ_discrete, ℕ, ◌≡◌, refl, sym, inl, inr, true, Option, none,
  some, List, [], nat_comparable,
}
use albstractions.Errors.{Error}
use albstractions.Lifecycle.{Body, Group}
use albstractions.Lifecycle.Steps.{
  returned, leaving, handling, stopping, Pc, collecting, System, Step, pick, end_parent, Steps,
  stay, later,
}
use albstractions.Lifecycle.Explanations.{
  Collected, Collected-append, Origin, from_call, from_error, from_exit, from_signal, from_parent,
  Comes, Move-Comes, Grown, same, one, Move-Grown, Move-cause,
}

module _ (n : ℕ) (root : System) where
  -- That something was the case at some moment of the run from `root` to `s`.
  pub record Past (P : System → Type 0) (s : System) : Type 0 where
    pub then_at : System
    pub before : Steps n root then_at
    pub held : P then_at
    pub since : Steps n then_at s

  -- What a cause may be: nil; the error with which the function of a goroutine returned, under the
  -- goroutine's kind and name, which is collected; a goroutine's end, under its kind and name, while
  -- the context was not done; a signal, in a group that waits for some; or the cause of the parent's
  -- context, which was done.
  pub data Explained (s : System) : Option Error → Type 0 where
    asked : Explained s none
    failed :
        (i : ℕ) (b : Body) (e : Error)
        → Past (λ t. t.pc i ≡ returned b (some e)) s
        → Collected e s.group.errs
        → Explained s (some (of_process b.kind b.name e))
    left :
        (i : ℕ) (b : Body)
        → Past (λ t. (t.pc i ≡ leaving b) × (t.group.ended ≡ false)) s
        → Explained s (some (unexpected_exit b.kind b.name))
    by_signal :
        Past (λ t. (t.group.started ≡ true) × (t.group.cfg.signals ≢ [])) s
        → Explained s (some (sentinel signal))
    by_parent :
        Past (λ t. (t.group.cfg.has_parent ≡ true) × (t.parent.ended ≡ true)) s
        → Explained s (some s.parent.cause)

  Past-later : {P : System → Type 0} {s t : System} → Step n s t → Past P s → Past P t
  Past-later st p = record {
    then_at = p.then_at;
    before = p.before;
    held = p.held;
    since = later p.since st;
  }

  Collected-Grown :
      (e : Error) {errs new : List Error} → Grown errs new → Collected e errs → Collected e new
  Collected-Grown e (same is) h = subst (Collected e) (sym is) h
  Collected-Grown e {errs} (one f is) h = subst (Collected e) (sym is) (Collected-append e f errs h)

  Step-Grown : {s t : System} → Step n s t → Grown s.group.errs t.group.errs
  Step-Grown (pick i lt mv) = Move-Grown mv
  Step-Grown end_parent = same refl

  Step-parent : {s t : System} → Step n s t → t.parent.cause ≡ s.parent.cause
  Step-parent (pick i lt mv) = refl
  Step-parent end_parent = refl

  Explained-later : {s t : System} {c : Option Error} → Step n s t → Explained s c → Explained t c
  Explained-later st asked = asked
  Explained-later st (failed i b e p h) =
      failed i b e (Past-later st p) (Collected-Grown e (Step-Grown st) h)
  Explained-later st (left i b p) = left i b (Past-later st p)
  Explained-later st (by_signal p) = by_signal (Past-later st p)
  Explained-later {t = t} st (by_parent p) =
      subst (λ c. Explained t (some c)) (Step-parent st) (by_parent (Past-later st p))

  -- What a thread brings to `shutdown` is explained, and an error that it is collecting is the one
  -- with which its function returned.
  abbrev pub Brings : System → ℕ → Pc → Type 0
  Brings s i (handling b e) = Past (λ t. t.pc i ≡ returned b (some e)) s
  Brings s i (collecting b e) = Past (λ t. t.pc i ≡ returned b (some e)) s
  Brings s i (stopping c) = Explained s c
  Brings s i p = Unit

  Brings-later : {s t : System} (i : ℕ) (p : Pc) → Step n s t → Brings s i p → Brings t i p
  Brings-later i (handling b e) st h = Past-later st h
  Brings-later i (collecting b e) st h = Past-later st h
  Brings-later i (stopping c) st h = Explained-later st h
  Brings-later i p st h = tt

  pub record Inv (s : System) : Type 0 where
    pub reached : Steps n root s
    pub explained : Explained s s.group.cause
    pub brings : (i : ℕ) → Brings s i (s.pc i)

  now_Past : {P : System → Type 0} {s t : System} → Steps n root s → Step n s t → P s → Past P t
  now_Past {s = s} before st h = record {
    then_at = s;
    before = before;
    held = h;
    since = later stay st;
  }

  Origin-Explained :
      {s t : System} {g' : Group} {c : Option Error} (i : ℕ)
      → Inv s
      → Step n s t
      → t.group ≡ g'
      → Origin s.parent s.group g' (s.pc i) c
      → Explained t c
  Origin-Explained i inv st is from_call = asked
  Origin-Explained {s} {t} i inv st is (from_error b e at here) =
      failed i b e (Past-later st (subst (Brings s i) at (inv.brings i)))
        (subst (λ g. Collected e g.errs) (sym is) here)
  Origin-Explained i inv st is (from_exit b at on) = left i b (now_Past inv.reached st (at, on))
  Origin-Explained i inv st is (from_signal began signals) =
      by_signal (now_Past inv.reached st (began, signals))
  Origin-Explained {s} {t} i inv st is (from_parent had over) =
      subst (λ c. Explained t (some c)) (Step-parent st)
        (by_parent (now_Past inv.reached st (had, over)))

  Comes-Brings :
      {s t : System} {g' : Group} (i : ℕ) (p' : Pc)
      → Inv s
      → Step n s t
      → t.group ≡ g'
      → Comes s.parent s.group g' (s.pc i) p'
      → Brings t i p'
  Comes-Brings i (handling b e) inv st is h = now_Past inv.reached st h
  Comes-Brings {s} i (collecting b e) inv st is h =
      Past-later st (subst (Brings s i) h (inv.brings i))
  Comes-Brings i (stopping c) inv st is h = Origin-Explained i inv st is h
  Comes-Brings i p' inv st is h = tt

  Step-Inv : {s t : System} → Step n s t → Inv s → Inv t
  Step-Inv {s} (pick i {g = g} {p = p} lt mv) inv =
      let t : System = record s { group = g; pc = put i p s.pc } in
      let st : Step n s t = pick i lt mv in
      record {
        reached = later inv.reached st;
        explained = elim (Move-cause mv) [
          | inl kept ↦ subst (Explained t) (sym kept) (Explained-later st inv.explained)
          | inr new ↦ Explained-later st (subst (Brings s i) new (inv.brings i))
        ];
        brings = λ j. elim (ℕ_discrete i j) [
          | yes own ↦
              let here = Comes-Brings {s = s} {t = t} {g' = g} i p inv st refl (Move-Comes mv) in
              subst (λ k. Brings t k (put i p s.pc k)) own
                (subst (Brings t i) (sym (put-same i p s.pc)) here)
          | no apart ↦
              subst (Brings t j) (sym (put-other i j p s.pc apart))
                (Brings-later j (s.pc j) st (inv.brings j))
        ];
      }
  Step-Inv end_parent inv = record {
    reached = later inv.reached end_parent;
    explained = Explained-later end_parent inv.explained;
    brings = λ j. Brings-later j _ end_parent (inv.brings j);
  }

  pub Steps-Inv : {s t : System} → Steps n s t → Inv s → Inv t
  Steps-Inv stay inv = inv
  Steps-Inv (later st step) inv = Step-Inv step (Steps-Inv st inv)
