-- ===== src/Cache/ReadThrough/Flight.antt =====
-- cache/readthrough.go: the flight group, for the callers of one key in any interleaving. Calls are
-- numbered, as a waiter may hold one that the map has dropped; the calls of different keys are
-- different entries.
pub mod Calls
pub mod Progress
use albstractions.Prelude.{
  ℕ, ◌+◌, ◌≤◌, ◌<◌, ◌≡◌, refl, sym, ◌⊎◌, inl, inr, Bool, true, false, Option, none, some, arith,
  Option-cases, nat_comparable, put, sum_threads, sum_threads-put, le-sum_threads,
  sum_threads-eq_zero, sum_threads-le,
}

-- A load ends by a return, with an error or not, by a panic, or by Goexit; `abandoned` is of a return
-- with an error when the leader's context has ended.
pub data Outcome (R : Type 0) : Type 0 where
  returned : R → Outcome R
  abandoned : R → Outcome R
  panicked goexit : Outcome R

-- The `call` of a load.
pub record Call (R : Type 0) : Type 0 where
  pub done : Bool
  pub outcome : Option (Outcome R)

pub record Group (R : Type 0) : Type 0 where
  pub entry : Option ℕ
  pub calls : ℕ → Call R
  pub next : ℕ

-- Where a caller stands in `Do`, and in `lead` from `leading` on. `ended` is of a caller whose own
-- context is done.
pub data Pc (R : Type 0) : Type 0 where
  idle looking ended : Pc R
  waiting : ℕ → Pc R
  leading : ℕ → Pc R  -- in the loader
  removing : ℕ → Outcome R → Pc R  -- past it, before the deletion from the map
  closing : ℕ → Outcome R → Pc R
  answered : Outcome R → Pc R

module _ {R : Type 0} where
  -- The critical section of `Do`.
  unfoldable pub join : Group R → Group R × Pc R
  join g = elim g.entry [
    | some c ↦ (g, waiting c)
    | none ↦ (
      record {
        entry = some g.next;
        calls = put g.next (record { done = false; outcome = none }) g.calls;
        next = g.next + 1;
      },
      leading g.next,
    )
  ]

  -- The loader ends.
  unfoldable pub finish : ℕ → Outcome R → Group R → Group R
  finish c o g = record g { calls = put c (record (g.calls c) { outcome = some o }) g.calls }

  unfoldable pub remove : Group R → Group R
  remove g = record g { entry = none }

  unfoldable pub close : ℕ → Group R → Group R
  close c g = record g { calls = put c (record (g.calls c) { done = true }) g.calls }

  -- What a waiter does once the call is done.
  unfoldable pub wake : Option (Outcome R) → Pc R
  wake none = looking
  wake (some (returned r)) = answered (returned r)
  wake (some (abandoned r)) = looking
  wake (some panicked) = answered panicked
  wake (some goexit) = answered goexit

  pub data Move (g : Group R) : Pc R → Group R → Pc R → Type 0 where
    arrive : Move g idle g looking
    enter : Move g looking (join g).0 (join g).1
    load : {c : ℕ} (o : Outcome R) → Move g (leading c) (finish c o g) (removing c o)
    delete : {c : ℕ} {o : Outcome R} → Move g (removing c o) (remove g) (closing c o)
    release : {c : ℕ} {o : Outcome R} → Move g (closing c o) (close c g) (answered o)
    wake_up : {c : ℕ} → (g.calls c).done ≡ true → Move g (waiting c) g (wake (g.calls c).outcome)
    give_up : {c : ℕ} → Move g (waiting c) g ended
    abandon : {c : ℕ} → (g.calls c).done ≡ true → Move g (waiting c) g ended

pub record System (R : Type 0) : Type 0 where
  pub group : Group R
  pub pc : ℕ → Pc R

pub data Step {R : Type 0} (n : ℕ) (s : System R) : System R → Type 0 where
  pick :
      (i : ℕ) {g : Group R} {p : Pc R}
      → i < n
      → Move s.group (s.pc i) g p
      → Step n s (record { group = g; pc = put i p s.pc })

-- From an empty group.
abbrev pub fresh_group : {R : Type 0} → Group R
fresh_group = record {
  entry = none;
  calls = λ _. record { done = false; outcome = none };
  next = 0;
}

pub data Reach {R : Type 0} (n : ℕ) : System R → Type 0 where
  start : Reach n (record { group = fresh_group; pc = λ _. idle })
  later : {s t : System R} → Reach n s → Step n s t → Reach n t

abbrev pub loads : {R : Type 0} → Pc R → ℕ
loads (leading c) = 1
loads p = 0

-- The leader of a load until its entry is removed.
abbrev pub leads : {R : Type 0} → Pc R → ℕ
leads (leading c) = 1
leads (removing c o) = 1
leads p = 0

abbrev pub entries : {R : Type 0} → Group R → ℕ
entries g = elim g.entry [ none ↦ 0 | some c ↦ 1 ]

wake-leads : {R : Type 0} (o : Option (Outcome R)) → leads (wake o) ≡ 0
unfolding wake
wake-leads none = refl
wake-leads (some (returned r)) = refl
wake-leads (some (abandoned r)) = refl
wake-leads (some panicked) = refl
wake-leads (some goexit) = refl

entries-le : {R : Type 0} (g : Group R) → entries g ≤ 1
entries-le g = elim g.entry as (λ o. (elim o [ none ↦ 0 | some c ↦ 1 ]) ≤ 1) [
  | none ↦ omega arith
  | some c ↦ omega arith
]

Move-leads :
    {R : Type 0} {g g' : Group R} {p p' : Pc R}
    → Move g p g' p'
    → leads p ≤ entries g
    → (entries g' + leads p ≡ entries g + leads p') × (entries g' ≤ 1)
unfolding join finish remove close
Move-leads {g = g} arrive h = (refl, entries-le g)
Move-leads {g = g} enter h = ground arith
Move-leads {g = g} (load o) h = (refl, entries-le g)
Move-leads {g = g} delete h = ground arith
Move-leads {g = g} release h = (refl, entries-le g)
Move-leads {g = g} (wake_up {c} d) h = ground (arith, wake-leads (g.calls c).outcome)
Move-leads {g = g} give_up h = (refl, entries-le g)
Move-leads {g = g} (abandon d) h = (refl, entries-le g)

module _ {R : Type 0} (n : ℕ) where
  Step-leads :
      {s t : System R}
      → Step n s t
      → entries s.group ≡ sum_threads leads n s.pc
      → entries t.group ≡ sum_threads leads n t.pc
  Step-leads {s} (pick i {p = p} lt mv) same =
      let one = le-sum_threads leads n i s.pc lt in
      let (change, _) = Move-leads mv (omega (arith, one, same)) in
      omega (arith, change, same, sum_threads-put leads n i p s.pc lt)

  Reach-leads : {s : System R} → Reach n s → entries s.group ≡ sum_threads leads n s.pc
  Reach-leads start = sym (sum_threads-eq_zero leads n (λ _. idle) (λ _. refl))
  Reach-leads (later r st) = Step-leads st (Reach-leads r)

  loads-le-leads : (p : Pc R) → loads p ≤ leads p
  loads-le-leads (leading c) = omega arith
  loads-le-leads p = omega arith

  -- In every interleaving of any number of callers of one key, at most one runs the loader; and the
  -- map has an entry for the key only while some caller leads, so that a load which fails, panics or
  -- exits leaves the key free.
  pub Reach-single :
      {s : System R}
      → Reach n s
      → (sum_threads loads n s.pc ≤ 1) × ((s.group.entry ≡ none) ⊎ (0 < sum_threads leads n s.pc))
  Reach-single {s} r =
      let same = Reach-leads r in
      (
        omega (arith, same, entries-le s.group, sum_threads-le loads leads n s.pc loads-le-leads),
        elim (Option-cases s.group.entry) [
          | inl free ↦ inl free
          | inr (c, led) ↦ inr (ground (arith, same))
        ],
      )
