-- ===== src/Cache/WriteThrough/Exclusion.antt =====
-- cache/writethrough.go: one writer of a key at a time, and no lock left behind.
use mathlib.Core.Path.{subst}
use albstractions.Prelude.{
  ℕ, ◌+◌, ◌≤◌, ◌<◌, ◌≡◌, refl, sym, ◌⊎◌, inl, inr, Bool, true, false, Option, none, some, arith,
  ◌==◌, Bool-cases, nat_comparable, put, sum_threads, sum_threads-put, le-sum_threads,
  sum_threads-eq_zero,
}
use albstractions.Cache.WriteThrough.{
  Locks, enter, fill, empty, release, Pc, idle, waiting, writing, leaving, Move, lock, send,
  give_up, receive, unlock, System, Step, pick, Reach, start, later,
}

-- Before the lock is taken, or after it is given back.
abbrev pub waits : Pc → ℕ
waits (waiting l) = 1
waits (leaving l) = 1
waits p = 0

abbrev pub writes : Pc → ℕ
writes (writing l) = 1
writes p = 0

-- A caller that is engaged is so with the lock that the map holds.
abbrev On : Option ℕ → Pc → Type 0
On entry idle = Unit
On entry (waiting l) = entry ≡ some l
On entry (writing l) = entry ≡ some l
On entry (leaving l) = entry ≡ some l

abbrev filled : Bool → ℕ
filled true = 1
filled false = 0

-- The references of the lock in the map, and whether it is held.
abbrev refs_of : Locks → ℕ
refs_of w = elim w.entry [ none ↦ 0 | some l ↦ (w.heap l).refs ]

abbrev held : Locks → ℕ
held w = elim w.entry [ none ↦ 0 | some l ↦ filled (w.heap l).full ]

abbrev Counted : Locks → Type 0
Counted w = (w.entry ≡ none) ⊎ (0 < refs_of w)

Move-counts :
    {w w' : Locks} {p p' : Pc}
    → Move w p w' p'
    → On w.entry p
    → Counted w
    → writes p ≤ held w
    → held w + waits p ≤ refs_of w
    → (refs_of w' + (writes p + waits p) ≡ refs_of w + (writes p' + waits p'))
      × (held w' + writes p ≡ held w + writes p')
      × Counted w'
unfolding enter fill empty release
Move-counts {w} lock on c h k = ground arith
Move-counts {w} (send {l = l} free) on c h k = ground arith
Move-counts {w} (give_up {l = l}) on c h k = ground arith
Move-counts {w} (receive {l = l}) on c h k = ground arith
Move-counts {w} (unlock {l = l}) on c h k = ground arith

-- The entry changes only when the last caller engaged leaves it, or when there was none.
Move-entry :
    {w w' : Locks} {p p' : Pc}
    → Move w p w' p'
    → On w.entry p
    → On w'.entry p' × ((w'.entry ≡ w.entry) ⊎ (w.entry ≡ none) ⊎ (refs_of w ≤ writes p + waits p))
unfolding enter fill empty release
Move-entry {w} lock on = ground arith
Move-entry {w} (send {l = l} free) on = (on, inl refl)
Move-entry {w} (give_up {l = l}) on = (tt, ground arith)
Move-entry {w} (receive {l = l}) on = (on, inl refl)
Move-entry {w} (unlock {l = l}) on = (tt, ground arith)

On-later :
    (entry entry' : Option ℕ) (p : Pc)
    → (entry' ≡ entry) ⊎ (entry ≡ none) ⊎ (writes p + waits p ≡ 0)
    → On entry p
    → On entry' p
On-later entry entry' idle h on = tt
On-later entry entry' (waiting l) h on = ground arith
On-later entry entry' (writing l) h on = ground arith
On-later entry entry' (leaving l) h on = ground arith

module _ (n : ℕ) where
  -- With all references one thread's, the others are idle.
  others-idle :
      (i j : ℕ) (f : ℕ → Pc)
      → i < n
      → j < n
      → (i == j) ≡ false
      → sum_threads writes n f + sum_threads waits n f ≤ writes (f i) + waits (f i)
      → writes (f j) + waits (f j) ≡ 0
  others-idle i j f lt lt' apart h =
      let one = sum_threads-put writes n i idle f lt in
      let two = sum_threads-put waits n i idle f lt in
      let kept : put i idle f j ≡ f j = rw apart refl in
      let mine : writes (f j) ≤ sum_threads writes n (put i idle f) =
        subst (λ p. writes p ≤ sum_threads writes n (put i idle f)) kept
          (le-sum_threads writes n j (put i idle f) lt') in
      let mine' : waits (f j) ≤ sum_threads waits n (put i idle f) =
        subst (λ p. waits p ≤ sum_threads waits n (put i idle f)) kept
          (le-sum_threads waits n j (put i idle f) lt') in
      omega (arith, one, two, mine, mine')

  record Inv (s : System) : Type 0 where
    refs : refs_of s.locks ≡ sum_threads writes n s.pc + sum_threads waits n s.pc
    one_held : held s.locks ≡ sum_threads writes n s.pc
    counted : Counted s.locks
    on : (j : ℕ) → j < n → On s.locks.entry (s.pc j)

  Step-Inv : {s t : System} → Step n s t → Inv s → Inv t
  Step-Inv {s} (pick i {w} {p} lt mv) inv =
      let here = inv.on i lt in
      let one = le-sum_threads writes n i s.pc lt in
      let two = le-sum_threads waits n i s.pc lt in
      let (refs, held', counted) =
        Move-counts mv here inv.counted (omega (arith, one, inv.one_held))
          (omega (arith, two, inv.one_held, inv.refs)) in
      let (on', change) = Move-entry mv here in
      let w1 = sum_threads-put writes n i p s.pc lt in
      let w2 = sum_threads-put waits n i p s.pc lt in
      record {
        refs = omega (arith, refs, w1, w2, inv.refs);
        one_held = omega (arith, held', w1, inv.one_held);
        counted = counted;
        on = λ j lt'. elim (Bool-cases (i == j)) [
          | inl same ↦ rw same on'
          | inr apart ↦ rw apart (
              On-later s.locks.entry w.entry (s.pc j)
                (elim change [
                  | inl kept ↦ inl kept
                  | inr (inl none') ↦ inr (inl none')
                  | inr (inr last) ↦
                      inr (inr (others-idle i j s.pc lt lt' apart (omega (arith, last, inv.refs))))
                ])
                (inv.on j lt'))
        ];
      }

  Reach-Inv : {s : System} → Reach n s → Inv s
  Reach-Inv start = record {
    refs = omega (
      arith,
      sum_threads-eq_zero writes n (λ _. idle) (λ _. refl),
      sum_threads-eq_zero waits n (λ _. idle) (λ _. refl),
    );
    one_held = sym (sum_threads-eq_zero writes n (λ _. idle) (λ _. refl));
    counted = inl refl;
    on = λ j lt. tt;
  }
  Reach-Inv (later r st) = Step-Inv st (Reach-Inv r)

  held-le : (w : Locks) → held w ≤ 1
  held-le w = elim w.entry as (λ o. (elim o [ none ↦ 0 | some l ↦ filled (w.heap l).full ]) ≤ 1) [
    | none ↦ omega arith
    | some l ↦ elim (w.heap l).full as (λ b. filled b ≤ 1) [
      | true ↦ omega arith
      | false ↦ omega arith
    ]
  ]

  -- In every interleaving of any number of calls that write one key, at most one is past the lock and
  -- writes; and once no call is under way the map of locks has no entry for the key, so that
  -- locks are not left behind.
  pub Reach-exclusive :
      {s : System}
      → Reach n s
      → (sum_threads writes n s.pc ≤ 1)
        × ((s.locks.entry ≡ none) ⊎ (0 < sum_threads writes n s.pc + sum_threads waits n s.pc))
  Reach-exclusive {s} r =
      let inv = Reach-Inv r in
      (
        omega (arith, inv.one_held, held-le s.locks),
        elim inv.counted [ inl gone ↦ inl gone | inr used ↦ inr (omega (arith, used, inv.refs)) ],
      )
