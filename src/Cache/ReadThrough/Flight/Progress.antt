-- ===== src/Cache/ReadThrough/Flight/Progress.antt =====
-- cache/readthrough.go: nobody who waits for a load of the flight group is stranded.
use mathlib.Core.Path.{subst}
use albstractions.Prelude.{
  ℕ, ◌<◌, ◌≡◌, refl, sym, ap, ◌∙◌, ◌≢◌, ◌⊎◌, inl, inr, true, some, arith, Bool-cases,
  nat_comparable, put, sum_threads-positive, put-same, put-other,
}
use albstractions.Cache.ReadThrough.Flight.{
  Outcome, Group, Pc, idle, looking, ended, waiting, leading, removing, closing, answered, close,
  wake, Move, load, delete, release, wake_up, System, Step, pick, Reach,
}
use albstractions.Cache.ReadThrough.Flight.Calls.{
  Told, owns, IsSound, Step-IsSound, Reach-IsSound, Move-calls, owned-one,
}

pub data Steps {R : Type 0} (n : ℕ) : System R → System R → Type 0 where
  none_yet : {s : System R} → Steps n s s
  first : {s t u : System R} → Step n s t → Steps n t u → Steps n s u

owner-apart :
    {R : Type 0} {c : ℕ} (f : ℕ → Pc R) (i j : ℕ) → f i ≡ waiting c → 0 < owns c (f j) → j ≢ i
owner-apart {c = c} f i j waits leads e =
    omega (arith, leads, ap (owns c) waits, ap (owns c) (ap f e))

module _ {R : Type 0} (n : ℕ) where
  -- How a caller that waits for call `c` goes on: with the outcome of its load.
  abbrev pub GoesOn : System R → ℕ → ℕ → Type 0
  GoesOn s i c =
      (t : System R) × (o : Outcome R) × Steps n s t
      × ((t.group.calls c).done ≡ true)
      × ((t.group.calls c).outcome ≡ some o)
      × (t.pc i ≡ wake (some o))

  via : {s t : System R} {i c : ℕ} → Step n s t → GoesOn t i c → GoesOn s i c
  via st (u, o, steps, over, kept, on) = (u, o, first st steps, over, kept, on)

  done-GoesOn :
      {s : System R} {i c : ℕ}
      → IsSound n s
      → i < n
      → s.pc i ≡ waiting c
      → (s.group.calls c).done ≡ true
      → GoesOn s i c
  done-GoesOn {s} {i} {c} v lt waits over =
      let (o, kept) = v.outcome c over in
      let st : Step n s
          (record { group = s.group; pc = put i (wake (s.group.calls c).outcome) s.pc }) =
        pick i lt (
          subst (λ p. Move s.group p s.group (wake (s.group.calls c).outcome)) (sym waits)
            (wake_up over)) in
      (_, o, first st none_yet, over, kept, put-same i _ s.pc ∙ ap wake kept)

  module _ {s : System R} {i j c : ℕ} (v : IsSound n s) (li : i < n) (lj : j < n)
      (waits : s.pc i ≡ waiting c) where
    -- A move of the caller that leads, after which the other still waits.
    lead-GoesOn :
        {p p' : Pc R} {g : Group R}
        → s.pc j ≡ p
        → 0 < owns c p
        → Move s.group p g p'
        → (IsSound n (record { group = g; pc = put j p' s.pc })
            → put j p' s.pc i ≡ waiting c
            → put j p' s.pc j ≡ p'
            → GoesOn (record { group = g; pc = put j p' s.pc }) i c)
        → GoesOn s i c
    lead-GoesOn {p} {p'} {g} at leads mv rest =
        let st : Step n s (record { group = g; pc = put j p' s.pc }) =
          pick j lj (subst (λ q. Move s.group q g p') (sym at) mv) in
        let apart = owner-apart s.pc i j waits (subst (λ q. 0 < owns c q) (sym at) leads) in
        via st
          (rest (Step-IsSound n st v) (put-other j i p' s.pc apart ∙ waits) (put-same j p' s.pc))

  closing-GoesOn :
      {s : System R} {i j c : ℕ} {o : Outcome R}
      → IsSound n s
      → i < n
      → j < n
      → s.pc i ≡ waiting c
      → s.pc j ≡ closing c o
      → GoesOn s i c
  unfolding close
  closing-GoesOn {s} {c = c} v li lj waits at =
      lead-GoesOn v li lj waits at (ground arith) release
        (λ v' waits' at'. done-GoesOn v' li waits' (ground arith))

  removing-GoesOn :
      {s : System R} {i j c : ℕ} {o : Outcome R}
      → IsSound n s
      → i < n
      → j < n
      → s.pc i ≡ waiting c
      → s.pc j ≡ removing c o
      → GoesOn s i c
  removing-GoesOn v li lj waits at =
      lead-GoesOn v li lj waits at (ground arith) delete
        (λ v' waits' at'. closing-GoesOn v' li lj waits' at')

  leading-GoesOn :
      {s : System R} {i j c : ℕ} (o : Outcome R)
      → IsSound n s
      → i < n
      → j < n
      → s.pc i ≡ waiting c
      → s.pc j ≡ leading c
      → GoesOn s i c
  leading-GoesOn o v li lj waits at =
      lead-GoesOn v li lj waits at (ground arith) (load o)
        (λ v' waits' at'. removing-GoesOn v' li lj waits' at')

  owner-cases :
      (c : ℕ) (p : Pc R)
      → 0 < owns c p
      → (p ≡ leading c)
        ⊎ ((o : Outcome R) × (p ≡ removing c o))
        ⊎ ((o : Outcome R) × (p ≡ closing c o))
  owner-cases c (leading d) h = inl (ap leading (ground arith))
  owner-cases c (removing d o) h = inr (inl (o, ap (λ e. removing e o) (ground arith)))
  owner-cases c (closing d o) h = inr (inr (o, ap (λ e. closing e o) (ground arith)))
  owner-cases c idle h = absurd (omega arith)
  owner-cases c looking h = absurd (omega arith)
  owner-cases c ended h = absurd (omega arith)
  owner-cases c (waiting d) h = absurd (omega arith)
  owner-cases c (answered o) h = absurd (omega arith)

  -- In every state that the callers of one key reach, a caller that waits for a load is not stranded:
  -- whichever way a load may end, by a panic or Goexit too, finitely many steps lead to where the load
  -- is done with an outcome on record, and the caller answers with that outcome or, if the load was
  -- abandoned, looks again.
  pub Reach-GoesOn :
      {s : System R} {i c : ℕ} (o : Outcome R)
      → Reach n s
      → i < n
      → s.pc i ≡ waiting c
      → GoesOn s i c
  Reach-GoesOn {s} {i} {c} o r li waits =
      let v = Reach-IsSound n r in
      elim (Bool-cases (s.group.calls c).done) [
        | inl over ↦ done-GoesOn v li waits over
        | inr on ↦
            let known : c < s.group.next = subst (Told s.group) waits (v.told i li) in
            let (j, lj, leads) =
              sum_threads-positive (owns c) n s.pc (ground (arith, v.owned c, on, known)) in
            elim (owner-cases c (s.pc j) leads) [
              | inl at ↦ leading-GoesOn o v li lj waits at
              | inr (inl (o', at)) ↦ removing-GoesOn v li lj waits at
              | inr (inr (o', at)) ↦ closing-GoesOn v li lj waits at
            ]
      ]

  Steps-calls :
      {s t : System R} (a : ℕ)
      → Steps n s t
      → IsSound n s
      → (s.group.calls a).done ≡ true
      → t.group.calls a ≡ s.group.calls a
  Steps-calls a none_yet v over = refl
  Steps-calls {s} a (first (pick i lt mv) rest) v over =
      let same =
        Move-calls mv a (ground (arith, v.owned a, over))
          (ground (arith, owned-one n i lt v a, over)) in
      Steps-calls a rest (Step-IsSound n (pick i lt mv) v) (ap (λ x. x.done) same ∙ over) ∙ same

  -- What a waiter finds in a load that is done never changes: it has an outcome, and no step of any
  -- caller makes it another.
  Reach-published :
      {s t : System R} (c : ℕ)
      → Reach n s
      → Steps n s t
      → (s.group.calls c).done ≡ true
      → (o : Outcome R) × ((s.group.calls c).outcome ≡ some o) × (t.group.calls c ≡ s.group.calls c)
  Reach-published c r steps over =
      let v = Reach-IsSound n r in
      let (o, kept) = v.outcome c over in (o, kept, Steps-calls c steps v over)
