-- ===== src/Cache/ReadThrough/Flight/Calls.antt =====
-- cache/readthrough.go: every call that the flight group made is led by one caller or done, and what a
-- caller finds in one that is done is the outcome of its load.
use albstractions.Prelude.{
  ℕ, ◌+◌, ◌≤◌, ◌<◌, ◌≡◌, refl, ap, ◌∙◌, inl, inr, Bool, true, Option, none, some, arith, ltb, ◌==◌,
  if◌then◌else◌, Bool-cases, Option-cases, nat_comparable, sum_threads, two_le-sum_threads,
  sum_threads-put, le-sum_threads, sum_threads-eq_zero,
}
use mathlib.Core.Option.{some-injective}
use albstractions.Cache.ReadThrough.Flight.{
  Outcome, Group, Pc, idle, looking, ended, waiting, leading, removing, closing, answered, join,
  finish, remove, close, wake, Move, arrive, enter, load, delete, release, wake_up, give_up,
  abandon, System, Step, pick, Reach, start, later, fresh_group,
}

abbrev bit : Bool → ℕ
bit b = if b then 1 else 0

-- Whether a caller leads call `c`, up to the closing of its channel.
abbrev pub owns : {R : Type 0} → ℕ → Pc R → ℕ
owns c (leading d) = bit (d == c)
owns c (removing d o) = bit (d == c)
owns c (closing d o) = bit (d == c)
owns c p = 0

abbrev pub made : {R : Type 0} → Group R → ℕ → ℕ
made g c = bit (ltb c g.next)

abbrev pub ends : {R : Type 0} → Group R → ℕ → ℕ
ends g c = bit (g.calls c).done

-- What a caller may count on, of the call that it holds.
abbrev pub Told : {R : Type 0} → Group R → Pc R → Type 0
Told g (waiting c) = c < g.next
Told g (removing c o) = (g.calls c).outcome ≡ some o
Told g (closing c o) = (g.calls c).outcome ≡ some o
Told g p = Unit

module _ {R : Type 0} where
  wake-owns : (a : ℕ) (o : Option (Outcome R)) → owns a (wake o) ≡ 0
  unfolding wake
  wake-owns a none = refl
  wake-owns a (some (Outcome.returned r)) = refl
  wake-owns a (some (Outcome.abandoned r)) = refl
  wake-owns a (some Outcome.panicked) = refl
  wake-owns a (some Outcome.goexit) = refl

  Move-owned :
      {g g' : Group R} {p p' : Pc R}
      → Move g p g' p'
      → ((a : ℕ) → owns a p + ends g a ≤ made g a)
      → (a : ℕ) → ends g' a + owns a p' + made g a ≡ ends g a + owns a p + made g' a
  unfolding join finish remove close
  Move-owned arrive h a = refl
  Move-owned {g = g} enter h a = elim (Option-cases g.entry) [
    | inl free ↦ rw free (ground (arith, h g.next, h a))
    | inr (d, led) ↦ rw led (ground arith)
  ]
  Move-owned {g = g} (load {c} o) h a = ground (arith, h a)
  Move-owned delete h a = refl
  Move-owned {g = g} (release {c}) h a = ground (arith, h a)
  Move-owned {g = g} (wake_up {c} done) h a = ground (arith, wake-owns a (g.calls c).outcome)
  Move-owned give_up h a = refl
  Move-owned (abandon done) h a = refl

  wake-Told : (g : Group R) (o : Option (Outcome R)) → Told g (wake o)
  unfolding wake
  wake-Told g none = tt
  wake-Told g (some (Outcome.returned r)) = tt
  wake-Told g (some (Outcome.abandoned r)) = tt
  wake-Told g (some Outcome.panicked) = tt
  wake-Told g (some Outcome.goexit) = tt

  Move-Told :
      {g g' : Group R} {p p' : Pc R}
      → Move g p g' p'
      → ((c : ℕ) → g.entry ≡ some c → c < g.next)
      → Told g p
      → Told g' p'
  unfolding join finish remove close
  Move-Told arrive e h = tt
  Move-Told {g = g} enter e h = elim (Option-cases g.entry) [
    | inl free ↦ rw free tt
    | inr (d, led) ↦ rw led (e d led)
  ]
  Move-Told {g = g} (load {c} o) e h = ground arith
  Move-Told delete e h = h
  Move-Told release e h = tt
  Move-Told {g = g} (wake_up {c} done) e h = wake-Told g (g.calls c).outcome
  Move-Told give_up e h = tt
  Move-Told (abandon done) e h = tt

  -- A call that a caller does not lead stays as it is.
  pub Move-calls :
      {g g' : Group R} {p p' : Pc R}
      → Move g p g' p'
      → (a : ℕ) → a < g.next
      → owns a p ≡ 0
      → g'.calls a ≡ g.calls a
  unfolding join finish remove close
  Move-calls arrive a lt h = refl
  Move-calls {g = g} enter a lt h = elim (Option-cases g.entry) [
    | inl free ↦ rw free (ground arith)
    | inr (d, led) ↦ rw led refl
  ]
  Move-calls {g = g} (load {c} o) a lt h = ground arith
  Move-calls delete a lt h = refl
  Move-calls {g = g} (release {c}) a lt h = ground arith
  Move-calls (wake_up done) a lt h = refl
  Move-calls give_up a lt h = refl
  Move-calls (abandon done) a lt h = refl

  Move-next : {g g' : Group R} {p p' : Pc R} → Move g p g' p' → g.next ≤ g'.next
  unfolding join finish remove close
  Move-next arrive = omega arith
  Move-next {g = g} enter = ground arith
  Move-next (load o) = omega arith
  Move-next delete = omega arith
  Move-next release = omega arith
  Move-next (wake_up done) = omega arith
  Move-next give_up = omega arith
  Move-next (abandon done) = omega arith

  Move-entry :
      {g g' : Group R} {p p' : Pc R}
      → Move g p g' p'
      → ((c : ℕ) → g.entry ≡ some c → c < g.next)
      → (c : ℕ) → g'.entry ≡ some c
      → c < g'.next
  unfolding join finish remove close
  Move-entry arrive e c h = e c h
  Move-entry {g = g} enter e c h = elim (Option-cases g.entry) [
    | inl free ↦
        let first : g.next ≡ c = some-injective _ _ (rw (free, join) at h) in
        rw free (omega (arith, first))
    | inr (d, led) ↦ let same : g.entry ≡ some c = rw (led, join) at h in rw (led, join) (e c same)
  ]
  Move-entry (load o) e c h = e c h
  Move-entry delete e c h = absurd (cc)
  Move-entry release e c h = e c h
  Move-entry (wake_up done) e c h = e c h
  Move-entry give_up e c h = e c h
  Move-entry (abandon done) e c h = e c h

  -- A done call has an outcome.
  Move-outcome :
      {g g' : Group R} {p p' : Pc R}
      → Move g p g' p'
      → Told g p
      → ((a : ℕ) → (g.calls a).done ≡ true → (o : Outcome R) × ((g.calls a).outcome ≡ some o))
      → (a : ℕ) → (g'.calls a).done ≡ true
      → (o : Outcome R) × ((g'.calls a).outcome ≡ some o)
  unfolding join finish remove close
  Move-outcome arrive t k a h = k a h
  Move-outcome {g = g} enter t k a h = elim (Option-cases g.entry) [
    | inl free ↦ elim (Bool-cases (g.next == a)) [
      | inl new ↦ absurd (ground (arith, free, new))
      | inr old ↦ rw (free, join, old) (k a (rw (free, join, old) at h))
    ]
    | inr (d, led) ↦ rw (led, join) (k a (rw (led, join) at h))
  ]
  Move-outcome {g = g} (load {c} o) t k a h = elim (Bool-cases (c == a)) [
    | inl own ↦ rw own (o, refl)
    | inr other ↦ rw other (k a (rw other at h))
  ]
  Move-outcome delete t k a h = k a h
  Move-outcome {g = g} (release {c} {o}) t k a h = elim (Bool-cases (c == a)) [
    | inl own ↦ rw own (o, t)
    | inr other ↦ rw other (k a (rw other at h))
  ]
  Move-outcome (wake_up done) t k a h = k a h
  Move-outcome give_up t k a h = k a h
  Move-outcome (abandon done) t k a h = k a h

  other-Told :
      {g g' : Group R} {p p' : Pc R} (q : Pc R)
      → Move g p g' p'
      → ((a : ℕ) → owns a p + owns a q ≤ 1)
      → ((a : ℕ) → owns a q ≤ made g a)
      → Told g q
      → Told g' q
  other-Told idle m one below h = tt
  other-Told looking m one below h = tt
  other-Told ended m one below h = tt
  other-Told (waiting c) m one below h = omega (arith, h, Move-next m)
  other-Told (leading c) m one below h = tt
  other-Told {g = g} (removing c o) m one below h =
      ap (λ x. x.outcome) (Move-calls m c (ground (arith, below c)) (ground (arith, one c))) ∙ h
  other-Told {g = g} (closing c o) m one below h =
      ap (λ x. x.outcome) (Move-calls m c (ground (arith, below c)) (ground (arith, one c))) ∙ h
  other-Told (answered o) m one below h = tt

pub record IsSound {R : Type 0} (n : ℕ) (s : System R) : Type 0 where
  pub owned : (a : ℕ) → sum_threads (owns a) n s.pc + ends s.group a ≡ made s.group a
  pub listed : (c : ℕ) → s.group.entry ≡ some c → c < s.group.next
  pub told : (i : ℕ) → i < n → Told s.group (s.pc i)
  pub outcome :
      (a : ℕ)
      → (s.group.calls a).done ≡ true
      → (o : Outcome R) × ((s.group.calls a).outcome ≡ some o)

module _ {R : Type 0} (n : ℕ) where
  start-IsSound : IsSound {R = R} n (record { group = fresh_group; pc = λ _. idle })
  start-IsSound = record {
    owned = λ a. ground (arith, sum_threads-eq_zero (owns {R = R} a) n (λ _. idle) (λ _. refl));
    listed = λ c h. absurd (cc);
    told = λ i lt. tt;
    outcome = λ a h. absurd (cc);
  }

  pub owned-one :
      {s : System R} (i : ℕ)
      → i < n
      → IsSound n s
      → (a : ℕ) → owns a (s.pc i) + ends s.group a ≤ made s.group a
  owned-one {s} i lt v a = omega (arith, le-sum_threads (owns a) n i s.pc lt, v.owned a)

  pub Step-IsSound : {s t : System R} → Step n s t → IsSound n s → IsSound n t
  Step-IsSound {s} (pick i {g} {p} lt mv) v =
      let one = owned-one i lt v in
      record {
        owned = λ a.
            omega (arith, v.owned a, sum_threads-put (owns a) n i p s.pc lt, Move-owned mv one a);
        listed = Move-entry mv v.listed;
        told = λ j lj. elim (Bool-cases (i == j)) [
          | inl own ↦ rw own (Move-Told mv v.listed (v.told i lt))
          | inr other ↦ rw other (
              other-Told (s.pc j) mv
                (λ a. ground (
                  arith,
                  two_le-sum_threads (owns a) n i j s.pc idle lt lj (λ e. ground (arith, other)),
                  v.owned a,
                ))
                (λ a. omega (arith, owned-one j lj v a)) (v.told j lj))
        ];
        outcome = Move-outcome mv (v.told i lt) v.outcome;
      }

  pub Reach-IsSound : {s : System R} → Reach n s → IsSound n s
  Reach-IsSound start = start-IsSound
  Reach-IsSound (later r st) = Step-IsSound st (Reach-IsSound r)
