-- ===== src/Cache/WriteThrough.antt =====
-- cache/writethrough.go: the lock of one key, whose entry in the map of locks comes and goes, and the
-- writes under it. Lock objects are numbered, as a goroutine may hold one that the map has dropped.
-- The locks of different keys are different entries and different objects.
pub mod Exclusion
pub mod Writes
pub mod Coherence
pub mod Interleaving
use albstractions.Prelude.{
  ℕ, ◌+◌, ◌-◌, ◌<◌, ◌≡◌, Bool, true, false, Option, none, some, ◌==◌, if◌then◌else◌, nat_comparable,
  put,
}

pub record KeyLock : Type 0 where
  pub refs : ℕ
  pub full : Bool  -- whether the channel holds its one value

-- The entry of the key in `locks`, and the lock objects that were made.
pub record Locks : Type 0 where
  pub entry : Option ℕ
  pub heap : ℕ → KeyLock
  pub next : ℕ

abbrev pub no_locks : Locks
no_locks = record { entry = none; heap = λ _. record { refs = 0; full = false }; next = 0 }

-- The critical section of `lock`.
unfoldable pub enter : Locks → ℕ × Locks
enter w = elim w.entry [
  | none ↦ (
    w.next,
    record {
      entry = some w.next;
      heap = put w.next (record { refs = 1; full = false }) w.heap;
      next = w.next + 1;
    },
  )
  | some l ↦
      (l, record w { heap = put l (record (w.heap l) { refs = (w.heap l).refs + 1 }) w.heap })
]

-- A send to the channel, and the receive from it.
unfoldable pub fill : ℕ → Locks → Locks
fill l w = record w { heap = put l (record (w.heap l) { full = true }) w.heap }

unfoldable pub empty : ℕ → Locks → Locks
empty l w = record w { heap = put l (record (w.heap l) { full = false }) w.heap }

unfoldable pub release : ℕ → Locks → Locks
release l w =
    let refs = (w.heap l).refs - 1 in
    record w {
      entry = (if refs == 0 then none else w.entry);
      heap = put l (record (w.heap l) { refs = refs }) w.heap;
    }

-- Where a caller of `SetContext` or `DeleteContext` stands; `unlock` is the last two steps.
pub data Pc : Type 0 where
  idle : Pc
  waiting : ℕ → Pc
  writing : ℕ → Pc
  leaving : ℕ → Pc

pub data Move (w : Locks) : Pc → Locks → Pc → Type 0 where
  lock : Move w idle (enter w).1 (waiting (enter w).0)
  send : {l : ℕ} → (w.heap l).full ≡ false → Move w (waiting l) (fill l w) (writing l)
  give_up : {l : ℕ} → Move w (waiting l) (release l w) idle
  receive : {l : ℕ} → Move w (writing l) (empty l w) (leaving l)
  unlock : {l : ℕ} → Move w (leaving l) (release l w) idle

pub record System : Type 0 where
  pub locks : Locks
  pub pc : ℕ → Pc

-- One of `n` callers moves.
pub data Step (n : ℕ) (s : System) : System → Type 0 where
  pick :
      (i : ℕ) {w : Locks} {p : Pc}
      → i < n
      → Move s.locks (s.pc i) w p
      → Step n s (record { locks = w; pc = put i p s.pc })

pub data Reach (n : ℕ) : System → Type 0 where
  start : Reach n (record { locks = no_locks; pc = λ _. idle })
  later : {s t : System} → Reach n s → Step n s t → Reach n t
