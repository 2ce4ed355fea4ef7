-- ===== src/Cache/ReadThrough/Callers.antt =====
-- cache/readthrough.go: `GetContext` of one key by many callers at once, over a front and a loader, when
-- the layer shares loads: a caller that misses the front goes through the flight group.
pub mod Outcomes
pub mod Replies
use albstractions.Prelude.{
  ℕ, ◌<◌, ◌≡◌, ◌≢◌, ◌⊎◌, inl, Bool, true, false, Option, none, some, nat_comparable, put,
}
use albstractions.Errors.{message, sentinel, goexit, Error, Context}
use albstractions.Cache.Interface.{Answer, absent, Cache}
use albstractions.Cache.ReadThrough.{ReadThrough, load_and_store, answer_of}
use albstractions.Cache.ReadThrough.Flight.{
  ended, Outcome, Group, Pc, idle, looking, leading, removing, answered, finish, Move, fresh_group,
}
use albstractions.Cache.ReadThrough.Flight

-- How a load that gave `res` ends.
pub data Ends {V : Type 0} (res : Error ⊎ V) : Outcome (Error ⊎ V) → Type 0 where
  returns : Ends res (Outcome.returned res)
  abandons : {err : Error} → res ≡ inl err → Ends res (Outcome.abandoned res)

-- The flight group with its callers, what the front has answered to a caller, and the states of the
-- source and of the front.
pub record System (S T V : Type 0) : Type 0 where
  pub flight : Flight.System (Error ⊎ V)
  pub found : ℕ → Option (Answer V)
  pub source : T
  pub front : S

-- A caller that is within the group, but for the loader.
abbrev pub in_group : {R : Type 0} → Pc R → Bool
in_group idle = false
in_group (leading c) = false
in_group p = true

module _ {S T K V : Type 0} (r : ReadThrough S T K V) (serves : K → S → Option V) (key : K) where
  pub data Step (n : ℕ) (s : System S T V) : System S T V → Type 0 where
    front_misses :
        (i : ℕ) (ctx : Context)
        → i < n
        → s.flight.pc i ≡ idle
        → s.found i ≡ none
        → (r.front.get_context ctx key s.front).0 ≡ absent
        → Step n s (record s {
          flight = record { group = s.flight.group; pc = put i looking s.flight.pc };
          front = (r.front.get_context ctx key s.front).1;
        })
    front_answers :
        (i : ℕ) (ctx : Context)
        → i < n
        → s.flight.pc i ≡ idle
        → s.found i ≡ none
        → (r.front.get_context ctx key s.front).0 ≢ absent
        → Step n s (record s {
          found = put i (some (r.front.get_context ctx key s.front).0) s.found;
          front = (r.front.get_context ctx key s.front).1;
        })
    in_flight :
        (i : ℕ) {g : Group (Error ⊎ V)} {p : Pc (Error ⊎ V)}
        → i < n
        → in_group (s.flight.pc i) ≡ true
        → Move s.flight.group (s.flight.pc i) g p
        → Step n s (record s { flight = record { group = g; pc = put i p s.flight.pc } })
    loads :
        (i : ℕ) {c : ℕ} (ctx : Context) {o : Outcome (Error ⊎ V)}
        → i < n
        → s.flight.pc i ≡ leading c
        → Ends (load_and_store r ctx key s.source s.front).0 o
        → Step n s (record s {
          flight = record {
            group = finish c o s.flight.group;
            pc = put i (removing c o) s.flight.pc;
          };
          source = (load_and_store r ctx key s.source s.front).1.0;
          front = (load_and_store r ctx key s.source s.front).1.1;
        })
    crashes :
        (i : ℕ) {c : ℕ} (o : Outcome (Error ⊎ V))
        → i < n
        → s.flight.pc i ≡ leading c
        → (o ≡ Outcome.panicked) ⊎ (o ≡ Outcome.goexit)
        → Step n s (record s {
          flight = record {
            group = finish c o s.flight.group;
            pc = put i (removing c o) s.flight.pc;
          };
        })
    -- A load of any key by others, and whatever adds nothing to the front, such as a delete.
    other_loads :
        (ctx : Context) (other : K)
        → Step n s (record s {
          source = (load_and_store r ctx other s.source s.front).1.0;
          front = (load_and_store r ctx other s.source s.front).1.1;
        })
    drops :
        (front : S)
        → ((other : K) (v : V) → serves other front ≡ some v → serves other s.front ≡ some v)
        → Step n s (record s { front = front })

  pub data Reach (n : ℕ) (source : T) (front : S) : System S T V → Type 0 where
    start : Reach n source front (record {
      flight = record { group = fresh_group; pc = λ _. idle };
      found = λ _. none;
      source = source;
      front = front;
    })
    later : {s t : System S T V} → Reach n source front s → Step n s t → Reach n source front t

-- What a waiter is handed of a load that panicked.
abbrev pub load_panicked : Error
load_panicked = message "cache: read-through loader panicked"

-- What `GetContext` has returned to a caller; `cause` is the cause of its context, which a caller that
-- stopped to wait returns. The leader of a load that panicked or exited returns nothing: the answer
-- here is that of its waiters.
abbrev pub reply_of :
    {S T K V : Type 0}
    → ReadThrough S T K V
    → Error
    → Option (Answer V)
    → Pc (Error ⊎ V)
    → Option (Answer V)
reply_of r cause (some answer) p = some answer
reply_of r cause none (answered (Outcome.returned res)) = some (answer_of r res)
reply_of r cause none (answered (Outcome.abandoned res)) = some (answer_of r res)
reply_of r cause none (answered Outcome.panicked) = some (answer_of r (inl load_panicked))
reply_of r cause none (answered Outcome.goexit) = some (answer_of r (inl (sentinel goexit)))
reply_of r cause none ended = some (answer_of r (inl cause))
reply_of r cause none p = none
