-- ===== src/Cache/WriteThrough/Writes.antt =====
-- cache/writethrough.go: the layer, its writes and deletes through to a store, and what it leaves to
-- the front. A call holds the lock of its key from beginning to end, so that the calls of one key are
-- a sequence.
use albstractions.Prelude.{Option, none, some, List, [], ◌∷◌, nat_comparable}
use albstractions.Time.{Time, zero_time}
use albstractions.Errors.{Error, Context, background}
use albstractions.Cache.Ttl.{Expiry}
use albstractions.Cache.Interface.{Answer, Items, Cache}

-- A `Writer` and a `Deleter`, with the state of the store.
abbrev pub Writer : Type 0 → Type 0 → Type 0 → Type 0
Writer T K V = Context → K → V → T → Option Error × T

abbrev pub Deleter : Type 0 → Type 0 → Type 0
Deleter T K = Context → K → T → Option Error × T

abbrev pub WriteThroughConfig : Type 0 → Type 0 → Type 0
WriteThroughConfig T K = Option (Deleter T K)

-- A nil deleter is `none`, and so is the panic on it.
unfoldable pub with_deleter :
    {T K : Type 0} → Option (Deleter T K) → Option (WriteThroughConfig T K → WriteThroughConfig T K)
with_deleter none = none
with_deleter (some del) = some (λ c. some del)

pub record WriteThrough (S T K V : Type 0) : Type 0 where
  pub front : Cache S K V
  pub writer : Writer T K V
  pub deleter : Option (Deleter T K)

abbrev configure :
    {T K : Type 0}
    → List (WriteThroughConfig T K → WriteThroughConfig T K)
    → WriteThroughConfig T K
    → WriteThroughConfig T K
configure [] c = c
configure (o ∷ os) c = configure os (o c)

-- A front or a writer that is nil is `none`, and so is the panic on one.
unfoldable pub new_write_through :
    {S T K V : Type 0}
    → Option (Cache S K V)
    → Option (Writer T K V)
    → List (WriteThroughConfig T K → WriteThroughConfig T K)
    → Option (WriteThrough S T K V)
new_write_through none write opts = none
new_write_through (some front) none opts = none
new_write_through (some front) (some write) opts =
    some (record { front = front; writer = write; deleter = configure opts none })

abbrev pub delete_by : {T K : Type 0} → Option (Deleter T K) → Context → K → T → Option Error × T
delete_by none ctx key t = (none, t)
delete_by (some del) ctx key t = del ctx key t

module _ {S T K V : Type 0} (w : WriteThrough S T K V) where
  -- `locked` is the error of `lock`, `none` if it is taken. The result is the expiry, the error, and
  -- the two states.
  unfoldable pub set_context :
      Option Error → Context → K → V → Expiry → T × S → (Time × Option Error) × (T × S)
  set_context locked ctx key val exp (t, s) = elim locked [
    | some err ↦ ((zero_time, some err), (t, s))
    | none ↦
        let (failed, t') = w.writer ctx key val t in
        elim failed [
          | some err ↦ ((zero_time, some err), (t', s))
          | none ↦ let (answer, s') = w.front.set_context ctx key val exp s in (answer, (t', s'))
        ]
  ]

  unfoldable pub call_deleter : Context → K → T → Option Error × T
  call_deleter ctx key t = delete_by w.deleter ctx key t

  unfoldable pub delete_context : Option Error → Context → K → T × S → Option Error × (T × S)
  delete_context locked ctx key (t, s) = elim locked [
    | some err ↦ (some err, (t, s))
    | none ↦
        let (failed, t') = call_deleter ctx key t in
        elim failed [
          | some err ↦ (some err, (t', s))
          | none ↦ let (answer, s') = w.front.delete_context ctx key s in (answer, (t', s'))
        ]
  ]

  unfoldable pub set : K → V → Expiry → T × S → Time × (T × S)
  set key val exp ts =
      let (answer, after) = set_context none background key val exp ts in (answer.0, after)

  unfoldable pub delete : K → T × S → T × S
  delete key ts = (delete_context none background key ts).1

  unfoldable pub get : K → T × S → Option V × (T × S)
  get key (t, s) = let (v, s') = w.front.get key s in (v, (t, s'))

  unfoldable pub get_context : Context → K → T × S → Answer V × (T × S)
  get_context ctx key (t, s) = let (answer, s') = w.front.get_context ctx key s in (answer, (t, s'))

  unfoldable pub items : T × S → List (K × V) × (T × S)
  items (t, s) = let (entries, s') = w.front.items s in (entries, (t, s'))

  unfoldable pub items_context : Context → T × S → Items K V × (T × S)
  items_context ctx (t, s) = let (entries, s') = w.front.items_context ctx s in (entries, (t, s'))

  unfoldable pub close : T × S → Option Error × (T × S)
  close (t, s) = elim w.front.close [
    | none ↦ (none, (t, s))
    | some f ↦ let (answer, s') = f s in (answer, (t, s'))
  ]

  -- The layer as a cache whose locks are free.
  abbrev pub write_through_cache : Cache (T × S) K V
  write_through_cache = record {
    get = get;
    set = set;
    delete = delete;
    items = items;
    get_context = get_context;
    set_context = set_context none;
    delete_context = delete_context none;
    items_context = items_context;
    close = some close;
  }
