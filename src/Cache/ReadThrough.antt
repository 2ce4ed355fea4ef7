-- ===== src/Cache/ReadThrough.antt =====
-- cache/readthrough.go: a cache that loads what its front misses. The group that shares a load between
-- callers is Cache/ReadThrough/Flight.
pub mod Flight
pub mod Reads
pub mod Stack
pub mod Callers
use albstractions.Prelude.{
  ◌⊎◌, inl, inr, Bool, true, false, Option, none, some, List, [], ◌∷◌, ◌++◌, if◌then◌else◌,
  nat_comparable,
}
use albstractions.Time.{Time}
use albstractions.Errors.{Error, Context, background, Sentinel, sentinel, cache_miss, is}
use albstractions.Cache.Ttl.{Expiry, default}
use albstractions.Cache.Interface.{Answer, hit, absent, failed, Items, Cache, miss}

-- A `Loader`, with the state of what it reads.
abbrev pub Loader : Type 0 → Type 0 → Type 0 → Type 0
Loader T K V = Context → K → T → (Error ⊎ V) × T

pub record ReadThroughConfig : Type 0 where
  pub single_flight : Bool
  pub miss_errs : List Sentinel

abbrev pub ReadThroughOption : Type 0
ReadThroughOption = ReadThroughConfig → ReadThroughConfig

unfoldable pub with_single_flight : ReadThroughOption
with_single_flight c = record c { single_flight = true }

unfoldable pub with_miss_error : List Sentinel → ReadThroughOption
with_miss_error errs c = record c { miss_errs = c.miss_errs ++ errs }

abbrev zero_config : ReadThroughConfig
zero_config = record { single_flight = false; miss_errs = [] }

-- `shares` is whether there is a flight group.
pub record ReadThrough (S T K V : Type 0) : Type 0 where
  pub front : Cache S K V
  pub load : Loader T K V
  pub miss_errs : List Sentinel
  pub shares : Bool

abbrev configure : List ReadThroughOption → ReadThroughConfig → ReadThroughConfig
configure [] c = c
configure (o ∷ os) c = configure os (o c)

-- A front or a loader that is nil is `none`, and so is the panic on one.
unfoldable pub new_read_through :
    {S T K V : Type 0}
    → Option (Cache S K V)
    → Option (Loader T K V)
    → List ReadThroughOption
    → Option (ReadThrough S T K V)
new_read_through none load opts = none
new_read_through (some front) none opts = none
new_read_through (some front) (some load) opts =
    let cfg = configure opts zero_config in
    some
      (record { front = front; load = load; miss_errs = cfg.miss_errs; shares = cfg.single_flight })

-- The function that `LoaderFromCache` returns.
unfoldable pub loader_from_cache : {T K V : Type 0} → Cache T K V → Loader T K V
loader_from_cache c ctx key t =
    let (answer, t') = c.get_context ctx key t in
    elim answer [
      | hit v ↦ (inr v, t')
      | absent ↦ (inl (sentinel cache_miss), t')
      | failed err ↦ (inl err, t')
    ]

-- The loop of `isMiss`.
unfoldable pub any_is : Error → List Sentinel → Bool
any_is err [] = false
any_is err (e ∷ errs) = if is err e then true else any_is err errs

unfoldable pub is_miss : List Sentinel → Error → Bool
is_miss miss_errs err = if is err cache_miss then true else any_is err miss_errs

module _ {S T K V : Type 0} (r : ReadThrough S T K V) where
  -- `loadAndStore` by a caller that leads, or without a group.
  unfoldable pub load_and_store : Context → K → T → S → (Error ⊎ V) × (T × S)
  load_and_store ctx key t s =
      let (loaded, t') = r.load ctx key t in
      elim loaded [
        | inl err ↦ (inl err, (t', s))
        | inr v ↦ (inr v, (t', (r.front.set_context ctx key v default s).1))
      ]

  -- What `GetContext` makes of a load.
  abbrev pub answer_of : Error ⊎ V → Answer V
  answer_of (inl err) = if is_miss r.miss_errs err then absent else failed err
  answer_of (inr v) = hit v

  unfoldable pub get_context : Context → K → T × S → Answer V × (T × S)
  get_context ctx key (t, s) =
      let (answer, s') = r.front.get_context ctx key s in
      elim answer [
        | hit v ↦ (hit v, (t, s'))
        | failed err ↦ (failed err, (t, s'))
        | absent ↦ let (loaded, after) = load_and_store ctx key t s' in (answer_of loaded, after)
      ]

  unfoldable pub get : K → T × S → Option V × (T × S)
  get key ts = let (answer, after) = get_context background key ts in (miss answer, after)

  unfoldable pub set : K → V → Expiry → T × S → Time × (T × S)
  set key val exp (t, s) = let (time, s') = r.front.set key val exp s in (time, (t, s'))

  unfoldable pub set_context : Context → K → V → Expiry → T × S → (Time × Option Error) × (T × S)
  set_context ctx key val exp (t, s) =
      let (answer, s') = r.front.set_context ctx key val exp s in (answer, (t, s'))

  unfoldable pub delete : K → T × S → T × S
  delete key (t, s) = (t, r.front.delete key s)

  unfoldable pub delete_context : Context → K → T × S → Option Error × (T × S)
  delete_context ctx key (t, s) =
      let (answer, s') = r.front.delete_context ctx key s in (answer, (t, s'))

  unfoldable pub items : T × S → List (K × V) × (T × S)
  items (t, s) = let (entries, s') = r.front.items s in (entries, (t, s'))

  unfoldable pub items_context : Context → T × S → Items K V × (T × S)
  items_context ctx (t, s) = let (entries, s') = r.front.items_context ctx s in (entries, (t, s'))

  unfoldable pub close : T × S → Option Error × (T × S)
  close (t, s) = elim r.front.close [
    | none ↦ (none, (t, s))
    | some f ↦ let (answer, s') = f s in (answer, (t, s'))
  ]

  -- The layer as a cache.
  abbrev pub read_through_cache : Cache (T × S) K V
  read_through_cache = record {
    get = get;
    set = set;
    delete = delete;
    items = items;
    get_context = get_context;
    set_context = set_context;
    delete_context = delete_context;
    items_context = items_context;
    close = some close;
  }
