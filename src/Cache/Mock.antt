-- ===== src/Cache/Mock.antt =====
-- cache/mock/mock.go: a double of a cache that records its calls and answers as it is told to.
pub mod Records
use albstractions.Prelude.{Option, none, some, List, [], ◌∷◌, ◌++◌, nat_comparable}
use albstractions.Time.{Time, zero_time}
use albstractions.Errors.{Error, Context, background}
use albstractions.Cache.Ttl.{Expiry}
use albstractions.Cache.Interface.{Answer, absent, Items, Cache, miss}

-- A `Call` by its `Op`, with the fields that are set for it.
pub data Call (K V : Type 0) : Type 0 where
  get_call : K → Call K V
  set_call : K → V → Expiry → Call K V
  delete_call : K → Call K V
  items_call : Call K V

-- The functions of a `Backend`, where they are set; `S` is the state behind them.
pub record Backend (S K V : Type 0) : Type 0 where
  pub get_func : Option (Context → K → S → Answer V × S)
  pub set_func : Option (Context → K → V → Expiry → S → (Time × Option Error) × S)
  pub delete_func : Option (Context → K → S → Option Error × S)
  pub items_context_func : Option (Context → S → Items K V × S)

-- The recorded calls, and the state behind the functions.
pub record State (S K V : Type 0) : Type 0 where
  pub calls : List (Call K V)
  pub inner : S

module _ {S K V : Type 0} where
  -- The method `record`.
  unfoldable pub record_call : Call K V → State S K V → State S K V
  record_call c s = record s { calls = s.calls ++ c ∷ [] }

  -- A function that is set, on the state behind it, or the answer of an empty cache.
  abbrev pub answer_by : {A : Type 0} → Option (S → A × S) → A → State S K V → A × State S K V
  answer_by none a s = (a, s)
  answer_by (some f) a s = let (b, inner) = f s.inner in (b, record s { inner = inner })

abbrev pub with_args : {A B : Type 0} → (A → B) → Option A → Option B
with_args f none = none
with_args f (some a) = some (f a)

module _ {S K V : Type 0} (b : Backend S K V) where
  unfoldable pub get_context : Context → K → State S K V → Answer V × State S K V
  get_context ctx key s =
      answer_by (with_args (λ f. f ctx key) b.get_func) absent (record_call (get_call key) s)

  unfoldable pub set_context :
      Context → K → V → Expiry → State S K V → (Time × Option Error) × State S K V
  set_context ctx key val exp s =
      answer_by (with_args (λ f. f ctx key val exp) b.set_func) (zero_time, none)
        (record_call (set_call key val exp) s)

  unfoldable pub delete_context : Context → K → State S K V → Option Error × State S K V
  delete_context ctx key s =
      answer_by (with_args (λ f. f ctx key) b.delete_func) none (record_call (delete_call key) s)

  unfoldable pub items_context : Context → State S K V → Items K V × State S K V
  items_context ctx s =
      answer_by (with_args (λ f. f ctx) b.items_context_func) ([], none) (record_call items_call s)

  unfoldable pub get : K → State S K V → Option V × State S K V
  get key s = let (answer, s') = get_context background key s in (miss answer, s')

  unfoldable pub set : K → V → Expiry → State S K V → Time × State S K V
  set key val exp s = let (answer, s') = set_context background key val exp s in (answer.0, s')

  unfoldable pub delete : K → State S K V → State S K V
  delete key s = (delete_context background key s).1

  unfoldable pub items : State S K V → List (K × V) × State S K V
  items s = let (entries, s') = items_context background s in (entries.0, s')

  -- A backend is no `io.Closer`.
  abbrev pub mock_cache : Cache (State S K V) K V
  mock_cache = record {
    get = get;
    set = set;
    delete = delete;
    items = items;
    get_context = get_context;
    set_context = set_context;
    delete_context = delete_context;
    items_context = items_context;
    close = none;
  }

-- `Calls`.
unfoldable pub calls : {S K V : Type 0} → State S K V → List (Call K V)
calls s = s.calls
