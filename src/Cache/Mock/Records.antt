-- ===== src/Cache/Mock/Records.antt =====
-- cache/mock/mock.go: what a double records, of its own callers and of a layer above it.
use mathlib.Core.List.{append-nil, append_assoc}
use albstractions.Prelude.{
  ◌≡◌, refl, sym, ap, ◌∙◌, ◌⊎◌, inl, inr, Bool, Option, none, some, List, [], ◌∷◌, ◌++◌, map,
  Option-cases, nat_comparable,
}
use albstractions.Time.{zero_time}
use albstractions.Errors.{Error, Context, Sentinel, result-cases}
use albstractions.Cache.Ttl.{Expiry, default}
use albstractions.Cache.Interface.{Answer, hit, absent, failed, Cache, Answer-cases}
use albstractions.Cache.Mock.{
  Call, get_call, set_call, delete_call, items_call, Backend, State, record_call, answer_by,
  get_context, set_context, delete_context, items_context, get, set, delete, items, mock_cache,
  calls,
}
use albstractions.Cache.ReadThrough.{ReadThrough, Loader, load_and_store}
use albstractions.Cache.ReadThrough
use albstractions.Cache.WriteThrough.Writes.{WriteThrough, Writer, Deleter, call_deleter}
use albstractions.Cache.WriteThrough.Writes

-- A call of any method of the interface.
pub data Op (K V : Type 0) : Type 0 where
  gets : K → Op K V
  sets : K → V → Expiry → Op K V
  deletes : K → Op K V
  lists : Op K V
  gets_context : Context → K → Op K V
  sets_context : Context → K → V → Expiry → Op K V
  deletes_context : Context → K → Op K V
  lists_context : Context → Op K V

-- How it is recorded.
abbrev pub recorded : {K V : Type 0} → Op K V → Call K V
recorded (gets key) = get_call key
recorded (sets key val exp) = set_call key val exp
recorded (deletes key) = delete_call key
recorded lists = items_call
recorded (gets_context ctx key) = get_call key
recorded (sets_context ctx key val exp) = set_call key val exp
recorded (deletes_context ctx key) = delete_call key
recorded (lists_context ctx) = items_call

-- The state after an operation of any cache.
abbrev pub after : {S K V : Type 0} → Cache S K V → Op K V → S → S
after c (gets key) s = (c.get key s).1
after c (sets key val exp) s = (c.set key val exp s).1
after c (deletes key) s = c.delete key s
after c lists s = (c.items s).1
after c (gets_context ctx key) s = (c.get_context ctx key s).1
after c (sets_context ctx key val exp) s = (c.set_context ctx key val exp s).1
after c (deletes_context ctx key) s = (c.delete_context ctx key s).1
after c (lists_context ctx) s = (c.items_context ctx s).1

abbrev pub after_all : {S K V : Type 0} → Cache S K V → List (Op K V) → S → S
after_all c [] s = s
after_all c (op ∷ ops) s = after_all c ops (after c op s)

module _ {S K V : Type 0} where
  answer_by-calls :
      {A : Type 0} (f : Option (S → A × S)) (a : A) (s : State S K V)
      → (answer_by f a s).1.calls ≡ s.calls
  answer_by-calls none a s = refl
  answer_by-calls (some f) a s = refl

  after-calls :
      (b : Backend S K V) (op : Op K V) (s : State S K V)
      → (after (mock_cache b) op s).calls ≡ s.calls ++ recorded op ∷ []
  unfolding get set delete items get_context set_context delete_context items_context record_call
  after-calls b (gets key) s = answer_by-calls _ absent _
  after-calls b (sets key val exp) s = answer_by-calls _ (zero_time, none) _
  after-calls b (deletes key) s = answer_by-calls _ none _
  after-calls b lists s = answer_by-calls _ ([], none) _
  after-calls b (gets_context ctx key) s = answer_by-calls _ absent _
  after-calls b (sets_context ctx key val exp) s = answer_by-calls _ (zero_time, none) _
  after-calls b (deletes_context ctx key) s = answer_by-calls _ none _
  after-calls b (lists_context ctx) s = answer_by-calls _ ([], none) _

  -- Whatever functions are set, `Calls` returns, after any sequence of calls of the eight methods, the
  -- earlier calls and then one for each, in order and with its key, value and expiry.
  after_all-calls :
      (b : Backend S K V) (ops : List (Op K V)) (s : State S K V)
      → calls (after_all (mock_cache b) ops s) ≡ calls s ++ map recorded ops
  unfolding calls
  after_all-calls b [] s = sym (append-nil s.calls)
  after_all-calls b (op ∷ ops) s =
      after_all-calls b ops (after (mock_cache b) op s)
      ∙ ap (λ cs. cs ++ map recorded ops) (after-calls b op s)
      ∙ append_assoc s.calls (recorded op ∷ []) (map recorded ops)

-- What a read of a read-through layer does to its front, by the front's answer and the load.
abbrev pub read_calls : {K V : Type 0} → K → Answer V → Error ⊎ V → List (Call K V)
read_calls key (hit v) loaded = get_call key ∷ []
read_calls key (failed err) loaded = get_call key ∷ []
read_calls key absent (inl err) = get_call key ∷ []
read_calls key absent (inr v) = get_call key ∷ set_call key v default ∷ []

abbrev pub over_mock :
    {S T K V : Type 0}
    → Backend S K V
    → Loader T K V
    → List Sentinel
    → Bool
    → ReadThrough (State S K V) T K V
over_mock b load miss_errs shares = record {
  front = mock_cache b;
  load = load;
  miss_errs = miss_errs;
  shares = shares;
}

module _ {S T K V : Type 0} (b : Backend S K V) (load : Loader T K V) (miss_errs : List Sentinel)
    (shares : Bool) where
  -- A read of a read-through layer reads its front once, and stores a value there with `Default`
  -- exactly if the front had nothing and the load succeeded; nothing else reaches the front.
  pub read-calls :
      (ctx : Context) (key : K) (t : T) (s : State S K V)
      → calls (ReadThrough.get_context (over_mock b load miss_errs shares) ctx key (t, s)).1.1
        ≡ calls s ++ read_calls key (get_context b ctx key s).0 (load ctx key t).0
  unfolding calls ReadThrough.get_context load_and_store
  read-calls ctx key t s =
      let read = after-calls b (gets_context ctx key) s in
      elim (Answer-cases (get_context b ctx key s).0) [
        | inl (v, found) ↦ rw (found, ReadThrough.get_context) read
        | inr (inl nothing) ↦
            rw (nothing, ReadThrough.get_context)
              (elim (result-cases (load ctx key t).0) [
                | inl (err, bad) ↦ rw (bad, load_and_store) read
                | inr (v, ok) ↦
                    rw (ok, load_and_store)
                      (after-calls b (sets_context ctx key v default) (get_context b ctx key s).1
                        ∙ ap (λ cs. cs ++ set_call key v default ∷ []) read
                        ∙ append_assoc s.calls (get_call key ∷ []) (set_call key v default ∷ []))
              ])
        | inr (inr (e, bad)) ↦ rw (bad, ReadThrough.get_context) read
      ]

-- What a write or a delete does to the front, by the errors of the lock and of the store.
abbrev pub write_calls : {K V : Type 0} → Call K V → Option Error → Option Error → List (Call K V)
write_calls c none none = c ∷ []
write_calls c none (some err) = []
write_calls c (some err) failure = []

module _ {S T K V : Type 0} (b : Backend S K V) (writer : Writer T K V)
    (deleter : Option (Deleter T K)) where
  abbrev pub layer : WriteThrough (State S K V) T K V
  layer = record { front = mock_cache b; writer = writer; deleter = deleter }

  -- A write or a delete of a write-through layer reaches its front exactly if it got the lock of its
  -- key and the store did not fail, and then as one set or delete with its own arguments.
  pub write-calls :
      (locked : Option Error) (ctx : Context) (key : K) (val : V) (exp : Expiry) (t : T)
      (s : State S K V)
      → (calls (Writes.set_context layer locked ctx key val exp (t, s)).1.1
          ≡ calls s ++ write_calls (set_call key val exp) locked (writer ctx key val t).0)
        × (calls (Writes.delete_context layer locked ctx key (t, s)).1.1
            ≡ calls s ++ write_calls (delete_call key) locked (call_deleter layer ctx key t).0)
  unfolding calls Writes.set_context Writes.delete_context
  write-calls (some err) ctx key val exp t s = (sym (append-nil s.calls), sym (append-nil s.calls))
  write-calls none ctx key val exp t s = (
    (elim (Option-cases (writer ctx key val t).0) [
      | inl ok ↦ rw (ok, Writes.set_context) (after-calls b (sets_context ctx key val exp) s)
      | inr (err, bad) ↦ rw (bad, Writes.set_context) (sym (append-nil s.calls))
    ]),
    (elim (Option-cases (call_deleter layer ctx key t).0) [
      | inl ok ↦ rw (ok, Writes.delete_context) (after-calls b (deletes_context ctx key) s)
      | inr (err, bad) ↦ rw (bad, Writes.delete_context) (sym (append-nil s.calls))
    ]),
  )
