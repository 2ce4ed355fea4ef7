-- ===== src/Tests/Mock.antt =====
-- The package cache/mock at concrete inputs.
use albstractions.Prelude.{ℕ, ◌≡◌, inr, false, none, some, List, [], ◌∷◌, nat_comparable}
use albstractions.Errors.{background, sentinel, other}
use albstractions.Cache.Ttl.{default, never}
use albstractions.Cache.Mock.{get_call, set_call, delete_call, Backend, State, get_context, calls}
use albstractions.Cache.Mock.Records.{
  Op, gets, sets, deletes, over_mock, read-calls, layer, write-calls,
}
use albstractions.Cache.ReadThrough.{Loader}
use albstractions.Cache.ReadThrough
use albstractions.Cache.WriteThrough.Writes.{Writer, call_deleter}
use albstractions.Cache.WriteThrough.Writes

abbrev plain : Backend (Unit {0}) ℕ ℕ
plain = record { get_func = none; set_func = none; delete_func = none; items_context_func = none }

abbrev fresh_state : State (Unit {0}) ℕ ℕ
fresh_state = record { calls = []; inner = tt }

abbrev ops : List (Op ℕ ℕ)
ops = sets 1 5 never ∷ gets 1 ∷ deletes 1 ∷ []

abbrev seven : Loader (Unit {0}) ℕ ℕ
seven ctx key t = (inr 7, t)

read-calls_example :
    calls
      (ReadThrough.get_context (over_mock plain seven [] false) background 4 (tt, fresh_state)).1.1
    ≡ get_call 4 ∷ set_call 4 7 default ∷ []
unfolding get_context calls
read-calls_example = read-calls plain seven [] false background 4 tt fresh_state

abbrev refuse : Writer (Unit {0}) ℕ ℕ
refuse ctx key val t = (some (sentinel (other 1)), t)

write-calls_example :
    (calls
        (Writes.set_context
          (layer plain refuse none)
          none
          background
          4
          7
          never
          (tt, fresh_state)).1.1
      ≡ [])
    × (calls
          (Writes.delete_context (layer plain refuse none) none background 4 (tt, fresh_state)).1.1
        ≡ delete_call 4 ∷ [])
unfolding calls call_deleter
write-calls_example = write-calls plain refuse none none background 4 7 never tt fresh_state
