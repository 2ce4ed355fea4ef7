-- ===== src/Tests/Fronts.antt =====
-- A cache for tests of the layers of the package cache: a map that never loses an entry.
use albstractions.Prelude.{ℕ, ◌≡◌, Option, none, some, [], arith, nat_comparable, put}
use albstractions.Time.{zero_time}
use albstractions.Cache.Interface.{Answer, hit, absent, Cache, IsCache, IsFirm}

abbrev front_get : ℕ → (ℕ → Option ℕ) → Answer ℕ
front_get key s = elim (s key) [ none ↦ absent | some v ↦ hit v ]

-- A map as a function.
abbrev pub front : Cache (ℕ → Option ℕ) ℕ ℕ
front = record {
  get = λ key s. (s key, s);
  set = λ key val exp s. (zero_time, put key (some val) s);
  delete = λ key s. put key none s;
  items = λ s. ([], s);
  get_context = λ ctx key s. (front_get key s, s);
  set_context = λ ctx key val exp s. ((zero_time, none), put key (some val) s);
  delete_context = λ ctx key s. (none, put key none s);
  items_context = λ ctx s. (([], none), s);
  close = none;
}

abbrev pub view : ℕ → (ℕ → Option ℕ) → Option ℕ
view key s = s key

front_get-hit :
    (o : Option ℕ) (v : ℕ)
    → ◌≡◌ {A = Answer ℕ} (elim o [ none ↦ absent | some v ↦ hit v ]) (hit v)
    → o ≡ some v
front_get-hit none v e = absurd (cc)
front_get-hit (some u) v e = cc

pub front-IsCache : IsCache front view
front-IsCache = record {
  got = λ ctx key v s h. front_get-hit (s key) v h;
  get_keeps = λ ctx key other v s h. h;
  set_adds = λ ctx key other val v exp s h. ground arith;
  delete_keeps = λ ctx key other v s h. ground arith;
}

pub front-IsFirm : IsFirm front view
front-IsFirm = record {
  set_serves = λ ctx key other val v exp s h. ground arith;
  delete_serves = λ ctx key other v s h. ground arith;
}
