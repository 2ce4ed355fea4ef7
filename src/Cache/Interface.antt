-- ===== src/Cache/Interface.antt =====
-- cache/cache.go: the interface that every layer offers and asks of the layer behind it, and what a
-- cache promises.
use albstractions.Prelude.{
  ◌≡◌, refl, ◌≢◌, ◌⊎◌, inl, inr, false, Option, none, some, List, nat_comparable,
}
use albstractions.Time.{Time}
use albstractions.Errors.{Error, Context, is, cache_miss}
use albstractions.Cache.Ttl.{Expiry}

-- What a read with a context returns: a value, nothing, or an error.
pub data Answer (V : Type 0) : Type 0 where
  hit : V → Answer V
  absent : Answer V
  failed : Error → Answer V

-- An iterator with its terminal error: what a loop body that never stops is given, and how the
-- iteration then ends.
abbrev pub Items : Type 0 → Type 0 → Type 0
Items K V = List (K × V) × Option Error

-- `S` is the state behind the cache; `close` is there if the cache is an `io.Closer`.
pub record Cache (S K V : Type 0) : Type 0 where
  pub get : K → S → Option V × S
  pub set : K → V → Expiry → S → Time × S
  pub delete : K → S → S
  pub items : S → List (K × V) × S
  pub get_context : Context → K → S → Answer V × S
  pub set_context : Context → K → V → Expiry → S → (Time × Option Error) × S
  pub delete_context : Context → K → S → Option Error × S
  pub items_context : Context → S → Items K V × S
  pub close : Option (S → Option Error × S)

unfoldable pub miss : {V : Type 0} → Answer V → Option V
miss (hit v) = some v
miss absent = none
miss (failed err) = none

-- What a cache promises, of a view of what it serves: it answers with what it serves, a read adds
-- nothing, a set adds nothing but its value, and a delete adds nothing. It may drop what it serves
-- at any time.
pub record IsCache {S K V : Type 0} (cache : Cache S K V) (serves : K → S → Option V) : Type 0 where
  pub got :
      (ctx : Context) (key : K) (v : V) (s : S)
      → (cache.get_context ctx key s).0 ≡ hit v
      → serves key s ≡ some v
  pub get_keeps :
      (ctx : Context) (key other : K) (v : V) (s : S)
      → serves other (cache.get_context ctx key s).1 ≡ some v
      → serves other s ≡ some v
  pub set_adds :
      (ctx : Context) (key other : K) (val v : V) (exp : Expiry) (s : S)
      → serves other (cache.set_context ctx key val exp s).1 ≡ some v
      → ((other ≡ key) × (v ≡ val)) ⊎ (serves other s ≡ some v)
  pub delete_keeps :
      (ctx : Context) (key other : K) (v : V) (s : S)
      → serves other (cache.delete_context ctx key s).1 ≡ some v
      → serves other s ≡ some v

-- Of a cache whose writes do not fail: nothing older than a set of a key, or a delete of it, is served.
pub record IsFirm {S K V : Type 0} (cache : Cache S K V) (serves : K → S → Option V) : Type 0 where
  pub set_serves :
      (ctx : Context) (key other : K) (val v : V) (exp : Expiry) (s : S)
      → serves other (cache.set_context ctx key val exp s).1 ≡ some v
      → ((other ≡ key) × (v ≡ val)) ⊎ ((other ≢ key) × (serves other s ≡ some v))
  pub delete_serves :
      (ctx : Context) (key other : K) (v : V) (s : S)
      → serves other (cache.delete_context ctx key s).1 ≡ some v
      → (other ≢ key) × (serves other s ≡ some v)

-- Of an answer: it is what the source or the cache holds.
abbrev pub Tells : {V : Type 0} → Option V → Answer V → Type 0
Tells held (hit v) = held ≡ some v
Tells held absent = held ≡ none
Tells held (failed err) = Unit

-- A cache that answers with exactly what it serves, serves the same after a read, and has no error
-- that means a miss.
pub record IsExact {S K V : Type 0} (cache : Cache S K V) (serves : K → S → Option V) : Type 0 where
  pub tells :
      (ctx : Context) (key : K) (s : S) → Tells (serves key s) (cache.get_context ctx key s).0
  pub keeps :
      (ctx : Context) (key other : K) (s : S)
      → serves other (cache.get_context ctx key s).1 ≡ serves other s
  pub fails :
      (ctx : Context) (key : K) (s : S) (err : Error)
      → (cache.get_context ctx key s).0 ≡ failed err
      → is err cache_miss ≡ false

-- That the view shows no more than the source `holds`.
abbrev pub Within : {S T K V : Type 0} → (K → S → Option V) → (K → T → Option V) → T → S → Type 0
Within {K = K} {V = V} serves holds t s =
    (key : K) (v : V) → serves key s ≡ some v → holds key t ≡ some v

pub Answer-cases :
    {V : Type 0} (x : Answer V)
    → ((v : V) × (x ≡ hit v)) ⊎ (x ≡ absent) ⊎ ((e : Error) × (x ≡ failed e))
Answer-cases (hit v) = inl (v, refl)
Answer-cases absent = inr (inl refl)
Answer-cases (failed e) = inr (inr (e, refl))
