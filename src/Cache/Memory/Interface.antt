-- ===== src/Cache/Memory/Interface.antt =====
-- cache/memory.go: a `Memory` as a `Cache`. The state is the instant that the clock shows with the
-- cache; a call does not move the clock.
use albstractions.Prelude.{
  ◌≡◌, refl, sym, ◌∙◌, ◌≢◌, Option, none, some, [], arith, Comparable, nat_comparable, lookup,
}
use albstractions.Time.{Time}
use albstractions.Errors.{Error, Context}
use albstractions.Cache.Ttl.{Expiry}
use albstractions.Cache.Interface.{
  Answer, hit, absent, failed, Cache, Tells, IsExact, IsCache, IsFirm,
}
use albstractions.Cache.Memory.{Memory, fresh, get, read, set, delete, items, items_context, close}
use albstractions.Cache.Memory.Items.{collect}
use albstractions.Cache.Memory.Lookups.{lookup-read, lookup-set, lookup-delete}
use albstractions.Cache.Memory.Liveness.{value_of, fresh_twice}
use albstractions.Cache.Memory.Refinement.{read-found}

abbrev pub Clocked : Type 0 → Type 0 → Type 0
Clocked K V = Time × Memory K V

abbrev answer_of : {V : Type 0} → Option V → Answer V
answer_of none = absent
answer_of (some v) = hit v

Tells-answer_of : {V : Type 0} (o : Option V) → Tells o (answer_of o)
Tells-answer_of none = refl
Tells-answer_of (some v) = refl

answer_of-failed : {V : Type 0} (o : Option V) {err : Error} → answer_of o ≢ failed err
answer_of-failed none h = cc
answer_of-failed (some v) h = cc

answer_of-hit : {V : Type 0} (o : Option V) {v : V} → answer_of o ≡ hit v → o ≡ some v
answer_of-hit none h = absurd (cc)
answer_of-hit (some v) h = cc

module _ {K V : Type 0} ⦃k : Comparable K⦄ where
  unfoldable pub get_context : Context → K → Clocked K V → Answer V × Clocked K V
  get_context ctx key (now, m) = let (m', v) = read key now m in (answer_of v, (now, m'))

  unfoldable pub set_context :
      Context → K → V → Expiry → Clocked K V → (Time × Option Error) × Clocked K V
  set_context ctx key val exp (now, m) =
      let (m', time) = set key val exp now m in ((time, none), (now, m'))

  unfoldable pub delete_context : Context → K → Clocked K V → Option Error × Clocked K V
  delete_context ctx key (now, m) = (none, (now, delete key m))

  abbrev pub memory_cache : Cache (Clocked K V) K V
  memory_cache = record {
    get = λ key (now, m). (let (m', v) = get key now m in (v, (now, m')));
    set = λ key val exp (now, m). (let (m', time) = set key val exp now m in (time, (now, m')));
    delete = λ key (now, m). (now, delete key m);
    items = λ (now, m). (items collect now m [], (now, m));
    get_context = get_context;
    set_context = set_context;
    delete_context = delete_context;
    items_context = λ ctx (now, m). (items_context ctx collect now m [], (now, m));
    close = some (λ (now, m). (none, (now, close m)));
  }

  -- What a `Memory` serves.
  abbrev pub serves : K → Clocked K V → Option V
  serves key (now, m) = value_of (fresh now (lookup key m.entries))

  pub get_context-serves :
      (ctx : Context) (key other : K) (s : Clocked K V)
      → serves other (get_context ctx key s).1 ≡ serves other s
  unfolding get_context
  get_context-serves ctx key other (now, m) =
      ground (arith, lookup-read other key now m, fresh_twice now (lookup other m.entries))

  pub memory-IsExact : IsExact memory_cache serves
  unfolding get_context
  memory-IsExact = record {
    tells = λ ctx key (now, m). rw (read-found key now m) (Tells-answer_of _);
    keeps = get_context-serves;
    fails = λ ctx key (now, m) err h. absurd (answer_of-failed _ h);
  }

  pub memory-IsCache : IsCache memory_cache serves
  unfolding set_context delete_context fresh get_context
  memory-IsCache = record {
    got = λ ctx key v (now, m) h. sym (read-found key now m) ∙ answer_of-hit _ h;
    get_keeps = λ ctx key other v s h. sym (get_context-serves ctx key other s) ∙ h;
    set_adds = λ ctx key other val v exp (now, m) h.
        ground (arith, k.eqb_iff key other, lookup-set other key val exp now m);
    delete_keeps = λ ctx key other v (now, m) h.
        ground (arith, k.eqb_iff key other, lookup-delete other key m);
  }

  pub memory-IsFirm : IsFirm memory_cache serves
  unfolding set_context delete_context fresh
  memory-IsFirm = record {
    set_serves = λ ctx key other val v exp (now, m) h.
        ground (arith, k.eqb_iff key other, lookup-set other key val exp now m);
    delete_serves = λ ctx key other v (now, m) h.
        ground (arith, k.eqb_iff key other, lookup-delete other key m);
  }
