-- ===== src/Cache/ReadThrough/Reads.antt =====
-- cache/readthrough.go: reads through a coherent front tell what the source holds.
use albstractions.Prelude.{
  ◌≡◌, sym, ap, ◌∙◌, inl, inr, true, Option, none, some, List, [], arith, Bool-cases,
  nat_comparable,
}
use albstractions.Errors.{result-cases, Error, Context, Sentinel}
use albstractions.Cache.Ttl.{default}
use albstractions.Cache.Interface.{Cache, IsCache, Tells, IsExact, Within, Answer-cases}
use albstractions.Cache.ReadThrough.{
  ReadThrough, Loader, any_is, loader_from_cache, is_miss, load_and_store, answer_of, get_context,
}

-- What the loader promises, of a source that holds `holds`.
pub record IsLoader {T K V : Type 0} (miss_errs : List Sentinel) (load : Loader T K V)
    (holds : K → T → Option V) : Type 0 where
  pub loaded :
      (ctx : Context) (key : K) (v : V) (t : T) → (load ctx key t).0 ≡ inr v → holds key t ≡ some v
  pub missing :
      (ctx : Context) (key : K) (err : Error) (t : T)
      → (load ctx key t).0 ≡ inl err
      → is_miss miss_errs err ≡ true
      → holds key t ≡ none
  pub keeps :
      (ctx : Context) (key other : K) (t : T) → holds other (load ctx key t).1 ≡ holds other t

module _ {S T K V : Type 0} (r : ReadThrough S T K V) {serves : K → S → Option V}
    {holds : K → T → Option V} (f : IsCache r.front serves)
    (l : IsLoader r.miss_errs r.load holds) where
  pub load_and_store-right :
      (ctx : Context) (key : K) (t : T) (s : S)
      → Within serves holds t s
      → Tells (holds key t) (answer_of r (load_and_store r ctx key t s).0)
        × Within serves holds (load_and_store r ctx key t s).1.0 (load_and_store r ctx key t s).1.1
  unfolding load_and_store
  load_and_store-right ctx key t s c = elim (result-cases (r.load ctx key t).0) [
    | inl (err, bad) ↦
        let kept : Within serves holds (r.load ctx key t).1 s =
          λ other v h. l.keeps ctx key other t ∙ c other v h in
        rw (bad, load_and_store)
          (elim (Bool-cases (is_miss r.miss_errs err)) [
            | inl miss ↦ rw miss (l.missing ctx key err t bad miss, kept)
            | inr other ↦ rw other (tt, kept)
          ])
    | inr (v, ok) ↦
        let there = l.loaded ctx key v t ok in
        rw (ok, load_and_store)
          (
            there,
            λ other val h.
                l.keeps ctx key other t ∙ elim (f.set_adds ctx key other v val default s h) [
                  | inl (same, new) ↦ ap (λ k. holds k t) same ∙ there ∙ ap some (sym new)
                  | inr old ↦ c other val old
                ],
          )
  ]

  -- Through a front that serves only what the source holds, a read that answers with a value answers
  -- with the one that the source holds, a read that answers with nothing is of a key that the source
  -- does not hold, and the front still serves only what the source holds. The front and the loader
  -- keep the promises of `IsCache` and `IsLoader`.
  pub get_context-Tells :
      (ctx : Context) (key : K) (t : T) (s : S)
      → Within serves holds t s
      → Tells (holds key t) (get_context r ctx key (t, s)).0
        × Within serves holds (get_context r ctx key (t, s)).1.0 (get_context r ctx key (t, s)).1.1
  unfolding get_context
  get_context-Tells ctx key t s c =
      let s' = (r.front.get_context ctx key s).1 in
      let kept : Within serves holds t s' =
        λ other v h. c other v (f.get_keeps ctx key other v s h) in
      elim (Answer-cases (r.front.get_context ctx key s).0) [
        | inl (v, found) ↦ rw (found, get_context) (c key v (f.got ctx key v s found), kept)
        | inr (inl nothing) ↦ rw (nothing, get_context) (load_and_store-right ctx key t s' kept)
        | inr (inr (e, bad)) ↦ rw (bad, get_context) (tt, kept)
      ]

module _ {S T K V : Type 0} (r : ReadThrough S T K V) (P : T → S → Type 0)
    (gets : (ctx : Context) (key : K) (t : T) (s : S)
      → P t s
      → P t (r.front.get_context ctx key s).1)
    (loads : (ctx : Context) (key : K) (t : T) (s : S) → P t s → P (r.load ctx key t).1 s)
    (sets : (ctx : Context) (key : K) (val : V) (t : T) (s : S)
      → P t s
      → P t (r.front.set_context ctx key val default s).1) where
  -- What the reads and sets of the front and the loader keep, a read keeps.
  pub get_context-keeps :
      (ctx : Context) (key : K) (t : T) (s : S)
      → P t s
      → P (get_context r ctx key (t, s)).1.0 (get_context r ctx key (t, s)).1.1
  unfolding get_context load_and_store
  get_context-keeps ctx key t s h =
      let h' = gets ctx key t s h in
      elim (Answer-cases (r.front.get_context ctx key s).0) [
        | inl (v, found) ↦ rw (found, get_context) h'
        | inr (inl nothing) ↦
            let h'' = loads ctx key t _ h' in
            rw (nothing, get_context)
              (elim (result-cases (r.load ctx key t).0) [
                | inl (err, bad) ↦ rw (bad, load_and_store) h''
                | inr (v, ok) ↦ rw (ok, load_and_store) (sets ctx key v _ _ h'')
              ])
        | inr (inr (e, bad)) ↦ rw (bad, get_context) h'
      ]

-- `LoaderFromCache` makes a loader of such a cache that keeps the promises of `IsLoader`.
pub loader_from_cache-IsLoader :
    {T K V : Type 0} (cache : Cache T K V) (serves : K → T → Option V)
    → IsExact cache serves
    → IsLoader [] (loader_from_cache cache) serves
unfolding loader_from_cache
loader_from_cache-IsLoader cache serves e = record {
  loaded = λ ctx key v t h. elim (Answer-cases (cache.get_context ctx key t).0) [
    | inl (u, found) ↦
        let told : serves key t ≡ some u = rw found at (e.tells ctx key t) in
        let same : inr u ≡ inr v = rw (found, loader_from_cache) at h in cc
    | inr (inl nothing) ↦ absurd (ground (arith, nothing))
    | inr (inr (err, bad)) ↦ absurd (ground (arith, bad))
  ];
  missing = λ ctx key err t h m. elim (Answer-cases (cache.get_context ctx key t).0) [
    | inl (u, found) ↦ absurd (ground (arith, found))
    | inr (inl nothing) ↦ rw nothing at (e.tells ctx key t)
    | inr (inr (err', bad)) ↦
        let same : inl err' ≡ inl err = rw (bad, loader_from_cache) at h in
        let told = e.fails ctx key t err' bad in absurd (unfold is_miss any_is in ground arith)
  ];
  keeps = λ ctx key other t. elim (Answer-cases (cache.get_context ctx key t).0) [
    | inl (u, found) ↦ rw (found, loader_from_cache) (e.keeps ctx key other t)
    | inr (inl nothing) ↦ rw (nothing, loader_from_cache) (e.keeps ctx key other t)
    | inr (inr (err, bad)) ↦ rw (bad, loader_from_cache) (e.keeps ctx key other t)
  ];
}
