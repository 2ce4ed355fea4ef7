-- ===== src/Cache/WriteThrough/Coherence.antt =====
-- cache/writethrough.go: the cache in front serves nothing but what the store holds.
use mathlib.Core.Path.{subst}
use albstractions.Prelude.{
  ◌≡◌, refl, sym, ap, ◌∙◌, ◌≢◌, ◌⊎◌, inl, inr, Option, none, some, List, [], ◌∷◌, Option-cases,
  nat_comparable,
}
use albstractions.Errors.{Error, Context}
use albstractions.Cache.Ttl.{Expiry}
use albstractions.Cache.Interface.{IsCache, IsFirm, Within}
use albstractions.Cache.WriteThrough.Writes.{
  Deleter, WriteThrough, delete_by, set_context, call_deleter, delete_context, get_context,
  write_through_cache,
}

-- What the store promises: a write that succeeds is there and leaves the other keys alone, a delete
-- does no more than to remove its key, and what fails changes nothing.
pub record IsStore {S T K V : Type 0} (w : WriteThrough S T K V) (holds : K → T → Option V)
    : Type 0 where
  pub written :
      (ctx : Context) (key : K) (val : V) (t : T)
      → (w.writer ctx key val t).0 ≡ none
      → holds key (w.writer ctx key val t).1 ≡ some val
  pub write_others :
      (ctx : Context) (key other : K) (val : V) (t : T)
      → (other ≢ key) ⊎ ((w.writer ctx key val t).0 ≢ none)
      → holds other (w.writer ctx key val t).1 ≡ holds other t
  pub delete_others :
      (del : Deleter T K)
      → w.deleter ≡ some del
      → (ctx : Context) (key other : K) (t : T) → (other ≢ key) ⊎ ((del ctx key t).0 ≢ none)
      → holds other (del ctx key t).1 ≡ holds other t

-- A call, with the error of its lock.
pub data Op (K V : Type 0) : Type 0 where
  set_op : Option Error → Context → K → V → Expiry → Op K V
  delete_op : Option Error → Context → K → Op K V
  get_op : Context → K → Op K V

abbrev pub run : {S T K V : Type 0} → WriteThrough S T K V → List (Op K V) → T × S → T × S
run w [] state = state
run w (set_op locked ctx key val exp ∷ ops) state =
    run w ops (set_context w locked ctx key val exp state).1
run w (delete_op locked ctx key ∷ ops) state = run w ops (delete_context w locked ctx key state).1
run w (get_op ctx key ∷ ops) state = run w ops (get_context w ctx key state).1

-- The front serves nothing but what the store holds.
abbrev pub Coherent : {S T K V : Type 0} → (K → S → Option V) → (K → T → Option V) → T × S → Type 0
Coherent serves holds (t, s) = Within serves holds t s

module _ {S T K V : Type 0} (w : WriteThrough S T K V) {serves : K → S → Option V}
    {holds : K → T → Option V} (c : IsCache w.front serves) (f : IsFirm w.front serves)
    (g : IsStore w holds) where
  set_context-Coherent :
      (locked : Option Error) (ctx : Context) (key : K) (val : V) (exp : Expiry) (state : T × S)
      → Coherent serves holds state
      → Coherent serves holds (set_context w locked ctx key val exp state).1
  unfolding set_context
  set_context-Coherent (some err) ctx key val exp (t, s) h = h
  set_context-Coherent none ctx key val exp (t, s) h =
      elim (Option-cases (w.writer ctx key val t).0) [
        | inl ok ↦
            rw (ok, set_context)
              (λ other v here. elim (f.set_serves ctx key other val v exp s here) [
                | inl (same, new) ↦
                    ap (λ k. holds k (w.writer ctx key val t).1) same
                    ∙ g.written ctx key val t ok
                    ∙ ap some (sym new)
                | inr (apart, old) ↦ g.write_others ctx key other val t (inl apart) ∙ h other v old
              ])
        | inr (err, bad) ↦
            rw (bad, set_context)
              (λ other v old. g.write_others ctx key other val t (inr (λ e. cc)) ∙ h other v old)
      ]

  call_deleter-others :
      (ctx : Context) (key other : K) (t : T)
      → (other ≢ key) ⊎ ((call_deleter w ctx key t).0 ≢ none)
      → holds other (call_deleter w ctx key t).1 ≡ holds other t
  unfolding call_deleter
  call_deleter-others ctx key other t h = elim (Option-cases w.deleter) [
    | inl no_deleter ↦ rw (no_deleter, call_deleter) refl
    | inr (del, given) ↦
        rw (given, call_deleter)
          (g.delete_others del given ctx key other t
            (subst (λ o. (other ≢ key) ⊎ ((delete_by o ctx key t).0 ≢ none)) given h))
  ]

  delete_context-Coherent :
      (locked : Option Error) (ctx : Context) (key : K) (state : T × S)
      → Coherent serves holds state
      → Coherent serves holds (delete_context w locked ctx key state).1
  unfolding delete_context
  delete_context-Coherent (some err) ctx key (t, s) h = h
  delete_context-Coherent none ctx key (t, s) h = elim (Option-cases (call_deleter w ctx key t).0) [
    | inl ok ↦
        rw (ok, delete_context)
          (λ other v here.
            let (apart, old) = f.delete_serves ctx key other v s here in
            call_deleter-others ctx key other t (inl apart) ∙ h other v old)
    | inr (err, bad) ↦
        rw (bad, delete_context)
          (λ other v old. call_deleter-others ctx key other t (inr (λ e. cc)) ∙ h other v old)
  ]

  get_context-Coherent :
      (ctx : Context) (key : K) (state : T × S)
      → Coherent serves holds state
      → Coherent serves holds (get_context w ctx key state).1
  unfolding get_context
  get_context-Coherent ctx key (t, s) h =
      λ other v here. h other v (c.get_keeps ctx key other v s here)

  -- After any sequence of reads, writes and deletes, whichever of the calls of the store fail, the
  -- cache in front serves nothing but what the store holds, if it did so before. The front keeps the
  -- promises of `IsCache` and `IsFirm`, and the store those of `IsStore`.
  pub run-Coherent :
      (ops : List (Op K V)) (state : T × S)
      → Coherent serves holds state
      → Coherent serves holds (run w ops state)
  run-Coherent [] state h = h
  run-Coherent (set_op locked ctx key val exp ∷ ops) state h =
      run-Coherent ops _ (set_context-Coherent locked ctx key val exp state h)
  run-Coherent (delete_op locked ctx key ∷ ops) state h =
      run-Coherent ops _ (delete_context-Coherent locked ctx key state h)
  run-Coherent (get_op ctx key ∷ ops) state h =
      run-Coherent ops _ (get_context-Coherent ctx key state h)

module _ {S T K V : Type 0} (w : WriteThrough S T K V) {serves : K → S → Option V}
    (c : IsCache w.front serves) where
  -- The layer keeps the promises of `IsCache` that its front keeps.
  pub write_through-IsCache : IsCache (write_through_cache w) (λ key (t, s). serves key s)
  unfolding set_context delete_context get_context
  write_through-IsCache = record {
    got = λ ctx key v (t, s) h. c.got ctx key v s h;
    get_keeps = λ ctx key other v (t, s) h. c.get_keeps ctx key other v s h;
    set_adds = λ ctx key other val v exp (t, s) h. elim (Option-cases (w.writer ctx key val t).0) [
      | inl ok ↦ c.set_adds ctx key other val v exp s (rw (ok, set_context) at h)
      | inr (err, bad) ↦ inr (rw (bad, set_context) at h)
    ];
    delete_keeps = λ ctx key other v (t, s) h. elim (Option-cases (call_deleter w ctx key t).0) [
      | inl ok ↦ c.delete_keeps ctx key other v s (rw (ok, delete_context) at h)
      | inr (err, bad) ↦ rw (bad, delete_context) at h
    ];
  }
