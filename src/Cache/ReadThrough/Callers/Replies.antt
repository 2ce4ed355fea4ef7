-- ===== src/Cache/ReadThrough/Callers/Replies.antt =====
-- cache/readthrough.go: what many callers of `GetContext` are told while they share loads.
use mathlib.Core.Option.{some-injective}
use albstractions.Prelude.{
  List, [], ◌∷◌, false, ℕ, ◌≡◌, refl, sym, ap, ◌∙◌, ◌≢◌, ◌⊎◌, inl, inr, Option, none, some,
  nat_comparable, put-each,
}
use mathlib.Core.Path.{subst}
use albstractions.Errors.{Sentinel, message, sentinel, goexit, is, Error, Context, result-cases}
use albstractions.Cache.Interface.{Answer, absent, IsCache, Tells, Within, Answer-cases}
use Prim.Native.String.{String}
use albstractions.Cache.ReadThrough.{any_is, is_miss, ReadThrough, load_and_store, answer_of}
use albstractions.Cache.ReadThrough.Reads.{IsLoader, load_and_store-right}
use albstractions.Cache.ReadThrough.Flight.{ended, Outcome, Pc, looking, removing, answered}
use albstractions.Cache.ReadThrough.Callers.{
  Ends, returns, abandons, System, Step, front_misses, front_answers, in_flight, loads, crashes,
  other_loads, drops, Reach, start, later, reply_of,
}
use albstractions.Cache.ReadThrough.Callers.Outcomes.{
  Right, RightPc, RightCalls, finish-Right, Move-Right,
}

message-any_is : (text : String) (errs : List Sentinel) → any_is (message text) errs ≡ false
unfolding any_is is
message-any_is text [] = refl
message-any_is text (e ∷ errs) = message-any_is text errs

-- A new error is no miss.
message-is_miss : (text : String) (errs : List Sentinel) → is_miss errs (message text) ≡ false
unfolding is_miss is
message-is_miss text errs = message-any_is text errs

module _ {S T K V : Type 0} (r : ReadThrough S T K V) {serves : K → S → Option V}
    {holds : K → T → Option V} (key : K) (held : K → Option V) (f : IsCache r.front serves)
    (l : IsLoader r.miss_errs r.load holds) where
  record Inv (s : System S T V) : Type 0 where
    source : (other : K) → holds other s.source ≡ held other
    within : Within serves holds s.source s.front
    calls : RightCalls r (held key) s.flight.group
    pcs : (i : ℕ) → RightPc r (held key) (s.flight.pc i)
    found : (i : ℕ) (answer : Answer V) → s.found i ≡ some answer → Tells (held key) answer

  load_and_store-source :
      (ctx : Context) (other : K) (t : T) (s : S)
      → (load_and_store r ctx other t s).1.0 ≡ (r.load ctx other t).1
  unfolding load_and_store
  load_and_store-source ctx other t s = elim (result-cases (r.load ctx other t).0) [
    | inl (err, bad) ↦ rw (bad, load_and_store) refl
    | inr (v, ok) ↦ rw (ok, load_and_store) refl
  ]

  -- A load leaves the source and the front in order.
  load_and_store-Inv :
      (ctx : Context) (other : K) (s : System S T V)
      → Inv s
      → ((k : K) → holds k (load_and_store r ctx other s.source s.front).1.0 ≡ held k)
        × Within serves holds
            (load_and_store r ctx other s.source s.front).1.0
            (load_and_store r ctx other s.source s.front).1.1
  load_and_store-Inv ctx other s v = (
    (λ k.
        ap (holds k) (load_and_store-source ctx other s.source s.front)
        ∙ l.keeps ctx other k s.source
        ∙ v.source k),
    (load_and_store-right r f l ctx other s.source s.front v.within).1,
  )

  Ends-Right :
      {res : Error ⊎ V} {o : Outcome (Error ⊎ V)}
      → Ends res o
      → Tells (held key) (answer_of r res)
      → Right r (held key) o
  Ends-Right returns h = h
  Ends-Right (abandons is) h = h

  crash-Right :
      {o : Outcome (Error ⊎ V)}
      → (o ≡ Outcome.panicked) ⊎ (o ≡ Outcome.goexit)
      → Right r (held key) o
  crash-Right (inl is) = subst (Right r (held key)) (sym is) tt
  crash-Right (inr is) = subst (Right r (held key)) (sym is) tt

  front-Tells :
      (ctx : Context) (t : T) (s : S)
      → Within serves holds t s
      → holds key t ≡ held key
      → (r.front.get_context ctx key s).0 ≢ absent
      → Tells (held key) (r.front.get_context ctx key s).0
  front-Tells ctx t s w same some_answer = elim (Answer-cases (r.front.get_context ctx key s).0) [
    | inl (v, is) ↦ rw is (sym same ∙ w key v (f.got ctx key v s is))
    | inr (inl is) ↦ absurd (some_answer is)
    | inr (inr (e, is)) ↦ rw is tt
  ]

  Step-Inv : (n : ℕ) {s t : System S T V} → Step r serves key n s t → Inv s → Inv t
  Step-Inv n {s} (front_misses i ctx lt at new is) v = record {
    source = v.source;
    within = λ other x h. v.within other x (f.get_keeps ctx key other x s.front h);
    calls = v.calls;
    pcs = put-each (RightPc r (held key)) i looking s.flight.pc tt v.pcs;
    found = v.found;
  }
  Step-Inv n {s} (front_answers i ctx lt at new is) v = record {
    source = v.source;
    within = λ other x h. v.within other x (f.get_keeps ctx key other x s.front h);
    calls = v.calls;
    pcs = v.pcs;
    found =
        put-each (λ o. (answer : Answer V) → o ≡ some answer → Tells (held key) answer) i
          (some (r.front.get_context ctx key s.front).0) s.found
          (λ answer h.
            subst (Tells (held key)) (some-injective _ _ h)
              (front-Tells ctx s.source s.front v.within (v.source key) is))
          v.found;
  }
  Step-Inv n {s} (in_flight i {g} {p} lt within mv) v =
      let (calls, pc) = Move-Right r (held key) mv within v.calls (v.pcs i) in
      record {
        source = v.source;
        within = v.within;
        calls = calls;
        pcs = put-each (RightPc r (held key)) i p s.flight.pc pc v.pcs;
        found = v.found;
      }
  Step-Inv n {s} (loads i {c} ctx {o} lt at how) v =
      let told = (load_and_store-right r f l ctx key s.source s.front v.within).0 in
      let right = Ends-Right how (
        subst (λ h. Tells h (answer_of r (load_and_store r ctx key s.source s.front).0))
          (v.source key) told) in
      let (source, within) = load_and_store-Inv ctx key s v in
      record {
        source = source;
        within = within;
        calls = finish-Right r (held key) s.flight.group c o right v.calls;
        pcs = put-each (RightPc r (held key)) i (removing c o) s.flight.pc right v.pcs;
        found = v.found;
      }
  Step-Inv n {s} (crashes i {c} o lt at how) v = record {
    source = v.source;
    within = v.within;
    calls = finish-Right r (held key) s.flight.group c o (crash-Right how) v.calls;
    pcs = put-each (RightPc r (held key)) i (removing c o) s.flight.pc (crash-Right how) v.pcs;
    found = v.found;
  }
  Step-Inv n {s} (other_loads ctx other) v =
      let (source, within) = load_and_store-Inv ctx other s v in
      record { source = source; within = within; calls = v.calls; pcs = v.pcs; found = v.found }
  Step-Inv n {s} (drops front less) v = record {
    source = v.source;
    within = λ other x h. v.within other x (less other x h);
    calls = v.calls;
    pcs = v.pcs;
    found = v.found;
  }

  Reach-Inv :
      (n : ℕ) {t : T} {front : S} {s : System S T V}
      → ((other : K) → holds other t ≡ held other)
      → Within serves holds t front
      → Reach r serves key n t front s
      → Inv s
  Reach-Inv n source within start = record {
    source = source;
    within = within;
    calls = λ c o h. absurd (cc);
    pcs = λ i. tt;
    found = λ i answer h. absurd (cc);
  }
  Reach-Inv n source within (later reached st) = Step-Inv n st (Reach-Inv n source within reached)

  reply-Tells :
      (cause : Error) (found : Option (Answer V)) (p : Pc (Error ⊎ V)) (answer : Answer V)
      → is_miss r.miss_errs cause ≡ false
      → is_miss r.miss_errs (sentinel goexit) ≡ false
      → ((a : Answer V) → found ≡ some a → Tells (held key) a)
      → RightPc r (held key) p
      → reply_of r cause found p ≡ some answer
      → Tells (held key) answer
  reply-Tells cause (some a) p answer no_miss no_exit h k is =
      subst (Tells (held key)) (some-injective _ _ is) (h a refl)
  reply-Tells cause none (answered (Outcome.returned res)) answer no_miss no_exit h k is =
      subst (Tells (held key)) (some-injective _ _ is) k
  reply-Tells cause none (answered (Outcome.abandoned res)) answer no_miss no_exit h k is =
      subst (Tells (held key)) (some-injective _ _ is) k
  reply-Tells cause none (answered Outcome.panicked) answer no_miss no_exit h k is =
      subst (Tells (held key)) (some-injective _ _ is)
        (rw (message-is_miss "cache: read-through loader panicked" r.miss_errs) tt)
  reply-Tells cause none (answered Outcome.goexit) answer no_miss no_exit h k is =
      subst (Tells (held key)) (some-injective _ _ is) (rw no_exit tt)
  reply-Tells cause none ended answer no_miss no_exit h k is =
      subst (Tells (held key)) (some-injective _ _ is) (rw no_miss tt)
  reply-Tells cause none p answer no_miss no_exit h k is = absurd (cc)

  -- In every interleaving of any number of callers of `GetContext` of one key that share their loads,
  -- every answer tells what the source holds: a value is the one that the source holds for the key,
  -- and that nothing is there is said only of a key that the source does not hold. So does the answer
  -- of a caller that stops to wait as its context ends, if the cause of the context is none of the
  -- errors that count as a miss, and that of a waiter for a load that panicked or exited, as the error
  -- of a Goexit, which is not exported, is none of them either. Meanwhile the front may drop what it likes, other keys may be loaded,
  -- and loads may fail, be abandoned, panic or exit. The front and the loader keep the promises of
  -- `IsCache` and `IsLoader`, the source holds the same throughout, and at the start the front serves
  -- only what the source holds.
  pub Reach-Told :
      (n i : ℕ) (t : T) (front : S) (s : System S T V) (cause : Error) (answer : Answer V)
      → is_miss r.miss_errs cause ≡ false
      → is_miss r.miss_errs (sentinel goexit) ≡ false
      → ((other : K) → holds other t ≡ held other)
      → Within serves holds t front
      → Reach r serves key n t front s
      → reply_of r cause (s.found i) (s.flight.pc i) ≡ some answer
      → Tells (held key) answer
  Reach-Told n i t front s cause answer no_miss no_exit source within reached is =
      let v = Reach-Inv n source within reached in
      reply-Tells cause (s.found i) (s.flight.pc i) answer no_miss no_exit (v.found i) (v.pcs i) is
