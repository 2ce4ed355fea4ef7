-- ===== src/Tests/Callers.antt =====
-- Callers that share a load of the read-through layer of the package cache, at concrete inputs.
use albstractions.Prelude.{
  ℕ, ◌≡◌, refl, inl, inr, true, Option, none, some, [], ◌∷◌, arith, ◌==◌, if◌then◌else◌,
  nat_comparable, put,
}
use albstractions.Errors.{canceled, is, sentinel, refused, background}
use albstractions.Cache.Interface.{failed, absent, hit, Tells}
use albstractions.Cache.ReadThrough.{is_miss, any_is, ReadThrough, Loader, load_and_store}
use albstractions.Cache.ReadThrough.Reads.{IsLoader}
use albstractions.Cache.ReadThrough.Callers.{
  System, Reach, reply_of, start, later, front_misses, in_flight, loads, returns,
}
use albstractions.Cache.ReadThrough.Callers.Replies.{Reach-Told}
use albstractions.Cache.ReadThrough.Flight.{
  ended, returned, idle, looking, waiting, leading, removing, closing, answered, Move, fresh_group,
  join, finish, remove, close, wake,
}
use albstractions.Tests.Fronts.{front, view, front-IsCache}

-- A source that holds 40 under the key 4.
abbrev holds : ℕ → Unit {0} → Option ℕ
holds key t = if key == 4 then some 40 else none

abbrev load : Loader (Unit {0}) ℕ ℕ
load ctx key t = ((if key == 4 then inr 40 else inl (sentinel refused)), t)

abbrev layer : ReadThrough (ℕ → Option ℕ) (Unit {0}) ℕ ℕ
layer = record { front = front; load = load; miss_errs = refused ∷ []; shares = true }

load-IsLoader : IsLoader (refused ∷ []) load holds
load-IsLoader = record {
  loaded = λ ctx key v t h. ground arith;
  missing = λ ctx key err t h m. ground arith;
  keeps = λ ctx key other t. refl;
}

abbrev empty_front : ℕ → Option ℕ
empty_front key = none

-- The first caller has loaded, and the second waited for it.
abbrev both : System (ℕ → Option ℕ) (Unit {0}) ℕ
both = record {
  flight = record {
    group = close 0 (remove (finish 0 (returned (inr 40)) (join fresh_group).0));
    pc = put 1 (answered (returned (inr 40))) (
        put 0 (answered (returned (inr 40))) (
          put 0 (closing 0 (returned (inr 40))) (
            put 0 (removing 0 (returned (inr 40))) (
              put 1 (waiting 0) (put 0 (leading 0) (put 1 looking (put 0 looking (λ _. idle))))))));
  };
  found = λ _. none;
  source = tt;
  front = put 4 (some 40) empty_front;
}

both-Reach : Reach layer view 4 2 tt empty_front both
unfolding join finish remove close wake load_and_store
both-Reach =
    let a = front_misses 0 background (omega arith) refl refl refl in
    let b = front_misses 1 background (omega arith) refl refl refl in
    let c = in_flight 0 (omega arith) refl Move.enter in
    let d = in_flight 1 (omega arith) refl Move.enter in
    let e = loads 0 background (omega arith) refl returns in
    let f = in_flight 0 (omega arith) refl Move.delete in
    let g = in_flight 0 (omega arith) refl Move.release in
    let h = in_flight 1 (omega arith) refl (Move.wake_up refl) in
    later (later (later (later (later (later (later (later start a) b) c) d) e) f) g) h

-- The second caller stops to wait, and its answer is the error of its context.
abbrev alone : System (ℕ → Option ℕ) (Unit {0}) ℕ
alone = record {
  flight = record {
    group = (join fresh_group).0;
    pc =
        put 1 ended
          (put 1 (waiting 0) (put 0 (leading 0) (put 1 looking (put 0 looking (λ _. idle)))));
  };
  found = λ _. none;
  source = tt;
  front = empty_front;
}

reply_lem :
    (reply_of layer (sentinel canceled) (alone.found 1) (alone.flight.pc 1)
      ≡ some (failed (sentinel canceled)))
    × (reply_of layer (sentinel refused) (alone.found 1) (alone.flight.pc 1) ≡ some absent)
unfolding is_miss any_is is
reply_lem = (refl, refl)

Reach-Told_example : Tells (holds 4 tt) (hit 40)
unfolding is_miss any_is is
Reach-Told_example =
    Reach-Told layer 4 (λ key. holds key tt) front-IsCache load-IsLoader 2 1 tt empty_front both
      (sentinel canceled) (hit 40) refl refl (λ other. refl) (λ other v h. absurd (cc)) both-Reach
      refl
