-- ===== src/Cache/Sharded/Memories/Shards.antt =====
-- cache/sharded.go: the list of shards, after a change of each and as the constructor makes it.
use mathlib.Core.Option.{some-injective}
use albstractions.Prelude.{
  ℕ, zero, suc, ◌<◌, ◌≡◌, refl, sym, ap, none, some, List, [], ◌∷◌, map, arith, nat_comparable,
  length, get_elem?,
}
use albstractions.Cache.Sharded.{copies}

pub get_elem?-map :
    {A B : Type 0} (f : A → B) (xs : List A) (i : ℕ)
    → get_elem? (map f xs) i ≡ elim (get_elem? xs i) [ none ↦ none | some x ↦ some (f x) ]
get_elem?-map f [] i = ground arith
get_elem?-map f (x ∷ xs) zero = refl
get_elem?-map f (x ∷ xs) (suc i) = get_elem?-map f xs i

pub length-map : {A B : Type 0} (f : A → B) (xs : List A) → length (map f xs) ≡ length xs
length-map f [] = refl
length-map f (x ∷ xs) = ap suc (length-map f xs)

pub get_elem?-lt :
    {A : Type 0} (xs : List A) (i : ℕ) {x : A} → get_elem? xs i ≡ some x → i < length xs
get_elem?-lt [] i h = absurd (ground arith)
get_elem?-lt (y ∷ xs) zero h = omega arith
get_elem?-lt (y ∷ xs) (suc i) h = omega (arith, get_elem?-lt xs i h)

pub length-copies : {A : Type 0} (n : ℕ) (x : A) → length (copies n x) ≡ n
length-copies zero x = refl
length-copies (suc n) x = ap suc (length-copies n x)

pub copies-same :
    {A : Type 0} (n : ℕ) (x : A) (i : ℕ) {y : A} → get_elem? (copies n x) i ≡ some y → y ≡ x
copies-same zero x i h = absurd (ground arith)
copies-same (suc n) x zero h = sym (some-injective _ _ h)
copies-same (suc n) x (suc i) h = copies-same n x i h
