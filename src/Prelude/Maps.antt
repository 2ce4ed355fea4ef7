-- ===== src/Prelude/Maps.antt =====
-- Go's maps as association lists: a read finds the first entry of a key, a write replaces it in
-- place or appends, a delete removes it. The order of the list stands for the order in which a
-- `range` statement visits the entries, which Go leaves open.
use mathlib.Core.Path.{◌≡◌, refl}
use mathlib.Core.List.{List, [], ◌∷◌}
use mathlib.Core.Option.{Option, none, some}
use native.Mathlib.Omega.{arith}
use albstractions.Prelude.Tests.{if◌then◌else◌, Comparable}

abbrev pub Map {ℓ} : Type ℓ → Type ℓ → Type ℓ
Map K A = List (K × A)

module _ {ℓ} {K A : Type ℓ} ⦃k : Comparable K⦄ where
  unfoldable pub lookup : K → Map K A → Option A
  lookup j [] = none
  lookup j ((i, a) ∷ m) = if k.eqb i j then some a else lookup j m

  unfoldable pub insert : K → A → Map K A → Map K A
  insert j a [] = (j, a) ∷ []
  insert j a ((i, b) ∷ m) = if k.eqb i j then (j, a) ∷ m else (i, b) ∷ insert j a m

  unfoldable pub erase : K → Map K A → Map K A
  erase j [] = []
  erase j ((i, a) ∷ m) = if k.eqb i j then erase j m else (i, a) ∷ erase j m

  -- No key stands twice.
  abbrev pub Distinct : Map K A → Type ℓ
  Distinct [] = Unit
  Distinct ((i, a) ∷ m) = (lookup i m ≡ none) × Distinct m

  pub lookup-insert :
      (i j : K) (a : A) (m : Map K A)
      → lookup j (insert i a m) ≡ (if k.eqb i j then some a else lookup j m)
  unfolding lookup insert
  lookup-insert i j a [] = refl
  lookup-insert i j a ((h, b) ∷ m) =
      ground (arith, k.eqb_iff i j, k.eqb_iff h i, k.eqb_iff h j, lookup-insert i j a m)

  pub lookup-erase :
      (i j : K) (m : Map K A) → lookup j (erase i m) ≡ (if k.eqb i j then none else lookup j m)
  unfolding lookup erase
  lookup-erase i j [] = ground arith
  lookup-erase i j ((h, b) ∷ m) =
      ground (arith, k.eqb_iff i j, k.eqb_iff h i, k.eqb_iff h j, lookup-erase i j m)

  pub insert-Distinct : (i : K) (a : A) (m : Map K A) → Distinct m → Distinct (insert i a m)
  unfolding lookup insert
  insert-Distinct i a [] d = (refl, tt)
  insert-Distinct i a ((h, b) ∷ m) d =
      ground (arith, k.eqb_iff h i, k.eqb_iff i h, lookup-insert i h a m, insert-Distinct i a m d.1)

  pub erase-Distinct : (i : K) (m : Map K A) → Distinct m → Distinct (erase i m)
  unfolding lookup erase
  erase-Distinct i [] d = tt
  erase-Distinct i ((h, b) ∷ m) d = ground (arith, lookup-erase i h m, erase-Distinct i m d.1)
