-- ===== src/Retry/Stop.antt =====
-- retry/stop.go: the stop conditions. `none` is a panic of the function that makes one, or a nil
-- entry among the arguments.
use mathlib.Core.Option
use albstractions.Prelude.{
  ℕ, ◌≡◌, ◌↔◌, ◌⊎◌, Bool, true, false, not, Option, none, some, List, [], ◌∷◌, arith, if◌then◌else◌,
  nat_comparable, ℤ, pos, leb_ℤ,
}
use albstractions.Time.{Duration}
use albstractions.Errors.{Error}

abbrev pub StopFunc : Type 0
StopFunc = ℕ → Duration → Error → Bool

unfoldable pub max_attempts : ℤ → Option StopFunc
max_attempts n = if leb_ℤ n (pos 0) then none else some (λ attempt _ _. leb_ℤ n (pos attempt))

unfoldable pub max_elapsed : Duration → Option StopFunc
max_elapsed d = if leb_ℤ d (pos 0) then none else some (λ _ elapsed _. leb_ℤ d elapsed)

unfoldable pub on_error : Option (Error → Bool) → Option StopFunc
on_error none = none
on_error (some pred) = some (λ _ _ err. pred err)

-- The check for nil entries.
unfoldable pub all_given : List (Option StopFunc) → Option (List StopFunc)
all_given [] = some []
all_given (none ∷ stops) = none
all_given (some s ∷ stops) = Option.map (◌∷◌ s) (all_given stops)

-- The loops of the functions that `Any` and `All` return.
unfoldable pub any_halts : List StopFunc → StopFunc
any_halts [] attempt elapsed err = false
any_halts (s ∷ stops) attempt elapsed err =
    if s attempt elapsed err then true else any_halts stops attempt elapsed err

unfoldable pub all_halt : List StopFunc → StopFunc
all_halt [] attempt elapsed err = true
all_halt (s ∷ stops) attempt elapsed err =
    if not (s attempt elapsed err) then false else all_halt stops attempt elapsed err

unfoldable pub any : List (Option StopFunc) → Option StopFunc
any [] = none
any (s ∷ stops) = Option.map any_halts (all_given (s ∷ stops))

unfoldable pub all : List (Option StopFunc) → Option StopFunc
all [] = none
all (s ∷ stops) = Option.map all_halt (all_given (s ∷ stops))

-- Some condition of the list halts.
abbrev pub SomeHalts : List StopFunc → ℕ → Duration → Error → Type 0
SomeHalts [] a d e = ⊥
SomeHalts (s ∷ stops) a d e = (s a d e ≡ true) ⊎ SomeHalts stops a d e

pub any_halts_iff :
    (stops : List StopFunc) (a : ℕ) (d : Duration) (e : Error)
    → (any_halts stops a d e ≡ true) ↔ SomeHalts stops a d e
unfolding any_halts
any_halts_iff [] a d e = ((λ h. cc), λ h. absurd h)
any_halts_iff (s ∷ stops) a d e = ground (arith, any_halts_iff stops a d e)
