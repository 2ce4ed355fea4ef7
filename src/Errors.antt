-- ===== src/Errors.antt =====
-- Go's `error` values as the modules build and test them: sentinels (package variables made by
-- `errors.New`), `fmt.Errorf` with one or two `%w`, and `errors.Is` against a sentinel.
use albstractions.Prelude.{
  ◌⊎◌, inl, inr, refl, ℕ, suc, ◌+◌, ◌≡◌, Bool, true, false, ◌||◌, Option, none, some, ◌==◌,
  if◌then◌else◌, nat_comparable,
}
use Prim.Native.String.{String}

pub data Sentinel : Type 0 where
  canceled deadline_exceeded cache_miss goexit signal refused server_closed : Sentinel
  other : ℕ → Sentinel

abbrev number : Sentinel → ℕ
number canceled = 0
number deadline_exceeded = 1
number cache_miss = 2
number goexit = 3
number signal = 4
number refused = 5
number server_closed = 6
number (other n) = n + 7

pub data Error : Type 0 where
  sentinel : Sentinel → Error
  wrap : String → Error → Error
  wrap_both : Error → Error → Error
  of_process : String → String → Error → Error  -- `%s %q: %w`
  unexpected_exit : String → String → Error
  message : String → Error  -- without `%w`

abbrev pub same : Sentinel → Sentinel → Bool
same a b = number a == number b

-- `errors.Is(err, target)`.
unfoldable pub is : Error → Sentinel → Bool
is (sentinel s) target = same s target
is (wrap _ e) target = is e target
is (wrap_both e f) target = is e target || is f target
is (of_process _ _ e) target = is e target
is (unexpected_exit _ _) target = false
is (message _) target = false

-- A context as one call sees it: whether it is done at each of the call's looks at it, what
-- `ctx.Err()` is then, and what `context.Cause` is.
pub record Context : Type 0 where
  pub done : ℕ → Bool
  pub reason : Error
  pub cause : Error

-- The `i`th `ctx.Err()` of a call; `none` is nil.
abbrev pub err : Context → ℕ → Option Error
err ctx i = if ctx.done i then some ctx.reason else none

-- Once done, always done, and with an error of the context package.
pub record IsContext (ctx : Context) : Type 0 where
  pub stays : (i : ℕ) → ctx.done i ≡ true → ctx.done (suc i) ≡ true
  pub known : (is ctx.reason canceled || is ctx.reason deadline_exceeded) ≡ true

-- `context.Background()` is never done.
abbrev pub background : Context
background = record { done = λ _. false; reason = sentinel canceled; cause = sentinel canceled }

-- What a fallible call returns.
pub result-cases :
    {V : Type 0} (x : Error ⊎ V) → ((e : Error) × (x ≡ inl e)) ⊎ ((v : V) × (x ≡ inr v))
result-cases (inl e) = inl (e, refl)
result-cases (inr v) = inr (v, refl)
