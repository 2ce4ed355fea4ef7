-- ===== src/Cache/Ttl.antt =====
-- cache/ttl.go and cache/options.go: expiries, the options of a `Memory`, and how an expiry is
-- resolved against the configured bounds.
pub mod Bounds
use albstractions.Prelude.{
  Bool, not, ◌&&◌, Option, none, some, if◌then◌else◌, nat_comparable, pos, ltb_ℤ, leb_ℤ, eqb_ℤ,
}
use albstractions.Time.{Time, Duration, zero_time, is_zero, before, add, sub}

-- `expiryKind` with the field that each kind reads.
pub data Expiry : Type 0 where
  default never keep : Expiry
  after : Duration → Expiry
  at : Time → Expiry

pub record MemoryConfig : Type 0 where
  pub default_ttl : Duration
  pub min_ttl : Duration
  pub max_ttl : Duration
  pub cleanup_interval : Duration
  pub rebuild_interval : Duration

abbrev pub zero_config : MemoryConfig
zero_config = record {
  default_ttl = pos 0;
  min_ttl = pos 0;
  max_ttl = pos 0;
  cleanup_interval = pos 0;
  rebuild_interval = pos 0;
}

-- A `MemoryOption`; `none` is a panic of the function that makes it.
abbrev pub MemoryOption : Type 0
MemoryOption = MemoryConfig → MemoryConfig

unfoldable pub with_default_ttl : Duration → Option MemoryOption
with_default_ttl d = if leb_ℤ d (pos 0) then none else some (λ c. record c { default_ttl = d })

unfoldable pub with_min_ttl : Duration → Option MemoryOption
with_min_ttl d = if ltb_ℤ d (pos 0) then none else some (λ c. record c { min_ttl = d })

unfoldable pub with_max_ttl : Duration → Option MemoryOption
with_max_ttl d = if ltb_ℤ d (pos 0) then none else some (λ c. record c { max_ttl = d })

unfoldable pub with_cleanup_interval : Duration → Option MemoryOption
with_cleanup_interval d =
    if ltb_ℤ d (pos 0) then none else some (λ c. record c { cleanup_interval = d })

unfoldable pub with_rebuild_interval : Duration → Option MemoryOption
with_rebuild_interval d =
    if ltb_ℤ d (pos 0) then none else some (λ c. record c { rebuild_interval = d })

abbrev pub positive : Duration → Bool
positive d = ltb_ℤ (pos 0) d

-- The two `if`s that move a lifetime into the bounds.
unfoldable pub raise_to_min : MemoryConfig → Duration → Duration
raise_to_min c life = if positive c.min_ttl && ltb_ℤ life c.min_ttl then c.min_ttl else life

unfoldable pub lower_to_max : MemoryConfig → Duration → Duration
lower_to_max c life = if positive c.max_ttl && ltb_ℤ c.max_ttl life then c.max_ttl else life

unfoldable pub clamp_lifetime : MemoryConfig → Time → Duration → Time
unfolding raise_to_min lower_to_max
clamp_lifetime c now life =
    let life' = lower_to_max c (raise_to_min c life) in
    if leb_ℤ life' (pos 0) then now else add now life'

unfoldable pub clamp_never : MemoryConfig → Time → Time
clamp_never c now = if positive c.max_ttl then add now c.max_ttl else zero_time

unfoldable pub resolve_default : MemoryConfig → Time → Time
resolve_default c now =
    if positive c.default_ttl then clamp_lifetime c now c.default_ttl else clamp_never c now

-- The case `expiryAt`.
unfoldable pub resolve_at : MemoryConfig → Time → Time → Time
resolve_at c now target =
    if is_zero target
    then clamp_never c now
    else (let life = sub target now in
        if eqb_ℤ c.max_ttl (pos 0) && before (add now life) target
        then target
        else clamp_lifetime c now life)

unfoldable pub resolve_expiry : MemoryConfig → Expiry → Time → Time → Bool → Time
resolve_expiry c keep now existing found = if found then existing else resolve_default c now
resolve_expiry c default now existing found = resolve_default c now
resolve_expiry c never now existing found = clamp_never c now
resolve_expiry c (at t) now existing found = resolve_at c now t
resolve_expiry c (after d) now existing found = clamp_lifetime c now d

-- Whether an entry with the given expiry is expired at `now` (cache/memory.go).
unfoldable pub expired : Time → Time → Bool
expired expires_at now = not (is_zero expires_at) && not (before now expires_at)
