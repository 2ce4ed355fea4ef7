-- ===== src/Cache/Ttl/Bounds.antt =====
-- cache/ttl.go: the bounds that a resolved expiry obeys.
use albstractions.Prelude.{
  ◌≡◌, ◌⊎◌, inl, inr, Bool, false, arith, Bool-cases, nat_comparable, pos, ◌+ℤ◌, ◌≤ℤ◌, ◌<ℤ◌, ltb_ℤ,
  +ℤ_parts, -ℤ_parts, eq_of_parts,
}
use albstractions.Time.{Time, Duration, zero_time, max_duration, is_zero, add, sub}
use albstractions.Cache.Ttl.{
  Expiry, default, never, keep, after, at, MemoryConfig, clamp_lifetime, clamp_never,
  resolve_default, resolve_at, resolve_expiry,
}

-- What the options and `NewMemory` make sure of, over int64 durations.
pub record IsValid (c : MemoryConfig) : Type 0 where
  pub min_nonneg : pos 0 ≤ℤ c.min_ttl
  pub max_nonneg : pos 0 ≤ℤ c.max_ttl
  pub ordered : (c.max_ttl ≡ pos 0) ⊎ (c.min_ttl ≤ℤ c.max_ttl)
  pub default_fits : c.default_ttl ≤ℤ max_duration
  pub min_fits : c.min_ttl ≤ℤ max_duration
  pub max_fits : c.max_ttl ≤ℤ max_duration

-- The moment lies within the bounds: not before `now`, at least `min_ttl` away, and at most
-- `max_ttl` away where a maximum is set.
pub record InBounds (c : MemoryConfig) (now t : Time) : Type 0 where
  pub not_past : now ≤ℤ t
  pub floor : now +ℤ c.min_ttl ≤ℤ t
  pub ceiling : (c.max_ttl ≡ pos 0) ⊎ (t ≤ℤ now +ℤ c.max_ttl)

clamp_lifetime-InBounds :
    (c : MemoryConfig) (now : Time) (life : Duration)
    → IsValid c
    → InBounds c now (clamp_lifetime c now life)
unfolding clamp_lifetime
clamp_lifetime-InBounds c now life v =
    ground (arith, +ℤ_parts now c.min_ttl, +ℤ_parts now c.max_ttl, +ℤ_parts now life)

clamp_never-InBounds :
    (c : MemoryConfig) (now : Time)
    → IsValid c
    → ((c.max_ttl ≡ pos 0) × (clamp_never c now ≡ zero_time)) ⊎ InBounds c now (clamp_never c now)
unfolding clamp_never
clamp_never-InBounds c now v = elim (Bool-cases (ltb_ℤ (pos 0) c.max_ttl)) [
  | inl bounded ↦ inr (ground (arith, +ℤ_parts now c.min_ttl, +ℤ_parts now c.max_ttl))
  | inr unbounded ↦ inl (eq_of_parts _ _ (ground arith), ground arith)
]

resolve_default-InBounds :
    (c : MemoryConfig) (now : Time)
    → IsValid c
    → ((c.max_ttl ≡ pos 0) × (resolve_default c now ≡ zero_time))
      ⊎ InBounds c now (resolve_default c now)
unfolding resolve_default
resolve_default-InBounds c now v = elim (Bool-cases (ltb_ℤ (pos 0) c.default_ttl)) [
  | inl set ↦ rw set (inr (clamp_lifetime-InBounds c now c.default_ttl v))
  | inr unset ↦ rw unset (clamp_never-InBounds c now v)
]

-- Without a ceiling the saturated lifetime of a far target misses it; the target is kept.
resolve_at-InBounds :
    (c : MemoryConfig) (now target : Time)
    → IsValid c
    → is_zero target ≡ false
    → InBounds c now (resolve_at c now target)
unfolding resolve_at
resolve_at-InBounds c now target v set =
    let life = sub target now in
    ground (
      arith,
      clamp_lifetime-InBounds c now life v,
      +ℤ_parts now c.min_ttl,
      +ℤ_parts now life,
      -ℤ_parts target now,
    )

-- A target within the bounds is taken as it is.
resolve_at_of_InBounds :
    (c : MemoryConfig) (now target : Time)
    → pos 0 <ℤ now
    → IsValid c
    → InBounds c now target
    → resolve_at c now target ≡ target
unfolding resolve_at clamp_lifetime
resolve_at_of_InBounds c now target started v b =
    let life = sub target now in
    ground (
      arith,
      +ℤ_parts now c.min_ttl,
      +ℤ_parts now c.max_ttl,
      +ℤ_parts now life,
      -ℤ_parts target now,
      eq_of_parts (add now life) target,
      eq_of_parts now target,
    )

-- Whether the entry's own expiry is preserved.
abbrev pub keeps : Expiry → Bool → Bool
keeps keep found = found
keeps e found = false

-- Under a valid configuration every expiry but a kept one is the zero time, and then no maximum is
-- set, or lies within the configured bounds.
pub resolve_expiry-InBounds :
    (c : MemoryConfig) (e : Expiry) (now existing : Time) (found : Bool)
    → IsValid c
    → keeps e found ≡ false
    → ((c.max_ttl ≡ pos 0) × (resolve_expiry c e now existing found ≡ zero_time))
      ⊎ InBounds c now (resolve_expiry c e now existing found)
unfolding resolve_expiry resolve_at
resolve_expiry-InBounds c default now existing found v k = resolve_default-InBounds c now v
resolve_expiry-InBounds c keep now existing found v k = rw k (resolve_default-InBounds c now v)
resolve_expiry-InBounds c never now existing found v k = clamp_never-InBounds c now v
resolve_expiry-InBounds c (after d) now existing found v k = inr (clamp_lifetime-InBounds c now d v)
resolve_expiry-InBounds c (at t) now existing found v k = elim (Bool-cases (is_zero t)) [
  | inl unset ↦ rw (unset, resolve_at) (clamp_never-InBounds c now v)
  | inr set ↦ inr (resolve_at-InBounds c now t v set)
]

-- With a maximum configured no new expiry is permanent.
resolve_expiry-not_zero :
    (c : MemoryConfig) (e : Expiry) (now existing : Time) (found : Bool)
    → IsValid c
    → keeps e found ≡ false
    → pos 0 <ℤ c.max_ttl
    → pos 0 <ℤ now
    → is_zero (resolve_expiry c e now existing found) ≡ false
resolve_expiry-not_zero c e now existing found v k bounded started =
    elim (resolve_expiry-InBounds c e now existing found v k) [
      | inl (unbounded, _) ↦ absurd (ground arith)
      | inr b ↦ ground (arith, b.not_past)
    ]

-- Under a valid configuration, and at an instant after the zero time, the expiry that a call resolved
-- for any expiry but a kept one, passed back as `at` at that instant, resolves to itself.
pub resolve_at-resolve_expiry :
    (c : MemoryConfig) (e : Expiry) (now existing : Time) (found : Bool)
    → IsValid c
    → keeps e found ≡ false
    → pos 0 <ℤ now
    → resolve_expiry c (at (resolve_expiry c e now existing found)) now existing found
      ≡ resolve_expiry c e now existing found
unfolding resolve_expiry resolve_at clamp_never
resolve_at-resolve_expiry c e now existing found v k started =
    elim (resolve_expiry-InBounds c e now existing found v k) [
      | inl (unbounded, unset) ↦ rw unset (ground (arith, unbounded))
      | inr b ↦ resolve_at_of_InBounds c now (resolve_expiry c e now existing found) started v b
    ]
