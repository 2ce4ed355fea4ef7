-- ===== src/Cache/Memory/Liveness.antt =====
-- cache/memory.go: what is live of an entry at an instant, and at later ones.
use albstractions.Prelude.{◌≡◌, refl, sym, ap, ◌∙◌, Option, none, some, arith, nat_comparable, ◌≤ℤ◌}
use albstractions.Time.{Time}
use albstractions.Cache.Ttl.{Expiry, default, never, keep, after, at, MemoryConfig, resolve_expiry}
use albstractions.Cache.Memory.{Entry, fresh, existing_expiry, found}
use albstractions.Cache.Memory.Lookups.{expired_later}

module _ {ℓ} {V : Type ℓ} where
  abbrev pub value_of : Option (Entry V) → Option V
  value_of none = none
  value_of (some e) = some e.value

  pub fresh_twice : (now : Time) (o : Option (Entry V)) → fresh now (fresh now o) ≡ fresh now o
  unfolding fresh
  fresh_twice now o = ground arith

  pub fresh_later :
      (now later : Time) (o : Option (Entry V))
      → now ≤ℤ later
      → fresh later (fresh now o) ≡ fresh later o
  unfolding fresh
  fresh_later now later none h = refl
  fresh_later now later (some e) h = ground (arith, expired_later e.expires_at now later h)

  pub fresh_mono :
      (now later : Time) (o p : Option (Entry V))
      → now ≤ℤ later
      → fresh now o ≡ fresh now p
      → fresh later o ≡ fresh later p
  fresh_mono now later o p h e =
      sym (fresh_later now later o h) ∙ ap (fresh later) e ∙ fresh_later now later p h

  -- A set resolves alike over two entries of which the same is live.
  pub resolve_expiry-fresh :
      (c : MemoryConfig) (e : Expiry) (now : Time) (o p : Option (Entry V))
      → fresh now o ≡ fresh now p
      → resolve_expiry c e now (existing_expiry o) (found now o)
        ≡ resolve_expiry c e now (existing_expiry p) (found now p)
  unfolding resolve_expiry fresh
  resolve_expiry-fresh c keep now none none h = refl
  resolve_expiry-fresh c keep now none (some q) h = ground arith
  resolve_expiry-fresh c keep now (some o) none h = ground arith
  resolve_expiry-fresh c keep now (some o) (some q) h = ground arith
  resolve_expiry-fresh c default now o p h = refl
  resolve_expiry-fresh c never now o p h = refl
  resolve_expiry-fresh c (after d) now o p h = refl
  resolve_expiry-fresh c (at t) now o p h = refl
