-- ===== src/Cache/Memory/Lookups.antt =====
-- cache/memory.go: what each operation of a `Memory` leaves to be found under each key.
use albstractions.Prelude.{
  ◌≡◌, refl, Bool, true, false, not, Option, none, some, [], ◌∷◌, arith, if◌then◌else◌, Comparable,
  nat_comparable, Map, lookup, insert, erase, Distinct, lookup-insert, lookup-erase,
  insert-Distinct, erase-Distinct, ◌≤ℤ◌,
}
use albstractions.Time.{Time}
use albstractions.Cache.Ttl.{Expiry, expired}
use albstractions.Cache.Memory.{
  Entry, Memory, fresh, evict, read, set, delete, sweep, cleanup, copy_live, rebuild,
}

-- An entry that has expired stays expired.
pub expired_later :
    (t now later : Time) → now ≤ℤ later → expired t now ≡ true → expired t later ≡ true
unfolding expired
expired_later t now later h e = ground arith

abbrev doomed {ℓ} : {V : Type ℓ} → Time → Option (Entry V) → Bool
doomed now none = false
doomed now (some e) = expired e.expires_at now

module _ {ℓ} {K V : Type ℓ} ⦃k : Comparable K⦄ where
  lookup-sweep :
      (j : K) (l : Map K (Entry V)) (now : Time) (m : Map K (Entry V))
      → Distinct l
      → lookup j (sweep l now m) ≡ (if doomed now (lookup j l) then none else lookup j m)
  unfolding sweep lookup
  lookup-sweep j [] now m d = refl
  lookup-sweep j ((key, e) ∷ l) now m d = ground (
    arith,
    k.eqb_iff key j,
    lookup-erase key j m,
    lookup-sweep j l now (if expired e.expires_at now then erase key m else m) d.1,
  )

  lookup-copy_live :
      (j : K) (l : Map K (Entry V)) (now : Time) (m : Map K (Entry V))
      → Distinct l
      → lookup j (copy_live l now m)
        ≡ elim (fresh now (lookup j l)) [ none ↦ lookup j m | some e ↦ some e ]
  unfolding copy_live lookup fresh
  lookup-copy_live j [] now m d = refl
  lookup-copy_live j ((key, e) ∷ l) now m d = ground (
    arith,
    k.eqb_iff key j,
    lookup-insert key j e m,
    lookup-copy_live j l now (if not (expired e.expires_at now) then insert key e m else m) d.1,
  )

  sweep-Distinct :
      (l : Map K (Entry V)) (now : Time) (m : Map K (Entry V))
      → Distinct m
      → Distinct (sweep l now m)
  unfolding sweep
  sweep-Distinct [] now m d = d
  sweep-Distinct ((key, e) ∷ l) now m d =
      sweep-Distinct l now (if expired e.expires_at now then erase key m else m)
        (ground (arith, erase-Distinct key m))

  copy_live-Distinct :
      (l : Map K (Entry V)) (now : Time) (m : Map K (Entry V))
      → Distinct m
      → Distinct (copy_live l now m)
  unfolding copy_live
  copy_live-Distinct [] now m d = d
  copy_live-Distinct ((key, e) ∷ l) now m d =
      copy_live-Distinct l now (if not (expired e.expires_at now) then insert key e m else m)
        (ground (arith, insert-Distinct key e m))

  -- `cleanup` and `rebuild` leave under each key what was live there, and nothing else.
  pub lookup-cleanup :
      (j : K) (now : Time) (m : Memory K V)
      → Distinct m.entries
      → lookup j (cleanup now m).entries ≡ fresh now (lookup j m.entries)
  unfolding cleanup fresh
  lookup-cleanup j now m d = ground (arith, lookup-sweep j m.entries now m.entries d)

  pub lookup-rebuild :
      (j : K) (now : Time) (m : Memory K V)
      → Distinct m.entries
      → lookup j (rebuild now m).entries ≡ fresh now (lookup j m.entries)
  unfolding rebuild fresh lookup
  lookup-rebuild j now m d = ground (arith, lookup-copy_live j m.entries now [] d)

  pub lookup-evict :
      (j key : K) (now : Time) (m : Memory K V)
      → lookup j (evict key now m).entries
        ≡ (if k.eqb key j then fresh now (lookup j m.entries) else lookup j m.entries)
  unfolding evict fresh
  lookup-evict j key now m = ground (arith, k.eqb_iff key j, lookup-erase key j m.entries)

  pub lookup-read :
      (j key : K) (now : Time) (m : Memory K V)
      → lookup j (read key now m).0.entries
        ≡ (if k.eqb key j then fresh now (lookup j m.entries) else lookup j m.entries)
  unfolding read fresh
  lookup-read j key now m = ground (arith, k.eqb_iff key j, lookup-evict j key now m)

  pub lookup-set :
      (j key : K) (val : V) (exp : Expiry) (now : Time) (m : Memory K V)
      → lookup j (set key val exp now m).0.entries ≡ (
          if k.eqb key j
          then some (record { value = val; expires_at = (set key val exp now m).1 })
          else lookup j m.entries)
  unfolding set
  lookup-set j key val exp now m =
      lookup-insert key j (record { value = val; expires_at = (set key val exp now m).1 }) m.entries

  pub lookup-delete :
      (j key : K) (m : Memory K V)
      → lookup j (delete key m).entries ≡ (if k.eqb key j then none else lookup j m.entries)
  unfolding delete
  lookup-delete j key m = lookup-erase key j m.entries

  pub cleanup-Distinct :
      (now : Time) (m : Memory K V) → Distinct m.entries → Distinct (cleanup now m).entries
  unfolding cleanup
  cleanup-Distinct now m d = sweep-Distinct m.entries now m.entries d

  pub rebuild-Distinct : (now : Time) (m : Memory K V) → Distinct (rebuild now m).entries
  unfolding rebuild
  rebuild-Distinct now m = copy_live-Distinct m.entries now [] tt

  pub evict-Distinct :
      (key : K) (now : Time) (m : Memory K V)
      → Distinct m.entries
      → Distinct (evict key now m).entries
  unfolding evict
  evict-Distinct key now m d = ground (arith, erase-Distinct key m.entries d)

  pub read-Distinct :
      (key : K) (now : Time) (m : Memory K V)
      → Distinct m.entries
      → Distinct (read key now m).0.entries
  unfolding read
  read-Distinct key now m d = ground (arith, evict-Distinct key now m d)

  pub set-Distinct :
      (key : K) (val : V) (exp : Expiry) (now : Time) (m : Memory K V)
      → Distinct m.entries
      → Distinct (set key val exp now m).0.entries
  unfolding set
  set-Distinct key val exp now m d =
      insert-Distinct key (record { value = val; expires_at = (set key val exp now m).1 }) m.entries
        d

  pub delete-Distinct :
      (key : K) (m : Memory K V) → Distinct m.entries → Distinct (delete key m).entries
  unfolding delete
  delete-Distinct key m d = erase-Distinct key m.entries d
