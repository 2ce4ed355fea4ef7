-- ===== src/Certkit/Keyloader/Mock.antt =====
-- certkit/keyloader/mock/mock.go: the providers and the file system for tests.
use albstractions.Prelude.{ℕ, Option, none, some, Comparable, nat_comparable, Map, lookup}
use albstractions.Certkit.Keyloader.Slices.{Buffers}
use albstractions.Certkit.Keyloader.{Failure, Provided, fail, FileSystem}

-- The files of a `FileSystem`: the buffer of each file's data, and its mode.
pub record File : Type 0 where
  pub data' : ℕ
  pub mode : ℕ

-- `StaticProvider` and `ErrorProvider`; their free functions do nothing.
unfoldable pub static_provider : ℕ → Buffers → Provided × Buffers
static_provider data' b = (record { key = some data'; failure = none; frees = none }, b)

unfoldable pub error_provider : Failure → Buffers → Provided × Buffers
error_provider f b = (fail f, b)

module _ {P : Type 0} ⦃k : Comparable P⦄ where
  unfoldable pub read_file : Map P File → P → Buffers → Option (ℕ × Buffers)
  read_file files path b = elim (lookup path files) [ none ↦ none | some f ↦ some (f.data', b) ]

  unfoldable pub stat : Map P File → P → Option ℕ
  stat files path = elim (lookup path files) [ none ↦ none | some f ↦ some f.mode ]

  unfoldable pub file_system : Map P File → FileSystem P
  unfolding read_file stat
  file_system files = record { stat = stat files; read_file = read_file files }
