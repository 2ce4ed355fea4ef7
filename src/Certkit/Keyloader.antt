-- ===== src/Certkit/Keyloader.antt =====
-- certkit/keyloader/keyloader.go. Byte slices are held in numbered buffers, so that what is zeroed,
-- and when, can be seen. The environment, the file system and the decoders are parameters.
pub mod Slices
pub mod Runes
pub mod Zeroing
pub mod Mock
pub mod Hex
use albstractions.Prelude.{
  ℕ, Bool, true, false, not, Option, none, some, ◌==◌, if◌then◌else◌, nat_comparable, length,
}
use Prim.Native.Nat.{bit_and}
use albstractions.Certkit.Keyloader.Slices.{Bytes, Buffers, allocate, contents, clear}
use albstractions.Certkit.Keyloader.Runes.{drop_spaces}

pub data Failure : Type 0 where
  unset stat_failed insecure_permissions read_failed empty_file : Failure
  empty_after_trimming decode_failed empty_decoded : Failure

-- A `Decoder`: the bytes that it made, and whether it failed.
abbrev pub Decoder : Type 0
Decoder = Bytes → Bytes × Bool

-- A provider's answer: the key or a failure, and the buffer that the free function zeros.
pub record Provided : Type 0 where
  pub key : Option ℕ
  pub failure : Option Failure
  pub frees : Option ℕ

abbrev pub fail : Failure → Provided
fail f = record { key = none; failure = some f; frees = none }

abbrev pub provide : ℕ → Provided
provide key = record { key = some key; failure = none; frees = some key }

-- The free function; it may be called again.
unfoldable pub free : Provided → Buffers → Buffers
free p b = elim p.frees [ none ↦ b | some key ↦ clear key b ]

-- The part of `processKey` from the decoder on, for the slice `key`, whose bytes the decoder is handed
-- as a string, a copy that is no buffer; the deferred `clear` of it is
-- the last thing done.
unfoldable pub decode : Option Decoder → ℕ → Buffers → Provided × Buffers
decode none key b = (provide key, b)
decode (some decoder) key b =
    let (bytes, failed) = decoder (contents key b) in
    let (decoded, b') = allocate bytes b in
    if failed
    then (fail decode_failed, clear key b')
    else if length bytes == 0
    then (fail empty_decoded, clear key b')
    else (provide decoded, clear key b')

-- `processKey`. The trimmed bytes are in one new buffer, as they are in Go while they are no more than
-- those of the original: bytes that are no UTF-8 may make them more, and then `bytes.Map` has left the
-- buffer that they outgrew, which is not modelled.
unfoldable pub process_key : Bool → Option Decoder → ℕ → Buffers → Provided × Buffers
process_key false decoder original b = decode decoder original b
process_key true decoder original b =
    let trimmed = drop_spaces (contents original b) in
    let (key, b') = allocate trimmed b in
    if length trimmed == 0
    then (fail empty_after_trimming, clear original b')
    else (let (p, b'') = decode decoder key b' in (p, clear original b''))

pub record EnvConfig (P : Type 0) : Type 0 where
  pub getter : P → Bytes
  pub decoder : Option Decoder
  pub trim_whitespace : Bool

module _ {P : Type 0} where
  unfoldable pub with_env_getter : (P → Bytes) → EnvConfig P → EnvConfig P
  with_env_getter getter c = record c { getter = getter }

  unfoldable pub with_env_decoder : Option Decoder → EnvConfig P → EnvConfig P
  with_env_decoder decoder c = record c { decoder = decoder }

  unfoldable pub with_env_trim_whitespace : EnvConfig P → EnvConfig P
  with_env_trim_whitespace c = record c { trim_whitespace = true }

  -- The provider of `FromEnv`, once its options are applied.
  unfoldable pub from_env : EnvConfig P → P → Buffers → Provided × Buffers
  from_env cfg env_var b =
      let val = cfg.getter env_var in
      if length val == 0
      then (fail unset, b)
      else (let (data', b') = allocate val b in
          process_key cfg.trim_whitespace cfg.decoder data' b')

-- A `FileSystem`: the mode of a file, and a read, which says what buffer it handed out.
pub record FileSystem (P : Type 0) : Type 0 where
  pub stat : P → Option ℕ
  pub read_file : P → Buffers → Option (ℕ × Buffers)

pub record FileConfig (P : Type 0) : Type 0 where
  pub filesystem : FileSystem P
  pub decoder : Option Decoder
  pub trim_whitespace : Bool
  pub check_permissions : Bool

module _ {P : Type 0} where
  unfoldable pub with_filesystem : FileSystem P → FileConfig P → FileConfig P
  with_filesystem fs c = record c { filesystem = fs }

  unfoldable pub with_file_decoder : Option Decoder → FileConfig P → FileConfig P
  with_file_decoder decoder c = record c { decoder = decoder }

  unfoldable pub with_file_trim_whitespace : FileConfig P → FileConfig P
  with_file_trim_whitespace c = record c { trim_whitespace = true }

  unfoldable pub without_permission_check : FileConfig P → FileConfig P
  without_permission_check c = record c { check_permissions = false }

  -- The check of the permissions; `none` is success.
  unfoldable pub check_mode : FileConfig P → P → Option Failure
  check_mode cfg path =
      if cfg.check_permissions
      then elim (cfg.filesystem.stat path) [
        | none ↦ some stat_failed
        | some mode ↦ if not (bit_and mode 0o077 == 0) then some insecure_permissions else none
      ]
      else none

  -- The provider of `FromFile`, once its options are applied.
  unfoldable pub from_file : FileConfig P → P → Buffers → Provided × Buffers
  from_file cfg path b = elim (check_mode cfg path) [
    | some f ↦ (fail f, b)
    | none ↦ elim (cfg.filesystem.read_file path b) [
      | none ↦ (fail read_failed, b)
      | some (data', b') ↦
          if length (contents data' b') == 0
          then (fail empty_file, b')
          else process_key cfg.trim_whitespace cfg.decoder data' b'
    ]
  ]
