-- ===== src/Certkit/Keyloader/Hex.antt =====
-- certkit/keyloader/keyloader.go with hex text: the decoder of encoding/hex, and the provider that
-- reads a key with it.
use albstractions.Prelude.{
  ℕ, ◌+◌, ◌-◌, ◌*◌, ◌/◌, ◌%◌, ◌≤◌, ◌<◌, ◌≡◌, refl, sym, ap, ◌∙◌, ◌≢◌, Bool, true, false, ◌&&◌,
  Option, none, some, [], ◌∷◌, arith, ltb, leb, ◌==◌, if◌then◌else◌, nat_comparable, length, All,
}
use mathlib.Core.Path.{subst}
use albstractions.Certkit.Keyloader.Slices.{
  Bytes, Buffers, allocate, contents, clear, contents-clear, contents-allocate, length-allocate,
}
use albstractions.Certkit.Keyloader.Runes.{drop_spaces, without_spaces, drop_spaces-ascii}
use albstractions.Certkit.Keyloader.{
  Decoder, Provided, provide, decode, process_key, EnvConfig, with_env_decoder, from_env,
  FileConfig, with_file_decoder,
}

-- `hex.DecodeString`, which gives the bytes before its error too.
unfoldable pub hex_digit : ℕ → Option ℕ
hex_digit c =
    if leb 48 c && leb c 57
    then some (c - 48)
    else if leb 97 c && leb c 102
    then some (c - 87)
    else if leb 65 c && leb c 70
    then some (c - 55)
    else none

unfoldable pub hex_decode : Decoder
hex_decode [] = ([], false)
hex_decode (a ∷ []) = ([], true)
hex_decode (a ∷ b ∷ text) =
    let (bytes, failed) = hex_decode text in
    elim (hex_digit a) [
      | none ↦ ([], true)
      | some x ↦ elim (hex_digit b) [ none ↦ ([], true) | some y ↦ ((16 * x + y) ∷ bytes, failed) ]
    ]

-- `WithEnvHex` and `WithFileHex`.
unfoldable pub with_env_hex : {P : Type 0} → EnvConfig P → EnvConfig P
with_env_hex c = with_env_decoder (some hex_decode) c

unfoldable pub with_file_hex : {P : Type 0} → FileConfig P → FileConfig P
with_file_hex c = with_file_decoder (some hex_decode) c

-- Hex text of bytes.
abbrev pub digit_of : ℕ → ℕ
digit_of n = if ltb n 10 then n + 48 else n + 87

abbrev pub hex_encode : Bytes → Bytes
hex_encode [] = []
hex_encode (c ∷ cs) = digit_of (c / 16) ∷ digit_of (c % 16) ∷ hex_encode cs

hex_digit-digit_of : (n : ℕ) → n < 16 → hex_digit (digit_of n) ≡ some n
unfolding hex_digit
hex_digit-digit_of n h = ground arith

hex_decode-pair :
    (a b x y : ℕ) (text : Bytes)
    → hex_digit a ≡ some x
    → hex_digit b ≡ some y
    → hex_decode (a ∷ b ∷ text) ≡ ((16 * x + y) ∷ (hex_decode text).0, (hex_decode text).1)
unfolding hex_decode
hex_decode-pair a b x y text ha hb = rw (ha, hb, hex_decode) refl

hex_decode-hex_encode :
    (bytes : Bytes) → All (λ c. c < 256) bytes → hex_decode (hex_encode bytes) ≡ (bytes, false)
unfolding hex_decode
hex_decode-hex_encode [] h = refl
hex_decode-hex_encode (c ∷ cs) h =
    let whole : 16 * (c / 16) + c % 16 ≡ c = omega arith in
    hex_decode-pair (digit_of (c / 16)) (digit_of (c % 16)) (c / 16) (c % 16) (hex_encode cs)
      (hex_digit-digit_of (c / 16) (omega (arith, h.0))) (hex_digit-digit_of (c % 16) (omega arith))
    ∙ rw (hex_decode-hex_encode cs h.1, whole) refl

-- What a provider hands out: a buffer that has the bytes.
abbrev pub Hands : Bytes → Provided × Buffers → Type 0
Hands bytes (p, b) = (key : ℕ) × (p.key ≡ some key) × (p.failure ≡ none) × (contents key b ≡ bytes)

made-Hands :
    (key : ℕ) (bytes : Bytes) (b : Buffers)
    → key < length b
    → Hands bytes (provide (length b), clear key (allocate bytes b).1)
made-Hands key bytes b fits = (
  length b,
  refl,
  refl,
  ground (
    arith,
    contents-clear (length b) key (allocate bytes b).1,
    contents-allocate (length b) bytes b,
  ),
)

decode-Hands :
    (decoder : Decoder) (key : ℕ) (b : Buffers) (bytes : Bytes)
    → key < length b
    → 0 < length bytes
    → decoder (contents key b) ≡ (bytes, false)
    → Hands bytes (decode (some decoder) key b)
unfolding decode allocate
decode-Hands decoder key b bytes fits full is =
    let not_empty : (length bytes == 0) ≡ false = ground (arith, full) in
    rw (is, not_empty, decode) (made-Hands key bytes b fits)

clear-Hands :
    (bytes : Bytes) (p : Provided) (original : ℕ) (b : Buffers)
    → ((key : ℕ) → p.key ≡ some key → key ≢ original)
    → Hands bytes (p, b)
    → Hands bytes (p, clear original b)
clear-Hands bytes p original b apart (key, has, well, holds) =
    (key, has, well, ground (arith, contents-clear key original b, apart key has, holds))

decode-key :
    (decoder : Decoder) (key : ℕ) (b : Buffers) (n : ℕ)
    → (decode (some decoder) key b).0.key ≡ some n
    → n ≡ length b
unfolding decode allocate
decode-key decoder key b n h = ground (arith, h)

-- The text that is decoded.
abbrev pub text_of : Bool → Bytes → Bytes
text_of trim val = if trim then without_spaces val else val

hex_encode-longer : (bytes : Bytes) → length bytes ≤ length (hex_encode bytes)
hex_encode-longer [] = omega arith
hex_encode-longer (c ∷ cs) = omega (arith, hex_encode-longer cs)

without_spaces-shorter : (val : Bytes) → length (without_spaces val) ≤ length val
unfolding without_spaces
without_spaces-shorter [] = omega arith
without_spaces-shorter (c ∷ cs) = ground (arith, without_spaces-shorter cs)

text_of-longer : (trim : Bool) (val : Bytes) → length (text_of trim val) ≤ length val
text_of-longer true val = without_spaces-shorter val
text_of-longer false val = omega arith

process_key-Hands :
    (trim : Bool) (original : ℕ) (b : Buffers) (bytes : Bytes)
    → original < length b
    → 0 < length bytes
    → All (λ c. c < 256) bytes
    → All (λ c. c < 0x80) (contents original b)
    → text_of trim (contents original b) ≡ hex_encode bytes
    → Hands bytes (process_key trim (some hex_decode) original b)
unfolding process_key allocate
process_key-Hands false original b bytes fits full are ascii is =
    decode-Hands hex_decode original b bytes fits full
      (ap hex_decode is ∙ hex_decode-hex_encode bytes are)
process_key-Hands true original b bytes fits full are ascii is =
    let text = drop_spaces (contents original b) in
    let trimmed : text ≡ hex_encode bytes = drop_spaces-ascii (contents original b) ascii ∙ is in
    let not_empty : (length text == 0) ≡ false =
      ground (arith, ap length trimmed, hex_encode-longer bytes, full) in
    let made = contents-allocate (length b) text b in
    let room = length-allocate text b in
    let read : contents (length b) (allocate text b).1 ≡ hex_encode bytes =
      ground (arith, made, trimmed) in
    let done = decode (some hex_decode) (length b) (allocate text b).1 in
    rw (not_empty, process_key)
      (clear-Hands bytes done.0 original done.1
        (λ key has same.
          omega (arith, decode-key hex_decode (length b) (allocate text b).1 key has, room))
        (decode-Hands hex_decode (length b) (allocate text b).1 bytes (omega (arith, room)) full
          (ap hex_decode read ∙ hex_decode-hex_encode bytes are)))

-- A provider that `FromEnv` makes with the hex decoder hands out the key: where the variable has the
-- hex text of some bytes, or, if white space is trimmed, ASCII text with white space among it, the
-- provider succeeds and its buffer has those bytes.
pub from_env-hex :
    {P : Type 0} (cfg : EnvConfig P) (env_var : P) (b : Buffers) (bytes : Bytes)
    → 0 < length bytes
    → All (λ c. c < 256) bytes
    → All (λ c. c < 0x80) (cfg.getter env_var)
    → text_of cfg.trim_whitespace (cfg.getter env_var) ≡ hex_encode bytes
    → Hands bytes (from_env (with_env_hex cfg) env_var b)
unfolding from_env with_env_hex with_env_decoder allocate
from_env-hex cfg env_var b bytes full are ascii is =
    let val = cfg.getter env_var in
    let held : contents (length b) (allocate val b).1 ≡ val =
      ground (arith, contents-allocate (length b) val b) in
    let not_empty : (length val == 0) ≡ false = ground (
      arith,
      text_of-longer cfg.trim_whitespace val,
      ap length is,
      hex_encode-longer bytes,
      full,
    ) in
    rw (not_empty, from_env)
      (process_key-Hands cfg.trim_whitespace (length b) (allocate val b).1 bytes
        (omega (arith, length-allocate val b)) full are
        (subst (All (λ c. c < 0x80)) (sym held) ascii) (ap (text_of cfg.trim_whitespace) held ∙ is))
