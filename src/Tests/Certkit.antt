-- ===== src/Tests/Certkit.antt =====
-- The package certkit at concrete inputs.
use albstractions.Prelude.{
  ◌%◌, ◌≡◌, refl, ◌≢◌, inr, true, false, none, some, [], ◌∷◌, arith, ◌==◌, if◌then◌else◌,
  nat_comparable, length, lookup,
}
use albstractions.Certkit.Keyloader.Slices.{
  Bytes, Buffers, allocate, contents, zeros, clear, IsZero,
}
use albstractions.Certkit.Keyloader.Runes.{
  map_runes, first_byte, is_space, continuation, drop_spaces, without_spaces, drop_spaces-invalid,
}
use albstractions.Certkit.Keyloader.{
  Decoder, provide, free, decode, process_key, check_mode, from_file, EnvConfig, from_env,
}
use albstractions.Certkit.Keyloader.Zeroing.{process_key-free, decode-residue}
use albstractions.Certkit.Keyloader.Hex.{hex_digit, hex_decode, with_env_hex, Hands, from_env-hex}
use albstractions.Certkit.Keyloader.Mock.{read_file, stat, file_system}

program : Unit {0}
unfolding allocate contents zeros clear map_runes first_byte is_space continuation drop_spaces
    without_spaces free decode process_key check_mode from_file read_file stat file_system lookup
program = tt

-- Two bytes each less one, which fails on an odd first byte.
abbrev decoder : Decoder
decoder [] = ([], false)
decoder (c ∷ cs) = if c % 2 == 1 then (c ∷ [], true) else (c ∷ [], false)

abbrev careful : Decoder
careful cs = ((if length cs == 1 then [] else 7 ∷ []), length cs == 1)

abbrev memory : Buffers
memory = (1 ∷ 2 ∷ []) ∷ (32 ∷ 65 ∷ 10 ∷ 66 ∷ []) ∷ []

processed :
    process_key true (some careful) 1 memory
    ≡ (provide 3, (1 ∷ 2 ∷ []) ∷ (0 ∷ 0 ∷ 0 ∷ 0 ∷ []) ∷ (0 ∷ 0 ∷ []) ∷ (7 ∷ []) ∷ [])
unfolding program
processed = refl

careful-Withholds : (cs : Bytes) → (careful cs).1 ≡ true → (careful cs).0 ≡ []
careful-Withholds cs h = rw h

process_key-free_example : IsZero (
    contents 3 (
      free
        (process_key true (some careful) 1 memory).0
        (process_key true (some careful) 1 memory).1))
process_key-free_example =
    process_key-free true (some careful) 1 memory 3 careful-Withholds (omega arith)
      (inr (omega arith))

decode-residue_example :
    contents 2 (free (decode (some decoder) 0 memory).0 (decode (some decoder) 0 memory).1) ≡ 1 ∷ []
unfolding contents
decode-residue_example = decode-residue decoder 0 memory (omega arith) refl

drop_spaces-invalid_example : drop_spaces (0xff ∷ 65 ∷ []) ≢ without_spaces (0xff ∷ 65 ∷ [])
unfolding continuation
drop_spaces-invalid_example = drop_spaces-invalid 0xff (65 ∷ []) refl (omega arith)

-- The hex text of two bytes, with a line break.
abbrev in_hex : EnvConfig (Unit {0})
in_hex = record {
  getter = λ _. 52 ∷ 97 ∷ 48 ∷ 98 ∷ 10 ∷ [];
  decoder = none;
  trim_whitespace = true;
}

hex_lem : hex_decode (52 ∷ 97 ∷ 48 ∷ 66 ∷ []) ≡ (74 ∷ 11 ∷ [], false)
unfolding hex_decode hex_digit
hex_lem = refl

hex_error_lem : hex_decode (52 ∷ 97 ∷ 48 ∷ []) ≡ (74 ∷ [], true)
unfolding hex_decode hex_digit
hex_error_lem = refl

from_env-hex_example : Hands (74 ∷ 11 ∷ []) (from_env (with_env_hex in_hex) tt memory)
unfolding without_spaces is_space
from_env-hex_example =
    from_env-hex in_hex tt memory (74 ∷ 11 ∷ []) (omega arith) (omega arith, (omega arith, tt))
      (omega arith, (omega arith, (omega arith, (omega arith, (omega arith, tt))))) refl
