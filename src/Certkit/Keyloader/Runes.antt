-- ===== src/Certkit/Keyloader/Runes.antt =====
-- `bytes.Map` as certkit/keyloader/keyloader.go uses it, to drop white space. It reads runes: a byte
-- that starts no valid UTF-8 sequence is read as U+FFFD and written as the three bytes of that.
use native.Mathlib.Decide.{dec_lt}
use albstractions.Prelude.{
  lt→ltb, ℕ, zero, suc, ◌≤◌, ◌<◌, ◌≡◌, refl, ◌≢◌, Bool, true, false, ◌&&◌, ◌||◌, Option, none, some,
  List, [], ◌∷◌, ◌++◌, arith, ltb, leb, ◌==◌, if◌then◌else◌, nat_comparable, All,
}
use albstractions.Certkit.Keyloader.Slices.{Bytes}

abbrev within : ℕ → ℕ → ℕ → Bool
within lo hi c = leb lo c && leb c hi

-- The next bytes lie in the given ranges.
abbrev follow : List (ℕ × ℕ) → Bytes → Bool
follow [] cs = true
follow (r ∷ rs) [] = false
follow ((lo, hi) ∷ rs) (c ∷ cs) = within lo hi c && follow rs cs

abbrev tail_byte : ℕ × ℕ
tail_byte = (0x80, 0xbf)

three_bytes : ℕ → Bytes → Bool
three_bytes c cs =
    c == 0xe0 && follow ((0xa0, 0xbf) ∷ tail_byte ∷ []) cs
    || c == 0xed && follow ((0x80, 0x9f) ∷ tail_byte ∷ []) cs
    || (within 0xe1 0xec c || within 0xee 0xef c) && follow (tail_byte ∷ tail_byte ∷ []) cs

four_bytes : ℕ → Bytes → Bool
four_bytes c cs =
    c == 0xf0 && follow ((0x90, 0xbf) ∷ tail_byte ∷ tail_byte ∷ []) cs
    || c == 0xf4 && follow ((0x80, 0x8f) ∷ tail_byte ∷ tail_byte ∷ []) cs
    || within 0xf1 0xf3 c && follow (tail_byte ∷ tail_byte ∷ tail_byte ∷ []) cs

many_bytes : ℕ → Bytes → Option ℕ
unfolding three_bytes four_bytes
many_bytes c cs =
    if within 0xc2 0xdf c && follow (tail_byte ∷ []) cs
    then some 1
    else if three_bytes c cs
    then some 2
    else if four_bytes c cs
    then some 3
    else none

-- How many bytes follow the first one in the sequence that starts here; `none` if it is invalid.
unfoldable pub continuation : ℕ → Bytes → Option ℕ
unfolding many_bytes
continuation c cs = if ltb c 0x80 then some 0 else many_bytes c cs

unfoldable pub is_space : ℕ → Bool
is_space c = c == b' ' || c == 9 || c == 10 || c == 13

-- What the first byte of a rune is written as: dropped, kept, or U+FFFD.
unfoldable pub first_byte : ℕ → Option ℕ → Bytes
first_byte c none = 0xef ∷ 0xbf ∷ 0xbd ∷ []
first_byte c (some n) = if is_space c then [] else c ∷ []

abbrev left : Option ℕ → ℕ
left none = 0
left (some n) = n

-- `copy` counts the bytes of the current rune that are still to be copied.
unfoldable pub map_runes : ℕ → Bytes → Bytes
map_runes copy [] = []
map_runes (suc copy) (c ∷ cs) = c ∷ map_runes copy cs
map_runes zero (c ∷ cs) =
    first_byte c (continuation c cs) ++ map_runes (left (continuation c cs)) cs

-- The bytes that `bytes.Map` returns in the trimming; where it keeps them is not said here.
unfoldable pub drop_spaces : Bytes → Bytes
unfolding map_runes
drop_spaces cs = map_runes 0 cs

-- The documented meaning: the white space removed, and every other byte kept.
unfoldable pub without_spaces : Bytes → Bytes
without_spaces [] = []
without_spaces (c ∷ cs) = if is_space c then without_spaces cs else c ∷ without_spaces cs

continuation-ascii : (c : ℕ) (cs : Bytes) → c < 0x80 → continuation c cs ≡ some 0
unfolding continuation
continuation-ascii c cs h = rw (lt→ltb c 0x80 h, continuation)

continuation-none : (c : ℕ) (cs : Bytes) → continuation c cs ≡ none → 0x80 ≤ c
continuation-none c cs h = elim (dec_lt c 0x80) [
  | yes small ↦ absurd (ground (arith, continuation-ascii c cs small))
  | no large ↦ omega arith
]

map_runes-ascii : (cs : Bytes) → All (λ c. c < 0x80) cs → map_runes 0 cs ≡ without_spaces cs
unfolding map_runes without_spaces first_byte
map_runes-ascii [] h = refl
map_runes-ascii (c ∷ cs) h =
    rw (continuation-ascii c cs h.0) (ground (arith, map_runes-ascii cs h.1))

-- On ASCII, such as hex and base64 text, trimming removes the white space and nothing else.
pub drop_spaces-ascii : (cs : Bytes) → All (λ c. c < 0x80) cs → drop_spaces cs ≡ without_spaces cs
unfolding drop_spaces
drop_spaces-ascii cs h = map_runes-ascii cs h

-- A key whose first byte starts no UTF-8 sequence, and is not the first of U+FFFD itself, is not left
-- with its bytes but the white space: the byte is replaced.
pub drop_spaces-invalid :
    (c : ℕ) (cs : Bytes)
    → continuation c cs ≡ none
    → c ≢ 0xef
    → drop_spaces (c ∷ cs) ≢ without_spaces (c ∷ cs)
unfolding map_runes without_spaces drop_spaces is_space first_byte
drop_spaces-invalid c cs invalid other =
    let large = continuation-none c cs invalid in ground (arith, large)
