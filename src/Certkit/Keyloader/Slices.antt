-- ===== src/Certkit/Keyloader/Slices.antt =====
-- Byte slices in memory: buffers by number, newest last.
use albstractions.Prelude.{
  ℕ, zero, suc, ◌+◌, ◌≡◌, refl, ap, List, [], ◌∷◌, ◌++◌, arith, ◌==◌, if◌then◌else◌, nat_comparable,
  length, length-append, All,
}

abbrev pub Bytes : Type 0
Bytes = List ℕ

abbrev pub Buffers : Type 0
Buffers = List Bytes

-- A new slice: its number, and the memory with it.
unfoldable pub allocate : Bytes → Buffers → ℕ × Buffers
allocate bytes b = (length b, b ++ bytes ∷ [])

-- A slice that was never made is empty.
unfoldable pub contents : ℕ → Buffers → Bytes
contents n [] = []
contents zero (bytes ∷ b) = bytes
contents (suc n) (bytes ∷ b) = contents n b

unfoldable pub zeros : Bytes → Bytes
zeros [] = []
zeros (c ∷ cs) = 0 ∷ zeros cs

-- Go's `clear` of a slice.
unfoldable pub clear : ℕ → Buffers → Buffers
clear n [] = []
clear zero (bytes ∷ b) = zeros bytes ∷ b
clear (suc n) (bytes ∷ b) = bytes ∷ clear n b

pub contents-clear :
    (n k : ℕ) (b : Buffers)
    → contents n (clear k b) ≡ (if n == k then zeros (contents n b) else contents n b)
unfolding contents clear zeros
contents-clear n k [] = ground arith
contents-clear zero zero (bytes ∷ b) = ground arith
contents-clear zero (suc k) (bytes ∷ b) = ground arith
contents-clear (suc n) zero (bytes ∷ b) = ground arith
contents-clear (suc n) (suc k) (bytes ∷ b) = ground (arith, contents-clear n k b)

pub length-clear : (k : ℕ) (b : Buffers) → length (clear k b) ≡ length b
unfolding clear
length-clear k [] = refl
length-clear zero (bytes ∷ b) = refl
length-clear (suc k) (bytes ∷ b) = ap suc (length-clear k b)

contents-append :
    (n : ℕ) (bytes : Bytes) (b : Buffers)
    → contents n (b ++ bytes ∷ []) ≡ (if n == length b then bytes else contents n b)
unfolding contents
contents-append zero bytes [] = ground arith
contents-append (suc n) bytes [] = ground arith
contents-append zero bytes (c ∷ b) = ground arith
contents-append (suc n) bytes (c ∷ b) = ground (arith, contents-append n bytes b)

pub contents-allocate :
    (n : ℕ) (bytes : Bytes) (b : Buffers)
    → contents n (allocate bytes b).1 ≡ (if n == length b then bytes else contents n b)
unfolding allocate
contents-allocate n bytes b = contents-append n bytes b

pub length-allocate : (bytes : Bytes) (b : Buffers) → length (allocate bytes b).1 ≡ length b + 1
unfolding allocate
length-allocate bytes b = length-append b (bytes ∷ [])

abbrev pub IsZero : Bytes → Type 0
IsZero = All (λ c. c ≡ 0)

pub zeros-IsZero : (cs : Bytes) → IsZero (zeros cs)
unfolding zeros
zeros-IsZero [] = tt
zeros-IsZero (c ∷ cs) = (refl, zeros-IsZero cs)
