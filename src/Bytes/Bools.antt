-- ===== src/Bytes/Bools.antt =====
-- fins/bytes.go: booleans as bytes, as ASCII digits and as packed bits. A loop that fills a fresh
-- slice index by index is a recursion on the list that it reads.
use omron_hostlink_fins.Common.{Bool, List, Result, [], bit_and, if◌then◌else◌, index, length}
use omron_hostlink_fins.Common.{ltb, ok, put, replicate, suc, zero, ℕ, ◌*◌, ◌+◌, ◌==◌, ◌>>=◌}
use omron_hostlink_fins.Common.{◌∷◌}
use omron_hostlink_fins.Common.Words.{shl, shr, to_byte}

unfoldable pub bool_to_ascii : List ℕ → List ℕ
bool_to_ascii [] = []
bool_to_ascii (x ∷ buf) = (if x == 0 then b'0' else b'1') ∷ bool_to_ascii buf

unfoldable pub ascii_to_bool : List ℕ → List ℕ
ascii_to_bool [] = []
ascii_to_bool (x ∷ buf) = (if x == b'0' then 0 else 1) ∷ ascii_to_bool buf

unfoldable pub dup : List ℕ → List ℕ
dup [] = []
dup (x ∷ buf) = x ∷ dup buf

unfoldable pub bool_to_byte : List Bool → List ℕ
bool_to_byte [] = []
bool_to_byte (v ∷ buf) = (if v then 1 else 0) ∷ bool_to_byte buf

unfoldable pub byte_to_bool : List ℕ → List Bool
byte_to_bool [] = []
byte_to_bool (v ∷ buf) = ltb 0 v ∷ byte_to_bool buf

-- The number of bytes that `ShrinkBool` allocates.
unfoldable pub shrunk_length : ℕ → ℕ
shrunk_length length = let ln = shr length 3 in if ltb 0 (bit_and length 0x07) then ln + 1 else ln

-- The loop of `ShrinkBool` from index `i` on, over the rest of `buf`.
unfoldable pub shrink_loop : List ℕ → ℕ → List ℕ → Result (List ℕ)
shrink_loop [] i b = ok b
shrink_loop (x ∷ buf) i b = do
  b' ←
      (if ltb 0 x
        then (do
          old ← index b (shr i 3)
          put b (shr i 3) (to_byte (old + shl 8 1 (bit_and i 0x07))))
        else ok b)
  shrink_loop buf (i + 1) b'

unfoldable pub shrink_bool : List ℕ → Result (List ℕ)
shrink_bool buf = shrink_loop buf 0 (replicate (shrunk_length (length buf)) 0)

-- The loop of `ExpandBool` over `left` more indices from `i` on.
unfoldable pub expand_loop : ℕ → List ℕ → ℕ → List ℕ → Result (List ℕ)
expand_loop zero buf i b = ok b
expand_loop (suc left) buf i b = do
  x ← index buf (shr i 3)
  b' ← (if ltb 0 (bit_and x (shl 8 1 (bit_and i 0x07))) then put b i 1 else ok b)
  expand_loop left buf (i + 1) b'

unfoldable pub expand_bool : List ℕ → ℕ → Result (List ℕ)
expand_bool buf count =
    let ln = length buf * 8 in
    let count' = (if ltb ln count then ln else count) in
    expand_loop (length buf) buf 0 (replicate count' 0)
