-- ===== src/Bytes/Write.antt =====
-- fins/bytes.go: the encoders. A Write function returns the slice's bytes after its writes; it
-- panics if the slice is too short.
use omron_hostlink_fins.Common.{List, Result, [], put, ℕ, ◌>>=◌, ◌∷◌}
use omron_hostlink_fins.Common.Words.{shr, to_byte}

unfoldable pub uint32_to_bytes : ℕ → List ℕ
uint32_to_bytes value =
    to_byte (shr value 24) ∷ to_byte (shr value 16) ∷ to_byte (shr value 8) ∷ to_byte value ∷ []

unfoldable pub uint32_to_bytes_little_endian : ℕ → List ℕ
uint32_to_bytes_little_endian value =
    to_byte value ∷ to_byte (shr value 8) ∷ to_byte (shr value 16) ∷ to_byte (shr value 24) ∷ []

unfoldable pub uint16_to_bytes : ℕ → List ℕ
uint16_to_bytes value = to_byte (shr value 8) ∷ to_byte value ∷ []

unfoldable pub uint16_to_bytes_little_endian : ℕ → List ℕ
uint16_to_bytes_little_endian value = to_byte value ∷ to_byte (shr value 8) ∷ []

unfoldable pub write_uint64_to_bytes : List ℕ → ℕ → Result (List ℕ)
write_uint64_to_bytes buf value = do
  buf0 ← put buf 0 (to_byte (shr value 56))
  buf1 ← put buf0 1 (to_byte (shr value 48))
  buf2 ← put buf1 2 (to_byte (shr value 40))
  buf3 ← put buf2 3 (to_byte (shr value 32))
  buf4 ← put buf3 4 (to_byte (shr value 24))
  buf5 ← put buf4 5 (to_byte (shr value 16))
  buf6 ← put buf5 6 (to_byte (shr value 8))
  put buf6 7 (to_byte value)

unfoldable pub write_uint64_little_endian_to_bytes : List ℕ → ℕ → Result (List ℕ)
write_uint64_little_endian_to_bytes buf value = do
  buf0 ← put buf 7 (to_byte (shr value 56))
  buf1 ← put buf0 6 (to_byte (shr value 48))
  buf2 ← put buf1 5 (to_byte (shr value 40))
  buf3 ← put buf2 4 (to_byte (shr value 32))
  buf4 ← put buf3 3 (to_byte (shr value 24))
  buf5 ← put buf4 2 (to_byte (shr value 16))
  buf6 ← put buf5 1 (to_byte (shr value 8))
  put buf6 0 (to_byte value)

unfoldable pub write_uint32_to_bytes : List ℕ → ℕ → Result (List ℕ)
write_uint32_to_bytes buf value = do
  buf0 ← put buf 0 (to_byte (shr value 24))
  buf1 ← put buf0 1 (to_byte (shr value 16))
  buf2 ← put buf1 2 (to_byte (shr value 8))
  put buf2 3 (to_byte value)

unfoldable pub write_uint32_little_endian_to_bytes : List ℕ → ℕ → Result (List ℕ)
write_uint32_little_endian_to_bytes buf value = do
  buf0 ← put buf 3 (to_byte (shr value 24))
  buf1 ← put buf0 2 (to_byte (shr value 16))
  buf2 ← put buf1 1 (to_byte (shr value 8))
  put buf2 0 (to_byte value)

unfoldable pub write_uint24_to_bytes : List ℕ → ℕ → Result (List ℕ)
write_uint24_to_bytes buf value = do
  buf0 ← put buf 0 (to_byte (shr value 16))
  buf1 ← put buf0 1 (to_byte (shr value 8))
  put buf1 2 (to_byte value)

unfoldable pub write_uint24_little_endian_to_bytes : List ℕ → ℕ → Result (List ℕ)
write_uint24_little_endian_to_bytes buf value = do
  buf0 ← put buf 2 (to_byte (shr value 16))
  buf1 ← put buf0 1 (to_byte (shr value 8))
  put buf1 0 (to_byte value)

unfoldable pub write_uint16_to_bytes : List ℕ → ℕ → Result (List ℕ)
write_uint16_to_bytes buf value = do
  buf0 ← put buf 0 (to_byte (shr value 8))
  put buf0 1 (to_byte value)

unfoldable pub write_uint16_little_endian_to_bytes : List ℕ → ℕ → Result (List ℕ)
write_uint16_little_endian_to_bytes buf value = do
  buf0 ← put buf 1 (to_byte (shr value 8))
  put buf0 0 (to_byte value)

-- math.Float32bits and math.Float64bits
abbrev to_bits : ℕ → ℕ
to_bits v = v

unfoldable pub write_float32_to_bytes : List ℕ → ℕ → Result (List ℕ)
write_float32_to_bytes buf value = write_uint32_to_bytes buf (to_bits value)

unfoldable pub write_float32_little_endian_to_bytes : List ℕ → ℕ → Result (List ℕ)
write_float32_little_endian_to_bytes buf value =
    write_uint32_little_endian_to_bytes buf (to_bits value)

unfoldable pub write_float64_to_bytes : List ℕ → ℕ → Result (List ℕ)
write_float64_to_bytes buf value = write_uint64_to_bytes buf (to_bits value)

unfoldable pub write_float64_little_endian_to_bytes : List ℕ → ℕ → Result (List ℕ)
write_float64_little_endian_to_bytes buf value =
    write_uint64_little_endian_to_bytes buf (to_bits value)
