-- ===== src/Client/Read.antt =====
-- The read methods of the clients. Each returns the client and the other side afterwards, and its
-- result. `r.data[i]` is an index into the response's data, and `r.data[lo:hi]` a slice of it.
use omron_hostlink_fins.Client.{Client, Reply, Transport, check_is_word_memory_area}
use omron_hostlink_fins.Client.{command_type_read}
use omron_hostlink_fins.Client.Send.{exchange}
use omron_hostlink_fins.Common.{Bool, List, Result, Slice, [], bit_and, contents, drop, err}
use omron_hostlink_fins.Common.{if◌then◌else◌, index, ltb, ok, reslice, suc, zero, ℕ, ◌*◌}
use omron_hostlink_fins.Common.{◌++◌, ◌+◌, ◌==◌, ◌>>=◌, ◌∷◌}
use omron_hostlink_fins.Common.Binary.{ByteOrder, big_endian, get_uint16, get_uint32}
use omron_hostlink_fins.Common.Int.{signed, ℤ}
use omron_hostlink_fins.Common.Words.{to_uint16}
use omron_hostlink_fins.Driver.Bcd.{decode_bcd}
use omron_hostlink_fins.Driver.Commands.{clock_read_command, mem_addr}
use omron_hostlink_fins.Driver.Commands.{mem_addr_with_bit_offset, read_command}
use omron_hostlink_fins.Driver.Frames.{Response}
use omron_hostlink_fins.Errors.{incompatible_memory_area}
use omron_hostlink_fins.Utils.{swap16_bit_data_bytes, swap32_bit_data_bytes}

abbrev data_at : Response → ℕ → Result ℕ
data_at r i = index (contents r.payload) i

-- The copy of the first bytes that the methods return beside the number.
abbrev first_two : Response → Result (List ℕ)
first_two r = do b0 ← data_at r 0; b1 ← data_at r 1; ok (b0 ∷ b1 ∷ [])

abbrev first_four : Response → Result (List ℕ)
first_four r = do
  b0 ← data_at r 0
  b1 ← data_at r 1
  b2 ← data_at r 2
  b3 ← data_at r 3
  ok (b0 ∷ b1 ∷ b2 ∷ b3 ∷ [])

-- The two bytes of the response as a number; the swap writes into the response's data.
abbrev swapped_uint16 : Response → Bool → Result (Response × ℕ)
swapped_uint16 r is_byte_swap = do
  head ← reslice r.payload 0 2
  swapped ← swap16_bit_data_bytes (contents head) is_byte_swap
  v ← get_uint16 big_endian swapped.1
  ok (
    record r {
      payload = record { cells = swapped.0 ++ drop 2 r.payload.cells; len = r.payload.len };
    },
    v,
  )

abbrev swapped_uint32 : Response → Bool → Bool → Result (Response × ℕ)
swapped_uint32 r is_byte_swap is_word_swap = do
  head ← reslice r.payload 0 4
  swapped ← swap32_bit_data_bytes (contents head) is_byte_swap is_word_swap
  v ← get_uint32 big_endian swapped.1
  ok (
    record r {
      payload = record { cells = swapped.0 ++ drop 4 r.payload.cells; len = r.payload.len };
    },
    v,
  )

unfoldable pub int16_result : Bool → Response → Result (List ℕ × ℤ)
int16_result is_byte_swap r = do
  tmp_result ← first_two r
  v ← swapped_uint16 r is_byte_swap
  ok (tmp_result, signed 15 v.1)

unfoldable pub uint16_result : Bool → Response → Result (List ℕ × ℕ)
uint16_result is_byte_swap r = do
  tmp_result ← first_two r
  v ← swapped_uint16 r is_byte_swap
  ok (tmp_result, v.1)

unfoldable pub int32_result : Bool → Bool → Response → Result (List ℕ × ℤ)
int32_result is_byte_swap is_word_swap r = do
  tmp_result ← first_four r
  v ← swapped_uint32 r is_byte_swap is_word_swap
  ok (tmp_result, signed 31 v.1)

-- `ReadUint32` copies the bytes after the swap, which has written into them.
unfoldable pub uint32_result : Bool → Bool → Response → Result (List ℕ × ℕ)
uint32_result is_byte_swap is_word_swap r = do
  v ← swapped_uint32 r is_byte_swap is_word_swap
  tmp_result ← first_four v.0
  ok (tmp_result, v.1)

-- A float32 is the IEEE pattern of its bits.
unfoldable pub float32_result : Response → Result (List ℕ × ℕ)
float32_result r = do
  tmp_result ← first_four r
  head ← reslice r.payload 0 4
  raw ← get_uint32 big_endian (contents head)
  ok (tmp_result, raw)

-- The loop of `ReadWords` from index `i` on, `left` rounds of it.
unfoldable pub words_loop : ByteOrder → Slice → ℕ → ℕ → Result (List ℕ)
words_loop order payload i zero = ok []
words_loop order payload i (suc left) = do
  item ← reslice payload (i * 2) (i * 2 + 2)
  v ← get_uint16 order (contents item)
  rest ← words_loop order payload (i + 1) left
  ok (v ∷ rest)

-- The loop of `ReadBits`.
unfoldable pub bits_loop : Slice → ℕ → ℕ → Result (List Bool)
bits_loop payload i zero = ok []
bits_loop payload i (suc left) = do
  b ← index (contents payload) i
  rest ← bits_loop payload (i + 1) left
  ok (ltb 0 (bit_and b 0x01) ∷ rest)

-- `data[:n]` for the index `n` of the first zero byte, or the end.
unfoldable pub until_zero : List ℕ → List ℕ
until_zero [] = []
until_zero (b ∷ bytes) = if b == 0 then [] else b ∷ until_zero bytes

-- The arguments that `ReadClock` gives to `time.Date`.
pub record Clock : Type 0 where
  pub year : ℕ
  pub month : ℕ
  pub day : ℕ
  pub hour : ℕ
  pub minute : ℕ
  pub second : ℕ

-- `x, _ := decodeBCD(r.data[i:i+1])`: after an error the number is 0.
-- `x, _ := decodeBCD(...)`: the error is dropped, and the number is then 0.
abbrev pub value_or_zero : Result ℕ → Result ℕ
value_or_zero (err e) = ok 0
value_or_zero r = r

unfoldable pub clock_field : Slice → ℕ → Result ℕ
clock_field payload i = do
  part ← reslice payload i (i + 1)
  value_or_zero (decode_bcd (contents part))

unfoldable pub clock_result : Response → Result Clock
clock_result r = do
  year ← clock_field r.payload 0
  month ← clock_field r.payload 1
  day ← clock_field r.payload 2
  hour ← clock_field r.payload 3
  minute ← clock_field r.payload 4
  second ← clock_field r.payload 5
  ok (record {
    year = (if ltb year 50 then year + 2000 else year + 1900);
    month = month;
    day = day;
    hour = hour;
    minute = minute;
    second = second;
  })

module _ {W : Type 0} (t : Transport) (peer : W → List ℕ → W × Reply) (s : Client × W) where
  unfoldable pub read_int16 : ℕ → ℕ → ℕ → Bool → Bool → (Client × W) × Result (List ℕ × ℤ)
  read_int16 memory_area address read_count is_byte_swap is_word_swap =
      exchange t peer s (read_command (mem_addr memory_area address) read_count) command_type_read
        (int16_result is_byte_swap)

  unfoldable pub read_uint16 : ℕ → ℕ → ℕ → Bool → Bool → (Client × W) × Result (List ℕ × ℕ)
  read_uint16 memory_area address read_count is_byte_swap is_word_swap =
      exchange t peer s (read_command (mem_addr memory_area address) read_count) command_type_read
        (uint16_result is_byte_swap)

  unfoldable pub read_int32 : ℕ → ℕ → ℕ → Bool → Bool → (Client × W) × Result (List ℕ × ℤ)
  read_int32 memory_area address read_count is_byte_swap is_word_swap =
      exchange t peer s (read_command (mem_addr memory_area address) (to_uint16 (read_count * 2)))
        command_type_read (int32_result is_byte_swap is_word_swap)

  unfoldable pub read_uint32 : ℕ → ℕ → ℕ → Bool → Bool → (Client × W) × Result (List ℕ × ℕ)
  read_uint32 memory_area address read_count is_byte_swap is_word_swap =
      exchange t peer s (read_command (mem_addr memory_area address) (to_uint16 (read_count * 2)))
        command_type_read (uint32_result is_byte_swap is_word_swap)

  unfoldable pub read_float32 : ℕ → ℕ → ℕ → Bool → Bool → (Client × W) × Result (List ℕ × ℕ)
  read_float32 memory_area address read_count is_byte_swap is_word_swap =
      exchange t peer s (read_command (mem_addr memory_area address) (to_uint16 (read_count * 4)))
        command_type_read float32_result

  unfoldable pub read_words : ℕ → ℕ → ℕ → (Client × W) × Result (List ℕ)
  read_words memory_area address read_count =
      if check_is_word_memory_area memory_area
      then exchange t peer s (read_command (mem_addr memory_area address) read_count)
          command_type_read (λ r. words_loop s.0.byte_order r.payload 0 read_count)
      else (s, err (incompatible_memory_area memory_area))

  unfoldable pub read_bytes : ℕ → ℕ → ℕ → (Client × W) × Result Slice
  read_bytes memory_area address read_count =
      if check_is_word_memory_area memory_area
      then exchange t peer s (read_command (mem_addr memory_area address) read_count)
          command_type_read (λ r. ok r.payload)
      else (s, err (incompatible_memory_area memory_area))

  -- The string's bytes.
  unfoldable pub read_string : ℕ → ℕ → ℕ → (Client × W) × Result (List ℕ)
  read_string memory_area address read_count =
      let (s', r) = read_bytes memory_area address read_count in
      (s', r >>= λ found. ok (until_zero (contents found)))

  unfoldable pub read_bits : ℕ → ℕ → ℕ → ℕ → (Client × W) × Result (List Bool)
  read_bits memory_area address bit_offset read_count =
      exchange t peer s
        (read_command (mem_addr_with_bit_offset memory_area address bit_offset) read_count)
        command_type_read (λ r. bits_loop r.payload 0 read_count)

  unfoldable pub read_clock : (Client × W) × Result Clock
  read_clock = exchange t peer s clock_read_command command_type_read clock_result
