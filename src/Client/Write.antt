-- ===== src/Client/Write.antt =====
-- The write methods of the clients. A method that succeeds returns nothing.
use omron_hostlink_fins.Client.{Client, Reply, Transport, check_is_word_memory_area}
use omron_hostlink_fins.Client.{command_type_write}
use omron_hostlink_fins.Client.Send.{exchange}
use omron_hostlink_fins.Common.{Bool, List, Result, [], drop, err, hang, if◌then◌else◌, leb}
use omron_hostlink_fins.Common.{length, ok, panic, replicate, take, ℕ, ◌*◌, ◌++◌, ◌+◌, ◌/◌}
use omron_hostlink_fins.Common.{◌>>=◌, ◌∷◌}
use omron_hostlink_fins.Common.Binary.{ByteOrder, big_endian, little_endian, uint16_bytes}
use omron_hostlink_fins.Common.Binary.{uint32_bytes}
use omron_hostlink_fins.Common.Int.{signed, unsigned, ℤ}
use omron_hostlink_fins.Common.Words.{to_uint16}
use omron_hostlink_fins.Driver.Commands.{MemoryAddress, mem_addr, mem_addr_with_bit_offset}
use omron_hostlink_fins.Driver.Commands.{write_command}
use omron_hostlink_fins.Driver.Frames.{Response}
use omron_hostlink_fins.Errors.{incompatible_memory_area}
use omron_hostlink_fins.Utils.{copy, swap32_bit_data_bytes}

abbrev pub done : Response → Result (Unit {0})
done r = ok tt

-- The loop of `WriteWords` from index `i` on: `c.byteOrder.PutUint16(bts[i*2:i*2+2], data[i])`.
unfoldable pub fill_words : ByteOrder → List ℕ → ℕ → List ℕ → Result (List ℕ)
fill_words order [] i bts = ok bts
fill_words order (v ∷ words) i bts =
    let next = take (i * 2) bts ++ (uint16_bytes order v ++ drop (i * 2 + 2) bts) in
    let rest = fill_words order words (i + 1) next in
    if leb (i * 2 + 2) (length bts) then rest else panic

-- The loop of `WriteBits`.
unfoldable pub bit_bytes : List Bool → List ℕ
bit_bytes [] = []
bit_bytes (b ∷ bits) = (if b then 0x01 else 0x00) ∷ bit_bytes bits

module _ {W : Type 0} (t : Transport) (peer : W → List ℕ → W × Reply) (s : Client × W) where
  abbrev write_bts : MemoryAddress → ℕ → List ℕ → (Client × W) × Result (Unit {0})
  write_bts mem item_count bts =
      exchange t peer s (write_command mem item_count bts) command_type_write done

  -- The same, on bytes that were computed first.
  abbrev write_made : MemoryAddress → ℕ → Result (List ℕ) → (Client × W) × Result (Unit {0})
  write_made mem item_count (ok bts) = write_bts mem item_count bts
  write_made mem item_count (err e) = (s, err e)
  write_made mem item_count panic = (s, panic)
  write_made mem item_count hang = (s, hang)

  unfoldable pub write_uint16 : ℕ → ℕ → ℕ → Bool → Bool → (Client × W) × Result (Unit {0})
  write_uint16 memory_area address value is_byte_swap is_word_swap =
      write_bts (mem_addr memory_area address) 1
        (if is_byte_swap then uint16_bytes little_endian value else uint16_bytes big_endian value)

  -- Both branches of `WriteInt16` are little-endian.
  unfoldable pub write_int16 : ℕ → ℕ → ℤ → Bool → Bool → (Client × W) × Result (Unit {0})
  write_int16 memory_area address value is_byte_swap is_word_swap =
      write_bts (mem_addr memory_area address) 1 (
        if is_byte_swap
        then uint16_bytes little_endian (unsigned 15 value)
        else uint16_bytes little_endian (unsigned 15 value))

  unfoldable pub write_uint32 : ℕ → ℕ → ℕ → Bool → Bool → (Client × W) × Result (Unit {0})
  write_uint32 memory_area address value is_byte_swap is_word_swap =
      let x = signed 31 value in
      write_made (mem_addr memory_area address) 2 (
        swap32_bit_data_bytes (uint32_bytes big_endian (unsigned 31 x)) is_byte_swap is_word_swap
        >>= λ swapped. ok swapped.1)

  unfoldable pub write_int32 : ℕ → ℕ → ℤ → Bool → Bool → (Client × W) × Result (Unit {0})
  write_int32 memory_area address value is_byte_swap is_word_swap =
      write_made (mem_addr memory_area address) 2 (
        swap32_bit_data_bytes (uint32_bytes big_endian (unsigned 31 value)) is_byte_swap
          is_word_swap
        >>= λ swapped. ok swapped.1)

  -- A float32 is the IEEE pattern of its bits.
  unfoldable pub write_float32 : ℕ → ℕ → ℕ → Bool → Bool → (Client × W) × Result (Unit {0})
  write_float32 memory_area address bits is_byte_swap is_word_swap =
      write_bts (mem_addr memory_area address) 2 (uint32_bytes big_endian bits)

  -- `2*l` is of type uint16.
  unfoldable pub write_words : ℕ → ℕ → List ℕ → (Client × W) × Result (Unit {0})
  write_words memory_area address words =
      let l = to_uint16 (length words) in
      if check_is_word_memory_area memory_area
      then write_made (mem_addr memory_area address) l
          (fill_words s.0.byte_order (take l words) 0 (replicate (to_uint16 (2 * l)) 0))
      else (s, err (incompatible_memory_area memory_area))

  -- On the string's bytes.
  unfoldable pub write_string : ℕ → ℕ → List ℕ → (Client × W) × Result (Unit {0})
  write_string memory_area address text =
      let bts = copy (replicate (2 * length text) 0) text in
      write_bts (mem_addr memory_area address) (to_uint16 ((length text + 1) / 2)) bts

  unfoldable pub write_bytes : ℕ → ℕ → List ℕ → (Client × W) × Result (Unit {0})
  write_bytes memory_area address b =
      write_bts (mem_addr memory_area address) (to_uint16 (length b)) b

  unfoldable pub write_bits : ℕ → ℕ → ℕ → List Bool → (Client × W) × Result (Unit {0})
  write_bits memory_area address bit_offset bits =
      let l = to_uint16 (length bits) in
      write_bts (mem_addr_with_bit_offset memory_area address bit_offset) l
        (bit_bytes (take l bits))
