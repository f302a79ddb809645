-- ===== src/Driver/Commands.antt =====
-- fins/driver.go: memory addresses and the commands built from them.
use omron_hostlink_fins.CommandCode.{clock_read, command_code_value, memory_area_read}
use omron_hostlink_fins.CommandCode.{memory_area_write}
use omron_hostlink_fins.Common.{List, Result, Slice, [], ap, arith, contents, drop, index, ok}
use omron_hostlink_fins.Common.{refl, replicate, reslice, reslice_lem, set, take, ℕ, ◌*◌, ◌++◌}
use omron_hostlink_fins.Common.{◌+◌, ◌>>=◌, ◌^◌, ◌∷◌, ◌≡◌}
use omron_hostlink_fins.Common.Binary.{big_endian, get_uint16, uint16_bytes}
use omron_hostlink_fins.Common.Words.{IsUint16, shr, to_byte}

pub record MemoryAddress : Type 0 where
  pub memory_area : ℕ
  pub address : ℕ
  pub bit_offset : ℕ

unfoldable pub mem_addr_with_bit_offset : ℕ → ℕ → ℕ → MemoryAddress
mem_addr_with_bit_offset memory_area address bit_offset = record {
  memory_area = memory_area;
  address = address;
  bit_offset = bit_offset;
}

unfoldable pub mem_addr : ℕ → ℕ → MemoryAddress
unfolding mem_addr_with_bit_offset
mem_addr memory_area address = mem_addr_with_bit_offset memory_area address 0

-- The parameters of a command on a memory area, as they stand in a frame.
abbrev pub memory_command : MemoryAddress → ℕ → List ℕ → List ℕ
memory_command m ic rest =
    m.memory_area
    ∷ (uint16_bytes big_endian m.address ++ (m.bit_offset ∷ (uint16_bytes big_endian ic ++ rest)))

-- `binary.BigEndian.PutUint16(bytes[i:i+2], v)` on bytes that reach that far.
abbrev put_uint16 : List ℕ → ℕ → ℕ → List ℕ
put_uint16 bytes i v = take i bytes ++ (uint16_bytes big_endian v ++ drop (i + 2) bytes)

unfoldable pub encode_memory_address : MemoryAddress → List ℕ
encode_memory_address memory_addr =
    let bytes0 = set (replicate 4 0) 0 memory_addr.memory_area in
    let bytes1 = put_uint16 bytes0 1 memory_addr.address in set bytes1 3 memory_addr.bit_offset

unfoldable pub decode_memory_address : Slice → Result MemoryAddress
decode_memory_address s = do
  area ← index (contents s) 0
  middle ← reslice s 1 3
  address ← get_uint16 big_endian (contents middle)
  bit_offset ← index (contents s) 3
  ok (record { memory_area = area; address = address; bit_offset = bit_offset })

unfoldable pub read_command : MemoryAddress → ℕ → List ℕ
read_command memory_addr item_count =
    let command0 = put_uint16 (replicate 2 0) 0 (command_code_value memory_area_read) in
    let command1 = command0 ++ encode_memory_address memory_addr in
    let command2 = command1 ++ (0 ∷ 0 ∷ []) in put_uint16 command2 6 item_count

unfoldable pub write_command : MemoryAddress → ℕ → List ℕ → List ℕ
write_command memory_addr item_count bytes =
    let command0 = put_uint16 (replicate 2 0) 0 (command_code_value memory_area_write) in
    let command1 = command0 ++ encode_memory_address memory_addr in
    let command2 = command1 ++ (0 ∷ 0 ∷ []) in put_uint16 command2 6 item_count ++ bytes

unfoldable pub clock_read_command : List ℕ
clock_read_command = put_uint16 (replicate 2 0) 0 (command_code_value clock_read)

pub decode_memory_address-encode :
    (m : MemoryAddress) (rest : List ℕ)
    → IsUint16 m.address
    → decode_memory_address (record { cells = encode_memory_address m ++ rest; len = 4 }) ≡ ok m
unfolding decode_memory_address encode_memory_address get_uint16
decode_memory_address-encode m rest h =
    let e : to_byte (shr m.address 8) * 2 ^ 8 + to_byte m.address ≡ m.address = omega arith in
    let s : Slice = record { cells = encode_memory_address m ++ rest; len = 4 } in
    rw (reslice_lem s 1 3 (omega arith) (omega arith))
      (ap (λ (a : ℕ). ok (record m { address = a })) e)

-- The command code of a read or write, then its parameters.
pub read_command_lem :
    (m : MemoryAddress) (ic : ℕ) → read_command m ic ≡ 0x01 ∷ 0x01 ∷ memory_command m ic []
unfolding read_command encode_memory_address
read_command_lem m ic = refl

pub write_command_lem :
    (m : MemoryAddress) (ic : ℕ) (bytes : List ℕ)
    → write_command m ic bytes ≡ 0x01 ∷ 0x02 ∷ memory_command m ic bytes
unfolding write_command encode_memory_address
write_command_lem m ic bytes = refl
