-- ===== src/Server/Bits.antt =====
-- fins/udp_server.go: the DM bit area, where every bit has a byte of its own.
use omron_hostlink_fins.CommandCode.{command_code_value, memory_area_read, memory_area_write}
use omron_hostlink_fins.Common.{List, Slice, [], arith, drop, false, length, length-drop}
use omron_hostlink_fins.Common.{length-take, ltb, ltb-false, lt→ltb, of_list, ok, refl}
use omron_hostlink_fins.Common.{reslice_lem, take, true, ℕ, ◌+◌, ◌-◌, ◌<◌, ◌==◌, ◌^◌, ◌||◌}
use omron_hostlink_fins.Common.{◌∙◌, ◌≡◌, ◌≤◌}
use omron_hostlink_fins.Common.Words.{IsUint16, to_uint16}
use omron_hostlink_fins.Driver.Commands.{MemoryAddress}
use omron_hostlink_fins.EndCode.{address_range_exceeded, end_code_value, normal_completion}
use omron_hostlink_fins.Header.{Header}
use omron_hostlink_fins.MemoryArea.{memory_area_dm_bit}
use omron_hostlink_fins.Server.{Server, dm_area_size, handle_area, handle_dm_bit, handler}
use omron_hostlink_fins.Server.{splice}
use omron_hostlink_fins.Server.Bounds.{IsSized, store_lem}
use omron_hostlink_fins.Server.ReadWrite.{answer, handler_known, memory_request}
use omron_hostlink_fins.Utils.Copies.{copy_same}

module _ (s : Server) (h : Header) (mem : MemoryAddress) (ic n : ℕ) (rest : List ℕ)
    (ha : IsUint16 mem.address) (hi : IsUint16 ic) (sized : IsSized s)
    (area : mem.memory_area ≡ memory_area_dm_bit) where
  -- In range, the bits from the address and its offset on are returned.
  pub handler_read_bits :
      mem.address + mem.bit_offset + ic ≤ dm_area_size
      → handler s (memory_request h (command_code_value memory_area_read) mem ic rest n)
        ≡ ok (
          s,
          answer h
              (command_code_value memory_area_read)
              (end_code_value normal_completion)
              (record { cells = drop (mem.address + mem.bit_offset) s.bitdmarea; len = ic }),
        )
  unfolding handle_area handle_dm_bit
  handler_read_bits fits =
      let sum : to_uint16 (mem.address + ic) ≡ mem.address + ic = omega arith in
      let inside : ltb dm_area_size (mem.address + ic) ≡ false = ltb-false _ _ (omega arith) in
      let start : to_uint16 (mem.address + mem.bit_offset) ≡ mem.address + mem.bit_offset =
        omega arith in
      let end : to_uint16 (mem.address + mem.bit_offset + ic) ≡ mem.address + mem.bit_offset + ic =
        omega arith in
      let found =
        reslice_lem (of_list s.bitdmarea) (mem.address + mem.bit_offset)
          (mem.address + mem.bit_offset + ic) (omega arith) (omega (arith, sized.bits)) in
      let size : mem.address + mem.bit_offset + ic - (mem.address + mem.bit_offset) ≡ ic =
        omega arith in
      handler_known s h mem ic n rest ha hi _ refl ∙ rw (area, sum, inside, start, end, found, size)

  -- In range, a write with enough data puts it at the address and its offset.
  pub handler_write_bits :
      mem.address + mem.bit_offset + ic ≤ dm_area_size
      → ic ≤ length rest
      → handler s (memory_request h (command_code_value memory_area_write) mem ic rest n)
        ≡ ok (
          record s { bitdmarea = splice s.bitdmarea (mem.address + mem.bit_offset) (take ic rest) },
          answer h
              (command_code_value memory_area_write)
              (end_code_value normal_completion)
              (of_list []),
        )
  unfolding handle_area handle_dm_bit
  handler_write_bits fits enough =
      let lo = mem.address + mem.bit_offset in
      let r = memory_request h (command_code_value memory_area_write) mem ic rest n in
      let sum : to_uint16 (mem.address + ic) ≡ mem.address + ic = omega arith in
      let inside : ltb dm_area_size (mem.address + ic) ≡ false = ltb-false _ _ (omega arith) in
      let start : to_uint16 lo ≡ lo = omega arith in
      let end : to_uint16 (lo + ic) ≡ lo + ic = omega arith in
      let last : to_uint16 (6 + ic) ≡ 6 + ic = omega arith in
      let size : lo + ic - lo ≡ ic = omega arith in
      let count : 6 + ic - 6 ≡ ic = omega arith in
      let src = reslice_lem r.payload 6 (6 + ic) (omega arith) (omega arith) in
      let body : Slice = record { cells = rest; len = ic } in
      let stored =
        store_lem s.bitdmarea lo (lo + ic) body (omega arith) (omega (arith, sized.bits)) in
      let same = copy_same (take ic (drop lo s.bitdmarea)) (take ic rest) (
        omega (
          arith,
          sized.bits,
          length-take ic rest,
          length-take ic (drop lo s.bitdmarea),
          length-drop lo s.bitdmarea,
        )) in
      handler_known s h mem ic n rest ha hi _ refl
      ∙ rw (area, sum, inside, start, end, last, src, count, stored, size, same)

  -- Past the end, without the bit offset and without a wrap, both commands are refused.
  pub handler_exceeded_bits :
      (code : ℕ)
      → (code == command_code_value memory_area_read
          || code == command_code_value memory_area_write)
        ≡ true
      → dm_area_size < mem.address + ic
      → mem.address + ic < 2 ^ 16
      → handler s (memory_request h code mem ic rest n)
        ≡ ok (s, answer h code (end_code_value address_range_exceeded) (of_list []))
  unfolding handle_area handle_dm_bit
  handler_exceeded_bits code known past fits =
      let sum : to_uint16 (mem.address + ic) ≡ mem.address + ic = omega arith in
      handler_known s h mem ic n rest ha hi code known ∙ rw (area, sum, lt→ltb _ _ past)
