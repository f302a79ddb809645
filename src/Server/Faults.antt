-- ===== src/Server/Faults.antt =====
-- fins/udp_server.go: requests that slip past the bounds check, because its sums are of type uint16
-- or because it leaves the bit offset out.
use omron_hostlink_fins.CommandCode.{command_code_value, memory_area_read}
use omron_hostlink_fins.Common.{List, [], arith, contents, drop, false, inl, inr, ltb}
use omron_hostlink_fins.Common.{ltb-false, of_list, ok, panic, refl, reslice_lem}
use omron_hostlink_fins.Common.{reslice_outside, ℕ, ◌*◌, ◌+◌, ◌-◌, ◌<◌, ◌^◌, ◌∙◌, ◌≡◌, ◌≤◌}
use omron_hostlink_fins.Common.Words.{IsByte, IsUint16, to_uint16}
use omron_hostlink_fins.Driver.Commands.{MemoryAddress}
use omron_hostlink_fins.Driver.Frames.{Response}
use omron_hostlink_fins.EndCode.{end_code_value, normal_completion}
use omron_hostlink_fins.Header.{Header}
use omron_hostlink_fins.MemoryArea.{memory_area_dm_bit, memory_area_dm_word}
use omron_hostlink_fins.Server.{Server, dm_area_size, handle_area, handle_dm_bit}
use omron_hostlink_fins.Server.{handle_dm_word, handler}
use omron_hostlink_fins.Server.Bounds.{IsSized}
use omron_hostlink_fins.Server.ReadWrite.{answer, handler_known, memory_request}

module _ (s : Server) (h : Header) (mem : MemoryAddress) (ic n : ℕ) (rest : List ℕ)
    (ha : IsUint16 mem.address) (hi : IsUint16 ic) where
  -- A read of the DM word area whose end wraps past 65535 to at most 32768, with a 16-bit address
  -- and a count below 32768, is not refused: the slice expression panics, which ends the process.
  pub handler_wrap_panics :
      mem.memory_area ≡ memory_area_dm_word
      → 2 ^ 16 ≤ mem.address + ic * 2
      → mem.address + ic * 2 ≤ 2 ^ 16 + dm_area_size
      → ic * 2 < 2 ^ 16
      → handler s (memory_request h (command_code_value memory_area_read) mem ic rest n) ≡ panic
  unfolding handle_area handle_dm_word
  handler_wrap_panics area lo up fits =
      let last = mem.address + ic * 2 - 2 ^ 16 in
      let end : to_uint16 (mem.address + to_uint16 (ic * 2)) ≡ last = omega arith in
      let inside : ltb dm_area_size last ≡ false = ltb-false _ _ (omega arith) in
      let out = reslice_outside (of_list s.dmarea) mem.address last (inl (omega arith)) in
      handler_known s h mem ic n rest ha hi _ refl ∙ rw (area, end, inside, out)

  -- On a simulator with areas of their full size, a read of 32768 words of the DM word area from an
  -- address of at most 32768 is answered with normal completion and no data at all, since twice the
  -- count wraps to 0.
  pub handler_wrap_empty :
      IsSized s
      → mem.memory_area ≡ memory_area_dm_word
      → ic ≡ 2 ^ 15
      → mem.address ≤ dm_area_size
      → (found : Response) × (handler s
            (memory_request h (command_code_value memory_area_read) mem ic rest n)
          ≡ ok (s, found))
        × (found.end_code ≡ end_code_value normal_completion)
        × (contents found.payload ≡ [])
  unfolding handle_area handle_dm_word
  handler_wrap_empty sized area count fits =
      let end : to_uint16 (mem.address + to_uint16 (ic * 2)) ≡ mem.address = omega arith in
      let inside : ltb dm_area_size mem.address ≡ false = ltb-false _ _ fits in
      let found =
        reslice_lem (of_list s.dmarea) mem.address mem.address (omega arith)
          (omega (arith, sized.words)) in
      let size : mem.address - mem.address ≡ 0 = omega arith in
      (
        answer h (command_code_value memory_area_read) (end_code_value normal_completion)
            (record { cells = drop mem.address s.dmarea; len = 0 }),
        handler_known s h mem ic n rest ha hi _ refl ∙ rw (area, end, inside, found, size),
        refl,
        refl,
      )

  -- On a simulator with areas of their full size, a read of the DM bit area that ends inside it
  -- without its bit offset, a byte, and past it with the bit offset panics.
  pub handler_bit_panics :
      IsSized s
      → mem.memory_area ≡ memory_area_dm_bit
      → mem.address + ic ≤ dm_area_size
      → dm_area_size < mem.address + mem.bit_offset + ic
      → IsByte mem.bit_offset
      → handler s (memory_request h (command_code_value memory_area_read) mem ic rest n) ≡ panic
  unfolding handle_area handle_dm_bit
  handler_bit_panics sized area fits past small =
      let sum : to_uint16 (mem.address + ic) ≡ mem.address + ic = omega arith in
      let inside : ltb dm_area_size (mem.address + ic) ≡ false = ltb-false _ _ fits in
      let start : to_uint16 (mem.address + mem.bit_offset) ≡ mem.address + mem.bit_offset =
        omega arith in
      let end : to_uint16 (mem.address + mem.bit_offset + ic) ≡ mem.address + mem.bit_offset + ic =
        omega arith in
      let out =
        reslice_outside (of_list s.bitdmarea) (mem.address + mem.bit_offset)
          (mem.address + mem.bit_offset + ic) (inr (omega (arith, sized.bits))) in
      handler_known s h mem ic n rest ha hi _ refl ∙ rw (area, sum, inside, start, end, out)
