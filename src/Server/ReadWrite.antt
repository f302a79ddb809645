-- ===== src/Server/ReadWrite.antt =====
-- fins/udp_server.go: requests on the data areas, in range and out of range.
use omron_hostlink_fins.CommandCode.{command_code_value, memory_area_read, memory_area_write}
use omron_hostlink_fins.Common.{List, Slice, [], ap, arith, contents, drop, drop-append, false}
use omron_hostlink_fins.Common.{length, length-drop, length-take, ltb, ltb-false, lt→ltb}
use omron_hostlink_fins.Common.{of_list, ok, refl, reslice_lem, take, take-append, take_all}
use omron_hostlink_fins.Common.{true, ℕ, ◌*◌, ◌++◌, ◌+◌, ◌-◌, ◌<◌, ◌==◌, ◌>>=◌, ◌^◌, ◌||◌, ◌∙◌}
use omron_hostlink_fins.Common.{◌≡◌, ◌≢◌, ◌≤◌}
use omron_hostlink_fins.Common.Binary.{big_endian, get_uint16, uint16_bytes}
use omron_hostlink_fins.Common.Words.{IsUint16, shr, to_byte, to_uint16}
use omron_hostlink_fins.Driver.Commands.{MemoryAddress, decode_memory_address}
use omron_hostlink_fins.Driver.Commands.{decode_memory_address-encode, encode_memory_address}
use omron_hostlink_fins.Driver.Commands.{memory_command}
use omron_hostlink_fins.Driver.Frames.{Request, Response}
use omron_hostlink_fins.EndCode.{address_range_exceeded, end_code_value, normal_completion}
use omron_hostlink_fins.EndCode.{not_supported_by_model_version}
use omron_hostlink_fins.Header.{Header, default_response_header}
use omron_hostlink_fins.MemoryArea.{memory_area_dm_bit, memory_area_dm_word}
use omron_hostlink_fins.Server.{Server, decode_parameters, dm_area_size, handle_area}
use omron_hostlink_fins.Server.{handle_command, handle_dm_word, handler, respond, splice}
use omron_hostlink_fins.Server.Bounds.{IsSized, handler-IsSized, store_lem}
use omron_hostlink_fins.Utils.Copies.{copy_same}

-- A request for `ic` items from `mem` on, with `rest` behind its parameters.
abbrev pub memory_request : Header → ℕ → MemoryAddress → ℕ → List ℕ → ℕ → Request
memory_request h code mem ic rest n = record {
  header = h;
  command_code = code;
  payload = record { cells = memory_command mem ic rest; len = n };
}

pub decode_parameters_lem :
    (mem : MemoryAddress) (ic n : ℕ) (rest : List ℕ)
    → IsUint16 mem.address
    → IsUint16 ic
    → decode_parameters (record { cells = memory_command mem ic rest; len = n }) ≡ ok (mem, ic)
unfolding decode_parameters get_uint16
decode_parameters_lem mem ic n rest ha hi =
    let e : to_byte (shr ic 8) * 2 ^ 8 + to_byte ic ≡ ic = omega arith in
    let p : Slice = record { cells = memory_command mem ic rest; len = n } in
    let m : decode_memory_address (record { cells = p.cells; len = 4 }) ≡ ok mem =
      unfold encode_memory_address in
      decode_memory_address-encode mem (uint16_bytes big_endian ic ++ rest) ha in
    rw (
      reslice_lem p 0 4 (omega arith) (omega arith),
      m,
      reslice_lem p 4 6 (omega arith) (omega arith),
      e,
    )

-- The answer of the simulator: its end code and data.
abbrev pub answer : Header → ℕ → ℕ → Slice → Response
answer h code end found = record {
  header = default_response_header h;
  command_code = code;
  end_code = end;
  payload = found;
}

module _ (s : Server) (h : Header) (mem : MemoryAddress) (ic n : ℕ) (rest : List ℕ)
    (ha : IsUint16 mem.address) (hi : IsUint16 ic) where
  pub handler_known :
      (code : ℕ)
      → (code == command_code_value memory_area_read
          || code == command_code_value memory_area_write)
        ≡ true
      → handler s (memory_request h code mem ic rest n) ≡ (
          handle_area s (memory_request h code mem ic rest n) mem ic >>= λ out.
          ok (out.0, respond (memory_request h code mem ic rest n) out))
  unfolding handler handle_command
  handler_known code known = rw (known, decode_parameters_lem mem ic n rest ha hi)

  -- On a simulator with areas of their full size, a read of `ic` words of the DM word area, with a
  -- 16-bit address and count, that ends inside the area returns the bytes from the address on with
  -- normal completion and changes nothing.
  pub handler_read :
      IsSized s
      → mem.memory_area ≡ memory_area_dm_word
      → mem.address + ic * 2 ≤ dm_area_size
      → handler s (memory_request h (command_code_value memory_area_read) mem ic rest n)
        ≡ ok (
          s,
          answer h
              (command_code_value memory_area_read)
              (end_code_value normal_completion)
              (record { cells = drop mem.address s.dmarea; len = ic * 2 }),
        )
  unfolding handle_area handle_dm_word
  handler_read sized area fits =
      let r = memory_request h (command_code_value memory_area_read) mem ic rest n in
      let end : to_uint16 (mem.address + to_uint16 (ic * 2)) ≡ mem.address + ic * 2 = omega arith in
      let inside : ltb dm_area_size (mem.address + ic * 2) ≡ false = ltb-false _ _ fits in
      let found =
        reslice_lem (of_list s.dmarea) mem.address (mem.address + ic * 2) (omega arith)
          (omega (arith, sized.words)) in
      let size : mem.address + ic * 2 - mem.address ≡ ic * 2 = omega arith in
      handler_known _ refl ∙ rw (area, end, inside, found, size)

  -- On a simulator with areas of their full size, a write of `ic` words to the DM word area, with a
  -- 16-bit address and count, that ends inside the area and comes with at least as many bytes puts
  -- them at the address, leaves all other bytes alone and is answered with normal completion.
  pub handler_write :
      IsSized s
      → mem.memory_area ≡ memory_area_dm_word
      → mem.address + ic * 2 ≤ dm_area_size
      → ic * 2 ≤ length rest
      → handler s (memory_request h (command_code_value memory_area_write) mem ic rest n)
        ≡ ok (
          record s { dmarea = splice s.dmarea mem.address (take (ic * 2) rest) },
          answer h
              (command_code_value memory_area_write)
              (end_code_value normal_completion)
              (of_list []),
        )
  unfolding handle_area handle_dm_word
  handler_write sized area fits enough =
      let r = memory_request h (command_code_value memory_area_write) mem ic rest n in
      let end : to_uint16 (mem.address + to_uint16 (ic * 2)) ≡ mem.address + ic * 2 = omega arith in
      let inside : ltb dm_area_size (mem.address + ic * 2) ≡ false = ltb-false _ _ fits in
      let last : to_uint16 (6 + to_uint16 (ic * 2)) ≡ 6 + ic * 2 = omega arith in
      let size : mem.address + ic * 2 - mem.address ≡ ic * 2 = omega arith in
      let count : 6 + ic * 2 - 6 ≡ ic * 2 = omega arith in
      let src = reslice_lem r.payload 6 (6 + ic * 2) (omega arith) (omega arith) in
      let body : Slice = record { cells = rest; len = ic * 2 } in
      let stored =
        store_lem s.dmarea mem.address (mem.address + ic * 2) body (omega arith)
          (omega (arith, sized.words)) in
      let same = copy_same (take (ic * 2) (drop mem.address s.dmarea)) (take (ic * 2) rest) (
        omega (
          arith,
          sized.words,
          length-take (ic * 2) rest,
          length-take (ic * 2) (drop mem.address s.dmarea),
          length-drop mem.address s.dmarea,
        )) in
      handler_known _ refl ∙ rw (area, end, inside, last, src, count, stored, size, same)

  -- A read or write of the DM word area that ends past the area, while twice the count added to the
  -- address stays below 65536, is answered with the end code for an exceeded address range and
  -- changes nothing.
  pub handler_exceeded :
      (code : ℕ)
      → (code == command_code_value memory_area_read
          || code == command_code_value memory_area_write)
        ≡ true
      → mem.memory_area ≡ memory_area_dm_word
      → dm_area_size < mem.address + ic * 2
      → mem.address + ic * 2 < 2 ^ 16
      → handler s (memory_request h code mem ic rest n)
        ≡ ok (s, answer h code (end_code_value address_range_exceeded) (of_list []))
  unfolding handle_area handle_dm_word
  handler_exceeded code known area past small =
      let end : to_uint16 (mem.address + to_uint16 (ic * 2)) ≡ mem.address + ic * 2 = omega arith in
      handler_known code known ∙ rw (area, end, lt→ltb _ _ past)

  -- A read or write, with a 16-bit address and count, of an area that is neither of the two DM
  -- areas is answered with the end code for an unsupported model and changes nothing.
  pub handler_other_area :
      (code : ℕ)
      → (code == command_code_value memory_area_read
          || code == command_code_value memory_area_write)
        ≡ true
      → mem.memory_area ≢ memory_area_dm_word
      → mem.memory_area ≢ memory_area_dm_bit
      → handler s (memory_request h code mem ic rest n)
        ≡ ok (s, answer h code (end_code_value not_supported_by_model_version) (of_list []))
  unfolding handle_area
  handler_other_area code known word bit =
      let w : (mem.memory_area == memory_area_dm_word) ≡ false = ground arith in
      let b : (mem.memory_area == memory_area_dm_bit) ≡ false = ground arith in
      handler_known code known ∙ rw (w, b)

take-splice :
    (area new : List ℕ) (lo : ℕ) → lo ≤ length area → take lo (splice area lo new) ≡ take lo area
take-splice area new lo h = take-append lo (take lo area) _ (omega (arith, length-take lo area))

pub drop-splice :
    (area new : List ℕ) (lo : ℕ)
    → lo ≤ length area
    → drop lo (splice area lo new) ≡ new ++ drop (lo + length new) area
drop-splice area new lo h = drop-append lo (take lo area) _ (omega (arith, length-take lo area))

-- On a simulator with areas of their full size, a write to the DM word area that ends inside it and
-- comes with exactly the bytes of its count is answered, and a read of the same words then
-- completes normally and returns those bytes.
pub handler_read_written :
    (s : Server) (h h' : Header) (mem : MemoryAddress) (ic n n' : ℕ) (bytes rest : List ℕ)
    → IsSized s
    → IsUint16 mem.address
    → mem.memory_area ≡ memory_area_dm_word
    → mem.address + ic * 2 ≤ dm_area_size
    → length bytes ≡ ic * 2
    → (s' : Server) × (written : Response) × (found : Response) × (handler s
          (memory_request h (command_code_value memory_area_write) mem ic bytes n)
        ≡ ok (s', written))
      × (handler s' (memory_request h' (command_code_value memory_area_read) mem ic rest n')
          ≡ ok (s', found))
      × (found.end_code ≡ end_code_value normal_completion)
      × (contents found.payload ≡ bytes)
handler_read_written s h h' mem ic n n' bytes rest sized ha area fits size =
    let new = take (ic * 2) bytes in
    let s' : Server = record s { dmarea = splice s.dmarea mem.address new } in
    let whole : new ≡ bytes = take_all (ic * 2) bytes (omega arith) in
    let sized' : IsSized s' =
      handler-IsSized s sized _ s' _
        (handler_write s h mem ic n bytes ha (omega arith) sized area fits (omega arith)) in
    (
      s',
      _,
      _,
      handler_write s h mem ic n bytes ha (omega arith) sized area fits (omega arith),
      handler_read s' h' mem ic n' rest ha (omega arith) sized' area fits,
      refl,
      ap (take (ic * 2)) (drop-splice s.dmarea new mem.address (omega (arith, sized.words)))
          ∙ take-append (ic * 2) new _ (ap (λ (xs : List ℕ). length xs) whole ∙ size)
          ∙ whole,
    )
