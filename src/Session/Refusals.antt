-- ===== src/Session/Refusals.antt =====
-- Requests that the simulator (fins/udp_server.go) refuses, through a client: words past the end of
-- the data memory.
use omron_hostlink_fins.Client.{Client, Reply, Transport, check_is_word_memory_area}
use omron_hostlink_fins.Client.{check_response, command_type_read, command_type_write}
use omron_hostlink_fins.Client.Read.{read_words, words_loop}
use omron_hostlink_fins.Client.Send.{exchange}
use omron_hostlink_fins.Client.Words.{fill_words_lem, length-words_bytes, words_bytes}
use omron_hostlink_fins.Client.Write.{done, write_words}
use omron_hostlink_fins.Common.{List, Result, [], arith, drop, err, length, of_list, refl}
use omron_hostlink_fins.Common.{take, take_all, ℕ, ◌*◌, ◌++◌, ◌+◌, ◌<◌, ◌^◌, ◌∙◌, ◌≡◌, ◌≤◌}
use omron_hostlink_fins.Common.Words.{to_uint16}
use omron_hostlink_fins.Driver.Commands.{mem_addr, mem_addr_with_bit_offset, memory_command}
use omron_hostlink_fins.Driver.Commands.{read_command, read_command_lem, write_command}
use omron_hostlink_fins.Driver.Commands.{write_command_lem}
use omron_hostlink_fins.Driver.Frames.{Response}
use omron_hostlink_fins.Driver.Frames.Headers.{as_decoded}
use omron_hostlink_fins.EndCode.{address_range_exceeded, end_code_value}
use omron_hostlink_fins.Errors.{end_code_reported}
use omron_hostlink_fins.MemoryArea.{memory_area_dm_word}
use omron_hostlink_fins.Server.{Loop, dm_area_size, server_buf_size}
use omron_hostlink_fins.Server.ReadWrite.{handler_exceeded}
use omron_hostlink_fins.Session.{IsReady, Link, after_send, dm, next_command_header}
use omron_hostlink_fins.Session.{send_command_lem}

-- What a refused command returns.
abbrev pub refusal : {A : Type 0} → Result A
refusal = err (end_code_reported (end_code_value address_range_exceeded))

module _ {t : Transport} {peer : Loop → List ℕ → Loop × Reply} (link : Link t peer) (c : Client)
    (l : Loop) (address ic : ℕ) (ready : IsReady c l) (past : dm_area_size < address + ic * 2)
    (small : address + ic * 2 < 2 ^ 16) where
  exceeded_read :
      {A : Type 0} (result : Response → Result A)
      → (l' : Loop) × (exchange t peer
            (c, l)
            (read_command (dm address) ic)
            command_type_read
            result
          ≡ ((after_send c, l'), refusal))
        × (l'.server ≡ l.server)
        × (length l'.buf ≡ server_buf_size)
  unfolding exchange check_response
  exceeded_read result =
      let parameters = memory_command (dm address) ic [] in
      let tail = drop (12 + length parameters) l.buf in
      let handled =
        handler_exceeded l.server (as_decoded (next_command_header c)) (dm address) ic
          (length parameters) tail (omega arith) (omega arith) 0x0101 refl refl past small in
      let (l', e, same, room) =
        send_command_lem link c l 0x01 0x01 command_type_read parameters _ _ _ (of_list [])
          ready.live ready.room (omega arith) handled (omega arith) (omega arith)
          (omega (arith, link.overhead_small)) in
      (l', rw (read_command_lem, e), same, room)

  exceeded_write :
      (bytes : List ℕ)
      → 18 + length bytes ≤ server_buf_size
      → (l' : Loop) × (exchange t peer
            (c, l)
            (write_command (dm address) ic bytes)
            command_type_write
            done
          ≡ ((after_send c, l'), refusal))
        × (l'.server ≡ l.server)
        × (length l'.buf ≡ server_buf_size)
  unfolding exchange check_response
  exceeded_write bytes fits =
      let parameters = memory_command (dm address) ic bytes in
      let tail = drop (12 + length parameters) l.buf in
      let handled =
        handler_exceeded l.server (as_decoded (next_command_header c)) (dm address) ic
          (length parameters) (bytes ++ tail) (omega arith) (omega arith) 0x0102 refl refl past
          small in
      let (l', e, same, room) =
        send_command_lem link c l 0x01 0x02 command_type_write parameters _ _ _ (of_list [])
          ready.live ready.room (omega arith) handled (omega arith) (omega arith)
          (omega (arith, link.overhead_small)) in
      (l', rw (write_command_lem, e), same, room)

module _ {t : Transport} {peer : Loop → List ℕ → Loop × Reply} (link : Link t peer) where
  -- For a client and a simulator between two commands and words that reach past the end of the DM
  -- area, with a sum that fits 16 bits and few enough for the request to fit the simulator's buffer:
  -- `WriteWords` and a `ReadWords` of as many words after it both return the error with the end code
  -- of an exceeded range, and the simulator keeps what it holds through both.
  pub words_refused :
      (c : Client) (l : Loop) (address : ℕ) (words : List ℕ)
      → IsReady c l
      → dm_area_size < address + length words * 2
      → address + length words * 2 < 2 ^ 16
      → 18 + length words * 2 ≤ server_buf_size
      → (l1 l2 : Loop) × (write_words t peer (c, l) memory_area_dm_word address words
          ≡ ((after_send c, l1), refusal))
        × (read_words t peer (after_send c, l1) memory_area_dm_word address (length words)
            ≡ ((after_send (after_send c), l2), refusal))
        × (l1.server ≡ l.server)
        × (l2.server ≡ l.server)
  unfolding write_words read_words check_is_word_memory_area mem_addr mem_addr_with_bit_offset
  words_refused c l address words ready past small fits =
      let n = length words in
      let count : to_uint16 n ≡ n = omega (arith, fits) in
      let twice : to_uint16 (2 * n) ≡ 2 * n = omega (arith, fits) in
      let whole : take n words ≡ words = take_all n words (omega arith) in
      let bytes = words_bytes c.byte_order words in
      let (l1, e1, same1, room1) =
        exceeded_write link c l address n ready past small bytes
          (omega (arith, length-words_bytes c.byte_order words)) in
      let ready1 : IsReady (after_send c) l1 = record {
        live = ready.live;
        room = room1;
        sized = rw same1 ready.sized;
      } in
      let (l2, e2, same2, _) =
        exceeded_read link (after_send c) l1 address n ready1 past small
          (λ r. words_loop c.byte_order r.payload 0 n) in
      let sent : write_words t peer (c, l) memory_area_dm_word address words
          ≡ exchange t peer (c, l) (write_command (dm address) n bytes) command_type_write done =
        rw (count, whole, twice, fill_words_lem) in
      (l1, l2, sent ∙ e1, e2, same1, same2 ∙ same1)
