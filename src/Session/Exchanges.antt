-- ===== src/Session/Exchanges.antt =====
-- Writes and reads of the data memory, one command each, in a session with the simulator
-- (fins/udp_server.go).
use omron_hostlink_fins.Client.{Client, Reply, Transport, check_response, command_type_read}
use omron_hostlink_fins.Client.{command_type_write}
use omron_hostlink_fins.Client.Send.{exchange}
use omron_hostlink_fins.Client.Write.{done}
use omron_hostlink_fins.CommandCode.{command_code_value, memory_area_read}
use omron_hostlink_fins.Common.{List, Result, Slice, [], ap, arith, drop, length}
use omron_hostlink_fins.Common.{length-append, length-take, ok, refl, take, take-append}
use omron_hostlink_fins.Common.{take-append_le, take_all, ℕ, ◌*◌, ◌++◌, ◌+◌, ◌∙◌, ◌≡◌, ◌≤◌}
use omron_hostlink_fins.Driver.Commands.{memory_command, read_command, read_command_lem}
use omron_hostlink_fins.Driver.Commands.{write_command, write_command_lem}
use omron_hostlink_fins.Driver.Frames.{Response}
use omron_hostlink_fins.Driver.Frames.Headers.{as_decoded}
use omron_hostlink_fins.EndCode.{end_code_value, normal_completion}
use omron_hostlink_fins.Header.{default_response_header}
use omron_hostlink_fins.Server.{Loop, dm_area_size, server_buf_size, splice}
use omron_hostlink_fins.Server.Bounds.{IsSized, length-splice}
use omron_hostlink_fins.Server.ReadWrite.{answer, drop-splice, handler_read, handler_write}
use omron_hostlink_fins.Session.{IsReady, Link, after_send, dm, heard, next_command_header}
use omron_hostlink_fins.Session.{send_command_lem}
use omron_hostlink_fins.UdpClient.{receive_size}

-- The response to a read that found `bytes`.
abbrev pub found_response : (ℕ → List ℕ) → Client → List ℕ → Response
found_response slack c bytes = record {
  header = as_decoded (default_response_header (as_decoded (next_command_header c)));
  command_code = command_code_value memory_area_read;
  end_code = end_code_value normal_completion;
  payload = record { cells = bytes ++ slack (length bytes); len = length bytes };
}

module _ {t : Transport} {peer : Loop → List ℕ → Loop × Reply} (link : Link t peer) where
  -- The command of `WriteWords` is sent and answered.
  pub sent_write :
      (c : Client) (l : Loop) (address ic : ℕ) (bytes : List ℕ)
      → IsReady c l
      → address + ic * 2 ≤ dm_area_size
      → 18 + length bytes ≤ server_buf_size
      → ic * 2 ≤ length bytes
      → (l' : Loop) × (exchange t peer
            (c, l)
            (write_command (dm address) ic bytes)
            command_type_write
            done
          ≡ ((after_send c, l'), ok tt))
        × (l'.server
            ≡ record l.server { dmarea = splice l.server.dmarea address (take (ic * 2) bytes) })
        × (length l'.buf ≡ server_buf_size)
  unfolding exchange check_response
  sent_write c l address ic bytes ready inside small size =
      let parameters = memory_command (dm address) ic bytes in
      let tail = drop (12 + length parameters) l.buf in
      let handled =
        handler_write l.server (as_decoded (next_command_header c)) (dm address) ic
          (length parameters) (bytes ++ tail) (omega arith) (omega arith) ready.sized refl inside
          (omega (arith, length-append bytes tail)) in
      let (l', e, same, room) =
        send_command_lem link c l 0x01 0x02 command_type_write parameters _ _ _ _ ready.live
          ready.room (omega arith) handled (omega arith) (omega arith)
          (omega (arith, link.overhead_small)) in
      let whole = take-append_le (ic * 2) bytes tail size in
      (
        l',
        rw (write_command_lem, e),
        same
            ∙ ap (λ (xs : List ℕ). record l.server { dmarea = splice l.server.dmarea address xs })
                whole,
        room,
      )

  -- The command of `ReadWords` is sent and answered, and the result read from the answer.
  pub sent_read :
      {A : Type 0} (c : Client) (l : Loop) (address ic : ℕ) (result : Response → Result A)
      → IsReady c l
      → address + ic * 2 ≤ dm_area_size
      → link.overhead + ic * 2 ≤ receive_size
      → (l' : Loop) × (exchange t peer
            (c, l)
            (read_command (dm address) ic)
            command_type_read
            result
          ≡ (
            (after_send c, l'),
            result (
                heard link.slack (
                  answer
                    (as_decoded (next_command_header c))
                    (command_code_value memory_area_read)
                    (end_code_value normal_completion)
                    (record { cells = drop address l.server.dmarea; len = ic * 2 }))),
          ))
        × (l'.server ≡ l.server)
        × (length l'.buf ≡ server_buf_size)
  unfolding exchange check_response
  sent_read c l address ic result ready inside small =
      let parameters = memory_command (dm address) ic [] in
      let tail = drop (12 + length parameters) l.buf in
      let found : Slice = record { cells = drop address l.server.dmarea; len = ic * 2 } in
      let handled =
        handler_read l.server (as_decoded (next_command_header c)) (dm address) ic
          (length parameters) tail (omega arith) (omega arith) ready.sized refl inside in
      let (l', e, same, room) =
        send_command_lem link c l 0x01 0x01 command_type_read parameters _ _ _ found ready.live
          ready.room (omega arith) handled (omega arith) (omega arith)
          (omega (arith, length-take (ic * 2) (drop address l.server.dmarea))) in
      (l', rw (read_command_lem, e), same, room)

  -- A write and then a read of as many words: the read's result is made from the bytes written, as
  -- many of them as the count says.
  pub sent_part_back :
      {A : Type 0} (c : Client) (l : Loop) (address ic : ℕ) (bytes : List ℕ)
      (result : Response → Result A)
      → IsReady c l
      → address + ic * 2 ≤ dm_area_size
      → 18 + length bytes ≤ server_buf_size
      → link.overhead + ic * 2 ≤ receive_size
      → ic * 2 ≤ length bytes
      → (l1 l2 : Loop) × (exchange t peer
            (c, l)
            (write_command (dm address) ic bytes)
            command_type_write
            done
          ≡ ((after_send c, l1), ok tt))
        × (exchange t peer
              (after_send c, l1)
              (read_command (dm address) ic)
              command_type_read
              result
            ≡ (
              (after_send (after_send c), l2),
              result (found_response link.slack (after_send c) (take (ic * 2) bytes)),
            ))
  sent_part_back c l address ic bytes result ready inside small room_for size =
      let (l1, e1, kept, room1) = sent_write c l address ic bytes ready inside small size in
      let c1 = after_send c in
      let area = l.server.dmarea in
      let new = take (ic * 2) bytes in
      let new_size : length new ≡ ic * 2 = omega (arith, length-take (ic * 2) bytes) in
      let sized1 : IsSized l1.server = rw kept (record {
        words =
            length-splice area new address (omega (arith, new_size, ready.sized.words))
            ∙ ready.sized.words;
        bits = ready.sized.bits;
      }) in
      let ready1 : IsReady c1 l1 = record { live = ready.live; room = room1; sized = sized1 } in
      let (l2, e2, _, _) = sent_read c1 l1 address ic result ready1 inside room_for in
      let found : take (ic * 2) (drop address l1.server.dmarea) ≡ new =
        rw (kept, drop-splice area new address (omega (arith, ready.sized.words)))
          (take-append (ic * 2) new _ new_size) in
      (
        l1,
        l2,
        e1,
        e2
            ∙ ap (λ (xs : List ℕ). ((after_send c1, l2), result (found_response link.slack c1 xs)))
                found,
      )

  -- A write and then a read of the same words: the read's result is made from the bytes written.
  pub sent_back :
      {A : Type 0} (c : Client) (l : Loop) (address ic : ℕ) (bytes : List ℕ)
      (result : Response → Result A)
      → IsReady c l
      → address + ic * 2 ≤ dm_area_size
      → 18 + ic * 2 ≤ server_buf_size
      → link.overhead + ic * 2 ≤ receive_size
      → length bytes ≡ ic * 2
      → (l1 l2 : Loop) × (exchange t peer
            (c, l)
            (write_command (dm address) ic bytes)
            command_type_write
            done
          ≡ ((after_send c, l1), ok tt))
        × (exchange t peer
              (after_send c, l1)
              (read_command (dm address) ic)
              command_type_read
              result
            ≡ (
              (after_send (after_send c), l2),
              result (found_response link.slack (after_send c) bytes),
            ))
  sent_back c l address ic bytes result ready inside small room_for size =
      let (l1, l2, e1, e2) =
        sent_part_back c l address ic bytes result ready inside (omega arith) room_for
          (omega arith) in
      let whole : take (ic * 2) bytes ≡ bytes = take_all (ic * 2) bytes (omega arith) in
      (
        l1,
        l2,
        e1,
        e2
            ∙ ap
                (λ (xs : List ℕ). (
                  (after_send (after_send c), l2),
                  result (found_response link.slack (after_send c) xs),
                ))
                whole,
      )
