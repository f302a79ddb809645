-- ===== src/Session/Bits.antt =====
-- Bits of the simulator (fins/udp_server.go) through a client: what is written is what is read.
use mathlib.Core.List.{append_assoc}
use mathlib.Core.Path.{ap₂}
use omron_hostlink_fins.Client.{Client, Reply, Transport, check_response, command_type_read}
use omron_hostlink_fins.Client.{command_type_write}
use omron_hostlink_fins.Client.Read.{bits_loop, read_bits}
use omron_hostlink_fins.Client.Send.{exchange}
use omron_hostlink_fins.Client.Write.{bit_bytes, done, write_bits}
use omron_hostlink_fins.Common.{Bool, List, Result, Slice, [], ap, arith, bit_and, contents}
use omron_hostlink_fins.Common.{drop, false, if◌then◌else◌, index, length, length-append}
use omron_hostlink_fins.Common.{length-take, ltb, ok, refl, suc, take, take-append, take_all}
use omron_hostlink_fins.Common.{true, ℕ, ◌++◌, ◌+◌, ◌∙◌, ◌∷◌, ◌≡◌, ◌≤◌}
use omron_hostlink_fins.Common.Words.{to_uint16}
use omron_hostlink_fins.Driver.Commands.{MemoryAddress, mem_addr_with_bit_offset}
use omron_hostlink_fins.Driver.Commands.{memory_command, read_command, read_command_lem}
use omron_hostlink_fins.Driver.Commands.{write_command, write_command_lem}
use omron_hostlink_fins.Driver.Frames.Headers.{as_decoded}
use omron_hostlink_fins.MemoryArea.{memory_area_dm_bit}
use omron_hostlink_fins.Server.{Loop, dm_area_size, server_buf_size, splice}
use omron_hostlink_fins.Server.Bits.{handler_read_bits, handler_write_bits}
use omron_hostlink_fins.Server.Bounds.{IsSized, length-splice}
use omron_hostlink_fins.Server.ReadWrite.{drop-splice}
use omron_hostlink_fins.Session.{IsReady, Link, after_send, next_command_header}
use omron_hostlink_fins.Session.{send_command_lem}
use omron_hostlink_fins.Session.Exchanges.{found_response}
use omron_hostlink_fins.UdpClient.{receive_size}

length-bit_bytes : (bits : List Bool) → length (bit_bytes bits) ≡ length bits
unfolding bit_bytes
length-bit_bytes [] = refl
length-bit_bytes (b ∷ bits) = ap suc (length-bit_bytes bits)

index-append :
    (before after : List ℕ) (x : ℕ) → index (before ++ (x ∷ after)) (length before) ≡ ok x
index-append [] after x = refl
index-append (b ∷ before) after x = index-append before after x

bit_of : (b : Bool) → ltb 0 (bit_and (if b then 0x01 else 0x00) 0x01) ≡ b
bit_of true = refl
bit_of false = refl

-- The loop of `ReadBits` reads bits back from their bytes, behind those before index `i`.
bits_loop_lem :
    (bits : List Bool) (p : Slice) (before : List ℕ) (i : ℕ)
    → contents p ≡ before ++ bit_bytes bits
    → i ≡ length before
    → bits_loop p i (length bits) ≡ ok bits
unfolding bits_loop bit_bytes
bits_loop_lem [] p before i e h = refl
bits_loop_lem (b ∷ bits) p before i e h =
    let x : ℕ = (if b then 0x01 else 0x00) in
    let regroup : before ++ (x ∷ bit_bytes bits) ≡ (before ++ (x ∷ [])) ++ bit_bytes bits =
      simp append_assoc in
    let rest =
      bits_loop_lem bits p (before ++ (x ∷ [])) (i + 1) (e ∙ regroup)
        (omega (arith, length-append before (x ∷ []))) in
    let first : index (contents p) i ≡ ok x = rw (e, h) (index-append before (bit_bytes bits) x) in
    rw (first, bit_of b, rest)

abbrev bit_dm : ℕ → ℕ → MemoryAddress
bit_dm address offset = record {
  memory_area = memory_area_dm_bit;
  address = address;
  bit_offset = offset;
}

module _ {t : Transport} {peer : Loop → List ℕ → Loop × Reply} (link : Link t peer) (c : Client)
    (l : Loop) (address offset : ℕ) (ready : IsReady c l) where
  -- The command of `WriteBits` is sent and answered.
  sent_write_bits :
      (bits : List Bool)
      → address + offset + length bits ≤ dm_area_size
      → 18 + length bits ≤ server_buf_size
      → (l' : Loop) × (exchange t peer
            (c, l)
            (write_command (bit_dm address offset) (length bits) (bit_bytes bits))
            command_type_write
            done
          ≡ ((after_send c, l'), ok tt))
        × (l'.server ≡ record l.server {
          bitdmarea = splice l.server.bitdmarea (address + offset) (bit_bytes bits);
        })
        × (length l'.buf ≡ server_buf_size)
  unfolding exchange check_response
  sent_write_bits bits inside small =
      let n = length bits in
      let bytes = bit_bytes bits in
      let same_length = length-bit_bytes bits in
      let parameters = memory_command (bit_dm address offset) n bytes in
      let tail = drop (12 + length parameters) l.buf in
      let handled =
        handler_write_bits l.server (as_decoded (next_command_header c)) (bit_dm address offset) n
          (length parameters) (bytes ++ tail) (omega arith) (omega arith) ready.sized refl inside
          (omega (arith, length-append bytes tail)) in
      let (l', e, same, room) =
        send_command_lem link c l 0x01 0x02 command_type_write parameters _ _ _ _ ready.live
          ready.room (omega arith) handled (omega arith) (omega arith)
          (omega (arith, link.overhead_small)) in
      let area = l.server.bitdmarea in
      let stored : take n (bytes ++ tail) ≡ bytes = take-append n bytes tail same_length in
      (
        l',
        rw (write_command_lem, e),
        same
            ∙ ap
                (λ (xs : List ℕ). record l.server { bitdmarea = splice area (address + offset) xs })
                stored,
        room,
      )

  -- The command of `ReadBits` is sent and answered with what is found.
  sent_read_bits :
      (n : ℕ)
      → address + offset + n ≤ dm_area_size
      → link.overhead + n ≤ receive_size
      → (l' : Loop) × (exchange t peer
            (c, l)
            (read_command (bit_dm address offset) n)
            command_type_read
            (λ r. bits_loop r.payload 0 n)
          ≡ (
            (after_send c, l'),
            bits_loop
                (found_response link.slack c
                  (take n (drop (address + offset) l.server.bitdmarea))).payload
                0
                n,
          ))
  unfolding exchange check_response
  sent_read_bits n inside small =
      let parameters = memory_command (bit_dm address offset) n [] in
      let found : Slice = record { cells = drop (address + offset) l.server.bitdmarea; len = n } in
      let handled =
        handler_read_bits l.server (as_decoded (next_command_header c)) (bit_dm address offset) n
          (length parameters) (drop (12 + length parameters) l.buf) (omega arith) (omega arith)
          ready.sized refl inside in
      let (l', e, _, _) =
        send_command_lem link c l 0x01 0x01 command_type_read parameters _ _ _ found ready.live
          ready.room (omega arith) handled (omega arith) (omega arith)
          (omega (arith, length-take n (drop (address + offset) l.server.bitdmarea))) in
      (l', rw (read_command_lem, e))

module _ {t : Transport} {peer : Loop → List ℕ → Loop × Reply} (link : Link t peer) where
  -- For a client and a simulator between two commands, `WriteBits` to a place that lies inside the DM
  -- bit area with its bit offset, of few enough bits for the request to fit the simulator's buffer,
  -- succeeds, and `ReadBits` of as many bits from there, whose answer fits the client's buffer, then
  -- returns them.
  pub read_bits-write_bits :
      (c : Client) (l : Loop) (address offset : ℕ) (bits : List Bool)
      → IsReady c l
      → address + offset + length bits ≤ dm_area_size
      → 18 + length bits ≤ server_buf_size
      → link.overhead + length bits ≤ receive_size
      → (s1 s2 : Client × Loop) × (write_bits t peer (c, l) memory_area_dm_bit address offset bits
          ≡ (s1, ok tt))
        × (read_bits t peer s1 memory_area_dm_bit address offset (length bits) ≡ (s2, ok bits))
  unfolding write_bits read_bits mem_addr_with_bit_offset
  read_bits-write_bits c l address offset bits ready inside small room_for =
      let n = length bits in
      let bytes = bit_bytes bits in
      let lo = address + offset in
      let area = l.server.bitdmarea in
      let same_length = length-bit_bytes bits in
      let (l1, e1, kept, room1) = sent_write_bits link c l address offset ready bits inside small in
      let c1 = after_send c in
      let sized1 : IsSized l1.server = rw kept (record {
        words = ready.sized.words;
        bits =
            length-splice area bytes lo (omega (arith, same_length, ready.sized.bits))
            ∙ ready.sized.bits;
      }) in
      let ready1 : IsReady c1 l1 = record { live = ready.live; room = room1; sized = sized1 } in
      let (l2, e2) = sent_read_bits link c1 l1 address offset ready1 n inside room_for in
      let found : take n (drop lo l1.server.bitdmarea) ≡ bytes =
        rw (kept, drop-splice area bytes lo (omega (arith, ready.sized.bits)))
          (take-append n bytes _ same_length) in
      let count : to_uint16 n ≡ n = omega arith in
      let whole : take (to_uint16 n) bits ≡ bits =
        ap (λ (k : ℕ). take k bits) count ∙ take_all n bits (omega arith) in
      let looped =
        bits_loop_lem bits (found_response link.slack c1 bytes).payload [] 0
          (take-append (length bytes) bytes (link.slack (length bytes)) refl) refl in
      (
        (c1, l1),
        (after_send c1, l2),
        ap₂
              (λ (k : ℕ) (bs : List Bool).
                exchange t peer (c, l) (write_command (bit_dm address offset) k (bit_bytes bs))
                  command_type_write done)
              count whole
            ∙ e1,
        e2
            ∙ ap
                (λ (xs : List ℕ).
                  ((after_send c1, l2), bits_loop (found_response link.slack c1 xs).payload 0 n))
                found
            ∙ ap (λ (r : Result (List Bool)). ((after_send c1, l2), r)) looped,
      )
