-- ===== src/TcpClient.antt =====
-- fins/client_tcp.go: what the TCP client does of its own. A command is wrapped in a FINS/TCP header
-- of sixteen bytes: the letters FINS, a length, a command and an error code.
pub mod Framing
pub mod Listening
pub mod Answers
pub mod Joined
pub mod Methods
pub mod Agreement
pub mod Cells
pub mod Dropped
use omron_hostlink_fins.Bytes.Parse.{parse_uint32}
use omron_hostlink_fins.Bytes.Write.{write_uint32_to_bytes}
use omron_hostlink_fins.Client.{Client, Transport, command_type_read}
use omron_hostlink_fins.Common.{List, Option, Result, [], contents, drop, if◌then◌else◌, index}
use omron_hostlink_fins.Common.{length, ltb, min, none, not, of_list, ok, put, replicate}
use omron_hostlink_fins.Common.{reslice, slice_from, some, take, ℕ, ◌++◌, ◌+◌, ◌==◌, ◌>>=◌}
use omron_hostlink_fins.Common.{◌∷◌}
use omron_hostlink_fins.Common.Words.{to_uint32}
use omron_hostlink_fins.Driver.Frames.{Response, decode_response}
use omron_hostlink_fins.UdpClient.{receive_size}
use omron_hostlink_fins.Utils.{copy}

-- `WriteUint32ToBytes(buf[offset:], value)`
abbrev pub write_at : List ℕ → ℕ → ℕ → Result (List ℕ)
write_at buf offset value = do
  tail ← slice_from (of_list buf) offset
  written ← write_uint32_to_bytes (contents tail) value
  ok (take offset buf ++ written)

-- The packers' common text, over the value of the length field.
abbrev pub pack : ℕ → ℕ → List ℕ → Result (List ℕ)
pack field cmd payload = do
  buf0 ← put (replicate (16 + length payload) 0) 0 0x46
  buf1 ← put buf0 1 0x49
  buf2 ← put buf1 2 0x4e
  buf3 ← put buf2 3 0x53
  buf4 ← write_at buf3 4 field
  buf5 ← write_at buf4 8 (to_uint32 cmd)
  buf6 ← write_at buf5 12 0
  tail ← slice_from (of_list buf6) 16
  ok (take 16 buf6 ++ copy (contents tail) payload)

unfoldable pub pack_tcp_write_command : ℕ → List ℕ → Result (List ℕ)
pack_tcp_write_command cmd payload = pack (to_uint32 (length payload)) cmd payload

unfoldable pub pack_tcp_read_command : ℕ → List ℕ → Result (List ℕ)
pack_tcp_read_command cmd payload = pack 0x1A cmd payload

unfoldable pub tcp_frame : List ℕ → ℕ → Result (List ℕ)
tcp_frame bts command_type =
    if command_type == command_type_read
    then pack_tcp_read_command 2 bts
    else pack_tcp_write_command 2 bts

-- The bytes that `handShake` writes when the connection stands.
unfoldable pub hand_shake : List ℕ
hand_shake =
    0x46 ∷ 0x49 ∷ 0x4E ∷ 0x53 ∷ 0x00 ∷ 0x00 ∷ 0x00 ∷ 0x0C ∷ 0x00 ∷ 0x00 ∷ 0x00 ∷ 0x00 ∷ 0x00 ∷ 0x00
    ∷ 0x00 ∷ 0x00 ∷ 0x00 ∷ 0x00 ∷ 0x00 ∷ 0x01 ∷ []

-- The branches on the message's command.
unfoldable pub dispatch : Client → List ℕ → ℕ → ℕ → Result (Client × Option Response)
dispatch c buf n command =
    if command == 0
    then (do
      server_node ← slice_from (of_list buf) 23
      node ← index (contents server_node) 0
      ok (record c { dst = record c.dst { node = node } }, none))
    else if command == 2
    then (do body ← reslice (of_list buf) 16 n; ans ← decode_response body; ok (c, some ans))
    else ok (c, none)

-- One read of the listener: `n` bytes of `buf` count. `length+8` in the slice expression is of type
-- uint32, and `int(length)+8` in the test before it is not.
unfoldable pub tcp_listen_buffer : Client → List ℕ → ℕ → Result (Client × Option Response)
tcp_listen_buffer c buf n = do
  status ← parse_uint32 (drop 12 buf)
  length ← parse_uint32 (drop 4 buf)
  command ← parse_uint32 (drop 8 buf)
  if not (status == 0)
      then ok (c, none)
      else (if ltb (length + 8) n
          then ok (c, none)
          else (reslice (of_list buf) 0 (to_uint32 (length + 8)) >>= λ printed.
              dispatch c buf n command))

unfoldable pub tcp_listen : Client → List ℕ → Result (Client × Option Response)
tcp_listen c bytes =
    let n = min receive_size (length bytes) in
    if ltb 0 n then tcp_listen_buffer c (copy (replicate receive_size 0) bytes) n else ok (c, none)

abbrev pub tcp : Transport
tcp = record { frame = tcp_frame; listen = tcp_listen }
