-- ===== src/UdpClient.antt =====
-- fins/client_udp.go: what the UDP client does of its own. A command is one datagram.
pub mod Simulator
pub mod Answers
pub mod Clock
use omron_hostlink_fins.Client.{Client, Transport}
use omron_hostlink_fins.Common.{List, Option, Result, Slice, if◌then◌else◌, length, ltb, min}
use omron_hostlink_fins.Common.{none, ok, replicate, some, ℕ, ◌>>=◌}
use omron_hostlink_fins.Driver.Frames.{Response, decode_response}
use omron_hostlink_fins.Utils.{copy}

abbrev pub receive_size : ℕ
receive_size = 2048

-- `Read(buf)`: what one read leaves in the fresh buffer, and how many bytes of it count.
abbrev pub received_slice : List ℕ → Slice
received_slice bytes = record {
  cells = copy (replicate receive_size 0) bytes;
  len = min receive_size (length bytes);
}

abbrev pub udp_frame : List ℕ → ℕ → Result (List ℕ)
udp_frame bts command_type = ok bts

unfoldable pub udp_listen : Client → List ℕ → Result (Client × Option Response)
udp_listen c bytes =
    let buf = received_slice bytes in
    if ltb 0 buf.len then (decode_response buf >>= λ ans. ok (c, some ans)) else ok (c, none)

abbrev pub udp : Transport
udp = record { frame = udp_frame; listen = udp_listen }
