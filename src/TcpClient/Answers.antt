-- ===== src/TcpClient/Answers.antt =====
-- fins/client_tcp.go: an answer of the PLC as the listener hands it on.
use mathlib.Core.List.{append_assoc}
use omron_hostlink_fins.Client.{Client}
use omron_hostlink_fins.Common.{List, arith, contents, drop, length, ok, replicate, some, ℕ}
use omron_hostlink_fins.Common.{◌*◌, ◌++◌, ◌+◌, ◌^◌, ◌∙◌, ◌≡◌, ◌≤◌}
use omron_hostlink_fins.Common.Binary.{big_endian, uint16_bytes}
use omron_hostlink_fins.Common.Words.{IsUint16, shr, to_byte}
use omron_hostlink_fins.Driver.Frames.{Response, encode_header, encode_response}
use omron_hostlink_fins.Driver.Frames.Codec.{decode_response-frame, length-encode_header}
use omron_hostlink_fins.Session.{heard}
use omron_hostlink_fins.TcpClient.{tcp_listen}
use omron_hostlink_fins.TcpClient.Framing.{tcp_message}
use omron_hostlink_fins.TcpClient.Listening.{tcp_listen_response}
use omron_hostlink_fins.UdpClient.{receive_size}

-- What lies behind `n` bytes of data in the buffer of a read.
abbrev pub tcp_slack : ℕ → List ℕ
tcp_slack n = drop (30 + n) (replicate receive_size 0)

abbrev pub tcp_response_of : Response → Response
tcp_response_of = heard tcp_slack

-- A response with 16-bit codes that comes with an error code of 0 and a length field that counts
-- what follows it is handed on as it was encoded, its message type aside, when the message fits
-- 2048 bytes.
pub tcp_listen-encode_response :
    (c : Client) (r : Response)
    → IsUint16 r.command_code
    → IsUint16 r.end_code
    → 30 + length (contents r.payload) ≤ receive_size
    → tcp_listen c (tcp_message (8 + length (encode_response r)) 2 0 (encode_response r))
      ≡ ok (c, some (tcp_response_of r))
unfolding encode_response
tcp_listen-encode_response c r hc he small =
    let body = contents r.payload in
    let codes = uint16_bytes big_endian r.command_code ++ uint16_bytes big_endian r.end_code in
    let size : length (encode_header r.header ++ (codes ++ body)) ≡ 14 + length body =
      length-encode_header r.header (codes ++ body) ∙ omega arith in
    let after : 16 + (14 + length body) ≡ 30 + length body = omega arith in
    let code : to_byte (shr r.command_code 8) * 2 ^ 8 + to_byte r.command_code ≡ r.command_code =
      omega arith in
    let end : to_byte (shr r.end_code 8) * 2 ^ 8 + to_byte r.end_code ≡ r.end_code = omega arith in
    let tail = drop (30 + length body) (replicate {A = ℕ} receive_size 0) in
    let frame =
      decode_response-frame r.header (to_byte (shr r.command_code 8)) (to_byte r.command_code)
        (to_byte (shr r.end_code 8)) (to_byte r.end_code) (length body) (body ++ tail) in
    tcp_listen_response c (encode_response r) (omega (arith, size))
    ∙ rw (size, after, append_assoc (encode_header r.header) (codes ++ body) tail)
        (rw (frame, code, end))
