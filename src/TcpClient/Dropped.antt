-- ===== src/TcpClient/Dropped.antt =====
-- fins/client_tcp.go: the reads that `listenLoop` drops while a command waits for its answer.
use omron_hostlink_fins.TcpClient.Methods
use native.Mathlib.Decide.{dec_lt}
use omron_hostlink_fins.Client.{Arrival, Client, Reply, arrivals, bytes_read, increment_sid}
use omron_hostlink_fins.Client.{next_header}
use omron_hostlink_fins.Client.Send.{await, deliver, listen_reads, send_command}
use omron_hostlink_fins.Common.{All, List, [], arith, contents, drop, length, map, none, ok}
use omron_hostlink_fins.Common.{refl, replicate, true, ℕ, ◌++◌, ◌+◌, ◌<◌, ◌∙◌, ◌∷◌, ◌≡◌, ◌≢◌}
use omron_hostlink_fins.Common.{◌≤◌, ◌⊎◌}
use omron_hostlink_fins.Common.Words.{IsUint16, IsUint32, to_byte}
use omron_hostlink_fins.Driver.Frames.{Response, encode_header, encode_response}
use omron_hostlink_fins.Header.{default_command_header}
use omron_hostlink_fins.Session.{after_send, next_command_header, own_cell}
use omron_hostlink_fins.TcpClient.{tcp, tcp_frame, tcp_listen}
use omron_hostlink_fins.TcpClient.Answers.{tcp_listen-encode_response, tcp_response_of}
use omron_hostlink_fins.TcpClient.Framing.{tcp_message}
use omron_hostlink_fins.TcpClient.Listening.{listen_long, listen_status, listen_whole}
use omron_hostlink_fins.UdpClient.{receive_size}

-- A message that fits one read and that the listener drops: it has an error code, or more bytes than
-- its length field counts.
abbrev pub IsDropped : List ℕ → Type 0
IsDropped bytes =
    (field cmd status : ℕ) × (body : List ℕ) × (bytes ≡ tcp_message field cmd status body)
    × IsUint32 field
    × IsUint32 cmd
    × IsUint32 status
    × (16 + length body ≤ receive_size)
    × ((status ≢ 0) ⊎ (field < 8 + length body))

tcp_listen-dropped :
    (c : Client) (bytes : List ℕ) → IsDropped bytes → tcp_listen c bytes ≡ ok (c, none)
tcp_listen-dropped c bytes (field, cmd, status, body, same, hf, hc, hs, small, why) =
    let tail = drop (16 + length body) (replicate {A = ℕ} receive_size 0) in
    rw same (
      listen_whole c field cmd status body small ∙ elim (dec_lt 0 status) [
        | yes bad ↦
            listen_status c field cmd status (16 + length body) (body ++ tail) hf hc hs
              (λ e. absurd (omega arith))
        | no fine ↦
            let clean : status ≡ 0 = omega arith in
            rw clean
              (listen_long c field cmd (16 + length body) (body ++ tail) hf hc (ground arith))
      ])

listen_reads-dropped :
    (c : Client) (sid : ℕ) (dropped : List (List ℕ)) (more : List Arrival)
    → All IsDropped dropped
    → listen_reads tcp sid (map bytes_read dropped ++ more) c ≡ listen_reads tcp sid more c
unfolding listen_reads
listen_reads-dropped c sid [] more h = refl
listen_reads-dropped c sid (bytes ∷ dropped) more (h, hs) =
    rw (tcp_listen-dropped c bytes h) (listen_reads-dropped c sid dropped more hs)

-- The TCP client drops any number of messages with an error code or with more bytes than their
-- length field counts, and its command still returns the response that comes after them under its
-- service id, in a well-formed message that fits a read, as long as its listener reads.
pub send_command_after_dropped :
    {W : Type 0} (peer : W → List ℕ → W × Reply) (c : Client) (w w' : W) (command framed : List ℕ)
    (command_type : ℕ) (dropped : List (List ℕ)) (r : Response)
    → c.listening ≡ true
    → tcp_frame (encode_header (next_command_header c) ++ command) command_type ≡ ok framed
    → All IsDropped dropped
    → peer w framed ≡ (
      w',
      arrivals (
          map bytes_read dropped
          ++ (bytes_read (tcp_message (8 + length (encode_response r)) 2 0 (encode_response r))
              ∷ [])),
    )
    → r.header.service_id ≡ to_byte (c.sid + 1)
    → IsUint16 r.command_code
    → IsUint16 r.end_code
    → 30 + length (contents r.payload) ≤ receive_size
    → Methods.send_command peer (c, w) command command_type
      ≡ ((after_send c, w'), ok (tcp_response_of r))
unfolding send_command Methods.send_command next_header increment_sid await listen_reads deliver
    default_command_header
send_command_after_dropped peer c w w' command framed command_type dropped r live packed junk
      answers own hc he small =
    let heard_so = tcp_listen-encode_response (after_send c) r hc he small in
    let message = tcp_message (8 + length (encode_response r)) 2 0 (encode_response r) in
    let skip =
      listen_reads-dropped (after_send c) (to_byte (c.sid + 1)) dropped (bytes_read message ∷ [])
        junk in
    rw (packed, answers, skip, heard_so, own, own_cell c, live)
