-- ===== src/UdpClient/Simulator.antt =====
-- The UDP client (fins/client_udp.go) and the simulator (fins/udp_server.go) joined by a network that
-- loses nothing: one exchange of a command.
use mathlib.Core.List.{append_assoc}
use mathlib.Core.Path.{ap₂}
use omron_hostlink_fins.Client.{Client, Reply, received, silent}
use omron_hostlink_fins.Common.{List, ap, arith, contents, drop, err, hang, length}
use omron_hostlink_fins.Common.{length-replicate, ltb, lt→ltb, min, none, ok, panic, refl}
use omron_hostlink_fins.Common.{replicate, some, sym, true, ℕ, ◌*◌, ◌++◌, ◌+◌, ◌^◌, ◌∙◌, ◌∷◌}
use omron_hostlink_fins.Common.{◌≡◌, ◌≤◌}
use omron_hostlink_fins.Common.Binary.{big_endian, uint16_bytes}
use omron_hostlink_fins.Common.Words.{IsUint16, shr, to_byte}
use omron_hostlink_fins.Driver.Frames.{Response, decode_response, encode_header}
use omron_hostlink_fins.Driver.Frames.{encode_response}
use omron_hostlink_fins.Driver.Frames.Codec.{decode_request-frame, decode_response-frame}
use omron_hostlink_fins.Driver.Frames.Codec.{length-encode_header}
use omron_hostlink_fins.Header.{Header}
use omron_hostlink_fins.Server.{Loop, Server, answer_datagram, handler, round, server_buf_size}
use omron_hostlink_fins.Session.{Link, heard, request_of}
use omron_hostlink_fins.UdpClient.{receive_size, received_slice, udp, udp_listen}
use omron_hostlink_fins.Utils.{copy}
use omron_hostlink_fins.Utils.Copies.{copy_shorter, length-copy}

-- The simulator as the other side. When it panics nothing comes back.
unfoldable pub simulator : Loop → List ℕ → Loop × Reply
simulator l frame = elim (round l frame) [
  | ok (l', answered) ↦ elim answered [ some bytes ↦ (l', received bytes) | none ↦ (l', silent) ]
  | err e ↦ (l, silent)
  | panic ↦ (l, silent)
  | hang ↦ (l, silent)
]

module _ (l : Loop) (h : Header) (a b : ℕ) (parameters : List ℕ) (s' : Server) (resp : Response)
    (room : length l.buf ≡ server_buf_size) (small : 12 + length parameters ≤ server_buf_size)
    (handled : handler l.server (request_of l h (a * 2 ^ 8 + b) parameters) ≡ ok (s', resp)) where
  abbrev frame : List ℕ
  frame = encode_header h ++ (a ∷ b ∷ parameters)

  length-frame : length frame ≡ 12 + length parameters
  length-frame = length-encode_header h (a ∷ b ∷ parameters) ∙ omega arith

  filled :
      copy l.buf frame
      ≡ encode_header h ++ (a ∷ b ∷ (parameters ++ drop (12 + length parameters) l.buf))
  filled =
      copy_shorter l.buf frame (omega (arith, length-frame))
      ∙ rw length-frame (append_assoc (encode_header h) (a ∷ b ∷ parameters) _)

  abbrev buf_after : List ℕ
  buf_after = encode_header h ++ (a ∷ b ∷ (parameters ++ drop (12 + length parameters) l.buf))

  answered_frame :
      answer_datagram l.server buf_after (12 + length parameters)
      ≡ ok (record { server = s'; buf = buf_after }, some (encode_response resp))
  unfolding answer_datagram
  answered_frame =
      let tail = drop (12 + length parameters) l.buf in
      let some_read : ltb 0 (12 + length parameters) ≡ true = lt→ltb 0 _ (omega arith) in
      rw (some_read, decode_request-frame h a b (length parameters) (parameters ++ tail), handled)

  pub round_lem :
      round l frame ≡ ok (record { server = s'; buf = buf_after }, some (encode_response resp))
  unfolding round
  round_lem =
      let seen : min (length l.buf) (length frame) ≡ 12 + length parameters =
        omega (arith, length-frame) in
      ap₂ (answer_datagram l.server) filled seen ∙ answered_frame

  -- The frame is answered with the handler's response.
  pub simulator_lem :
      (l' : Loop) × (simulator l frame ≡ (l', received (encode_response resp)))
      × (l'.server ≡ s')
      × (length l'.buf ≡ server_buf_size)
  unfolding simulator
  simulator_lem = (
    record { server = s'; buf = buf_after },
    rw (round_lem, simulator),
    refl,
    ap (λ (xs : List ℕ). length xs) (sym filled) ∙ length-copy l.buf frame ∙ room,
  )

-- What lies behind `n` bytes of data in the buffer of a read.
abbrev pub udp_slack : ℕ → List ℕ
udp_slack n = drop (14 + n) (replicate receive_size 0)

abbrev pub response_of : Response → Response
response_of = heard udp_slack

module _ (c : Client) (resp : Response) (hc : IsUint16 resp.command_code)
    (he : IsUint16 resp.end_code) (small : 14 + length (contents resp.payload) ≤ receive_size) where
  abbrev found_bytes : List ℕ
  found_bytes = contents resp.payload

  abbrev codes : List ℕ
  codes = uint16_bytes big_endian resp.command_code ++ uint16_bytes big_endian resp.end_code

  length-answer : length (encode_response resp) ≡ 14 + length found_bytes
  unfolding encode_response
  length-answer = length-encode_header resp.header (codes ++ found_bytes) ∙ omega arith

  received_cells :
      copy (replicate receive_size 0) (encode_response resp)
      ≡ encode_header resp.header
        ++ (codes ++ (found_bytes ++ drop (14 + length found_bytes) (replicate receive_size 0)))
  unfolding encode_response
  received_cells =
      copy_shorter (replicate receive_size 0) (encode_response resp)
        (omega (arith, length-answer, length-replicate {A = ℕ} receive_size 0))
      ∙ rw length-answer (append_assoc (encode_header resp.header) (codes ++ found_bytes) _)

  decoded_answer : decode_response (received_slice (encode_response resp)) ≡ ok (response_of resp)
  decoded_answer =
      let n = 14 + length found_bytes in
      let seen : min receive_size (length (encode_response resp)) ≡ n =
        omega (arith, length-answer) in
      let code : to_byte (shr resp.command_code 8) * 2 ^ 8 + to_byte resp.command_code
          ≡ resp.command_code =
        omega arith in
      let end : to_byte (shr resp.end_code 8) * 2 ^ 8 + to_byte resp.end_code ≡ resp.end_code =
        omega arith in
      ap₂ (λ (cells : List ℕ) (m : ℕ). decode_response (record { cells = cells; len = m }))
        received_cells seen
      ∙ decode_response-frame resp.header _ _ _ _ (length found_bytes) _
      ∙ rw (code, end)

  -- The listener hands the response on as it was sent, zeros behind its data.
  pub udp_listen_lem : udp_listen c (encode_response resp) ≡ ok (c, some (response_of resp))
  unfolding udp_listen
  udp_listen_lem =
      let seen : min receive_size (length (encode_response resp)) ≡ 14 + length found_bytes =
        omega (arith, length-answer) in
      let some_read : ltb 0 (min receive_size (length (encode_response resp))) ≡ true =
        lt→ltb 0 _ (omega arith) in
      rw (some_read, decoded_answer)

-- The UDP client and the simulator, joined by a network that loses nothing.
abbrev pub udp_link : Link udp simulator
udp_link = record {
  overhead = 14;
  slack = udp_slack;
  overhead_small = omega arith;
  answers = λ c l h a b command_type parameters s' resp room small handled hc he fits.
      let (l', e, same, size) = simulator_lem l h a b parameters s' resp room small handled in
      (
        l',
        encode_header h ++ (a ∷ b ∷ parameters),
        encode_response resp,
        refl,
        e,
        udp_listen_lem c resp hc he fits,
        same,
        size,
      );
}
