-- ===== src/UdpClient/Answers.antt =====
-- fins/client_udp.go: what `ReadWords` and `ReadClock` make of an answer, whoever sends it.
use omron_hostlink_fins.Client.{Client, Reply, check_response}
use omron_hostlink_fins.Client.{increment_sid, next_header, received}
use omron_hostlink_fins.Client.Send.{await, deliver, exchange, listen_reads, send_command}
use omron_hostlink_fins.Common.{List, Result, arith, contents}
use omron_hostlink_fins.Common.{length, ok, true, ℕ, ◌++◌, ◌+◌, ◌==◌}
use omron_hostlink_fins.Common.{◌≡◌, ◌≤◌}
use omron_hostlink_fins.Common.Words.{IsUint16, to_byte}
use omron_hostlink_fins.Driver.Frames.{Response, encode_header, encode_response}
use omron_hostlink_fins.EndCode.{end_code_value, normal_completion}
use omron_hostlink_fins.Header.{default_command_header}
use omron_hostlink_fins.Session.{after_send, next_command_header, own_cell}
use omron_hostlink_fins.UdpClient.{receive_size, udp}
use omron_hostlink_fins.UdpClient.Simulator.{response_of, udp_listen_lem}

-- The other side answers the command with a response under its service id, which fits one read.
pub record IsAnswered {W : Type 0} (peer : W → List ℕ → W × Reply) (c : Client) (w w' : W)
    (command : List ℕ) (r : Response) : Type 0 where
  pub live : c.listening ≡ true
  pub answers :
      peer w (encode_header (next_command_header c) ++ command) ≡ (w', received (encode_response r))
  pub own : r.header.service_id ≡ to_byte (c.sid + 1)
  pub code_fits : IsUint16 r.command_code
  pub normal : r.end_code ≡ end_code_value normal_completion
  pub fits : 14 + length (contents r.payload) ≤ receive_size

module _ {W : Type 0} (peer : W → List ℕ → W × Reply) (c : Client) (w w' : W) (command : List ℕ)
    (r : Response) (a : IsAnswered peer c w w' command r) where
  pub answered_lem :
      (command_type : ℕ)
      → send_command udp peer (c, w) command command_type ≡ ((after_send c, w'), ok (response_of r))
  unfolding send_command next_header increment_sid await listen_reads deliver default_command_header
  answered_lem command_type =
      let heard_so = udp_listen_lem (after_send c) r a.code_fits (omega (arith, a.normal)) a.fits in
      rw (a.answers, heard_so, a.own, own_cell c, a.live)

  pub exchange_lem :
      {A : Type 0} (command_type : ℕ) (result : Response → Result A)
      → exchange udp peer (c, w) command command_type result
        ≡ ((after_send c, w'), result (response_of r))
  unfolding exchange check_response
  exchange_lem command_type result =
      let normal : (r.end_code == end_code_value normal_completion) ≡ true =
        ground (arith, a.normal) in
      rw (answered_lem command_type, normal)
