-- ===== src/Tests/Clients.antt =====
-- Examples of the clients: client_udp.go and client_tcp.go.
use omron_hostlink_fins.TcpClient.Methods
use omron_hostlink_fins.Client.{Client, Reply, arrivals, bytes_read, command_type_read}
use omron_hostlink_fins.Client.{increment_sid, new_client, next_header, received, silent}
use omron_hostlink_fins.Client.Cells.{IsOwned}
use omron_hostlink_fins.Client.Send.{await, listen_reads, run_out, send_command}
use omron_hostlink_fins.Client.Waiting.{after_commands, after_commands-new_client}
use omron_hostlink_fins.Client.Waiting.{send_command-service_id}
use omron_hostlink_fins.Common.{List, Result, [], ap, arith, if◌then◌else◌, inl, inr, leb}
use omron_hostlink_fins.Common.{length, map, none, of_list, ok, panic, refl, some, ℕ, ◌%◌}
use omron_hostlink_fins.Common.{◌&&◌, ◌++◌, ◌+◌, ◌-◌, ◌==◌, ◌>>=◌, ◌^◌, ◌∷◌, ◌≡◌}
use omron_hostlink_fins.Driver.Commands.{read_command}
use omron_hostlink_fins.Driver.Frames.{Response, encode_header, encode_response}
use omron_hostlink_fins.Header.{default_command_header, default_header}
use omron_hostlink_fins.Session.{after_send, next_command_header}
use omron_hostlink_fins.TcpClient.{pack_tcp_write_command, tcp, tcp_frame, tcp_listen}
use omron_hostlink_fins.TcpClient.Agreement.{Same, send_command-tcp}
use omron_hostlink_fins.TcpClient.Answers.{tcp_listen-encode_response, tcp_response_of}
use omron_hostlink_fins.TcpClient.Cells.{tcp-Listens, udp-Listens}
use omron_hostlink_fins.TcpClient.Dropped.{send_command_after_dropped}
use omron_hostlink_fins.TcpClient.Framing.{pack_tcp_read_command_lem, tcp_message}
use omron_hostlink_fins.TcpClient.Joined.{tcp_listen_joined}
use omron_hostlink_fins.TcpClient.Listening.{tcp_listen-pack_tcp_write_command}
use omron_hostlink_fins.TcpClient.Listening.{tcp_listen_hand_shake, tcp_listen_panics}
use omron_hostlink_fins.Tests.{dm_100, eight_bytes, pc_node, plc_node, sample_header}
use omron_hostlink_fins.Tests.{started_client, two_bytes}
use omron_hostlink_fins.UdpClient.{udp}
use omron_hostlink_fins.UdpClient.Answers.{answered_lem}
use omron_hostlink_fins.UdpClient.Simulator.{response_of}

tcp_listen_panics_example : tcp_listen started_client (tcp_message 5000 2 0 two_bytes) ≡ panic
tcp_listen_panics_example =
    tcp_listen_panics started_client 5000 2 two_bytes (omega arith) (omega arith) (omega arith)
      (omega arith)

tcp_listen-pack_tcp_write_command_example :
    (pack_tcp_write_command 2 eight_bytes >>= tcp_listen started_client) ≡ ok (started_client, none)
tcp_listen-pack_tcp_write_command_example =
    tcp_listen-pack_tcp_write_command started_client eight_bytes (omega arith)

abbrev a_response : Response
a_response = record {
  header = sample_header;
  command_code = 0x0101;
  end_code = 0;
  payload = of_list two_bytes;
}

tcp_listen-encode_response_example :
    tcp_listen started_client
      (tcp_message (8 + length (encode_response a_response)) 2 0 (encode_response a_response))
    ≡ ok (started_client, some (tcp_response_of a_response))
tcp_listen-encode_response_example =
    tcp_listen-encode_response started_client a_response (omega arith) (omega arith) (omega arith)

tcp_listen_joined_example :
    tcp_listen started_client (
      tcp_message (8 + length eight_bytes) 2 0 eight_bytes
      ++ tcp_message (8 + length two_bytes) 2 0 two_bytes)
    ≡ ok (started_client, none)
tcp_listen_joined_example =
    tcp_listen_joined started_client eight_bytes (tcp_message (8 + length two_bytes) 2 0 two_bytes)
      (omega arith) (omega arith)

tcp_listen_hand_shake_example :
    (tcp_listen started_client (tcp_message 16 0 0 (0 ∷ 0 ∷ 0 ∷ 34 ∷ 0 ∷ 0 ∷ 0 ∷ 10 ∷ []))
      ≡ ok (record started_client { dst = record started_client.dst { node = 10 } }, none))
    × (tcp_listen started_client (tcp_message 16 1 0 (0 ∷ 0 ∷ 0 ∷ 34 ∷ 0 ∷ 0 ∷ 0 ∷ 10 ∷ []))
        ≡ ok (started_client, none))
tcp_listen_hand_shake_example =
    tcp_listen_hand_shake started_client 16 0 0 0 34 0 0 0 10 (omega arith) (omega arith)

-- A PLC that always answers with service id 7, over UDP and behind FINS/TCP.
abbrev seventh : Unit {0} → List ℕ → Unit {0} × Reply
seventh w frame = (w, received (encode_response a_response))

abbrev tcp_seventh : Unit {0} → List ℕ → Unit {0} × Reply
tcp_seventh w frame = (
  w,
  received (tcp_message (8 + length (encode_response a_response)) 2 0 (encode_response a_response)),
)

-- A client after six commands.
abbrev sixth_client : Client
sixth_client = record started_client {
  resp = λ i. if leb 1 i && leb i 6 then some (i - 1) else none;
  made = 6;
  sid = 6;
}

-- A PLC that does not answer six commands, and the next one under service id 7.
abbrev late : ℕ → List ℕ → ℕ × Reply
late w frame = if w == 6 then (w, received (encode_response a_response)) else (w + 1, silent)

abbrev a_command : List ℕ × ℕ
a_command = (1 ∷ 1 ∷ [], command_type_read)

abbrev six_commands : List (List ℕ × ℕ)
six_commands = a_command ∷ a_command ∷ a_command ∷ a_command ∷ a_command ∷ a_command ∷ []

abbrev after_six : Client × ℕ
after_six = after_commands udp late (new_client pc_node plc_node, 0) six_commands

answered_seventh :
    (send_command udp late after_six (1 ∷ 1 ∷ []) command_type_read).1 ≡ ok (response_of a_response)
unfolding send_command next_header increment_sid await listen_reads run_out new_client
    default_command_header default_header
answered_seventh =
    ap (λ (x : (Client × ℕ) × Result Response). x.1)
      (answered_lem late after_six.0 6 6 (1 ∷ 1 ∷ []) a_response
        (record {
          live = refl;
          answers = refl;
          own = refl;
          code_fits = omega arith;
          normal = refl;
          fits = omega arith;
        })
        command_type_read)

send_command-service_id_example :
    (response_of a_response).header.service_id ≡ (length six_commands + 1) % 2 ^ 8
send_command-service_id_example =
    send_command-service_id udp udp-Listens late pc_node plc_node 0 six_commands (1 ∷ 1 ∷ [])
      command_type_read (response_of a_response) answered_seventh

after_commands-new_client_example :
    IsOwned
      (length six_commands)
      (after_commands tcp late (new_client pc_node plc_node, 0) six_commands).0
after_commands-new_client_example =
    after_commands-new_client tcp tcp-Listens late pc_node plc_node 0 six_commands

send_command-tcp_example :
    Same (send_command udp seventh (sixth_client, tt) (read_command dm_100 2) command_type_read) (
      Methods.send_command tcp_seventh (sixth_client, tt) (read_command dm_100 2) command_type_read)
send_command-tcp_example =
    send_command-tcp seventh tcp_seventh (λ w bytes. refl) sixth_client tt dm_100 2
      ((a_response, refl, omega arith, omega arith, omega arith), tt)

-- A message with an error code, and one that is longer than it says.
abbrev two_dropped : List (List ℕ)
two_dropped = tcp_message 10 2 3 two_bytes ∷ tcp_message 9 2 0 two_bytes ∷ []

abbrev after_dropped : Unit {0} → List ℕ → Unit {0} × Reply
after_dropped w frame = (
  w,
  arrivals (
      map bytes_read two_dropped
      ++ (bytes_read
            (tcp_message (8 + length (encode_response a_response)) 2 0 (encode_response a_response))
          ∷ [])),
)

send_command_after_dropped_example :
    Methods.send_command after_dropped (sixth_client, tt) (1 ∷ 1 ∷ []) command_type_read
    ≡ ((after_send sixth_client, tt), ok (tcp_response_of a_response))
unfolding new_client default_command_header default_header
send_command_after_dropped_example =
    send_command_after_dropped after_dropped sixth_client tt tt (1 ∷ 1 ∷ [])
      (tcp_message 0x1A 2 0 (encode_header (next_command_header sixth_client) ++ (1 ∷ 1 ∷ [])))
      command_type_read two_dropped a_response refl
      (unfold tcp_frame in
        pack_tcp_read_command_lem 2
          (encode_header (next_command_header sixth_client) ++ (1 ∷ 1 ∷ [])))
      (
        (
          10,
          2,
          3,
          two_bytes,
          refl,
          omega arith,
          omega arith,
          omega arith,
          omega arith,
          inl (omega arith),
        ),
        (
          (
            9,
            2,
            0,
            two_bytes,
            refl,
            omega arith,
            omega arith,
            omega arith,
            omega arith,
            inr (omega arith),
          ),
          tt,
        ),
      )
      refl refl (omega arith) (omega arith) (omega arith)
