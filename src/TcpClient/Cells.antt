-- ===== src/TcpClient/Cells.antt =====
-- fins/client_tcp.go and fins/client_udp.go: `listenLoop` leaves the cells of `resp` alone.
use omron_hostlink_fins.Bytes.Parse.{parse_uint32}
use omron_hostlink_fins.Client.{Client}
use omron_hostlink_fins.Client.Cells.{>>=-Listens, KeepsCells, Listens, Listens-if, Listens-ok}
use omron_hostlink_fins.Common.{List, contents, drop, index, length, ltb, min, none, not}
use omron_hostlink_fins.Common.{of_list, refl, reslice, slice_from, some, ℕ, ◌+◌, ◌==◌}
use omron_hostlink_fins.Common.Words.{to_uint32}
use omron_hostlink_fins.Driver.Frames.{decode_response}
use omron_hostlink_fins.TcpClient.{dispatch, tcp_listen, tcp_listen_buffer}
use omron_hostlink_fins.UdpClient.{receive_size, received_slice, udp_listen}

pub udp-Listens : (c : Client) (bytes : List ℕ) → Listens c (udp_listen c bytes)
unfolding udp_listen
udp-Listens c bytes =
    let same : KeepsCells c c = record { same_resp = refl; same_made = refl; same_sid = refl } in
    let buf = received_slice bytes in
    Listens-if c (ltb 0 buf.len) _ _
      (>>=-Listens c (decode_response buf) _ (λ ans. Listens-ok c c (some ans) same))
      (Listens-ok c c none same)

dispatch-Listens :
    (c : Client) (buf : List ℕ) (n command : ℕ) → Listens c (dispatch c buf n command)
unfolding dispatch
dispatch-Listens c buf n command =
    let same : KeepsCells c c = record { same_resp = refl; same_made = refl; same_sid = refl } in
    Listens-if c (command == 0) _ _
      (>>=-Listens c (slice_from (of_list buf) 23) _ λ server_node.
        >>=-Listens c (index (contents server_node) 0) _ λ node.
          Listens-ok c (record c { dst = record c.dst { node = node } }) none
            (record { same_resp = refl; same_made = refl; same_sid = refl }))
      (Listens-if c (command == 2) _ _
        (>>=-Listens c (reslice (of_list buf) 16 n) _
          λ body. >>=-Listens c (decode_response body) _ λ ans. Listens-ok c c (some ans) same)
        (Listens-ok c c none same))

tcp_listen_buffer-Listens :
    (c : Client) (buf : List ℕ) (n : ℕ) → Listens c (tcp_listen_buffer c buf n)
unfolding tcp_listen_buffer
tcp_listen_buffer-Listens c buf n =
    let same : KeepsCells c c = record { same_resp = refl; same_made = refl; same_sid = refl } in
    >>=-Listens c (parse_uint32 (drop 12 buf)) _ λ status.
      >>=-Listens c (parse_uint32 (drop 4 buf)) _ λ field.
        >>=-Listens c (parse_uint32 (drop 8 buf)) _ λ command.
          Listens-if c (not (status == 0)) _ _ (Listens-ok c c none same) (
            Listens-if c (ltb (field + 8) n) _ _ (Listens-ok c c none same) (
              >>=-Listens c (reslice (of_list buf) 0 (to_uint32 (field + 8))) _
                λ printed. dispatch-Listens c buf n command))

pub tcp-Listens : (c : Client) (bytes : List ℕ) → Listens c (tcp_listen c bytes)
unfolding tcp_listen
tcp-Listens c bytes =
    let same : KeepsCells c c = record { same_resp = refl; same_made = refl; same_sid = refl } in
    Listens-if c (ltb 0 (min receive_size (length bytes))) _ _ (tcp_listen_buffer-Listens c _ _)
      (Listens-ok c c none same)
