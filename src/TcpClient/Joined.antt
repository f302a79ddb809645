-- ===== src/TcpClient/Joined.antt =====
-- fins/client_tcp.go: what `listenLoop` makes of a read that has more than one message.
use omron_hostlink_fins.Client.{Client}
use omron_hostlink_fins.Common.{List, arith, drop, length, length-append, none, ok, replicate}
use omron_hostlink_fins.Common.{ℕ, ◌++◌, ◌+◌, ◌<◌, ◌∙◌, ◌≡◌, ◌≤◌}
use omron_hostlink_fins.TcpClient.{tcp_listen}
use omron_hostlink_fins.TcpClient.Framing.{tcp_message}
use omron_hostlink_fins.TcpClient.Listening.{listen_long, listen_whole}
use omron_hostlink_fins.UdpClient.{receive_size}

-- A message of an answer whose length field counts what follows it, and anything that TCP delivers in
-- the same read behind it, such as the next message: the listener drops both, as long as they fit
-- its buffer.
pub tcp_listen_joined :
    (c : Client) (body more : List ℕ)
    → 0 < length more
    → 16 + length body + length more ≤ receive_size
    → tcp_listen c (tcp_message (8 + length body) 2 0 body ++ more) ≡ ok (c, none)
tcp_listen_joined c body more some_more small =
    let whole = body ++ more in
    let counted = length-append body more in
    let tail = drop (16 + length whole) (replicate {A = ℕ} receive_size 0) in
    listen_whole c (8 + length body) 2 0 whole (omega (arith, counted))
    ∙ listen_long c (8 + length body) 2 (16 + length whole) (whole ++ tail) (omega arith)
        (omega arith) (omega (arith, counted))
