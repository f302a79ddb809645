-- ===== src/TcpClient/Listening.antt =====
-- fins/client_tcp.go: what `listenLoop` makes of the bytes of one read.
use mathlib.Core.Path.{ap₂}
use omron_hostlink_fins.Bytes.Parse.{parse_uint32}
use omron_hostlink_fins.Client.{Client}
use omron_hostlink_fins.Common.{List, [], ap, arith, drop, false, inr, length, length-append}
use omron_hostlink_fins.Common.{length-drop, length-replicate, ltb, ltb-false, lt→ltb, min}
use omron_hostlink_fins.Common.{none, of_list, ok, panic, refl, replicate, reslice_lem}
use omron_hostlink_fins.Common.{reslice_outside, some, true, ℕ, ◌++◌, ◌+◌, ◌-◌, ◌<◌, ◌==◌}
use omron_hostlink_fins.Common.{◌>>=◌, ◌^◌, ◌∙◌, ◌∷◌, ◌≡◌, ◌≢◌, ◌≤◌}
use omron_hostlink_fins.Common.Binary.{big_endian, uint32_bytes}
use omron_hostlink_fins.Common.Words.{IsUint32, to_uint32}
use omron_hostlink_fins.Driver.Frames.{decode_response}
use omron_hostlink_fins.TcpClient.{dispatch, pack_tcp_write_command, tcp_listen}
use omron_hostlink_fins.TcpClient.{tcp_listen_buffer}
use omron_hostlink_fins.TcpClient.Framing.{pack_tcp_write_command_lem, tcp_message}
use omron_hostlink_fins.UdpClient.{receive_size}
use omron_hostlink_fins.Utils.Copies.{copy_shorter}

parse_uint32-bytes :
    (v : ℕ) (rest : List ℕ) → IsUint32 v → parse_uint32 (uint32_bytes big_endian v ++ rest) ≡ ok v
unfolding parse_uint32
parse_uint32-bytes v rest h = ap ok (omega arith)

-- A message with an error code is dropped.
pub listen_status :
    (c : Client) (field cmd status n : ℕ) (body : List ℕ)
    → IsUint32 field
    → IsUint32 cmd
    → IsUint32 status
    → status ≢ 0
    → tcp_listen_buffer c (tcp_message field cmd status body) n ≡ ok (c, none)
unfolding tcp_listen_buffer
listen_status c field cmd status n body hf hc hs bad =
    let nonzero : (status == 0) ≡ false = ground arith in
    rw (
      parse_uint32-bytes status body hs,
      parse_uint32-bytes field _ hf,
      parse_uint32-bytes cmd _ hc,
      nonzero,
    )

module _ (c : Client) (field cmd n : ℕ) (body : List ℕ) (hf : IsUint32 field)
    (hc : IsUint32 cmd) where
  abbrev buf : List ℕ
  buf = tcp_message field cmd 0 body

  -- A read that is longer than its message says is dropped too.
  pub listen_long : field + 8 < n → tcp_listen_buffer c buf n ≡ ok (c, none)
  unfolding tcp_listen_buffer
  listen_long long = rw (
    parse_uint32-bytes 0 body (omega arith),
    parse_uint32-bytes field _ hf,
    parse_uint32-bytes cmd _ hc,
    lt→ltb _ _ long,
  )

  -- A length field past the buffer's end makes the slice expression panic.
  pub listen_panic :
      n ≤ field + 8
      → length buf < field + 8
      → field + 8 < 2 ^ 32
      → tcp_listen_buffer c buf n ≡ panic
  unfolding tcp_listen_buffer
  listen_panic short past fits =
      let whole : to_uint32 (field + 8) ≡ field + 8 = omega arith in
      rw (
        parse_uint32-bytes 0 body (omega arith),
        parse_uint32-bytes field _ hf,
        parse_uint32-bytes cmd _ hc,
        ltb-false _ _ short,
        whole,
        reslice_outside (of_list buf) 0 (field + 8) (inr past),
      )

  -- A message that passes both tests goes to the branches on its command.
  pub listen_dispatch :
      n ≤ field + 8
      → field + 8 ≤ length buf
      → length buf < 2 ^ 32
      → tcp_listen_buffer c buf n ≡ dispatch c buf n cmd
  unfolding tcp_listen_buffer
  listen_dispatch short inside small =
      let whole : to_uint32 (field + 8) ≡ field + 8 = omega arith in
      rw (
        parse_uint32-bytes 0 body (omega arith),
        parse_uint32-bytes field _ hf,
        parse_uint32-bytes cmd _ hc,
        ltb-false _ _ short,
        whole,
        reslice_lem (of_list buf) 0 (field + 8) (omega arith) inside,
      )

-- The buffer that a whole message of at most 2048 bytes leaves.
pub listen_whole :
    (c : Client) (field cmd status : ℕ) (body : List ℕ)
    → 16 + length body ≤ receive_size
    → tcp_listen c (tcp_message field cmd status body)
      ≡ tcp_listen_buffer c
          (tcp_message field cmd status
            (body ++ drop (16 + length body) (replicate receive_size 0)))
          (16 + length body)
unfolding tcp_listen
listen_whole c field cmd status body small =
    let f = tcp_message field cmd status body in
    let size : length f ≡ 16 + length body = omega arith in
    let zeros = length-replicate {A = ℕ} receive_size 0 in
    let seen : min receive_size (length f) ≡ 16 + length body = omega arith in
    let some_read : ltb 0 (min receive_size (length f)) ≡ true = lt→ltb 0 _ (omega arith) in
    let filled = copy_shorter (replicate receive_size 0) f (omega arith) in
    rw some_read (
      ap₂ (tcp_listen_buffer c)
        (filled ∙ ap (λ (k : ℕ). f ++ drop k (replicate receive_size 0)) size) seen)

-- The answer to a read or write is decoded from what follows the first sixteen bytes of a message
-- whose length field counts those that follow it.
pub tcp_listen_response :
    (c : Client) (body : List ℕ)
    → 16 + length body ≤ receive_size
    → tcp_listen c (tcp_message (8 + length body) 2 0 body) ≡ (
        decode_response (record {
          cells = body ++ drop (16 + length body) (replicate receive_size 0);
          len = length body;
        })
        >>= λ ans. ok (c, some ans))
unfolding dispatch
tcp_listen_response c body small =
    let tail = drop (16 + length body) (replicate {A = ℕ} receive_size 0) in
    let b = body ++ tail in
    let buf = tcp_message (8 + length body) 2 0 b in
    let sizes : length b ≡ receive_size - 16 = omega (
      arith,
      length-append body tail,
      length-drop (16 + length body) (replicate {A = ℕ} receive_size 0),
      length-replicate {A = ℕ} receive_size 0,
    ) in
    let left : 16 + length body - 16 ≡ length body = omega arith in
    listen_whole c (8 + length body) 2 0 body small
    ∙ listen_dispatch c (8 + length body) 2 (16 + length body) b (omega arith) (omega arith)
        (omega arith) (omega arith) (omega arith)
    ∙ rw (reslice_lem (of_list buf) 16 (16 + length body) (omega arith) (omega arith), left)

-- A message with error code 0, an eight-byte body and a length field between 16 and 2040: with
-- command 0 the listener takes the last byte of the body for the node that commands go to, and
-- changes nothing else; with command 1, that of the answer to a handshake in FINS/TCP, it changes
-- nothing at all.
pub tcp_listen_hand_shake :
    (c : Client) (field x0 x1 x2 client_node y0 y1 y2 server_node : ℕ)
    → 16 ≤ field
    → field ≤ receive_size - 8
    → (tcp_listen c
          (tcp_message field 0 0 (x0 ∷ x1 ∷ x2 ∷ client_node ∷ y0 ∷ y1 ∷ y2 ∷ server_node ∷ []))
        ≡ ok (record c { dst = record c.dst { node = server_node } }, none))
      × (tcp_listen c
            (tcp_message field 1 0 (x0 ∷ x1 ∷ x2 ∷ client_node ∷ y0 ∷ y1 ∷ y2 ∷ server_node ∷ []))
          ≡ ok (c, none))
unfolding dispatch
tcp_listen_hand_shake c field x0 x1 x2 client_node y0 y1 y2 server_node lo hi =
    let body : List ℕ = x0 ∷ x1 ∷ x2 ∷ client_node ∷ y0 ∷ y1 ∷ y2 ∷ server_node ∷ [] in
    let tail = drop 24 (replicate {A = ℕ} receive_size 0) in
    (
      listen_whole c field 0 0 body (omega arith)
          ∙ listen_dispatch c field 0 24 (body ++ tail) (omega arith) (omega arith) (omega arith)
              (omega arith) (omega arith)
          ∙ refl,
      listen_whole c field 1 0 body (omega arith)
          ∙ listen_dispatch c field 1 24 (body ++ tail) (omega arith) (omega arith) (omega arith)
              (omega arith) (omega arith)
          ∙ refl,
    )

-- A message of at most 2048 bytes with error code 0 and a 32-bit command, whose length field plus 8
-- is more than 2048 and less than 2^32, makes the listener panic, which ends the process.
pub tcp_listen_panics :
    (c : Client) (field cmd : ℕ) (body : List ℕ)
    → 16 + length body ≤ receive_size
    → receive_size < field + 8
    → field + 8 < 2 ^ 32
    → IsUint32 cmd
    → tcp_listen c (tcp_message field cmd 0 body) ≡ panic
tcp_listen_panics c field cmd body small past fits hc =
    let tail = drop (16 + length body) (replicate {A = ℕ} receive_size 0) in
    let size : length (body ++ tail) ≡ receive_size - 16 = omega (
      arith,
      length-append body tail,
      length-drop (16 + length body) (replicate {A = ℕ} receive_size 0),
      length-replicate {A = ℕ} receive_size 0,
    ) in
    listen_whole c field cmd 0 body small
    ∙ listen_panic c field cmd (16 + length body) (body ++ tail) (omega arith) hc (omega arith)
        (omega arith) fits

-- The listener would drop every frame that `packTcpWriteCommand` makes of a payload that fits 2048
-- bytes with its header, as longer than its length field says: the field leaves out the eight bytes
-- of command and error code.
pub tcp_listen-pack_tcp_write_command :
    (c : Client) (payload : List ℕ)
    → 16 + length payload ≤ receive_size
    → (pack_tcp_write_command 2 payload >>= tcp_listen c) ≡ ok (c, none)
tcp_listen-pack_tcp_write_command c payload small =
    let tail = drop (16 + length payload) (replicate {A = ℕ} receive_size 0) in
    let field : to_uint32 (length payload) ≡ length payload = omega arith in
    rw (pack_tcp_write_command_lem 2 payload, field)
      (listen_whole c (length payload) 2 0 payload small
        ∙ listen_long c (length payload) 2 (16 + length payload) (payload ++ tail) (omega arith)
            (omega arith) (omega arith))
