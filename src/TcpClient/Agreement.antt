-- ===== src/TcpClient/Agreement.antt =====
-- fins/client_tcp.go and fins/client_udp.go: the same other side, seen through the two transports.
use omron_hostlink_fins.TcpClient.Methods
use omron_hostlink_fins.Client.{Arrival, Client, Reply, arrivals, bytes_read}
use omron_hostlink_fins.Client.{command_type_read, increment_sid, next_header, read_failed}
use omron_hostlink_fins.Client.{write_blocked, write_failed}
use omron_hostlink_fins.Client.Send.{await, deliver, listen_reads, run_out, same_channel}
use omron_hostlink_fins.Client.Send.{send_command}
use omron_hostlink_fins.Common.{All, Bool, Bool-cases, List, Result, [], ap, arith, contents}
use omron_hostlink_fins.Common.{err, false, hang, if◌then◌else◌, inl, inr, length, ltb, map}
use omron_hostlink_fins.Common.{ok, panic, refl, some, sym, take-append, true, ℕ, ◌++◌, ◌+◌}
use omron_hostlink_fins.Common.{◌∙◌, ◌∷◌, ◌≡◌, ◌≤◌}
use omron_hostlink_fins.Common.Int.{negsuc, pos, ℤ}
use omron_hostlink_fins.Common.Words.{IsUint16, to_byte}
use omron_hostlink_fins.Driver.Commands.{MemoryAddress, read_command, read_command_lem}
use omron_hostlink_fins.Driver.Frames.{Response, encode_header, encode_response}
use omron_hostlink_fins.Driver.Frames.Codec.{length-encode_header}
use omron_hostlink_fins.Header.{default_command_header}
use omron_hostlink_fins.Session.{after_send, heard, next_command_header}
use omron_hostlink_fins.TcpClient.{pack_tcp_read_command, tcp, tcp_frame, tcp_listen}
use omron_hostlink_fins.TcpClient.Answers.{tcp_listen-encode_response, tcp_slack}
use omron_hostlink_fins.TcpClient.Framing.{pack_tcp_read_command_lem, tcp_message}
use omron_hostlink_fins.UdpClient.{receive_size, udp, udp_listen}
use omron_hostlink_fins.UdpClient.Simulator.{udp_listen_lem, udp_slack}

-- Two responses with the same header, codes and data.
pub record SameResponse (r r' : Response) : Type 0 where
  pub same_header : r.header ≡ r'.header
  pub same_command_code : r.command_code ≡ r'.command_code
  pub same_end_code : r.end_code ≡ r'.end_code
  pub same_data : contents r.payload ≡ contents r'.payload

abbrev pub Agree : Result Response → Result Response → Type 0
Agree (ok r) (ok r') = SameResponse r r'
Agree (err e) (err e') = e ≡ e'
Agree panic panic = Unit
Agree hang hang = Unit
Agree _ _ = ⊥

-- A read of the answer of a PLC that fits one read of either listener, or a read that fails.
abbrev pub IsFinsArrival : Arrival → Type 0
IsFinsArrival (bytes_read bytes) =
    (r : Response) × (bytes ≡ encode_response r)
    × IsUint16 r.command_code
    × IsUint16 r.end_code
    × (30 + length (contents r.payload) ≤ receive_size)
IsFinsArrival read_failed = Unit

abbrev pub IsFinsReply : Reply → Type 0
IsFinsReply (arrivals reads_made) = All IsFinsArrival reads_made
IsFinsReply _ = Unit

-- The same answers with the sixteen bytes of FINS/TCP before each: command 2, error code 0 and a
-- length that counts what follows it.
abbrev pub wrapped_arrival : Arrival → Arrival
wrapped_arrival (bytes_read bytes) = bytes_read (tcp_message (8 + length bytes) 2 0 bytes)
wrapped_arrival read_failed = read_failed

abbrev pub wrapped : Reply → Reply
wrapped (arrivals reads_made) = arrivals (map wrapped_arrival reads_made)
wrapped reply = reply

-- Equal states and results that agree.
abbrev pub Same : {W : Type 0} → W × Result Response → W × Result Response → Type 0
Same (s, x) (s', x') = (s ≡ s') × Agree x x'

Agree-run_out : (limit : ℤ) → Agree (run_out limit) (run_out limit)
unfolding run_out
Agree-run_out (pos n) = elim (Bool-cases (ltb 0 n)) [ inl e ↦ rw e refl | inr e ↦ rw e tt ]
Agree-run_out (negsuc n) = tt

SameResponse-heard : (r : Response) → SameResponse (heard udp_slack r) (heard tcp_slack r)
SameResponse-heard r =
    let found = contents r.payload in
    record {
      same_header = refl;
      same_command_code = refl;
      same_end_code = refl;
      same_data =
          take-append (length found) found (udp_slack (length found)) refl
          ∙ sym (take-append (length found) found (tcp_slack (length found)) refl);
    }

-- One response, heard through both transports.
Agree-deliver :
    (c : Client) (sid : ℕ) (r : Response)
    → Same (deliver c sid (heard udp_slack r)) (deliver c sid (heard tcp_slack r))
unfolding deliver
Agree-deliver c sid r = elim (Bool-cases (same_channel (c.resp r.header.service_id) (c.resp sid))) [
  | inl e ↦ rw e (refl, SameResponse-heard r)
  | inr e ↦ rw e (refl, Agree-run_out c.response_timeout_ms)
]

Same-if :
    (b : Bool) (x y z : Client × Result Response)
    → Same x y
    → Same z z
    → Same (if b then x else z) (if b then y else z)
Same-if true x y z same rest = same
Same-if false x y z same rest = rest

-- The same reads, through both transports.
Agree-listen_reads :
    (sid : ℕ) (reads_made : List Arrival) (c : Client)
    → All IsFinsArrival reads_made
    → Same
        (listen_reads udp sid reads_made c)
        (listen_reads tcp sid (map wrapped_arrival reads_made) c)
unfolding listen_reads
Agree-listen_reads sid [] c h = (refl, Agree-run_out c.response_timeout_ms)
Agree-listen_reads sid (read_failed ∷ more) c h = (refl, Agree-run_out c.response_timeout_ms)
Agree-listen_reads sid (bytes_read bytes ∷ more) c ((r, same, hc, he, small), h) =
    let over_udp : udp_listen c bytes ≡ ok (c, some (heard udp_slack r)) =
      rw same (udp_listen_lem c r hc he (omega arith)) in
    let over_tcp : tcp_listen c (tcp_message (8 + length bytes) 2 0 bytes)
        ≡ ok (c, some (heard tcp_slack r)) =
      rw same (tcp_listen-encode_response c r hc he small) in
    rw (over_udp, over_tcp) (Agree-deliver c sid r)

-- One reply, awaited through both transports.
Agree-await :
    (c : Client) (sid : ℕ) (reply : Reply)
    → IsFinsReply reply
    → Same (await udp c sid reply) (await tcp c sid (wrapped reply))
unfolding await
Agree-await c sid (write_failed e) h = (refl, refl)
Agree-await c sid write_blocked h = (refl, tt)
Agree-await c sid (arrivals reads_made) h =
    Same-if c.listening _ _ _ (Agree-listen_reads sid reads_made c h)
      (refl, Agree-run_out c.response_timeout_ms)

-- `tcp_peer` is the PLC that `peer` is over UDP, behind FINS/TCP: a frame with the letters FINS, a
-- length that counts what follows it, command 2 and error code 0 is answered with the same answers,
-- each in such a frame. Of other frames nothing is known.
module _ {W : Type 0} (peer tcp_peer : W → List ℕ → W × Reply)
    (speaks_tcp : (w : W) (bytes : List ℕ)
      → tcp_peer w (tcp_message (8 + length bytes) 2 0 bytes)
        ≡ ((peer w bytes).0, wrapped (peer w bytes).1)) where
  -- For a PLC that is reached over UDP, and over FINS/TCP by well-formed frames: a memory read over
  -- UDP and the same read over TCP leave the same client and the same PLC, and their results agree,
  -- the same error or a response with the same header, codes and data, when each read of the
  -- listener is a response with 16-bit codes that fits it, or fails.
  pub send_command-tcp :
      (c : Client) (w : W) (mem : MemoryAddress) (count : ℕ)
      → IsFinsReply (peer w (encode_header (next_command_header c) ++ read_command mem count)).1
      → Same
          (send_command udp peer (c, w) (read_command mem count) command_type_read)
          (Methods.send_command tcp_peer (c, w) (read_command mem count) command_type_read)
  unfolding send_command Methods.send_command next_header increment_sid default_command_header
      tcp_frame
  send_command-tcp c w mem count fins =
      let frame = encode_header (next_command_header c) ++ read_command mem count in
      let size : length frame ≡ 18 =
        length-encode_header (next_command_header c) (read_command mem count)
        ∙ ap (λ (xs : List ℕ). 10 + length xs) (read_command_lem mem count) in
      let field : 8 + length frame ≡ 0x1A = omega (arith, size) in
      let framed : pack_tcp_read_command 2 frame ≡ ok (tcp_message (8 + length frame) 2 0 frame) =
        rw field (pack_tcp_read_command_lem 2 frame) in
      let agree = Agree-await (after_send c) (to_byte (c.sid + 1)) (peer w frame).1 fins in
      rw (framed, speaks_tcp w frame)
        ((ap (λ (x : Client). (x, (peer w frame).0)) agree.0, agree.1))
