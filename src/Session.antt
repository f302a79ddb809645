-- ===== src/Session.antt =====
-- The clients (fins/client_udp.go, fins/client_tcp.go) in a session with the simulator
-- (fins/udp_server.go), over any transport that carries frames to it and its answers back.
pub mod Exchanges
pub mod Words
pub mod Scalars
pub mod Strings
pub mod Bits
pub mod Memory
pub mod Refusals
use omron_hostlink_fins.Client.{Client, Reply, Transport, increment_sid, next_header, received}
use omron_hostlink_fins.Client.{store_channel}
use omron_hostlink_fins.Client.Send.{await, deliver, listen_reads, same_channel, send_command}
use omron_hostlink_fins.Common.{List, Slice, arith, contents, drop, length, ok, some, true, ℕ}
use omron_hostlink_fins.Common.{◌*◌, ◌++◌, ◌+◌, ◌==◌, ◌^◌, ◌∷◌, ◌≡◌, ◌≤◌}
use omron_hostlink_fins.Common.Words.{IsUint16, to_byte}
use omron_hostlink_fins.Driver.Commands.{MemoryAddress}
use omron_hostlink_fins.Driver.Frames.{Request, Response, encode_header}
use omron_hostlink_fins.Driver.Frames.Headers.{as_decoded}
use omron_hostlink_fins.Header.{Header, default_command_header, default_response_header}
use omron_hostlink_fins.MemoryArea.{memory_area_dm_word}
use omron_hostlink_fins.Server.{Loop, Server, handler, server_buf_size}
use omron_hostlink_fins.Server.Bounds.{IsSized}
use omron_hostlink_fins.Server.ReadWrite.{answer}
use omron_hostlink_fins.UdpClient.{receive_size}

-- The request that the simulator reads from a frame: behind the frame its buffer still holds what
-- older datagrams left there.
abbrev pub request_of : Loop → Header → ℕ → List ℕ → Request
request_of l h code parameters = record {
  header = as_decoded h;
  command_code = code;
  payload = record {
    cells = parameters ++ drop (12 + length parameters) l.buf;
    len = length parameters;
  };
}

-- The response that a listener reads from an answer: its data has what `slack` says behind it, up to
-- the end of the buffer that it was received in.
abbrev pub heard : (ℕ → List ℕ) → Response → Response
heard slack resp =
    let found = contents resp.payload in
    record {
      header = as_decoded resp.header;
      command_code = resp.command_code;
      end_code = resp.end_code;
      payload = record { cells = found ++ slack (length found); len = length found };
    }

-- A transport and another side of it behind which the simulator stands: the frame of a command that
-- the simulator handles comes back as its response. An answer has `overhead` bytes and its data.
pub record Link (t : Transport) (peer : Loop → List ℕ → Loop × Reply) : Type 0 where
  pub overhead : ℕ
  pub slack : ℕ → List ℕ
  pub overhead_small : overhead ≤ receive_size
  pub answers :
      (c : Client) (l : Loop) (h : Header) (a b command_type : ℕ) (parameters : List ℕ)
      (s' : Server) (resp : Response)
      → length l.buf ≡ server_buf_size
      → 12 + length parameters ≤ server_buf_size
      → handler l.server (request_of l h (a * 2 ^ 8 + b) parameters) ≡ ok (s', resp)
      → IsUint16 resp.command_code
      → IsUint16 resp.end_code
      → overhead + length (contents resp.payload) ≤ receive_size
      → (l' : Loop) × (framed : List ℕ) × (bytes : List ℕ) × (t.frame
            (encode_header h ++ (a ∷ b ∷ parameters))
            command_type
          ≡ ok framed)
        × (peer l framed ≡ (l', received bytes))
        × (t.listen c bytes ≡ ok (c, some (heard slack resp)))
        × (l'.server ≡ s')
        × (length l'.buf ≡ server_buf_size)

-- The header of the client's next command, and the client that has sent it.
abbrev pub next_command_header : Client → Header
next_command_header c = default_command_header c.src c.dst (to_byte (c.sid + 1))

abbrev pub after_send : Client → Client
after_send c = record c {
  resp = store_channel c.resp (to_byte (c.sid + 1)) c.made;
  made = c.made + 1;
  sid = to_byte (c.sid + 1);
}

-- The cell of a command's id holds the channel that it waits on.
pub own_cell :
    (c : Client)
    → same_channel
        ((after_send c).resp (to_byte (c.sid + 1)))
        ((after_send c).resp (to_byte (c.sid + 1)))
      ≡ true
own_cell c =
    let cell : (to_byte (c.sid + 1) == to_byte (c.sid + 1)) ≡ true = ground arith in
    let channel : (c.made == c.made) ≡ true = ground arith in rw (cell, channel)

-- A client and a simulator between two commands.
pub record IsReady (c : Client) (l : Loop) : Type 0 where
  pub live : c.listening ≡ true
  pub room : length l.buf ≡ server_buf_size
  pub sized : IsSized l.server

abbrev pub dm : ℕ → MemoryAddress
dm address = record { memory_area = memory_area_dm_word; address = address; bit_offset = 0 }

module _ {t : Transport} {peer : Loop → List ℕ → Loop × Reply} (link : Link t peer) (c : Client)
    (l : Loop) (a b command_type : ℕ) (parameters : List ℕ) (s' : Server) (code end : ℕ)
    (found : Slice) (live : c.listening ≡ true) (room : length l.buf ≡ server_buf_size)
    (small : 12 + length parameters ≤ server_buf_size)
    (handled : handler l.server (request_of l (next_command_header c) (a * 2 ^ 8 + b) parameters)
      ≡ ok (s', answer (as_decoded (next_command_header c)) code end found))
    (hc : IsUint16 code) (he : IsUint16 end)
    (fits : link.overhead + length (contents found) ≤ receive_size) where
  abbrev answered : Response
  answered = answer (as_decoded (next_command_header c)) code end found

  -- A command that the simulator handles comes back as a response to its own service id.
  pub send_command_lem :
      (l' : Loop) × (send_command t peer (c, l) (a ∷ b ∷ parameters) command_type
        ≡ ((after_send c, l'), ok (heard link.slack answered)))
      × (l'.server ≡ s')
      × (length l'.buf ≡ server_buf_size)
  unfolding send_command next_header increment_sid await listen_reads deliver
      default_response_header default_command_header
  send_command_lem =
      let (l', framed, bytes, e1, e2, e3, same, size) =
        link.answers (after_send c) l (next_command_header c) a b command_type parameters s'
          answered room small handled hc he fits in
      (l', rw (e1, e2, e3, own_cell c, live), same, size)
