-- ===== src/Interface.antt =====
-- fins/client.go: the interface that both clients implement. A method acts on a state, the client's and
-- that of what it is connected to; `listenLoop`, the goroutine, is the `listen` of a `Transport`.
use omron_hostlink_fins.Client
use omron_hostlink_fins.Client.Read
use omron_hostlink_fins.Client.Send
use omron_hostlink_fins.Client.Write
use omron_hostlink_fins.TcpClient.Methods
use omron_hostlink_fins.Client.{Client, Reply}
use omron_hostlink_fins.Client.Read.{Clock}
use omron_hostlink_fins.Common.{Bool, List, Result, Slice, ℕ}
use omron_hostlink_fins.Common.Binary.{ByteOrder}
use omron_hostlink_fins.Common.Int.{ℤ}
use omron_hostlink_fins.Driver.Frames.{Response}
use omron_hostlink_fins.Header.{Header}
use omron_hostlink_fins.UdpClient.{udp}

pub record ClientInterface (S : Type 0) : Type 0 where
  pub set_byte_order : S → ByteOrder → S
  pub set_timeout_ms : S → ℕ → S
  pub close : S → S
  pub read_int16 : S → ℕ → ℕ → ℕ → Bool → Bool → S × Result (List ℕ × ℤ)
  pub read_uint16 : S → ℕ → ℕ → ℕ → Bool → Bool → S × Result (List ℕ × ℕ)
  pub read_int32 : S → ℕ → ℕ → ℕ → Bool → Bool → S × Result (List ℕ × ℤ)
  pub read_uint32 : S → ℕ → ℕ → ℕ → Bool → Bool → S × Result (List ℕ × ℕ)
  pub read_float32 : S → ℕ → ℕ → ℕ → Bool → Bool → S × Result (List ℕ × ℕ)
  pub read_words : S → ℕ → ℕ → ℕ → S × Result (List ℕ)
  pub read_bytes : S → ℕ → ℕ → ℕ → S × Result Slice
  pub read_string : S → ℕ → ℕ → ℕ → S × Result (List ℕ)
  pub read_bits : S → ℕ → ℕ → ℕ → ℕ → S × Result (List Bool)
  pub read_clock : S → S × Result Clock
  pub write_uint16 : S → ℕ → ℕ → ℕ → Bool → Bool → S × Result (Unit {0})
  pub write_int16 : S → ℕ → ℕ → ℤ → Bool → Bool → S × Result (Unit {0})
  pub write_uint32 : S → ℕ → ℕ → ℕ → Bool → Bool → S × Result (Unit {0})
  pub write_int32 : S → ℕ → ℕ → ℤ → Bool → Bool → S × Result (Unit {0})
  pub write_float32 : S → ℕ → ℕ → ℕ → Bool → Bool → S × Result (Unit {0})
  pub write_words : S → ℕ → ℕ → List ℕ → S × Result (Unit {0})
  pub write_string : S → ℕ → ℕ → List ℕ → S × Result (Unit {0})
  pub write_bytes : S → ℕ → ℕ → List ℕ → S × Result (Unit {0})
  pub write_bits : S → ℕ → ℕ → ℕ → List Bool → S × Result (Unit {0})
  pub next_header : S → S × Header
  pub increment_sid : S → S × ℕ
  pub send_command : S → List ℕ → ℕ → S × Result Response

module _ {W : Type 0} (peer : W → List ℕ → W × Reply) where
  -- `UdpClient` as an implementation.
  abbrev pub udp_client : ClientInterface (Client × W)
  udp_client = record {
    set_byte_order = λ s order. (Client.set_byte_order s.0 order, s.1);
    set_timeout_ms = λ s t. (Client.set_timeout_ms s.0 t, s.1);
    close = λ s. (Client.close s.0, s.1);
    read_int16 = Read.read_int16 udp peer;
    read_uint16 = Read.read_uint16 udp peer;
    read_int32 = Read.read_int32 udp peer;
    read_uint32 = Read.read_uint32 udp peer;
    read_float32 = Read.read_float32 udp peer;
    read_words = Read.read_words udp peer;
    read_bytes = Read.read_bytes udp peer;
    read_string = Read.read_string udp peer;
    read_bits = Read.read_bits udp peer;
    read_clock = Read.read_clock udp peer;
    write_uint16 = Write.write_uint16 udp peer;
    write_int16 = Write.write_int16 udp peer;
    write_uint32 = Write.write_uint32 udp peer;
    write_int32 = Write.write_int32 udp peer;
    write_float32 = Write.write_float32 udp peer;
    write_words = Write.write_words udp peer;
    write_string = Write.write_string udp peer;
    write_bytes = Write.write_bytes udp peer;
    write_bits = Write.write_bits udp peer;
    next_header = λ s. let (c', h) = Client.next_header s.0 in ((c', s.1), h);
    increment_sid = λ s. let (c', sid) = Client.increment_sid s.0 in ((c', s.1), sid);
    send_command = Send.send_command udp peer;
  }

  -- `TcpClient` as an implementation.
  abbrev pub tcp_client : ClientInterface (Client × W)
  tcp_client = record {
    set_byte_order = λ s order. (Methods.set_byte_order s.0 order, s.1);
    set_timeout_ms = λ s t. (Methods.set_timeout_ms s.0 t, s.1);
    close = λ s. (Methods.close s.0, s.1);
    read_int16 = Methods.read_int16 peer;
    read_uint16 = Methods.read_uint16 peer;
    read_int32 = Methods.read_int32 peer;
    read_uint32 = Methods.read_uint32 peer;
    read_float32 = Methods.read_float32 peer;
    read_words = Methods.read_words peer;
    read_bytes = Methods.read_bytes peer;
    read_string = Methods.read_string peer;
    read_bits = Methods.read_bits peer;
    read_clock = Methods.read_clock peer;
    write_uint16 = Methods.write_uint16 peer;
    write_int16 = Methods.write_int16 peer;
    write_uint32 = Methods.write_uint32 peer;
    write_int32 = Methods.write_int32 peer;
    write_float32 = Methods.write_float32 peer;
    write_words = Methods.write_words peer;
    write_string = Methods.write_string peer;
    write_bytes = Methods.write_bytes peer;
    write_bits = Methods.write_bits peer;
    next_header = λ s. let (c', h) = Methods.next_header s.0 in ((c', s.1), h);
    increment_sid = λ s. let (c', sid) = Methods.increment_sid s.0 in ((c', s.1), sid);
    send_command = Methods.send_command peer;
  }
