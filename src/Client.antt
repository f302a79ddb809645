-- ===== src/Client.antt =====
-- fins/client.go, and the state and the set-up that fins/client_udp.go and fins/client_tcp.go share.
-- The two clients differ in how they frame a command and in how they read what arrives: those two
-- functions are the record `Transport`, and the methods are written once over it.
pub mod Send
pub mod Read
pub mod Write
pub mod Words
pub mod Cells
pub mod Waiting
pub mod Data
pub mod Clock
pub mod Channels
use omron_hostlink_fins.Address.{FinsAddress}
use omron_hostlink_fins.Common.{Bool, List, Option, Result, [], err, false, hang}
use omron_hostlink_fins.Common.{if◌then◌else◌, none, ok, panic, some, true, ℕ, ◌+◌, ◌==◌, ◌||◌}
use omron_hostlink_fins.Common.{◌∷◌}
use omron_hostlink_fins.Common.Binary.{ByteOrder, big_endian}
use omron_hostlink_fins.Common.Int.{pos, signed, ℤ}
use omron_hostlink_fins.Common.Words.{to_byte}
use omron_hostlink_fins.Driver.Frames.{Response}
use omron_hostlink_fins.EndCode.{end_code_value, normal_completion}
use omron_hostlink_fins.Errors.{end_code_reported}
use omron_hostlink_fins.Header.{Header, default_command_header}
use omron_hostlink_fins.MemoryArea.{memory_area_ar_bit, memory_area_ar_word}
use omron_hostlink_fins.MemoryArea.{memory_area_dm_bit, memory_area_dm_word}
use omron_hostlink_fins.MemoryArea.{memory_area_hr_bit, memory_area_hr_word}
use omron_hostlink_fins.MemoryArea.{memory_area_wr_bit, memory_area_wr_word}

-- `resp` has the channel of each service id, or none for the nil channel of a cell that no command
-- has used. Channels are numbered in the order in which they are made, `made` of them so far. Of the
-- goroutine of `listenLoop` the client has in `listening` whether it still reads, and is neither
-- stopped nor blocked on a channel.
pub record Client : Type 0 where
  pub dst : FinsAddress
  pub src : FinsAddress
  pub resp : ℕ → Option ℕ
  pub made : ℕ
  pub sid : ℕ
  pub closed : Bool
  pub response_timeout_ms : ℤ
  pub byte_order : ByteOrder
  pub listening : Bool

abbrev pub default_response_timeout : ℕ
default_response_timeout = 20

-- The client that `NewUdpClient` and `NewTcpClient` return once the connection stands.
unfoldable pub new_client : FinsAddress → FinsAddress → Client
new_client local plc = record {
  dst = plc;
  src = local;
  resp = λ i. none;
  made = 0;
  sid = 0;
  closed = false;
  response_timeout_ms = pos default_response_timeout;
  byte_order = big_endian;
  listening = true;
}

unfoldable pub set_byte_order : Client → ByteOrder → Client
set_byte_order c o = record c { byte_order = o }

-- `time.Duration(t)` of an unsigned 64-bit `t`: a signed 64-bit integer of the same bits.
unfoldable pub set_timeout_ms : Client → ℕ → Client
set_timeout_ms c t = record c { response_timeout_ms = signed 63 t }

-- The goroutine of `listenLoop` ends when its read fails on the closed connection.
unfoldable pub close : Client → Client
close c = record c { closed = true; listening = false }

unfoldable pub check_is_word_memory_area : ℕ → Bool
check_is_word_memory_area memory_area =
    if memory_area == memory_area_dm_word
      || (memory_area == memory_area_ar_word
          || (memory_area == memory_area_hr_word || memory_area == memory_area_wr_word))
    then true
    else false

unfoldable pub check_is_bit_memory_area : ℕ → Bool
check_is_bit_memory_area memory_area =
    if memory_area == memory_area_dm_bit
      || (memory_area == memory_area_ar_bit
          || (memory_area == memory_area_hr_bit || memory_area == memory_area_wr_bit))
    then true
    else false

unfoldable pub check_response : Result Response → Result Response
check_response (ok r) =
    if r.end_code == end_code_value normal_completion
    then ok r
    else err (end_code_reported r.end_code)
check_response (err e) = err e
check_response panic = panic
check_response hang = hang

-- `c.resp[sid] = make(chan response)`
abbrev pub store_channel : (ℕ → Option ℕ) → ℕ → ℕ → ℕ → Option ℕ
store_channel cells sid ch i = if i == sid then some ch else cells i

-- `c.sid++` on a byte; the cell of the new id gets a fresh channel.
unfoldable pub increment_sid : Client → Client × ℕ
increment_sid c =
    let sid = to_byte (c.sid + 1) in
    (record c { resp = store_channel c.resp sid c.made; made = c.made + 1; sid = sid }, sid)

unfoldable pub next_header : Client → Client × Header
next_header c = let (c', sid) = increment_sid c in (c', default_command_header c'.src c'.dst sid)

abbrev pub command_type_read : ℕ
command_type_read = 0x00

abbrev pub command_type_write : ℕ
command_type_write = 0x01

-- How a transport frames the bytes of a command of a type, and what one round of its `listenLoop`
-- makes of one read: the client afterwards and the response that it puts on a channel, if any.
pub record Transport : Type 0 where
  pub frame : List ℕ → ℕ → Result (List ℕ)
  pub listen : Client → List ℕ → Result (Client × Option Response)

-- One read of the listener: bytes, or an error, with which the loop ends.
pub data Arrival : Type 0 where
  bytes_read : List ℕ → Arrival
  read_failed : Arrival

-- What the other side and the network do with one frame: its write fails or never returns, or it is
-- written and the listener then makes some reads, up to the time limit or the answer.
pub data Reply : Type 0 where
  write_failed : ℕ → Reply
  write_blocked : Reply
  arrivals : List Arrival → Reply

abbrev pub received : List ℕ → Reply
received bytes = arrivals (bytes_read bytes ∷ [])

abbrev pub silent : Reply
silent = arrivals []
