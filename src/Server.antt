-- ===== src/Server.antt =====
-- fins/udp_server.go: the PLC simulator. Its address and its connection are input and output and are
-- left out; what is received is an event.
pub mod Bounds
pub mod ReadWrite
pub mod Faults
pub mod Bits
pub mod Memory
use omron_hostlink_fins.CommandCode.{command_code_value, memory_area_read, memory_area_write}
use omron_hostlink_fins.Common.{Bool, List, Option, Result, Slice, [], contents, drop, false}
use omron_hostlink_fins.Common.{if◌then◌else◌, length, ltb, min, none, of_list, ok, replicate}
use omron_hostlink_fins.Common.{reslice, some, take, true, ℕ, ◌*◌, ◌++◌, ◌+◌, ◌==◌, ◌>>=◌}
use omron_hostlink_fins.Common.{◌||◌}
use omron_hostlink_fins.Common.Binary.{big_endian, get_uint16}
use omron_hostlink_fins.Common.Words.{to_uint16}
use omron_hostlink_fins.Driver.Commands.{MemoryAddress, decode_memory_address}
use omron_hostlink_fins.Driver.Frames.{Request, Response, decode_request, encode_response}
use omron_hostlink_fins.EndCode.{address_range_exceeded, end_code_value, normal_completion}
use omron_hostlink_fins.EndCode.{not_supported_by_model_version}
use omron_hostlink_fins.Header.{default_response_header}
use omron_hostlink_fins.MemoryArea.{memory_area_dm_bit, memory_area_dm_word}
use omron_hostlink_fins.Utils.{copy}

abbrev pub dm_area_size : ℕ
dm_area_size = 32768

pub record Server : Type 0 where
  pub dmarea : List ℕ
  pub bitdmarea : List ℕ
  pub closed : Bool

-- The state that `NewPLCSimulator` makes.
abbrev pub new_plc_simulator : Server
new_plc_simulator = record {
  dmarea = replicate dm_area_size 0;
  bitdmarea = replicate dm_area_size 0;
  closed = false;
}

-- What a case of the switch leaves: the server, the end code and the data.
abbrev pub Outcome : Type 0
Outcome = Server × ℕ × Slice

-- An area with `new` written over it from `lo` on.
abbrev pub splice : List ℕ → ℕ → List ℕ → List ℕ
splice area lo new = take lo area ++ (new ++ drop (lo + length new) area)

-- `copy(area[lo:hi], src)`: the area afterwards.
unfoldable pub store : List ℕ → ℕ → ℕ → Slice → Result (List ℕ)
store area lo hi src = do
  dst ← reslice (of_list area) lo hi
  ok (splice area lo (copy (contents dst) (contents src)))

-- The cases `MemoryAreaDMWord` and `MemoryAreaDMBit`. The sums are of type uint16.
unfoldable pub handle_dm_word : Server → Request → MemoryAddress → ℕ → Result Outcome
handle_dm_word s r mem ic =
    let hi = to_uint16 (mem.address + to_uint16 (ic * 2)) in
    if ltb dm_area_size hi
    then ok (s, end_code_value address_range_exceeded, of_list [])
    else if r.command_code == command_code_value memory_area_read
    then (do
      found ← reslice (of_list s.dmarea) mem.address hi
      ok (s, end_code_value normal_completion, found))
    else (do
      src ← reslice r.payload 6 (to_uint16 (6 + to_uint16 (ic * 2)))
      area ← store s.dmarea mem.address hi src
      ok (record s { dmarea = area }, end_code_value normal_completion, of_list []))

unfoldable pub handle_dm_bit : Server → Request → MemoryAddress → ℕ → Result Outcome
handle_dm_bit s r mem ic =
    if ltb dm_area_size (to_uint16 (mem.address + ic))
    then ok (s, end_code_value address_range_exceeded, of_list [])
    else (let start = to_uint16 (mem.address + mem.bit_offset) in
        let hi = to_uint16 (start + ic) in
        if r.command_code == command_code_value memory_area_read
        then (do
          found ← reslice (of_list s.bitdmarea) start hi
          ok (s, end_code_value normal_completion, found))
        else (do
          src ← reslice r.payload 6 (to_uint16 (6 + ic))
          area ← store s.bitdmarea start hi src
          ok (record s { bitdmarea = area }, end_code_value normal_completion, of_list [])))

-- The switch on the memory area.
unfoldable pub handle_area : Server → Request → MemoryAddress → ℕ → Result Outcome
handle_area s r mem ic =
    if mem.memory_area == memory_area_dm_word
    then handle_dm_word s r mem ic
    else if mem.memory_area == memory_area_dm_bit
    then handle_dm_bit s r mem ic
    else ok (s, end_code_value not_supported_by_model_version, of_list [])

-- The address and the item count at the front of the parameters.
unfoldable pub decode_parameters : Slice → Result (MemoryAddress × ℕ)
decode_parameters parameters = do
  first ← reslice parameters 0 4
  mem ← decode_memory_address first
  second ← reslice parameters 4 6
  ic ← get_uint16 big_endian (contents second)
  ok (mem, ic)

-- The switch on the command code.
unfoldable pub handle_command : Server → Request → Result Outcome
handle_command s r =
    if r.command_code == command_code_value memory_area_read
      || r.command_code == command_code_value memory_area_write
    then (decode_parameters r.payload >>= λ p. handle_area s r p.0 p.1)
    else ok (s, end_code_value not_supported_by_model_version, of_list [])

abbrev pub respond : Request → Outcome → Response
respond r out = record {
  header = default_response_header r.header;
  command_code = r.command_code;
  end_code = out.1;
  payload = out.2;
}

unfoldable pub handler : Server → Request → Result (Server × Response)
handler s r = do out ← handle_command s r; ok (out.0, respond r out)

abbrev pub server_buf_size : ℕ
server_buf_size = 1024

-- The goroutine's variables: the server and `buf`, which every datagram is read into.
pub record Loop : Type 0 where
  pub server : Server
  pub buf : List ℕ

-- A round of the loop after the read: `rlen` bytes of `buf` count. It gives the answer, if any.
unfoldable pub answer_datagram : Server → List ℕ → ℕ → Result (Loop × Option (List ℕ))
answer_datagram s buf rlen =
    if ltb 0 rlen
    then (do
      req ← decode_request (record { cells = buf; len = rlen })
      (server, resp) ← handler s req
      ok (record { server = server; buf = buf }, some (encode_response resp)))
    else ok (record { server = s; buf = buf }, none)

-- One round that receives `datagram`, which `ReadFromUDP` cuts to the size of `buf`.
unfoldable pub round : Loop → List ℕ → Result (Loop × Option (List ℕ))
round l datagram =
    answer_datagram l.server (copy l.buf datagram) (min (length l.buf) (length datagram))

unfoldable pub close : Server → Server
close s = record s { closed = true }
