-- ===== src/Server/Memory/Requests.antt =====
-- fins/udp_server.go: the memory that a simulator holds, and the requests for its calls.
use omron_hostlink_fins.CommandCode.{command_code_value, memory_area_read, memory_area_write}
use omron_hostlink_fins.Common.{List, Result, Slice, [], contents, if◌then◌else◌, length, ok}
use omron_hostlink_fins.Common.{ℕ, ◌*◌, ◌++◌, ◌+◌, ◌<◌, ◌==◌, ◌>>=◌, ◌^◌, ◌∷◌, ◌≡◌, ◌≤◌, ◌⊎◌}
use omron_hostlink_fins.Common.Words.{IsUint16}
use omron_hostlink_fins.Driver.Commands.{MemoryAddress}
use omron_hostlink_fins.Driver.Frames.{Request, Response}
use omron_hostlink_fins.EndCode.{end_code_value, normal_completion}
use omron_hostlink_fins.Header.{Header}
use omron_hostlink_fins.MemoryArea.{memory_area_dm_bit, memory_area_dm_word}
use omron_hostlink_fins.Server.{Server, dm_area_size, handler}
use omron_hostlink_fins.Server.Bounds.{IsSized}
use omron_hostlink_fins.Server.Memory.{Answer, Area, Call, Memory, bit_area, bytes_found}
use omron_hostlink_fins.Server.Memory.{bytes_written, call_refused, extent, reads, serve}
use omron_hostlink_fins.Server.Memory.{word_area, writes}
use omron_hostlink_fins.Server.Memory.Views.{byte_at}
use omron_hostlink_fins.Server.ReadWrite.{answer, memory_request}

-- The memory that a simulator holds.
abbrev pub view : Server → Memory
view s = record { words = byte_at s.dmarea; bits = byte_at s.bitdmarea }

abbrev pub mem_of : Area → ℕ → ℕ → MemoryAddress
mem_of word_area address offset = record {
  memory_area = memory_area_dm_word;
  address = address;
  bit_offset = offset;
}
mem_of bit_area address offset = record {
  memory_area = memory_area_dm_bit;
  address = address;
  bit_offset = offset;
}

-- The request for a call, with what older datagrams left behind it in the buffer, and what its answer
-- says.
abbrev pub request_for : Header → List ℕ → Call → Request
request_for h slack (reads area address offset count) =
    memory_request h (command_code_value memory_area_read) (mem_of area address offset) count slack
      6
request_for h slack (writes area address offset count new) =
    memory_request h (command_code_value memory_area_write) (mem_of area address offset) count
      (new ++ slack) (6 + length new)

abbrev pub observe : Response → Answer
observe resp =
    if resp.end_code == end_code_value normal_completion
    then if resp.command_code == command_code_value memory_area_read
      then bytes_found (contents resp.payload)
      else bytes_written
    else call_refused

unfoldable pub handle_all : Server → Header → List ℕ → List Call → Result (List Answer)
handle_all s h slack [] = ok []
handle_all s h slack (call ∷ calls) = do
  (s', resp) ← handler s (request_for h slack call)
  rest ← handle_all s' h slack calls
  ok (observe resp ∷ rest)

-- Calls whose sums fit 16 bits; a call for bits that ends inside the area without its offset does so
-- with it, too. What is written is as long as its count says.
abbrev pub IsInRange : Area → ℕ → ℕ → ℕ → Type 0
IsInRange word_area address offset count = address + count * 2 < 2 ^ 16
IsInRange bit_area address offset count =
    (address + count < 2 ^ 16)
    × ((address + offset + count ≤ dm_area_size) ⊎ (dm_area_size < address + count))

abbrev pub IsServable : Call → Type 0
IsServable (reads area address offset count) = IsInRange area address offset count
IsServable (writes area address offset count new) =
    IsInRange area address offset count × (length new ≡ extent area count)

-- The data that the answer to a call has at most.
abbrev pub longest_answer : Call → ℕ
longest_answer (reads area address offset count) = extent area count
longest_answer (writes area address offset count new) = 0

-- What a call comes to.
pub record Serves (s : Server) (h : Header) (slack : List ℕ) (call : Call) : Type 0 where
  pub server : Server
  pub code : ℕ
  pub end : ℕ
  pub found : Slice
  pub handled : handler s (request_for h slack call) ≡ ok (server, answer h code end found)
  pub code_fits : IsUint16 code
  pub end_fits : IsUint16 end
  pub brief : length (contents found) ≤ longest_answer call
  pub sized : IsSized server
  pub same : (view server, observe (answer h code end found)) ≡ serve (view s) call
