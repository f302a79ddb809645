-- ===== src/Tests/Simulator.antt =====
-- Examples of the simulator: udp_server.go.
use omron_hostlink_fins.CommandCode.{command_code_value, memory_area_read}
use omron_hostlink_fins.Common.{[], arith, contents, drop, length-replicate, ok, panic, refl}
use omron_hostlink_fins.Common.{ℕ, ◌*◌, ◌≡◌}
use omron_hostlink_fins.Driver.Frames.{Request, Response}
use omron_hostlink_fins.EndCode.{end_code_value, normal_completion}
use omron_hostlink_fins.Server.{dm_area_size, handler, new_plc_simulator}
use omron_hostlink_fins.Server.Bounds.{IsSized}
use omron_hostlink_fins.Server.Faults.{handler_bit_panics, handler_wrap_empty}
use omron_hostlink_fins.Server.Faults.{handler_wrap_panics}
use omron_hostlink_fins.Server.ReadWrite.{answer, memory_request}
use omron_hostlink_fins.Tests.{dm_100, dm_65000, last_bits, sample_header}

-- The simulator as it starts.
started-IsSized : IsSized new_plc_simulator
started-IsSized = record {
  words = length-replicate {A = ℕ} dm_area_size 0;
  bits = length-replicate {A = ℕ} dm_area_size 0;
}

abbrev read_request : Request
read_request = memory_request sample_header (command_code_value memory_area_read) dm_100 2 [] 6

abbrev read_answer : Response
read_answer =
    answer sample_header (command_code_value memory_area_read) (end_code_value normal_completion)
      (record { cells = drop 100 new_plc_simulator.dmarea; len = 2 * 2 })

handler_wrap_panics_example :
    handler new_plc_simulator
      (memory_request sample_header (command_code_value memory_area_read) dm_65000 300 [] 6)
    ≡ panic
handler_wrap_panics_example =
    handler_wrap_panics new_plc_simulator sample_header dm_65000 300 6 [] (omega arith)
      (omega arith) refl (omega arith) (omega arith) (omega arith)

handler_wrap_empty_example :
    (found : Response) × (handler new_plc_simulator
        (memory_request sample_header (command_code_value memory_area_read) dm_100 32768 [] 6)
      ≡ ok (new_plc_simulator, found))
    × (found.end_code ≡ end_code_value normal_completion)
    × (contents found.payload ≡ [])
handler_wrap_empty_example =
    handler_wrap_empty new_plc_simulator sample_header dm_100 32768 6 [] (omega arith) (omega arith)
      started-IsSized refl refl (omega arith)

handler_bit_panics_example :
    handler new_plc_simulator
      (memory_request sample_header (command_code_value memory_area_read) last_bits 1 [] 6)
    ≡ panic
handler_bit_panics_example =
    handler_bit_panics new_plc_simulator sample_header last_bits 1 6 [] (omega arith) (omega arith)
      started-IsSized refl (omega arith) (omega arith) (omega arith)
