-- ===== src/Tests/Memory.antt =====
-- Examples of the simulator of udp_server.go as an abstract memory, alone and through a client.
use omron_hostlink_fins.Common.{All, List, [], arith, inr, ok, refl, ◌∷◌, ◌≡◌}
use omron_hostlink_fins.Server.{new_plc_simulator}
use omron_hostlink_fins.Server.Bounds.{IsSized}
use omron_hostlink_fins.Server.Memory.{Call, bit_area, reads, serve_all, word_area, writes}
use omron_hostlink_fins.Server.Memory.Refinement.{handle_all-serve_all}
use omron_hostlink_fins.Server.Memory.Requests.{IsServable, handle_all, view}
use omron_hostlink_fins.Session.Memory.{IsShort, call_all, call_all-serve_all}
use omron_hostlink_fins.Tests.{four_bytes, sample_header, started-IsReady, started_client}
use omron_hostlink_fins.Tests.{started_loop, two_bytes}
use omron_hostlink_fins.UdpClient.{udp}
use omron_hostlink_fins.UdpClient.Simulator.{simulator, udp_link}

started-IsSized : IsSized new_plc_simulator
started-IsSized = started-IsReady.sized

-- Four bytes are written and the two words read back, and a read past the end is refused.
abbrev three_calls : List Call
three_calls =
    writes word_area 100 0 2 four_bytes ∷ reads word_area 100 0 2 ∷ reads bit_area 32760 0 9 ∷ []

three_calls-IsServable : All IsServable three_calls
three_calls-IsServable =
    ((omega arith, refl), (omega arith, ((omega arith, inr (omega arith)), tt)))

handle_all-serve_all_example :
    handle_all new_plc_simulator sample_header two_bytes three_calls
    ≡ ok (serve_all (view new_plc_simulator) three_calls)
handle_all-serve_all_example =
    handle_all-serve_all new_plc_simulator sample_header two_bytes three_calls started-IsSized
      three_calls-IsServable

three_calls-IsShort : All (IsShort 14) three_calls
three_calls-IsShort = (omega arith, (omega arith, (omega arith, tt)))

call_all-serve_all_example :
    call_all udp simulator (started_client, started_loop) three_calls
    ≡ ok (serve_all (view started_loop.server) three_calls)
call_all-serve_all_example =
    call_all-serve_all udp_link started_client started_loop three_calls started-IsReady
      three_calls-IsServable three_calls-IsShort
