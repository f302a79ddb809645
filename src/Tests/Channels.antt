-- ===== src/Tests/Channels.antt =====
-- Examples of the channels of a client (client_udp.go).
use omron_hostlink_fins.Client.Channels.{Step, System, Trace, arrived, command_sent, delivered}
use omron_hostlink_fins.Client.Channels.{give_up, here, idle, meet, new_system, next_command}
use omron_hostlink_fins.Client.Channels.{reading, receive, send, sending, set_caller, then_}
use omron_hostlink_fins.Client.Channels.{timed_out, waiting}
use omron_hostlink_fins.Client.Channels.Blocking.{IsNoDelivery, unasked_response_blocks}
use omron_hostlink_fins.Client.Channels.Matching.{delivered-service_id, response_reaches}
use omron_hostlink_fins.Common.{All, [], arith, false, of_list, refl, suc, zero, ℕ, ◌+◌, ◌==◌}
use omron_hostlink_fins.Common.{◌∷◌, ◌≡◌, ◌≢◌}
use omron_hostlink_fins.Common.Words.{to_byte}
use omron_hostlink_fins.Driver.Frames.{Response}
use omron_hostlink_fins.Header.{default_command_header, default_header}
use omron_hostlink_fins.Tests.{pc_node, plc_node, two_bytes}

-- The response to command 1, the first of a client.
abbrev first_response : Response
first_response = record {
  header = default_command_header pc_node plc_node 1;
  command_code = 0x0101;
  end_code = 0;
  payload = of_list two_bytes;
}

abbrev asked_once : System
asked_once = next_command new_system 0 (waiting (to_byte (new_system.sid + 1)) new_system.made)

-- The first caller has sent a command.
first_asks : Trace new_system (command_sent ∷ []) asked_once
first_asks = then_ here (send new_system 0 refl)

abbrev answered_once : System
answered_once = record asked_once {
  listener = sending (asked_once.cells first_response.header.service_id) first_response;
}

first_heard : Trace new_system (arrived first_response ∷ command_sent ∷ []) answered_once
unfolding default_command_header default_header
first_heard = then_ first_asks (receive asked_once first_response refl)

abbrev given_up : System
given_up = record asked_once { callers = set_caller asked_once.callers 0 idle }

first_gives_up : Trace new_system (timed_out ∷ command_sent ∷ []) given_up
first_gives_up = then_ first_asks (give_up asked_once 0 1 0 refl)

-- Nobody waits in a client whose one command was given up.
nobody_waits : (j id ch : ℕ) → given_up.callers j ≢ waiting id ch
nobody_waits zero id ch = λ e. let free : idle ≡ waiting id ch = e in cc
nobody_waits (suc j) id ch =
    let other : (suc j == 0) ≡ false = ground arith in
    rw other (λ e. let free : idle ≡ waiting id ch = e in cc)

delivered-service_id_example :
    (ch : ℕ) × (answered_once.callers 0 ≡ waiting 1 ch) × (first_response.header.service_id ≡ 1)
unfolding default_command_header default_header
delivered-service_id_example =
    delivered-service_id (arrived first_response ∷ command_sent ∷ []) answered_once _ 0 1
      first_response first_heard (meet answered_once 0 1 0 first_response refl refl)

response_reaches_example :
    (t u : System) × Step asked_once (arrived first_response) t
    × Step t (delivered 0 1 first_response) u
    × (u.callers 0 ≡ idle)
    × (u.listener ≡ reading)
unfolding default_command_header default_header
response_reaches_example =
    response_reaches (command_sent ∷ []) asked_once 0 1 0 first_response first_asks refl
      (omega arith) refl refl

abbrev stuck : System
stuck = record given_up {
  listener = sending (given_up.cells first_response.header.service_id) first_response;
}

unasked_response_blocks_example :
    All IsNoDelivery (command_sent ∷ [])
    × ((next_command stuck 0 (waiting 2 1)).listener
        ≡ sending (given_up.cells first_response.header.service_id) first_response)
unasked_response_blocks_example =
    unasked_response_blocks (timed_out ∷ command_sent ∷ []) (command_sent ∷ []) given_up stuck
      (next_command stuck 0 (waiting 2 1)) first_response first_gives_up
      (λ j ch. nobody_waits j first_response.header.service_id ch)
      (receive given_up first_response refl) (then_ here (send stuck 0 refl))
