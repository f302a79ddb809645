-- ===== src/Tests/Data.antt =====
-- Examples of what the clients make of the data of a response: client_udp.go and driver.go.
use omron_hostlink_fins.Client.{Reply, received}
use omron_hostlink_fins.Client.Clock.{clock_bytes, clock_result_lem}
use omron_hostlink_fins.Client.Read.{Clock, clock_result}
use omron_hostlink_fins.Common.{List, [], arith, err, inr, of_list, ok}
use omron_hostlink_fins.Common.{ℕ, ◌*◌, ◌++◌, ◌+◌, ◌∷◌, ◌≡◌}
use omron_hostlink_fins.Driver.Bcd.{decode_bcd}
use omron_hostlink_fins.Driver.Bcd.BadDigits.{decode_bcd_bad_digit}
use omron_hostlink_fins.Driver.Bcd.Pairs.{pairs}
use omron_hostlink_fins.Driver.Frames.{Response, encode_response}
use omron_hostlink_fins.Errors.{bcd_bad_digit}
use omron_hostlink_fins.Header.{default_command_header}
use omron_hostlink_fins.Tests.{pc_node, plc_node, sample_header}

abbrev a_time : Clock
a_time = record { year = 2024; month = 2; day = 29; hour = 23; minute = 59; second = 30 }

clock_result_example :
    clock_result (record {
      header = sample_header;
      command_code = 0x0701;
      end_code = 0;
      payload = record { cells = clock_bytes a_time ++ (4 ∷ []); len = 7 };
    })
    ≡ ok a_time
clock_result_example =
    clock_result_lem sample_header 0x0701 0 7 (4 ∷ []) a_time (omega arith) (omega arith)
      (omega arith) (omega arith) (omega arith) (omega arith) (omega arith)

decode_bcd_bad_digit_example :
    decode_bcd (pairs 1 12 ++ ((3 * 16 + 11) ∷ [])) ≡ err (bcd_bad_digit "lo" 11)
decode_bcd_bad_digit_example =
    decode_bcd_bad_digit 1 12 3 11 [] (omega arith) (omega arith) (omega arith) (inr (omega arith))

-- A PLC that answers the first command of a client with one response.
abbrev answers_with : Response → Unit {0} → List ℕ → Unit {0} × Reply
answers_with r w frame = (w, received (encode_response r))

abbrev first_answer : ℕ → List ℕ → Response
first_answer code bytes = record {
  header = default_command_header pc_node plc_node 1;
  command_code = code;
  end_code = 0;
  payload = of_list bytes;
}

abbrev two_words_answer : Response
two_words_answer = first_answer 0x0101 (0x12 ∷ 0x34 ∷ 0xFF ∷ 0xFF ∷ [])

-- The 29th of no month, as the month's byte has no decimal digits.
abbrev clock_answer : Response
clock_answer = first_answer 0x0701 (0x24 ∷ 0xAB ∷ 0x29 ∷ 0x23 ∷ 0x59 ∷ 0x30 ∷ 4 ∷ [])

abbrev month_zero : Clock
month_zero = record { year = 2024; month = 0; day = 29; hour = 23; minute = 59; second = 30 }
