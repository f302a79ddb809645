-- ===== src/Tests/Codecs.antt =====
-- Examples of the codecs: bytes.go, Utils.go and driver.go.
use omron_hostlink_fins.Bytes.Bools.{expand_bool}
use omron_hostlink_fins.Bytes.Expand.{expand_bool_stops}
use omron_hostlink_fins.Bytes.Parse.{parse_uint64}
use omron_hostlink_fins.Bytes.RoundTrip.{parse_uint64-write}
use omron_hostlink_fins.Bytes.Write.{write_uint64_to_bytes}
use omron_hostlink_fins.Common.{List, [], arith, contents, drop, if◌then◌else◌, length, min}
use omron_hostlink_fins.Common.{of_list, ok, panic, refl, replicate, true, ℕ, ◌%◌, ◌*◌, ◌-◌}
use omron_hostlink_fins.Common.{◌>>=◌, ◌^◌, ◌∷◌, ◌≡◌}
use omron_hostlink_fins.Driver.Bcd.{decode_bcd, encode_bcd}
use omron_hostlink_fins.Driver.Bcd.Pairs.{pairs}
use omron_hostlink_fins.Driver.Bcd.RoundTrip.{decode_bcd-encode_bcd}
use omron_hostlink_fins.Driver.Bcd.RoundTrip.{decode_bcd_misses_overflow}
use omron_hostlink_fins.Driver.Frames.{Response, decode_header, decode_response, encode_header}
use omron_hostlink_fins.Driver.Frames.{encode_response}
use omron_hostlink_fins.Driver.Frames.Codec.{decode_response-encode_response}
use omron_hostlink_fins.Driver.Frames.Codec.{decode_response_short}
use omron_hostlink_fins.Driver.Frames.Headers.{as_decoded, decode_header-encode_header}
use omron_hostlink_fins.Driver.Frames.Headers.{decode_header_type}
use omron_hostlink_fins.Header.{message_type_command, message_type_response}
use omron_hostlink_fins.Tests.{eight_bytes, four_bytes, nine_bytes, pc_node, plc_node}
use omron_hostlink_fins.Tests.{sample_header, two_bytes}
use omron_hostlink_fins.Utils.{swap32_bit_data_bytes}
use omron_hostlink_fins.Utils.Swaps.{byte_swapped, swap32_bit_data_bytes_lem, word_swapped}

decode_bcd-encode_bcd_example :
    (encode_bcd 18446744073709551615 >>= decode_bcd) ≡ ok 18446744073709551615
decode_bcd-encode_bcd_example = decode_bcd-encode_bcd 18446744073709551615 (omega arith)

decode_bcd_misses_overflow_example :
    decode_bcd (pairs 10 40000000000000000000) ≡ ok (40000000000000000000 - 2 ^ 65)
decode_bcd_misses_overflow_example =
    decode_bcd_misses_overflow 40000000000000000000 (omega arith) (omega arith)

decode_header-encode_header_example :
    (length (encode_header sample_header) ≡ 10)
    × (decode_header (encode_header sample_header)
        ≡ ok (record sample_header {
          message_type =
              (if sample_header.response_required
                then message_type_command
                else message_type_response);
        }))
decode_header-encode_header_example = decode_header-encode_header sample_header

abbrev a_response : Response
a_response = record {
  header = sample_header;
  command_code = 0x0101;
  end_code = 0;
  payload = of_list two_bytes;
}

decode_response-encode_response_example :
    decode_response (of_list (encode_response a_response))
    ≡ ok (record {
      header = as_decoded sample_header;
      command_code = 0x0101;
      end_code = 0;
      payload = of_list (contents (of_list two_bytes));
    })
decode_response-encode_response_example =
    decode_response-encode_response a_response (omega arith) (omega arith)

decode_response_short_example : decode_response (of_list eight_bytes) ≡ panic
decode_response_short_example = decode_response_short (of_list eight_bytes) (omega arith)

-- A byte with bit 6 set and bit 0 clear.
decode_header_type_example : message_type_command ≡ 0xC0 % 2
decode_header_type_example =
    decode_header_type 0xC0 (0 ∷ 2 ∷ 0 ∷ 10 ∷ 0 ∷ 0 ∷ 34 ∷ 0 ∷ 7 ∷ [])
      (record {
        message_type = message_type_command;
        response_required = true;
        gateway_count = 2;
        dst = plc_node;
        src = pc_node;
        service_id = 7;
      })
      (unfold decode_header in refl)

parse_uint64-write_example :
    (out : List ℕ) × (write_uint64_to_bytes nine_bytes 0x123456789ABCDEF0 ≡ ok out)
    × (parse_uint64 out ≡ ok 0x123456789ABCDEF0)
    × (drop 8 out ≡ drop 8 nine_bytes)
parse_uint64-write_example =
    parse_uint64-write nine_bytes 0x123456789ABCDEF0 (omega arith) (omega arith)

swap32_bit_data_bytes_example :
    swap32_bit_data_bytes four_bytes true true
    ≡ ok (
        let once = (if true then byte_swapped four_bytes else four_bytes) in
        (once, (if true then word_swapped once else once)))
swap32_bit_data_bytes_example = swap32_bit_data_bytes_lem four_bytes true true refl

-- Two bytes with all flags set.
abbrev all_set : List ℕ
all_set = 0xFF ∷ 0xFF ∷ []

expand_bool_stops_example :
    (b : List ℕ) × (expand_bool all_set 16 ≡ ok b)
    × (length b ≡ min 16 (length all_set * 8))
    × (drop (length all_set) b ≡ replicate (min 16 (length all_set * 8) - length all_set) 0)
expand_bool_stops_example = expand_bool_stops all_set 16 (omega arith)
