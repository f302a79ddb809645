-- ===== src/Driver/Frames.antt =====
-- fins/driver.go: requests, responses and the ten bytes of a header.
pub mod Headers
pub mod Codec
use omron_hostlink_fins.Common.{List, Result, Slice, [], bit_and, bit_or, contents}
use omron_hostlink_fins.Common.{if◌then◌else◌, index, ok, reslice, slice_from, ℕ, ◌++◌, ◌==◌}
use omron_hostlink_fins.Common.{◌>>=◌, ◌^◌, ◌∷◌}
use omron_hostlink_fins.Common.Binary.{big_endian, get_uint16, uint16_bytes}
use omron_hostlink_fins.Common.Words.{shl}
use omron_hostlink_fins.Header.{Header, message_type_command, message_type_response}

pub record Request : Type 0 where
  pub header : Header
  pub command_code : ℕ
  pub payload : Slice

pub record Response : Type 0 where
  pub header : Header
  pub command_code : ℕ
  pub end_code : ℕ
  pub payload : Slice

abbrev pub icf_bridges_bit : ℕ
icf_bridges_bit = 7

abbrev pub icf_message_type_bit : ℕ
icf_message_type_bit = 6

abbrev pub icf_response_required_bit : ℕ
icf_response_required_bit = 0

-- `icf&1<<bit` groups from the left, as `(icf&1)<<bit`.
unfoldable pub decode_header : List ℕ → Result Header
decode_header bytes = do
  icf ← index bytes 0
  gateway_count ← index bytes 2
  dst_network ← index bytes 3
  dst_node ← index bytes 4
  dst_unit ← index bytes 5
  src_network ← index bytes 6
  src_node ← index bytes 7
  src_unit ← index bytes 8
  service_id ← index bytes 9
  ok (record {
    response_required = shl 8 (bit_and icf 1) icf_response_required_bit == 0;
    message_type =
        (if shl 8 (bit_and icf 1) icf_message_type_bit == 0
          then message_type_command
          else message_type_response);
    gateway_count = gateway_count;
    dst = record { network = dst_network; node = dst_node; unit = dst_unit };
    src = record { network = src_network; node = src_node; unit = src_unit };
    service_id = service_id;
  })

unfoldable pub encode_header : Header → List ℕ
encode_header h =
    let icf0 = 2 ^ icf_bridges_bit in
    let icf1 =
      (if h.response_required then icf0 else bit_or icf0 (2 ^ icf_response_required_bit)) in
    let icf =
      (if h.message_type == message_type_response
        then bit_or icf1 (2 ^ icf_message_type_bit)
        else icf1) in
    icf ∷ 0x00 ∷ h.gateway_count ∷ h.dst.network ∷ h.dst.node ∷ h.dst.unit ∷ h.src.network
    ∷ h.src.node ∷ h.src.unit ∷ h.service_id ∷ []

unfoldable pub decode_request : Slice → Result Request
decode_request bytes = do
  head ← reslice bytes 0 10
  header ← decode_header (contents head)
  code ← reslice bytes 10 12
  command_code ← get_uint16 big_endian (contents code)
  rest ← slice_from bytes 12
  ok (record { header = header; command_code = command_code; payload = rest })

unfoldable pub decode_response : Slice → Result Response
decode_response bytes = do
  head ← reslice bytes 0 10
  header ← decode_header (contents head)
  code ← reslice bytes 10 12
  command_code ← get_uint16 big_endian (contents code)
  end ← reslice bytes 12 14
  end_code ← get_uint16 big_endian (contents end)
  rest ← slice_from bytes 14
  ok (record { header = header; command_code = command_code; end_code = end_code; payload = rest })

unfoldable pub encode_response : Response → List ℕ
encode_response resp =
    let bytes0 = uint16_bytes big_endian resp.command_code in
    let bytes1 = bytes0 ++ uint16_bytes big_endian resp.end_code in
    let bytes = bytes1 ++ contents resp.payload in encode_header resp.header ++ bytes
