-- ===== src/Header.antt =====
-- fins/header.go: the FINS frame header.
use omron_hostlink_fins.Address.{FinsAddress}
use omron_hostlink_fins.Common.{Bool, false, true, ℕ}

pub record Header : Type 0 where
  pub message_type : ℕ
  pub response_required : Bool
  pub src : FinsAddress
  pub dst : FinsAddress
  pub service_id : ℕ
  pub gateway_count : ℕ

abbrev pub message_type_command : ℕ
message_type_command = 0

abbrev pub message_type_response : ℕ
message_type_response = 1

unfoldable pub default_header : ℕ → Bool → FinsAddress → FinsAddress → ℕ → Header
default_header message_type response_required src dst service_id = record {
  message_type = message_type;
  response_required = response_required;
  gateway_count = 2;
  src = src;
  dst = dst;
  service_id = service_id;
}

unfoldable pub default_command_header : FinsAddress → FinsAddress → ℕ → Header
unfolding default_header
default_command_header src dst service_id =
    default_header message_type_command true src dst service_id

unfoldable pub default_response_header : Header → Header
unfolding default_header
default_response_header command_header =
    default_header message_type_response false command_header.dst command_header.src
      command_header.service_id
