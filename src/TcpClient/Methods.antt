-- ===== src/TcpClient/Methods.antt =====
-- fins/client_tcp.go: `NewTcpClient` and the methods of TcpClient. Their text in the source is that of
-- fins/client_udp.go, so each is the method of Client at the TCP transport.
use omron_hostlink_fins.Address.{FinsAddress}
use omron_hostlink_fins.Client
use omron_hostlink_fins.Client.{Client, Reply}
use omron_hostlink_fins.Client.Read
use omron_hostlink_fins.Client.Read.{Clock}
use omron_hostlink_fins.Client.Send
use omron_hostlink_fins.Client.Write
use omron_hostlink_fins.Common.{Bool, List, Result, Slice, ℕ}
use omron_hostlink_fins.Common.Binary.{ByteOrder}
use omron_hostlink_fins.Common.Int.{ℤ}
use omron_hostlink_fins.Driver.Frames.{Response}
use omron_hostlink_fins.Header.{Header}
use omron_hostlink_fins.TcpClient.{tcp, hand_shake}

-- The client once the connection stands, and the bytes that it has written by then.
unfoldable pub new_tcp_client : FinsAddress → FinsAddress → Client × List ℕ
new_tcp_client local plc = (Client.new_client local plc, hand_shake)

unfoldable pub set_byte_order : Client → ByteOrder → Client
set_byte_order c o = Client.set_byte_order c o

unfoldable pub set_timeout_ms : Client → ℕ → Client
set_timeout_ms c t = Client.set_timeout_ms c t

unfoldable pub close : Client → Client
close c = Client.close c

unfoldable pub increment_sid : Client → Client × ℕ
increment_sid c = Client.increment_sid c

unfoldable pub next_header : Client → Client × Header
next_header c = Client.next_header c

module _ {W : Type 0} (peer : W → List ℕ → W × Reply) (s : Client × W) where
  unfoldable pub send_command : List ℕ → ℕ → (Client × W) × Result Response
  send_command command command_type = Send.send_command tcp peer s command command_type

  unfoldable pub read_int16 : ℕ → ℕ → ℕ → Bool → Bool → (Client × W) × Result (List ℕ × ℤ)
  read_int16 memory_area address read_count is_byte_swap is_word_swap =
      Read.read_int16 tcp peer s memory_area address read_count is_byte_swap is_word_swap

  unfoldable pub read_uint16 : ℕ → ℕ → ℕ → Bool → Bool → (Client × W) × Result (List ℕ × ℕ)
  read_uint16 memory_area address read_count is_byte_swap is_word_swap =
      Read.read_uint16 tcp peer s memory_area address read_count is_byte_swap is_word_swap

  unfoldable pub read_int32 : ℕ → ℕ → ℕ → Bool → Bool → (Client × W) × Result (List ℕ × ℤ)
  read_int32 memory_area address read_count is_byte_swap is_word_swap =
      Read.read_int32 tcp peer s memory_area address read_count is_byte_swap is_word_swap

  unfoldable pub read_uint32 : ℕ → ℕ → ℕ → Bool → Bool → (Client × W) × Result (List ℕ × ℕ)
  read_uint32 memory_area address read_count is_byte_swap is_word_swap =
      Read.read_uint32 tcp peer s memory_area address read_count is_byte_swap is_word_swap

  unfoldable pub read_float32 : ℕ → ℕ → ℕ → Bool → Bool → (Client × W) × Result (List ℕ × ℕ)
  read_float32 memory_area address read_count is_byte_swap is_word_swap =
      Read.read_float32 tcp peer s memory_area address read_count is_byte_swap is_word_swap

  unfoldable pub read_words : ℕ → ℕ → ℕ → (Client × W) × Result (List ℕ)
  read_words memory_area address read_count =
      Read.read_words tcp peer s memory_area address read_count

  unfoldable pub read_bytes : ℕ → ℕ → ℕ → (Client × W) × Result Slice
  read_bytes memory_area address read_count =
      Read.read_bytes tcp peer s memory_area address read_count

  unfoldable pub read_string : ℕ → ℕ → ℕ → (Client × W) × Result (List ℕ)
  read_string memory_area address read_count =
      Read.read_string tcp peer s memory_area address read_count

  unfoldable pub read_bits : ℕ → ℕ → ℕ → ℕ → (Client × W) × Result (List Bool)
  read_bits memory_area address bit_offset read_count =
      Read.read_bits tcp peer s memory_area address bit_offset read_count

  unfoldable pub read_clock : (Client × W) × Result Clock
  read_clock = Read.read_clock tcp peer s

  unfoldable pub write_uint16 : ℕ → ℕ → ℕ → Bool → Bool → (Client × W) × Result (Unit {0})
  write_uint16 memory_area address value is_byte_swap is_word_swap =
      Write.write_uint16 tcp peer s memory_area address value is_byte_swap is_word_swap

  unfoldable pub write_int16 : ℕ → ℕ → ℤ → Bool → Bool → (Client × W) × Result (Unit {0})
  write_int16 memory_area address value is_byte_swap is_word_swap =
      Write.write_int16 tcp peer s memory_area address value is_byte_swap is_word_swap

  unfoldable pub write_uint32 : ℕ → ℕ → ℕ → Bool → Bool → (Client × W) × Result (Unit {0})
  write_uint32 memory_area address value is_byte_swap is_word_swap =
      Write.write_uint32 tcp peer s memory_area address value is_byte_swap is_word_swap

  unfoldable pub write_int32 : ℕ → ℕ → ℤ → Bool → Bool → (Client × W) × Result (Unit {0})
  write_int32 memory_area address value is_byte_swap is_word_swap =
      Write.write_int32 tcp peer s memory_area address value is_byte_swap is_word_swap

  unfoldable pub write_float32 : ℕ → ℕ → ℕ → Bool → Bool → (Client × W) × Result (Unit {0})
  write_float32 memory_area address bits is_byte_swap is_word_swap =
      Write.write_float32 tcp peer s memory_area address bits is_byte_swap is_word_swap

  unfoldable pub write_words : ℕ → ℕ → List ℕ → (Client × W) × Result (Unit {0})
  write_words memory_area address words = Write.write_words tcp peer s memory_area address words

  unfoldable pub write_string : ℕ → ℕ → List ℕ → (Client × W) × Result (Unit {0})
  write_string memory_area address text = Write.write_string tcp peer s memory_area address text

  unfoldable pub write_bytes : ℕ → ℕ → List ℕ → (Client × W) × Result (Unit {0})
  write_bytes memory_area address b = Write.write_bytes tcp peer s memory_area address b

  unfoldable pub write_bits : ℕ → ℕ → ℕ → List Bool → (Client × W) × Result (Unit {0})
  write_bits memory_area address bit_offset bits =
      Write.write_bits tcp peer s memory_area address bit_offset bits
