-- ===== src/Tests/Sessions.antt =====
-- Examples of the clients in a session with the simulator of udp_server.go.
use omron_hostlink_fins.Client.{Client}
use omron_hostlink_fins.Client.Read.{read_bits, read_int16, read_int32, read_string}
use omron_hostlink_fins.Client.Read.{read_uint16, read_words}
use omron_hostlink_fins.Client.Write.{write_bits, write_int16, write_int32, write_string}
use omron_hostlink_fins.Client.Write.{write_uint16, write_words}
use omron_hostlink_fins.Common.{All, Bool, List, [], arith, false, if◌then◌else◌, length, ok}
use omron_hostlink_fins.Common.{true, ℕ, ◌%◌, ◌*◌, ◌+◌, ◌/◌, ◌^◌, ◌∷◌, ◌≡◌}
use omron_hostlink_fins.Common.Int.{negsuc, pos, signed, unsigned}
use omron_hostlink_fins.MemoryArea.{memory_area_dm_bit, memory_area_dm_word}
use omron_hostlink_fins.Server.{Loop}
use omron_hostlink_fins.Session.{after_send}
use omron_hostlink_fins.Session.Bits.{read_bits-write_bits}
use omron_hostlink_fins.Session.Refusals.{refusal, words_refused}
use omron_hostlink_fins.Session.Scalars.{read_int16-write_int16, read_int32-write_int32}
use omron_hostlink_fins.Session.Scalars.{read_uint16-write_uint16}
use omron_hostlink_fins.Session.Strings.{IsTextByte, read_string-write_string}
use omron_hostlink_fins.Session.Words.{Fits, read_words-write_words}
use omron_hostlink_fins.Tests.{started-IsReady, started_client, started_loop, two_words}
use omron_hostlink_fins.Tests.{two_words-IsUint16}
use omron_hostlink_fins.UdpClient.{udp}
use omron_hostlink_fins.UdpClient.Simulator.{simulator, udp_link}

two_words-Fits : Fits 14 100 two_words
two_words-Fits = record { inside = omega arith; request = omega arith; reply = omega arith }

read_words-write_words_example :
    (s1 s2 : Client × Loop) × (write_words udp simulator
        (started_client, started_loop)
        memory_area_dm_word
        100
        two_words
      ≡ (s1, ok tt))
    × (read_words udp simulator s1 memory_area_dm_word 100 (length two_words) ≡ (s2, ok two_words))
read_words-write_words_example =
    read_words-write_words udp_link started_client started_loop 100 two_words started-IsReady
      two_words-Fits two_words-IsUint16

read_uint16-write_uint16_example :
    (s1 s2 : Client × Loop) × (bytes : List ℕ) × (write_uint16 udp simulator
        (started_client, started_loop)
        memory_area_dm_word
        100
        4660
        true
        false
      ≡ (s1, ok tt))
    × (read_uint16 udp simulator s1 memory_area_dm_word 100 1 true false ≡ (s2, ok (bytes, 4660)))
read_uint16-write_uint16_example =
    read_uint16-write_uint16 udp_link started_client started_loop 100 4660 true false
      started-IsReady (omega arith) (omega arith) (omega arith)

read_int16-write_int16_example :
    (s1 s2 : Client × Loop) × (bytes : List ℕ) × (write_int16 udp simulator
        (started_client, started_loop)
        memory_area_dm_word
        100
        (pos 4660)
        false
        false
      ≡ (s1, ok tt))
    × (read_int16 udp simulator s1 memory_area_dm_word 100 1 false false ≡ (
      s2,
      ok (
        bytes,
        (if false
            then pos 4660
            else signed 15
                (unsigned 15 (pos 4660) % 2 ^ 8 * 2 ^ 8 + unsigned 15 (pos 4660) / 2 ^ 8)),
      ),
    ))
read_int16-write_int16_example =
    read_int16-write_int16 udp_link started_client started_loop 100 (pos 4660) false false
      started-IsReady (omega arith) (omega arith) (omega arith)

read_int32-write_int32_example :
    (s1 s2 : Client × Loop) × (bytes : List ℕ) × (write_int32 udp simulator
        (started_client, started_loop)
        memory_area_dm_word
        100
        (negsuc 4660)
        true
        true
      ≡ (s1, ok tt))
    × (read_int32 udp simulator s1 memory_area_dm_word 100 1 true true
        ≡ (s2, ok (bytes, negsuc 4660)))
read_int32-write_int32_example =
    read_int32-write_int32 udp_link started_client started_loop 100 (negsuc 4660) true true
      started-IsReady (omega arith) (omega arith) (omega arith)

abbrev three_bits : List Bool
three_bits = true ∷ false ∷ true ∷ []

read_bits-write_bits_example :
    (s1 s2 : Client × Loop) × (write_bits udp simulator
        (started_client, started_loop)
        memory_area_dm_bit
        100
        5
        three_bits
      ≡ (s1, ok tt))
    × (read_bits udp simulator s1 memory_area_dm_bit 100 5 (length three_bits)
        ≡ (s2, ok three_bits))
read_bits-write_bits_example =
    read_bits-write_bits udp_link started_client started_loop 100 5 three_bits started-IsReady
      (omega arith) (omega arith) (omega arith)

abbrev three_letters : List ℕ
three_letters = 80 ∷ 76 ∷ 67 ∷ []

three_letters-IsTextByte : All IsTextByte three_letters
three_letters-IsTextByte =
    (λ e. absurd (omega arith), (λ e. absurd (omega arith), (λ e. absurd (omega arith), tt)))

read_string-write_string_example :
    (s1 s2 : Client × Loop) × (write_string udp simulator
        (started_client, started_loop)
        memory_area_dm_word
        100
        three_letters
      ≡ (s1, ok tt))
    × (read_string udp simulator s1 memory_area_dm_word 100 ((length three_letters + 1) / 2)
        ≡ (s2, ok three_letters))
read_string-write_string_example =
    read_string-write_string udp_link started_client started_loop 100 three_letters started-IsReady
      (omega arith) (omega arith) (omega arith) three_letters-IsTextByte

words_refused_example :
    (l1 l2 : Loop) × (write_words udp simulator
        (started_client, started_loop)
        memory_area_dm_word
        32765
        two_words
      ≡ ((after_send started_client, l1), refusal))
    × (read_words udp simulator
          (after_send started_client, l1)
          memory_area_dm_word
          32765
          (length two_words)
        ≡ ((after_send (after_send started_client), l2), refusal))
    × (l1.server ≡ started_loop.server)
    × (l2.server ≡ started_loop.server)
words_refused_example =
    words_refused udp_link started_client started_loop 32765 two_words started-IsReady (omega arith)
      (omega arith) (omega arith)
