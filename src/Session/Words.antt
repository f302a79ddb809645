-- ===== src/Session/Words.antt =====
-- Words of the simulator (fins/udp_server.go) through a client: what is written is what is read.
use omron_hostlink_fins.Client.{Client, Reply, Transport, check_is_word_memory_area}
use omron_hostlink_fins.Client.Read.{read_words, words_loop}
use omron_hostlink_fins.Client.Words.{fill_words_lem, length-words_bytes, words_bytes}
use omron_hostlink_fins.Client.Words.{words_loop_lem}
use omron_hostlink_fins.Client.Write.{write_words}
use omron_hostlink_fins.Common.{All, List, Result, [], ap, arith, length, ok, refl, take}
use omron_hostlink_fins.Common.{take_all, ℕ, ◌*◌, ◌+◌, ◌∙◌, ◌≡◌, ◌≤◌}
use omron_hostlink_fins.Common.Words.{IsUint16, to_uint16}
use omron_hostlink_fins.Driver.Commands.{mem_addr, mem_addr_with_bit_offset}
use omron_hostlink_fins.MemoryArea.{memory_area_dm_word}
use omron_hostlink_fins.Server.{Loop, dm_area_size, server_buf_size}
use omron_hostlink_fins.Session.{IsReady, Link, after_send}
use omron_hostlink_fins.Session.Exchanges.{sent_back}
use omron_hostlink_fins.UdpClient.{receive_size}

-- Whether the simulator can take the words of one command, and the client their answer, in one
-- datagram each, and whether they lie inside the data memory.
pub record Fits (overhead address : ℕ) (words : List ℕ) : Type 0 where
  pub inside : address + length words * 2 ≤ dm_area_size
  pub request : 18 + length words * 2 ≤ server_buf_size
  pub reply : overhead + length words * 2 ≤ receive_size

module _ {t : Transport} {peer : Loop → List ℕ → Loop × Reply} (link : Link t peer) where
  -- For a client and a simulator between two commands, `WriteWords` of 16-bit words to a place
  -- inside the DM word area, few enough for the request to fit the simulator's buffer and for the
  -- answer to fit the client's, succeeds, and `ReadWords` of as many words then returns them, in either
  -- byte order of the client.
  pub read_words-write_words :
      (c : Client) (l : Loop) (address : ℕ) (words : List ℕ)
      → IsReady c l
      → Fits link.overhead address words
      → All IsUint16 words
      → (s1 s2 : Client × Loop) × (write_words t peer (c, l) memory_area_dm_word address words
          ≡ (s1, ok tt))
        × (read_words t peer s1 memory_area_dm_word address (length words) ≡ (s2, ok words))
  unfolding write_words read_words check_is_word_memory_area mem_addr mem_addr_with_bit_offset
  read_words-write_words c l address words ready fits valid =
      let n = length words in
      let count : to_uint16 n ≡ n = omega (arith, fits.request) in
      let twice : to_uint16 (2 * n) ≡ 2 * n = omega (arith, fits.request) in
      let whole : take n words ≡ words = take_all n words (omega arith) in
      let (l1, l2, e1, e2) =
        sent_back link c l address n (words_bytes c.byte_order words)
          (λ r. words_loop c.byte_order r.payload 0 n) ready fits.inside fits.request fits.reply
          (length-words_bytes c.byte_order words) in
      (
        (after_send c, l1),
        (after_send (after_send c), l2),
        rw (count, whole, twice, fill_words_lem, e1),
        e2
            ∙ ap (λ (r : Result (List ℕ)). ((after_send (after_send c), l2), r))
                (words_loop_lem c.byte_order words 0 _ [] _ valid refl),
      )
