-- ===== src/Session/Strings.antt =====
-- Texts in the simulator (fins/udp_server.go) through a client: what is written is what is read.
use mathlib.Core.List.{append_assoc}
use mathlib.Core.Path.{ap₂}
use native.Mathlib.Decide.{dec_lt}
use omron_hostlink_fins.Client.{Client, Reply, Transport, check_is_word_memory_area}
use omron_hostlink_fins.Client.{command_type_write}
use omron_hostlink_fins.Client.Read.{read_bytes, read_string, until_zero}
use omron_hostlink_fins.Client.Send.{exchange}
use omron_hostlink_fins.Client.Write.{done, write_string}
use omron_hostlink_fins.Common.{All, List, Result, Slice, [], ap, arith, contents}
use omron_hostlink_fins.Common.{drop-replicate_add, false, length, length-append}
use omron_hostlink_fins.Common.{length-replicate, ok, refl, replicate, suc, take, take-append}
use omron_hostlink_fins.Common.{ℕ, ◌%◌, ◌*◌, ◌++◌, ◌+◌, ◌-◌, ◌/◌, ◌==◌, ◌>>=◌, ◌∙◌, ◌∷◌, ◌≡◌}
use omron_hostlink_fins.Common.{◌≢◌, ◌≤◌}
use omron_hostlink_fins.Common.Words.{to_uint16}
use omron_hostlink_fins.Driver.Commands.{mem_addr, mem_addr_with_bit_offset, write_command}
use omron_hostlink_fins.MemoryArea.{memory_area_dm_word}
use omron_hostlink_fins.Server.{Loop, dm_area_size, server_buf_size}
use omron_hostlink_fins.Session.{IsReady, Link, after_send, dm}
use omron_hostlink_fins.Session.Exchanges.{sent_part_back}
use omron_hostlink_fins.UdpClient.{receive_size}
use omron_hostlink_fins.Utils.{copy}
use omron_hostlink_fins.Utils.Copies.{copy_shorter}

-- A byte of a text that `ReadString` does not take for its end.
abbrev pub IsTextByte : ℕ → Type 0
IsTextByte b = b ≢ 0

until_zero-padded :
    (text rest : List ℕ) → All IsTextByte text → until_zero (text ++ (0 ∷ rest)) ≡ text
unfolding until_zero
until_zero-padded [] rest h = refl
until_zero-padded (b ∷ text) rest (hb, h) =
    let more : (b == 0) ≡ false = ground arith in rw (more, until_zero-padded text rest h)

until_zero_whole : (text : List ℕ) → All IsTextByte text → until_zero text ≡ text
unfolding until_zero
until_zero_whole [] h = refl
until_zero_whole (b ∷ text) (hb, h) =
    let more : (b == 0) ≡ false = ground arith in rw (more, until_zero_whole text h)

-- The bytes that `WriteString` sends: the text, and as many zeros.
text_bytes :
    (text : List ℕ) → copy (replicate (2 * length text) 0) text ≡ text ++ replicate (length text) 0
text_bytes text =
    let n = length text in
    copy_shorter (replicate (2 * n) 0) text (omega (arith, length-replicate {A = ℕ} (2 * n) 0))
    ∙ ap (λ (xs : List ℕ). text ++ xs) (drop-replicate_add n n (2 * n) 0 (omega arith))

-- Of these bytes the words of the count hold the text, and one zero where its length is odd.
until_zero-words :
    (text : List ℕ)
    → All IsTextByte text
    → until_zero (take ((length text + 1) / 2 * 2) (text ++ replicate (length text) 0)) ≡ text
until_zero-words text h =
    let n = length text in
    elim (dec_lt 0 (n % 2)) [
      | yes odd ↦
          let all : (n + 1) / 2 * 2 ≡ n + 1 = omega arith in
          let more : n ≡ suc (n - 1) = omega arith in
          let zeros : replicate {A = ℕ} n 0 ≡ 0 ∷ replicate (n - 1) 0 =
            ap (λ (k : ℕ). replicate k 0) more in
          let regroup : text ++ (0 ∷ replicate (n - 1) 0)
              ≡ (text ++ (0 ∷ [])) ++ replicate (n - 1) 0 =
            simp append_assoc in
          let kept =
            take-append (n + 1) (text ++ (0 ∷ [])) (replicate (n - 1) 0)
              (length-append text (0 ∷ [])) in
          ap until_zero (
            ap₂ (λ (k : ℕ) (xs : List ℕ). take k (text ++ xs)) all zeros
            ∙ ap (take (n + 1)) regroup
            ∙ kept)
          ∙ until_zero-padded text [] h
      | no even ↦
          let all : (n + 1) / 2 * 2 ≡ n = omega arith in
          rw all (ap until_zero (take-append n text (replicate n 0) refl) ∙ until_zero_whole text h)
    ]

module _ {t : Transport} {peer : Loop → List ℕ → Loop × Reply} (link : Link t peer) where
  -- For a client and a simulator between two commands, `WriteString` of a text without zero bytes to
  -- a place inside the DM word area, short enough for the request to fit the simulator's buffer and
  -- for the answer to fit the client's, succeeds, and `ReadString` of half as many words as the text
  -- has bytes, rounded up, then returns the text.
  pub read_string-write_string :
      (c : Client) (l : Loop) (address : ℕ) (text : List ℕ)
      → IsReady c l
      → address + (length text + 1) ≤ dm_area_size
      → 18 + 2 * length text ≤ server_buf_size
      → link.overhead + (length text + 1) ≤ receive_size
      → All IsTextByte text
      → (s1 s2 : Client × Loop) × (write_string t peer (c, l) memory_area_dm_word address text
          ≡ (s1, ok tt))
        × (read_string t peer s1 memory_area_dm_word address ((length text + 1) / 2)
            ≡ (s2, ok text))
  unfolding write_string read_string read_bytes check_is_word_memory_area mem_addr
      mem_addr_with_bit_offset
  read_string-write_string c l address text ready inside small room_for valid =
      let n = length text in
      let bytes = text ++ replicate n 0 in
      let size : length bytes ≡ 2 * n =
        omega (arith, length-append text (replicate n 0), length-replicate {A = ℕ} n 0) in
      let count : to_uint16 ((n + 1) / 2) ≡ (n + 1) / 2 = omega arith in
      let (l1, l2, e1, e2) =
        sent_part_back link c l address ((n + 1) / 2) bytes (λ r. ok r.payload) ready (omega arith)
          (omega arith) (omega arith) (omega arith) in
      let sent =
        ap₂
          (λ (k : ℕ) (xs : List ℕ).
            exchange t peer (c, l) (write_command (dm address) k xs) command_type_write done)
          count (text_bytes text)
        ∙ e1 in
      let kept = take ((n + 1) / 2 * 2) bytes in
      let got =
        ap until_zero (take-append (length kept) kept (link.slack (length kept)) refl)
        ∙ until_zero-words text valid in
      (
        (after_send c, l1),
        (after_send (after_send c), l2),
        sent,
        ap
              (λ (r : (Client × Loop) × Result Slice).
                (r.0, r.1 >>= λ p. ok (until_zero (contents p))))
              e2
            ∙ ap (λ (xs : List ℕ). ((after_send (after_send c), l2), ok xs)) got,
      )
