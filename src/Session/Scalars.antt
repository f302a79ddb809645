-- ===== src/Session/Scalars.antt =====
-- Single numbers of the simulator (fins/udp_server.go) through a client: what is written is what is
-- read.
use omron_hostlink_fins.Client.{Client, Reply, Transport}
use omron_hostlink_fins.Client.Read.{int16_result, int32_result, read_int16, read_int32}
use omron_hostlink_fins.Client.Read.{read_uint16, uint16_result}
use omron_hostlink_fins.Client.Write.{write_int16, write_int32, write_uint16}
use omron_hostlink_fins.Common.{Bool, List, [], arith, false, if◌then◌else◌, length, le→leb}
use omron_hostlink_fins.Common.{ok, ok-injective, refl, suc, true, ℕ, ◌%◌, ◌*◌, ◌+◌, ◌/◌, ◌^◌}
use omron_hostlink_fins.Common.{◌∷◌, ◌≡◌, ◌≤◌}
use omron_hostlink_fins.Common.Binary.{big_endian, get_uint16, get_uint32, get_uint32-bytes}
use omron_hostlink_fins.Common.Binary.{little_endian, uint16_bytes, uint32_bytes}
use omron_hostlink_fins.Common.Int.{IsSigned, signed, signed-unsigned, unsigned, unsigned-lt}
use omron_hostlink_fins.Common.Int.{ℤ}
use omron_hostlink_fins.Common.Words.{IsUint16, shr, to_byte}
use omron_hostlink_fins.Driver.Commands.{mem_addr, mem_addr_with_bit_offset}
use omron_hostlink_fins.MemoryArea.{memory_area_dm_word}
use omron_hostlink_fins.Server.{Loop, dm_area_size}
use omron_hostlink_fins.Session.{IsReady, Link, after_send}
use omron_hostlink_fins.Session.Exchanges.{found_response, sent_back}
use omron_hostlink_fins.UdpClient.{receive_size}
use omron_hostlink_fins.Utils.{swap16_bit_data_bytes, swap32_bit_data_bytes}
use omron_hostlink_fins.Utils.Swaps.{byte_swapped, swap32_bit_data_bytes_lem, word_swapped}

-- Whether a number of `words` words lies inside the data memory.
abbrev IsInside : ℕ → ℕ → Type 0
IsInside address words = address + words * 2 ≤ dm_area_size

-- The four bytes of a register, swapped as `WriteInt32` swaps them.
abbrev swapped_bytes : Bool → Bool → List ℕ → List ℕ
swapped_bytes bs ws xs =
    let once = (if bs then byte_swapped xs else xs) in if ws then word_swapped once else once

length-swapped_bytes :
    (bs ws : Bool) (xs : List ℕ) → length xs ≡ 4 → length (swapped_bytes bs ws xs) ≡ 4
length-swapped_bytes false false (a ∷ b ∷ c ∷ d ∷ []) h = refl
length-swapped_bytes false true (a ∷ b ∷ c ∷ d ∷ []) h = refl
length-swapped_bytes true false (a ∷ b ∷ c ∷ d ∷ []) h = refl
length-swapped_bytes true true (a ∷ b ∷ c ∷ d ∷ []) h = refl
length-swapped_bytes _ _ _ h = absurd (omega arith)

int32_result-swapped :
    (bs ws : Bool) (slack : ℕ → List ℕ) (c : Client) (x : ℤ)
    → IsSigned 31 x
    → int32_result bs ws
        (found_response slack c (swapped_bytes bs ws (uint32_bytes big_endian (unsigned 31 x))))
      ≡ ok (swapped_bytes bs ws (uint32_bytes big_endian (unsigned 31 x)), x)
unfolding int32_result swap32_bit_data_bytes get_uint32
int32_result-swapped false false slack c x valid =
    let whole =
      ok-injective (get_uint32-bytes big_endian (unsigned 31 x) [] (unsigned-lt 31 x valid)) in
    let fits = le→leb 4 (suc (suc (suc (suc (length (slack 4)))))) (omega arith) in
    rw (fits, whole, signed-unsigned 31 x valid)
int32_result-swapped false true slack c x valid =
    let whole =
      ok-injective (get_uint32-bytes big_endian (unsigned 31 x) [] (unsigned-lt 31 x valid)) in
    let fits = le→leb 4 (suc (suc (suc (suc (length (slack 4)))))) (omega arith) in
    rw (fits, whole, signed-unsigned 31 x valid)
int32_result-swapped true false slack c x valid =
    let whole =
      ok-injective (get_uint32-bytes big_endian (unsigned 31 x) [] (unsigned-lt 31 x valid)) in
    let fits = le→leb 4 (suc (suc (suc (suc (length (slack 4)))))) (omega arith) in
    rw (fits, whole, signed-unsigned 31 x valid)
int32_result-swapped true true slack c x valid =
    let whole =
      ok-injective (get_uint32-bytes big_endian (unsigned 31 x) [] (unsigned-lt 31 x valid)) in
    let fits = le→leb 4 (suc (suc (suc (suc (length (slack 4)))))) (omega arith) in
    rw (fits, whole, signed-unsigned 31 x valid)

module _ {t : Transport} {peer : Loop → List ℕ → Loop × Reply} (link : Link t peer) where
  -- For a client and a simulator between two commands, `WriteUint16` of a 16-bit number to a place
  -- inside the DM word area succeeds, and `ReadUint16` of one word with the same flags then returns
  -- it, when an answer of two bytes fits the client's buffer.
  pub read_uint16-write_uint16 :
      (c : Client) (l : Loop) (address v : ℕ) (is_byte_swap is_word_swap : Bool)
      → IsReady c l
      → IsInside address 1
      → link.overhead + 2 ≤ receive_size
      → IsUint16 v
      → (s1 s2 : Client × Loop) × (bytes : List ℕ) × (write_uint16 t peer
            (c, l)
            memory_area_dm_word
            address
            v
            is_byte_swap
            is_word_swap
          ≡ (s1, ok tt))
        × (read_uint16 t peer s1 memory_area_dm_word address 1 is_byte_swap is_word_swap
            ≡ (s2, ok (bytes, v)))
  unfolding write_uint16 read_uint16 mem_addr mem_addr_with_bit_offset uint16_result
      swap16_bit_data_bytes get_uint16
  read_uint16-write_uint16 c l address v true ws ready inside small valid =
      let bytes = uint16_bytes little_endian v in
      let (l1, l2, e1, e2) =
        sent_back link c l address 1 bytes (uint16_result true) ready inside (omega arith) small
          refl in
      let two_fit = le→leb 2 (suc (suc (length (link.slack 2)))) (omega arith) in
      let same : to_byte (shr v 8) * 2 ^ 8 + to_byte v ≡ v = omega arith in
      ((after_send c, l1), (after_send (after_send c), l2), bytes, e1, rw (e2, two_fit, same))
  read_uint16-write_uint16 c l address v false ws ready inside small valid =
      let bytes = uint16_bytes big_endian v in
      let (l1, l2, e1, e2) =
        sent_back link c l address 1 bytes (uint16_result false) ready inside (omega arith) small
          refl in
      let two_fit = le→leb 2 (suc (suc (length (link.slack 2)))) (omega arith) in
      let same : to_byte (shr v 8) * 2 ^ 8 + to_byte v ≡ v = omega arith in
      ((after_send c, l1), (after_send (after_send c), l2), bytes, e1, rw (e2, two_fit, same))

  -- For a client and a simulator between two commands, `WriteInt16` of a signed 16-bit number to a
  -- place inside the DM word area succeeds, and `ReadInt16` of one word with the same flags then
  -- returns the number with the byte swap, and without it the number of its two bytes exchanged, when
  -- an answer of two bytes fits the client's buffer.
  pub read_int16-write_int16 :
      (c : Client) (l : Loop) (address : ℕ) (x : ℤ) (is_byte_swap is_word_swap : Bool)
      → IsReady c l
      → IsInside address 1
      → link.overhead + 2 ≤ receive_size
      → IsSigned 15 x
      → (s1 s2 : Client × Loop) × (bytes : List ℕ) × (write_int16 t peer
            (c, l)
            memory_area_dm_word
            address
            x
            is_byte_swap
            is_word_swap
          ≡ (s1, ok tt))
        × (read_int16 t peer s1 memory_area_dm_word address 1 is_byte_swap is_word_swap ≡ (
          s2,
          ok (
            bytes,
            (if is_byte_swap
                then x
                else signed 15 (unsigned 15 x % 2 ^ 8 * 2 ^ 8 + unsigned 15 x / 2 ^ 8)),
          ),
        ))
  unfolding write_int16 read_int16 mem_addr mem_addr_with_bit_offset int16_result
      swap16_bit_data_bytes get_uint16
  read_int16-write_int16 c l address x true ws ready inside small valid =
      let v = unsigned 15 x in
      let bytes = uint16_bytes little_endian v in
      let (l1, l2, e1, e2) =
        sent_back link c l address 1 bytes (int16_result true) ready inside (omega arith) small
          refl in
      let two_fit = le→leb 2 (suc (suc (length (link.slack 2)))) (omega arith) in
      let same : to_byte (shr v 8) * 2 ^ 8 + to_byte v ≡ v =
        omega (arith, unsigned-lt 15 x valid) in
      (
        (after_send c, l1),
        (after_send (after_send c), l2),
        bytes,
        e1,
        rw (e2, two_fit, same, signed-unsigned 15 x valid),
      )
  read_int16-write_int16 c l address x false ws ready inside small valid =
      let v = unsigned 15 x in
      let bytes = uint16_bytes little_endian v in
      let (l1, l2, e1, e2) =
        sent_back link c l address 1 bytes (int16_result false) ready inside (omega arith) small
          refl in
      let two_fit = le→leb 2 (suc (suc (length (link.slack 2)))) (omega arith) in
      let other : to_byte v * 2 ^ 8 + to_byte (shr v 8) ≡ v % 2 ^ 8 * 2 ^ 8 + v / 2 ^ 8 =
        omega (arith, unsigned-lt 15 x valid) in
      ((after_send c, l1), (after_send (after_send c), l2), bytes, e1, rw (e2, two_fit, other))

  -- For a client and a simulator between two commands, `WriteInt32` of a signed 32-bit number to a
  -- place inside the DM word area succeeds, and `ReadInt32` of one number with the same swap flags
  -- then returns it, when an answer of four bytes fits the client's buffer.
  pub read_int32-write_int32 :
      (c : Client) (l : Loop) (address : ℕ) (x : ℤ) (is_byte_swap is_word_swap : Bool)
      → IsReady c l
      → IsInside address 2
      → link.overhead + 4 ≤ receive_size
      → IsSigned 31 x
      → (s1 s2 : Client × Loop) × (bytes : List ℕ) × (write_int32 t peer
            (c, l)
            memory_area_dm_word
            address
            x
            is_byte_swap
            is_word_swap
          ≡ (s1, ok tt))
        × (read_int32 t peer s1 memory_area_dm_word address 1 is_byte_swap is_word_swap
            ≡ (s2, ok (bytes, x)))
  unfolding write_int32 read_int32 mem_addr mem_addr_with_bit_offset
  read_int32-write_int32 c l address x bs ws ready inside small valid =
      let written = uint32_bytes big_endian (unsigned 31 x) in
      let swapped = swap32_bit_data_bytes_lem written bs ws refl in
      let (l1, l2, e1, e2) =
        sent_back link c l address 2 (swapped_bytes bs ws written) (int32_result bs ws) ready inside
          (omega arith) small (length-swapped_bytes bs ws written refl) in
      let e3 = int32_result-swapped bs ws link.slack (after_send c) x valid in
      (
        (after_send c, l1),
        (after_send (after_send c), l2),
        swapped_bytes bs ws written,
        rw (swapped, e1),
        rw (e2, e3),
      )
