-- ===== src/TcpClient/Framing.antt =====
-- fins/client_tcp.go: the frames that the packers make.
use omron_hostlink_fins.Bytes.Write.{write_uint32_to_bytes}
use omron_hostlink_fins.Common.{List, [], arith, drop-append, length, length-append}
use omron_hostlink_fins.Common.{length-replicate, length-take, of_list, ok, refl, replicate}
use omron_hostlink_fins.Common.{slice_from_lem, suc, take, take-append, take_all, ℕ, ◌++◌, ◌+◌}
use omron_hostlink_fins.Common.{◌-◌, ◌∷◌, ◌≡◌}
use omron_hostlink_fins.Common.Binary.{big_endian, uint32_bytes}
use omron_hostlink_fins.Common.Words.{to_uint32}
use omron_hostlink_fins.TcpClient.{pack, pack_tcp_read_command, pack_tcp_write_command}
use omron_hostlink_fins.TcpClient.{write_at}
use omron_hostlink_fins.Utils.{copy}
use omron_hostlink_fins.Utils.Copies.{copy_same}

-- The letters FINS, the length field, the command, the error code and what follows.
abbrev pub tcp_message : ℕ → ℕ → ℕ → List ℕ → List ℕ
tcp_message field cmd status body =
    0x46
    ∷ 0x49
    ∷ 0x4e
    ∷ 0x53
    ∷ (uint32_bytes big_endian field
        ++ (uint32_bytes big_endian cmd ++ (uint32_bytes big_endian status ++ body)))

write_at_lem :
    (before rest : List ℕ) (a b c d offset v : ℕ)
    → length before ≡ offset
    → write_at (before ++ (a ∷ b ∷ c ∷ d ∷ rest)) offset v
      ≡ ok (before ++ (uint32_bytes big_endian v ++ rest))
unfolding write_uint32_to_bytes
write_at_lem before rest a b c d offset v h =
    let tail : List ℕ = a ∷ b ∷ c ∷ d ∷ rest in
    let buf = before ++ tail in
    let size = length-append before tail in
    let all : take (length buf - offset) tail ≡ tail = take_all _ tail (omega arith) in
    rw (
      slice_from_lem (of_list buf) offset (omega arith),
      drop-append offset before tail h,
      all,
      take-append offset before tail h,
    )

zeros_ahead :
    (n : ℕ)
    → replicate {A = ℕ} (16 + n) 0
      ≡ 0 ∷ 0 ∷ 0 ∷ 0 ∷ 0 ∷ 0 ∷ 0 ∷ 0 ∷ 0 ∷ 0 ∷ 0 ∷ 0 ∷ 0 ∷ 0 ∷ 0 ∷ 0 ∷ replicate n 0
zeros_ahead n =
    let e : 16 + n
        ≡ suc (
            suc (
              suc
                (suc (suc (suc (suc (suc (suc (suc (suc (suc (suc (suc (suc (suc n))))))))))))))) =
      omega arith in
    rw e

pack_lem :
    (field cmd : ℕ) (payload : List ℕ)
    → pack field cmd payload ≡ ok (tcp_message field (to_uint32 cmd) 0 payload)
pack_lem field cmd payload =
    let n = length payload in
    let zeros = replicate {A = ℕ} n 0 in
    let f4 : List ℕ = 0x46 ∷ 0x49 ∷ 0x4e ∷ 0x53 ∷ [] in
    let f8 = f4 ++ uint32_bytes big_endian field in
    let f12 = f8 ++ uint32_bytes big_endian (to_uint32 cmd) in
    let f16 = f12 ++ uint32_bytes big_endian 0 in
    let tail = slice_from_lem (of_list (f16 ++ zeros)) 16 (omega arith) in
    let body : copy (take (length (f16 ++ zeros) - 16) zeros) payload ≡ payload =
      copy_same _ payload (
        omega
          (arith, length-take (length (f16 ++ zeros) - 16) zeros, length-replicate {A = ℕ} n 0)) in
    rw (
      zeros_ahead n,
      write_at_lem f4 (0 ∷ 0 ∷ 0 ∷ 0 ∷ 0 ∷ 0 ∷ 0 ∷ 0 ∷ zeros) 0 0 0 0 4 field refl,
      write_at_lem f8 (0 ∷ 0 ∷ 0 ∷ 0 ∷ zeros) 0 0 0 0 8 (to_uint32 cmd) refl,
      write_at_lem f12 zeros 0 0 0 0 12 0 refl,
      tail,
      body,
    )

-- Neither packer fails; they differ in the length field alone.
pub pack_tcp_write_command_lem :
    (cmd : ℕ) (payload : List ℕ)
    → pack_tcp_write_command cmd payload
      ≡ ok (tcp_message (to_uint32 (length payload)) (to_uint32 cmd) 0 payload)
unfolding pack_tcp_write_command
pack_tcp_write_command_lem cmd payload = pack_lem (to_uint32 (length payload)) cmd payload

pub pack_tcp_read_command_lem :
    (cmd : ℕ) (payload : List ℕ)
    → pack_tcp_read_command cmd payload ≡ ok (tcp_message 0x1A (to_uint32 cmd) 0 payload)
unfolding pack_tcp_read_command
pack_tcp_read_command_lem cmd payload = pack_lem 0x1A cmd payload
