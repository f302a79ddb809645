-- ===== src/Bytes/RoundTrip.antt =====
-- fins/bytes.go: what the encoders write is what the parsers read, and nothing else is touched.
use native.Mathlib.Nat.{one-le-pow}
use native.Mathlib.Numerals.{towards_suc}
use omron_hostlink_fins.Bytes.Parse.{parse_uint16, parse_uint16_little_endian, parse_uint32}
use omron_hostlink_fins.Bytes.Parse.{parse_uint32_little_endian, parse_uint64}
use omron_hostlink_fins.Bytes.Parse.{parse_uint64_little_endian}
use omron_hostlink_fins.Bytes.Write.{write_uint16_little_endian_to_bytes}
use omron_hostlink_fins.Bytes.Write.{write_uint16_to_bytes}
use omron_hostlink_fins.Bytes.Write.{write_uint32_little_endian_to_bytes}
use omron_hostlink_fins.Bytes.Write.{write_uint32_to_bytes}
use omron_hostlink_fins.Bytes.Write.{write_uint64_little_endian_to_bytes}
use omron_hostlink_fins.Bytes.Write.{write_uint64_to_bytes}
use omron_hostlink_fins.Common.{All, List, [], ap, arith, bit_or, drop, length, ok, refl, ℕ}
use omron_hostlink_fins.Common.{◌*◌, ◌+◌, ◌<◌, ◌^◌, ◌∙◌, ◌∷◌, ◌≡◌, ◌≤◌}
use omron_hostlink_fins.Common.Words.{IsByte, IsUint16, IsUint32, IsUint64, bit_or_disjoint}
use omron_hostlink_fins.Common.Words.{shl, shr, to_byte}

pow_byte : (k : ℕ) → 2 ^ (k + 8) ≡ 256 * 2 ^ k
pow_byte k = simp towards_suc (omega arith)

byte_below : (k b : ℕ) → IsByte b → b * 2 ^ k < 2 ^ (k + 8)
byte_below k b h =
    let large = one-le-pow k 2 (omega arith) in
    let above : (b + 1) * 2 ^ k ≤ 256 * 2 ^ k = grind arith in rw pow_byte (omega arith)

-- A big-endian number, one more byte at a time.
or_byte :
    (k x y q b : ℕ)
    → x ≡ q * 2 ^ (k + 8)
    → y ≡ b * 2 ^ k
    → IsByte b
    → bit_or x y ≡ (q * 2 ^ 8 + b) * 2 ^ k
or_byte k x y q b ex ey h =
    rw (ex, ey, bit_or_disjoint (k + 8) q (b * 2 ^ k) (byte_below k b h))
      (omega (arith, ap (λ (t : ℕ). q * t) (pow_byte k)))

-- The big-endian value of eight bytes.
abbrev value64 : ℕ → ℕ → ℕ → ℕ → ℕ → ℕ → ℕ → ℕ → ℕ
value64 a b c d e f g h =
    a * 2 ^ 56 + b * 2 ^ 48 + c * 2 ^ 40 + d * 2 ^ 32 + e * 2 ^ 24 + f * 2 ^ 16 + g * 2 ^ 8 + h

or_chain :
    (a b c d e f g h : ℕ)
    → All IsByte (a ∷ b ∷ c ∷ d ∷ e ∷ f ∷ g ∷ h ∷ [])
    → bit_or
        (bit_or
          (bit_or
            (bit_or
              (bit_or (bit_or (bit_or (shl 64 a 56) (shl 64 b 48)) (shl 64 c 40)) (shl 64 d 32))
              (shl 64 e 24))
            (shl 64 f 16))
          (shl 64 g 8))
        h
      ≡ value64 a b c d e f g h
or_chain a b c d e f g h (ha, (hb, (hc, (hd, (he, (hf, (hg, (hh, _)))))))) =
    let s1 = or_byte 48 (shl 64 a 56) (shl 64 b 48) a b (omega arith) (omega arith) hb in
    let s2 = or_byte 40 _ (shl 64 c 40) _ c s1 (omega arith) hc in
    let s3 = or_byte 32 _ (shl 64 d 32) _ d s2 (omega arith) hd in
    let s4 = or_byte 24 _ (shl 64 e 24) _ e s3 (omega arith) he in
    let s5 = or_byte 16 _ (shl 64 f 16) _ f s4 (omega arith) hf in
    let s6 = or_byte 8 _ (shl 64 g 8) _ g s5 (omega arith) hg in
    or_byte 0 _ h _ h s6 (omega arith) hh ∙ omega arith

bytes_value :
    (v : ℕ)
    → IsUint64 v
    → value64
        (to_byte (shr v 56))
        (to_byte (shr v 48))
        (to_byte (shr v 40))
        (to_byte (shr v 32))
        (to_byte (shr v 24))
        (to_byte (shr v 16))
        (to_byte (shr v 8))
        (to_byte v)
      ≡ v
bytes_value v h = omega arith

bytes_chain :
    (v : ℕ)
    → IsUint64 v
    → bit_or
        (bit_or
          (bit_or
            (bit_or
              (bit_or
                (bit_or
                  (bit_or (shl 64 (to_byte (shr v 56)) 56) (shl 64 (to_byte (shr v 48)) 48))
                  (shl 64 (to_byte (shr v 40)) 40))
                (shl 64 (to_byte (shr v 32)) 32))
              (shl 64 (to_byte (shr v 24)) 24))
            (shl 64 (to_byte (shr v 16)) 16))
          (shl 64 (to_byte (shr v 8)) 8))
        (to_byte v)
      ≡ v
bytes_chain v h = or_chain _ _ _ _ _ _ _ _ (omega arith) ∙ bytes_value v h

-- On a slice of at least 8 bytes the big-endian writer of a 64-bit number succeeds, the parser
-- reads the number back, and the bytes behind the first 8 are unchanged.
pub parse_uint64-write :
    (buf : List ℕ) (v : ℕ)
    → 8 ≤ length buf
    → IsUint64 v
    → (out : List ℕ) × (write_uint64_to_bytes buf v ≡ ok out)
      × (parse_uint64 out ≡ ok v)
      × (drop 8 out ≡ drop 8 buf)
unfolding write_uint64_to_bytes parse_uint64
parse_uint64-write (a ∷ b ∷ c ∷ d ∷ e ∷ f ∷ g ∷ i ∷ rest) v hl h =
    (_, refl, ap ok (bytes_chain v h), refl)
parse_uint64-write _ v hl h = absurd (omega arith)

-- On a slice of at least 8 bytes the little-endian writer of a 64-bit number succeeds, the parser
-- reads the number back, and the bytes behind the first 8 are unchanged.
pub parse_uint64_little_endian-write :
    (buf : List ℕ) (v : ℕ)
    → 8 ≤ length buf
    → IsUint64 v
    → (out : List ℕ) × (write_uint64_little_endian_to_bytes buf v ≡ ok out)
      × (parse_uint64_little_endian out ≡ ok v)
      × (drop 8 out ≡ drop 8 buf)
unfolding write_uint64_little_endian_to_bytes parse_uint64_little_endian
parse_uint64_little_endian-write (a ∷ b ∷ c ∷ d ∷ e ∷ f ∷ g ∷ i ∷ rest) v hl h =
    (_, refl, ap ok (bytes_chain v h), refl)
parse_uint64_little_endian-write _ v hl h = absurd (omega arith)

-- On a slice of at least 4 bytes the big-endian writer of a 32-bit number succeeds, the parser
-- reads the number back, and the bytes behind the first 4 are unchanged.
pub parse_uint32-write :
    (buf : List ℕ) (v : ℕ)
    → 4 ≤ length buf
    → IsUint32 v
    → (out : List ℕ) × (write_uint32_to_bytes buf v ≡ ok out)
      × (parse_uint32 out ≡ ok v)
      × (drop 4 out ≡ drop 4 buf)
unfolding write_uint32_to_bytes parse_uint32
parse_uint32-write (a ∷ b ∷ c ∷ d ∷ rest) v hl h = (_, refl, ap ok (omega arith), refl)
parse_uint32-write _ v hl h = absurd (omega arith)

-- On a slice of at least 4 bytes the little-endian writer of a 32-bit number succeeds, the parser
-- reads the number back, and the bytes behind the first 4 are unchanged.
pub parse_uint32_little_endian-write :
    (buf : List ℕ) (v : ℕ)
    → 4 ≤ length buf
    → IsUint32 v
    → (out : List ℕ) × (write_uint32_little_endian_to_bytes buf v ≡ ok out)
      × (parse_uint32_little_endian out ≡ ok v)
      × (drop 4 out ≡ drop 4 buf)
unfolding write_uint32_little_endian_to_bytes parse_uint32_little_endian
parse_uint32_little_endian-write (a ∷ b ∷ c ∷ d ∷ rest) v hl h =
    (_, refl, ap ok (omega arith), refl)
parse_uint32_little_endian-write _ v hl h = absurd (omega arith)

-- On a slice of at least 2 bytes the big-endian writer of a 16-bit number succeeds, the parser
-- reads the number back, and the bytes behind the first 2 are unchanged.
pub parse_uint16-write :
    (buf : List ℕ) (v : ℕ)
    → 2 ≤ length buf
    → IsUint16 v
    → (out : List ℕ) × (write_uint16_to_bytes buf v ≡ ok out)
      × (parse_uint16 out ≡ ok v)
      × (drop 2 out ≡ drop 2 buf)
unfolding write_uint16_to_bytes parse_uint16
parse_uint16-write (a ∷ b ∷ rest) v hl h = (_, refl, ap ok (omega arith), refl)
parse_uint16-write _ v hl h = absurd (omega arith)

-- On a slice of at least 2 bytes the little-endian writer of a 16-bit number succeeds, the parser
-- reads the number back, and the bytes behind the first 2 are unchanged.
pub parse_uint16_little_endian-write :
    (buf : List ℕ) (v : ℕ)
    → 2 ≤ length buf
    → IsUint16 v
    → (out : List ℕ) × (write_uint16_little_endian_to_bytes buf v ≡ ok out)
      × (parse_uint16_little_endian out ≡ ok v)
      × (drop 2 out ≡ drop 2 buf)
unfolding write_uint16_little_endian_to_bytes parse_uint16_little_endian
parse_uint16_little_endian-write (a ∷ b ∷ rest) v hl h = (_, refl, ap ok (omega arith), refl)
parse_uint16_little_endian-write _ v hl h = absurd (omega arith)
