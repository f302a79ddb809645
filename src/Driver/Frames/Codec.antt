-- ===== src/Driver/Frames/Codec.antt =====
-- fins/driver.go: whole frames, in a buffer that may go on behind them.
use omron_hostlink_fins.Common.{>>=-panic, IsPlain, List, Slice, arith, contents, drop}
use omron_hostlink_fins.Common.{leb-false, length, of_list, ok, panic, refl, reslice}
use omron_hostlink_fins.Common.{reslice-IsPlain, reslice_lem, slice_from_lem, take, ℕ, ◌*◌}
use omron_hostlink_fins.Common.{◌++◌, ◌+◌, ◌-◌, ◌<◌, ◌>>=◌, ◌^◌, ◌∙◌, ◌∷◌, ◌≡◌}
use omron_hostlink_fins.Common.Binary.{big_endian, get_uint16}
use omron_hostlink_fins.Common.Words.{IsUint16, shr, to_byte}
use omron_hostlink_fins.Driver.Frames.{Response, decode_header, decode_request}
use omron_hostlink_fins.Driver.Frames.{decode_response, encode_header, encode_response}
use omron_hostlink_fins.Driver.Frames.Headers.{as_decoded, header_back}
use omron_hostlink_fins.Header.{Header}

take-encode_header : (h : Header) (xs : List ℕ) → take 10 (encode_header h ++ xs) ≡ encode_header h
unfolding encode_header
take-encode_header h xs = refl

drop-encode_header : (h : Header) (xs : List ℕ) → drop 10 (encode_header h ++ xs) ≡ xs
unfolding encode_header
drop-encode_header h xs = refl

drop-encode_header_two :
    (h : Header) (a b : ℕ) (xs : List ℕ) → drop 12 (encode_header h ++ (a ∷ b ∷ xs)) ≡ xs
unfolding encode_header
drop-encode_header_two h a b xs = refl

drop-encode_header_four :
    (h : Header) (a b c d : ℕ) (xs : List ℕ)
    → drop 14 (encode_header h ++ (a ∷ b ∷ c ∷ d ∷ xs)) ≡ xs
unfolding encode_header
drop-encode_header_four h a b c d xs = refl

pub length-encode_header :
    (h : Header) (xs : List ℕ) → length (encode_header h ++ xs) ≡ 10 + length xs
unfolding encode_header
length-encode_header h xs = omega arith

-- The header of a frame.
frame_header :
    (h : Header) (n : ℕ) (xs : List ℕ)
    → (reslice (record { cells = encode_header h ++ xs; len = n }) 0 10 >>= λ head.
        decode_header (contents head))
      ≡ ok (as_decoded h)
frame_header h n xs =
    let s : Slice = record { cells = encode_header h ++ xs; len = n } in
    rw
      (
        reslice_lem s 0 10 (omega arith) (omega (arith, length-encode_header h xs)),
        take-encode_header h xs,
      )
      (header_back h)

-- A request frame of `12 + n` bytes gives its header, its command code and the `n` bytes behind.
pub decode_request-frame :
    (h : Header) (a b n : ℕ) (rest : List ℕ)
    → decode_request (record { cells = encode_header h ++ (a ∷ b ∷ rest); len = 12 + n })
      ≡ ok (record {
        header = as_decoded h;
        command_code = a * 2 ^ 8 + b;
        payload = record { cells = rest; len = n };
      })
unfolding decode_request get_uint16
decode_request-frame h a b n rest =
    let s : Slice = record { cells = encode_header h ++ (a ∷ b ∷ rest); len = 12 + n } in
    let size = length-encode_header h (a ∷ b ∷ rest) in
    let left : 12 + n - 12 ≡ n = omega arith in
    rw (
      reslice_lem s 0 10 (omega arith) (omega arith),
      take-encode_header h (a ∷ b ∷ rest),
      header_back h,
      reslice_lem s 10 12 (omega arith) (omega arith),
      drop-encode_header h (a ∷ b ∷ rest),
      slice_from_lem s 12 (omega arith),
      drop-encode_header_two h a b rest,
      left,
    )

-- A response frame of `14 + n` bytes gives its header, its two codes and the `n` bytes behind.
pub decode_response-frame :
    (h : Header) (a b c d n : ℕ) (rest : List ℕ)
    → decode_response (record { cells = encode_header h ++ (a ∷ b ∷ c ∷ d ∷ rest); len = 14 + n })
      ≡ ok (record {
        header = as_decoded h;
        command_code = a * 2 ^ 8 + b;
        end_code = c * 2 ^ 8 + d;
        payload = record { cells = rest; len = n };
      })
unfolding decode_response get_uint16
decode_response-frame h a b c d n rest =
    let xs : List ℕ = a ∷ b ∷ c ∷ d ∷ rest in
    let s : Slice = record { cells = encode_header h ++ xs; len = 14 + n } in
    let size = length-encode_header h xs in
    let left : 14 + n - 14 ≡ n = omega arith in
    rw (
      reslice_lem s 0 10 (omega arith) (omega arith),
      take-encode_header h xs,
      header_back h,
      reslice_lem s 10 12 (omega arith) (omega arith),
      drop-encode_header h xs,
      reslice_lem s 12 14 (omega arith) (omega arith),
      drop-encode_header_two h a b (c ∷ d ∷ rest),
      slice_from_lem s 14 (omega arith),
      drop-encode_header_four h a b c d rest,
      left,
    )

-- `decodeResponse` gives back what `encodeResponse` wrote of a response with 16-bit codes: the
-- codes, the data, and the header but for its message type, which becomes that of a command when a
-- response is required and of a response when not.
pub decode_response-encode_response :
    (r : Response)
    → IsUint16 r.command_code
    → IsUint16 r.end_code
    → decode_response (of_list (encode_response r))
      ≡ ok (record {
        header = as_decoded r.header;
        command_code = r.command_code;
        end_code = r.end_code;
        payload = of_list (contents r.payload);
      })
unfolding encode_response
decode_response-encode_response r hc he =
    let body = contents r.payload in
    let size : length (encode_response r) ≡ 14 + length body =
      unfold encode_response encode_header in omega arith in
    let code : to_byte (shr r.command_code 8) * 2 ^ 8 + to_byte r.command_code ≡ r.command_code =
      omega arith in
    let end : to_byte (shr r.end_code 8) * 2 ^ 8 + to_byte r.end_code ≡ r.end_code = omega arith in
    rw size (decode_response-frame r.header _ _ _ _ (length body) body ∙ rw (code, end))

get_uint16-IsPlain : (xs : List ℕ) → IsPlain (get_uint16 big_endian xs)
unfolding get_uint16
get_uint16-IsPlain (a ∷ b ∷ xs) = tt
get_uint16-IsPlain _ = tt

decode_header-IsPlain : (xs : List ℕ) → IsPlain (decode_header xs)
unfolding decode_header
decode_header-IsPlain (a ∷ b ∷ c ∷ d ∷ e ∷ f ∷ g ∷ h ∷ i ∷ j ∷ xs) = tt
decode_header-IsPlain _ = tt

-- A packet of fewer than 14 bytes makes `decodeResponse` panic, whatever its buffer holds.
pub decode_response_short : (s : Slice) → s.len < 14 → decode_response s ≡ panic
unfolding decode_response
decode_response_short s h = >>=-panic _ _ (reslice-IsPlain s 0 10) λ head.
    >>=-panic _ _ (decode_header-IsPlain (contents head)) λ header.
      >>=-panic _ _ (reslice-IsPlain s 10 12) λ code.
        >>=-panic _ _ (get_uint16-IsPlain (contents code)) λ command_code.
          >>=-panic _ _ (reslice-IsPlain s 12 14) λ end.
            >>=-panic _ _ (get_uint16-IsPlain (contents end)) λ end_code. rw (leb-false 14 s.len h)
