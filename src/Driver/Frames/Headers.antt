-- ===== src/Driver/Frames/Headers.antt =====
-- fins/driver.go: headers and frames through their codecs.
use omron_hostlink_fins.Address.{FinsAddress}
use omron_hostlink_fins.Common.{Bool-cases, List, arith, if◌then◌else◌, inl, inr, length, ok}
use omron_hostlink_fins.Common.{refl, ℕ, ◌%◌, ◌==◌, ◌∷◌, ◌≡◌}
use omron_hostlink_fins.Common.Words.{bit_and-one}
use omron_hostlink_fins.Driver.Frames.{decode_header, encode_header}
use omron_hostlink_fins.Header.{Header, default_command_header, default_response_header}
use omron_hostlink_fins.Header.{message_type_command, message_type_response}

-- The header that comes back from `h`.
abbrev pub as_decoded : Header → Header
as_decoded h = record h {
  message_type = (if h.response_required then message_type_command else message_type_response);
}

pub header_back : (h : Header) → decode_header (encode_header h) ≡ ok (as_decoded h)
unfolding decode_header encode_header
header_back h = elim (Bool-cases h.response_required) [
  | inl r ↦ elim (Bool-cases (h.message_type == message_type_response)) [
    | inl t ↦ rw (r, t)
    | inr t ↦ rw (r, t)
  ]
  | inr r ↦ elim (Bool-cases (h.message_type == message_type_response)) [
    | inl t ↦ rw (r, t)
    | inr t ↦ rw (r, t)
  ]
]

-- `encodeHeader` makes ten bytes, and `decodeHeader` reads all of them back but the message type,
-- which it takes from the bit that says whether a response is required.
pub decode_header-encode_header :
    (h : Header)
    → (length (encode_header h) ≡ 10)
      × (decode_header (encode_header h)
          ≡ ok (record h {
            message_type =
                (if h.response_required then message_type_command else message_type_response);
          }))
unfolding encode_header
decode_header-encode_header h = (refl, unfold encode_header in header_back h)

-- A header that the two constructors of header.go make.
pub record IsDefaultHeader (h : Header) : Type 0 where
  pub typed :
      h.message_type ≡ (if h.response_required then message_type_command else message_type_response)

pub default_command_header-IsDefaultHeader :
    (src dst : FinsAddress) (sid : ℕ) → IsDefaultHeader (default_command_header src dst sid)
unfolding default_command_header
default_command_header-IsDefaultHeader src dst sid = record { typed = refl }

pub default_response_header-IsDefaultHeader :
    (h : Header) → IsDefaultHeader (default_response_header h)
unfolding default_response_header
default_response_header-IsDefaultHeader h = record { typed = refl }

-- Whatever the message type bit says, a header byte with bit 0 clear is decoded as a command and one
-- with bit 0 set as a response.
pub decode_header_type :
    (icf : ℕ) (rest : List ℕ) (h : Header)
    → decode_header (icf ∷ rest) ≡ ok h
    → h.message_type ≡ icf % 2
unfolding decode_header
decode_header_type icf rest h e = ground (arith, bit_and-one icf)
