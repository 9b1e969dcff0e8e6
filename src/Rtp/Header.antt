-- ===== src/Rtp/Header.antt =====
-- The bit fields of common/h264tortp.h (sample/h264tortp.h is the same but for a client list), laid
-- out as the compiler lays them out on the little-endian machine that the header file names.
use Prim.Native.Nat.{bit_and, bit_or}
use test.Base.{ℕ, ◌+◌, ◌*◌, ◌/◌, ◌%◌, ◌^◌, List, [], ◌∷◌}

-- `rtp_header_t`. `seq_no`, `timestamp` and `ssrc` are in host order here.
pub record RtpHeader : Type 0 where
  pub csrc_len : ℕ
  pub extension : ℕ
  pub padding : ℕ
  pub version : ℕ
  pub payload_type : ℕ
  pub marker : ℕ
  pub seq_no : ℕ
  pub timestamp : ℕ
  pub ssrc : ℕ

-- the two bytes that `htons` leaves in memory
abbrev pub htons : ℕ → List ℕ → List ℕ
htons x rest = (x / 256 % 256) ∷ (x % 256) ∷ rest

-- the four bytes that `htonl` leaves in memory
abbrev pub htonl : ℕ → List ℕ → List ℕ
htonl x rest = htons (x / 2 ^ 16) (htons x rest)

-- the twelve bytes of the packed structure
unfoldable pub rtp_header_bytes : RtpHeader → List ℕ
rtp_header_bytes h =
    (h.csrc_len % 16 + 16 * (h.extension % 2) + 32 * (h.padding % 2) + 64 * (h.version % 4))
    ∷ (h.payload_type % 128 + 128 * (h.marker % 2))
    ∷ htons h.seq_no (htonl h.timestamp (htonl h.ssrc []))

-- `nalu_header_t`; `fu_indicator_t` has the same fields.
pub record NaluHeader : Type 0 where
  pub type : ℕ
  pub nri : ℕ
  pub f : ℕ

unfoldable pub nalu_header_byte : NaluHeader → ℕ
nalu_header_byte h = h.type % 32 + 32 * (h.nri % 4) + 128 * (h.f % 2)

-- a byte read through a `nalu_header_t *`
unfoldable pub nalu_header_of : ℕ → NaluHeader
nalu_header_of b = record { type = b % 32; nri = b / 32 % 4; f = b / 128 % 2 }

-- `fu_header_t`
pub record FuHeader : Type 0 where
  pub type : ℕ
  pub r : ℕ
  pub e : ℕ
  pub s : ℕ

unfoldable pub fu_header_byte : FuHeader → ℕ
fu_header_byte h = h.type % 32 + 32 * (h.r % 2) + 64 * (h.e % 2) + 128 * (h.s % 2)

-- a byte read through a `fu_header_t *`
unfoldable pub fu_header_of : ℕ → FuHeader
fu_header_of b = record { type = b % 32; r = b / 32 % 2; e = b / 64 % 2; s = b / 128 % 2 }

-- `(b & 0x80) >> 7`, `(b & 0x60) >> 5` and `b & 0x1f`, which the senders store in the fields
abbrev pub f_bit : ℕ → ℕ
f_bit b = bit_and b 0x80 / 128

abbrev pub nri_bits : ℕ → ℕ
nri_bits b = bit_and b 0x60 / 32

abbrev pub type_bits : ℕ → ℕ
type_bits b = bit_and b 0x1f

-- `(type & 0x1f) | (nri << 5) | (f << 7)`, which the decoder computes into a `uint8_t`
abbrev pub join_nal_header : ℕ → ℕ → ℕ → ℕ
join_nal_header type nri f = bit_or (bit_or (bit_and type 0x1f) (nri * 32)) (f * 128) % 256
