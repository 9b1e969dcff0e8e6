-- ===== src/Rtp/Send.antt =====
-- The packetiser `h264nal2rtp_send` of client/udp/client.c: one NAL unit becomes one RTP packet, or
-- a row of FU-A fragments (RFC 6184). `send_data` is what the program does with a packet, and `σ`
-- what it changes by that. The static variables `ts_current` and `seq_num` are fields of the state.
-- `memset` overwrites the whole of SENDBUFFER before each packet, so the buffer starts as zeroes.
use test.Base.{
  ℕ, zero, suc, ◌+◌, ◌-◌, ◌*◌, ◌/◌, ◌%◌, ◌^◌, Option, none, some, List, [], ◌∷◌, ◌==◌, ltb, leb,
  if◌then◌else◌, get_or, take, replicate, write_at, slice,
}
use test.Base.Int.{ℤ, pos, minus_one}
use test.Rtp.Header.{
  RtpHeader, rtp_header_bytes, nalu_header_byte, fu_header_byte, f_bit, nri_bits, type_bits,
}

-- RTP_PAYLOAD_MAX_SIZE, SEND_BUF_SIZE, SSRC_NUM and H264
abbrev pub rtp_payload_max_size : ℕ
rtp_payload_max_size = 1400

abbrev pub send_buf_size : ℕ
send_buf_size = 1500

abbrev pub ssrc_num : ℕ
ssrc_num = 10

abbrev pub h264 : ℕ
h264 = 96

-- the payload type, the version and the marker that the packetiser stores
abbrev pub packet_header : ℕ → ℕ → ℕ → RtpHeader
packet_header marker seq ts = record {
  csrc_len = 0;
  extension = 0;
  padding = 0;
  version = 2;
  payload_type = h264;
  marker = marker;
  seq_no = seq;
  timestamp = ts;
  ssrc = ssrc_num;
}

-- SENDBUFFER with its RTP header
unfoldable pub start_packet : ℕ → ℕ → ℕ → List ℕ
start_packet marker seq ts =
    write_at 0 (rtp_header_bytes (packet_header marker seq ts)) (replicate send_buf_size 0)

-- the indicator byte of every fragment
unfoldable pub fu_indicator : List ℕ → ℕ
fu_indicator nalu_buf =
    let b = get_or nalu_buf 0 0 in
    nalu_header_byte (record { f = f_bit b; nri = nri_bits b; type = 28 })

unfoldable pub fu_header : ℕ → ℕ → List ℕ → ℕ
fu_header s e nalu_buf =
    fu_header_byte (record { s = s; e = e; r = 0; type = type_bits (get_or nalu_buf 0 0) })

-- a fragment with its two header bytes and its piece of the NAL unit
unfoldable pub fu_packet : ℕ → ℕ → ℕ → ℕ → ℕ → List ℕ → List ℕ → List ℕ
fu_packet marker s e seq ts nalu_buf piece =
    write_at 14 piece (
      write_at 12 (fu_indicator nalu_buf ∷ fu_header s e nalu_buf ∷ [])
        (start_packet marker seq ts))

-- a whole NAL unit behind its header byte
unfoldable pub single_packet : ℕ → ℕ → List ℕ → ℕ → List ℕ
single_packet seq ts nalu_buf nalu_len =
    let b = get_or nalu_buf 0 0 in
    write_at 13 (slice 1 (nalu_len - 1) nalu_buf) (
      write_at 12
        (nalu_header_byte (record { f = f_bit b; nri = nri_bits b; type = type_bits b }) ∷ [])
        (start_packet 0 seq ts))

-- `++seq_num`, a `uint16_t`
abbrev pub bump_seq : ℕ → ℕ
bump_seq seq_num = (seq_num + 1) % 2 ^ 16

-- `++seq_num % UINT16_MAX`, which the packet carries
abbrev pub carried_seq : ℕ → ℕ
carried_seq seq_num = bump_seq seq_num % 65535

-- `fu_pack_num` and `last_fu_pack_size`
abbrev pub fu_pack_num : ℕ → ℕ
fu_pack_num nalu_len =
    if nalu_len % rtp_payload_max_size == 0
    then nalu_len / rtp_payload_max_size
    else nalu_len / rtp_payload_max_size + 1

abbrev pub last_fu_pack_size : ℕ → ℕ
last_fu_pack_size nalu_len =
    if nalu_len % rtp_payload_max_size == 0
    then rtp_payload_max_size
    else nalu_len % rtp_payload_max_size

pub record Sender {ℓ} (σ : Type ℓ) : Type ℓ where
  pub ts_current : ℕ
  pub seq_num : ℕ
  pub out : σ

module _ {ℓ} {σ : Type ℓ} (send_data : List ℕ → σ → σ) where
  -- the first `len_sendbuf` bytes of SENDBUFFER go out
  unfoldable pub send_buf : List ℕ → ℕ → Sender σ → Sender σ
  send_buf sendbuffer len_sendbuf s = record s {
    seq_num = bump_seq s.seq_num;
    out = send_data (take len_sendbuf sendbuffer) s.out;
  }

  unfoldable pub send_single : List ℕ → ℕ → Sender σ → Sender σ
  send_single nalu_buf nalu_len s =
      send_buf (single_packet (carried_seq s.seq_num) s.ts_current nalu_buf nalu_len)
        (12 + nalu_len) s

  unfoldable pub send_first_fu : List ℕ → Sender σ → Sender σ
  send_first_fu nalu_buf s =
      send_buf
        (fu_packet 0 1 0 (carried_seq s.seq_num) s.ts_current nalu_buf
          (slice 1 (rtp_payload_max_size - 1) nalu_buf))
        (12 + 2 + (rtp_payload_max_size - 1)) s

  unfoldable pub send_middle_fu : List ℕ → ℕ → Sender σ → Sender σ
  send_middle_fu nalu_buf fu_seq s =
      send_buf
        (fu_packet 0 0 0 (carried_seq s.seq_num) s.ts_current nalu_buf
          (slice (rtp_payload_max_size * fu_seq) rtp_payload_max_size nalu_buf))
        (12 + 2 + rtp_payload_max_size) s

  unfoldable pub send_last_fu : List ℕ → ℕ → ℕ → Sender σ → Sender σ
  send_last_fu nalu_buf fu_seq last_size s =
      send_buf
        (fu_packet 1 0 1 (carried_seq s.seq_num) s.ts_current nalu_buf
          (slice (rtp_payload_max_size * fu_seq) last_size nalu_buf))
        (12 + 2 + last_size) s

  -- one round of the loop over the fragments
  unfoldable pub send_fu : List ℕ → ℕ → ℕ → Sender σ → Sender σ
  send_fu nalu_buf nalu_len fu_seq s =
      if fu_seq == 0
      then send_first_fu nalu_buf s
      else if ltb fu_seq (fu_pack_num nalu_len - 1)
      then send_middle_fu nalu_buf fu_seq s
      else send_last_fu nalu_buf fu_seq (last_fu_pack_size nalu_len) s

  -- `for (fu_seq = …; fu_seq < fu_pack_num; fu_seq++)`, by the rounds that are left
  unfoldable pub send_fus : ℕ → List ℕ → ℕ → ℕ → Sender σ → Sender σ
  send_fus zero nalu_buf nalu_len fu_seq s = s
  send_fus (suc rounds) nalu_buf nalu_len fu_seq s =
      send_fus rounds nalu_buf nalu_len (fu_seq + 1) (send_fu nalu_buf nalu_len fu_seq s)

  -- The whole function; `none` is the trap of a division by a frame rate of 0.
  unfoldable pub h264nal2rtp_send : ℕ → List ℕ → ℕ → Sender σ → Option (ℤ × Sender σ)
  h264nal2rtp_send framerate nalu_buf nalu_len s₀ =
      let s : Sender σ = record s₀ { ts_current = (s₀.ts_current + 90000 / framerate) % 2 ^ 32 } in
      if framerate == 0
      then none
      else if ltb nalu_len 1
      then some (minus_one, s)
      else if leb nalu_len rtp_payload_max_size
      then some (pos 0, send_single nalu_buf nalu_len s)
      else some (pos 0, send_fus (fu_pack_num nalu_len) nalu_buf nalu_len 0 s)
