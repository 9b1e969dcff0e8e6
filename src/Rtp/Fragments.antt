-- ===== src/Rtp/Fragments.antt =====
-- What leaves the packetiser for each kind of packet, and what the decoder makes of it.
use test.Base.{
  ℕ, suc, ◌+◌, ◌-◌, ◌/◌, ◌%◌, ◌≤◌, ◌<◌, ◌≡◌, ◌≢◌, refl, ap, ◌∙◌, some, List, [], ◌∷◌, ◌++◌, ◌==◌,
  take, length, replicate, write_at, arith, le→ltb, append_assoc, take-write_at, length-write_at,
  take_all, drop-append, true, false,
}
use test.Base.Int.{pos}
use test.Rtp.Bytes.{eq_of_table}
use test.Rtp.Header.{
  rtp_header_bytes, nalu_header_byte, nalu_header_of, fu_header_byte, fu_header_of, f_bit, nri_bits,
  type_bits, join_nal_header,
}
use test.Rtp.Send.{packet_header, start_packet, fu_indicator, fu_header, fu_packet, single_packet}
use test.Rtp.Decode.{fwrite_from, put_start, decode_rtp2h264}

-- the start code that precedes every NAL unit in a byte stream
abbrev pub start_code : List ℕ
start_code = 0 ∷ 0 ∷ 0 ∷ 1 ∷ []

abbrev pub wire_header : ℕ → ℕ → ℕ → List ℕ
wire_header marker seq ts = rtp_header_bytes (packet_header marker seq ts)

length-start_packet : (marker seq ts : ℕ) → length (start_packet marker seq ts) ≡ 1500
unfolding start_packet
length-start_packet marker seq ts = length-write_at 0 (wire_header marker seq ts) (replicate 1500 0)

take-start_packet :
    (marker seq ts : ℕ) → take 12 (start_packet marker seq ts) ≡ wire_header marker seq ts
unfolding start_packet rtp_header_bytes
take-start_packet marker seq ts = refl

-- Two writes behind the RTP header, and what goes out of the buffer then.
take-packet :
    (marker seq ts : ℕ) (front piece : List ℕ) (k n : ℕ)
    → k ≡ 12 + length front
    → n ≡ k + length piece
    → n ≤ 1500
    → take n (write_at k piece (write_at 12 front (start_packet marker seq ts)))
      ≡ wire_header marker seq ts ++ (front ++ piece)
take-packet marker seq ts front piece k n ek en h =
    let buf = start_packet marker seq ts in
    let long : length (write_at 12 front buf) ≡ 1500 =
      length-write_at 12 front buf ∙ length-start_packet marker seq ts in
    take-write_at k piece (write_at 12 front buf) n en (omega arith)
    ∙ ap (λ t. t ++ piece)
        (take-write_at 12 front buf k ek (omega (arith, length-start_packet marker seq ts)))
    ∙ ap (λ t. (t ++ front) ++ piece) (take-start_packet marker seq ts)
    ∙ append_assoc (wire_header marker seq ts) front piece

module _ (marker seq ts : ℕ) where
  -- A fragment on the wire: the RTP header, the two fragment bytes and the piece.
  pub take-fu_packet :
      (s e : ℕ) (nal piece : List ℕ) (n : ℕ)
      → n ≡ 14 + length piece
      → n ≤ 1500
      → take n (fu_packet marker s e seq ts nal piece)
        ≡ wire_header marker seq ts ++ (fu_indicator nal ∷ fu_header s e nal ∷ piece)
  unfolding fu_packet
  take-fu_packet s e nal piece n eq h =
      take-packet marker seq ts (fu_indicator nal ∷ fu_header s e nal ∷ []) piece 14 n refl eq h

-- the header byte that the packetiser rebuilds field by field
rebuilt : ℕ → ℕ
unfolding nalu_header_byte
rebuilt b = nalu_header_byte (record { f = f_bit b; nri = nri_bits b; type = type_bits b })

rebuilt_lem : (b : ℕ) → b < 256 → rebuilt b ≡ b
unfolding rebuilt
rebuilt_lem b lt = eq_of_table rebuilt (λ x. x) b lt refl

-- A single packet on the wire: the RTP header and the NAL unit.
pub take-single_packet :
    (seq ts b : ℕ) (rest : List ℕ) (n : ℕ)
    → b < 256
    → n ≡ 13 + length rest
    → n ≤ 1500
    → take n (single_packet seq ts (b ∷ rest) (suc (length rest)))
      ≡ wire_header 0 seq ts ++ (b ∷ rest)
unfolding single_packet rebuilt
take-single_packet seq ts b rest n lt eq h =
    let whole : take (suc (length rest) - 1) rest ≡ rest = take_all _ rest (omega arith) in
    rw whole (
      take-packet 0 seq ts (rebuilt b ∷ []) rest 13 n refl eq h
      ∙ ap (λ t. wire_header 0 seq ts ++ (t ∷ rest)) (rebuilt_lem b lt))

-- The decoder joins the three fields of a byte to the byte.
join_fields : (b : ℕ) → b < 256 → join_nal_header (b % 32) (b / 32 % 4) (b / 128 % 2) ≡ b
join_fields b lt =
    eq_of_table (λ x. join_nal_header (x % 32) (x / 32 % 4) (x / 128 % 2)) (λ x. x) b lt refl

-- The two header bytes of a fragment, by the header byte of the NAL unit.
indicator : ℕ → ℕ
unfolding nalu_header_byte
indicator b = nalu_header_byte (record { f = f_bit b; nri = nri_bits b; type = 28 })

header : ℕ → ℕ → ℕ → ℕ
unfolding fu_header_byte
header s e b = fu_header_byte (record { s = s; e = e; r = 0; type = type_bits b })

indicator_type : (b : ℕ) → b < 256 → indicator b % 32 ≡ 28
unfolding indicator
indicator_type b lt = eq_of_table (λ x. indicator x % 32) (λ x. 28) b lt refl

first_end : (b : ℕ) → b < 256 → header 1 0 b / 64 % 2 ≡ 0
unfolding header
first_end b lt = eq_of_table (λ x. header 1 0 x / 64 % 2) (λ x. 0) b lt refl

first_start : (b : ℕ) → b < 256 → header 1 0 b / 128 % 2 ≡ 1
unfolding header
first_start b lt = eq_of_table (λ x. header 1 0 x / 128 % 2) (λ x. 1) b lt refl

middle_end : (b : ℕ) → b < 256 → header 0 0 b / 64 % 2 ≡ 0
unfolding header
middle_end b lt = eq_of_table (λ x. header 0 0 x / 64 % 2) (λ x. 0) b lt refl

middle_start : (b : ℕ) → b < 256 → header 0 0 b / 128 % 2 ≡ 0
unfolding header
middle_start b lt = eq_of_table (λ x. header 0 0 x / 128 % 2) (λ x. 0) b lt refl

last_end : (b : ℕ) → b < 256 → header 0 1 b / 64 % 2 ≡ 1
unfolding header
last_end b lt = eq_of_table (λ x. header 0 1 x / 64 % 2) (λ x. 1) b lt refl

join_fragment :
    (b : ℕ)
    → b < 256
    → join_nal_header (header 1 0 b % 32) (indicator b / 32 % 4) (indicator b / 128 % 2) ≡ b
unfolding header indicator
join_fragment b lt =
    eq_of_table
      (λ x. join_nal_header (header 1 0 x % 32) (indicator x / 32 % 4) (indicator x / 128 % 2))
      (λ x. x) b lt refl

-- The bytes behind the `k`-th of a packet that was received whole.
fwrite_from-append :
    (k : ℕ) (front rest file : List ℕ) (len : ℕ)
    → k ≡ length front
    → len ≡ k + length rest
    → fwrite_from k (front ++ rest) (pos len) file ≡ some (file ++ rest)
unfolding fwrite_from
fwrite_from-append k front rest file len ek el =
    rw (
      le→ltb len k (omega arith),
      drop-append front rest k ek,
      take_all (len - k) rest (omega arith),
    )

eqb_zero_one : (a : ℕ) → a ≡ 0 → (a == 1) ≡ false
eqb_zero_one a e = ground arith

pub eqb_false : (a b : ℕ) → a ≢ b → (a == b) ≡ false
eqb_false a b ne = ground arith

eqb_true : (a b : ℕ) → a ≡ b → (a == b) ≡ true
eqb_true a b e = ground arith

module _ (marker seq ts : ℕ) (file : List ℕ) where
  -- A single packet adds the start code and the NAL unit, if its type is not that of a fragment.
  pub decode-single :
      (b : ℕ) (rest : List ℕ) (len : ℕ)
      → b < 256
      → b % 32 ≢ 28
      → len ≡ 13 + length rest
      → decode_rtp2h264 (wire_header marker seq ts ++ (b ∷ rest)) (pos len) file
        ≡ some ((file ++ (start_code ++ (b ∷ []))) ++ rest)
  unfolding decode_rtp2h264 put_start nalu_header_of rtp_header_bytes
  decode-single b rest len lt ne el =
      rw (eqb_false (b % 32) 28 ne, join_fields b lt)
        (fwrite_from-append 13 (wire_header marker seq ts ++ (b ∷ [])) rest _ len refl el)

  module _ (b : ℕ) (tail piece : List ℕ) (len : ℕ) (lt : b < 256)
      (el : len ≡ 14 + length piece) where
    -- The first fragment adds the start code, the rebuilt header byte and its piece.
    pub decode-first :
        decode_rtp2h264
          (wire_header marker seq ts
            ++ (fu_indicator (b ∷ tail) ∷ fu_header 1 0 (b ∷ tail) ∷ piece))
          (pos len)
          file
        ≡ some ((file ++ (start_code ++ (b ∷ []))) ++ piece)
    unfolding decode_rtp2h264 put_start nalu_header_of fu_header_of fu_indicator fu_header
        rtp_header_bytes indicator header
    decode-first =
        rw
          (
            eqb_true _ 28 (indicator_type b lt),
            eqb_zero_one _ (first_end b lt),
            eqb_true _ 1 (first_start b lt),
            join_fragment b lt,
          )
          (fwrite_from-append 14 (wire_header marker seq ts ++ (indicator b ∷ header 1 0 b ∷ []))
            piece _ len refl el)

    -- A middle fragment adds its piece.
    pub decode-middle :
        decode_rtp2h264
          (wire_header marker seq ts
            ++ (fu_indicator (b ∷ tail) ∷ fu_header 0 0 (b ∷ tail) ∷ piece))
          (pos len)
          file
        ≡ some (file ++ piece)
    unfolding decode_rtp2h264 put_start nalu_header_of fu_header_of fu_indicator fu_header
        rtp_header_bytes indicator header
    decode-middle =
        rw
          (
            eqb_true _ 28 (indicator_type b lt),
            eqb_zero_one _ (middle_end b lt),
            eqb_zero_one _ (middle_start b lt),
          )
          (fwrite_from-append 14 (wire_header marker seq ts ++ (indicator b ∷ header 0 0 b ∷ []))
            piece _ len refl el)

    -- So does the last.
    pub decode-last :
        decode_rtp2h264
          (wire_header marker seq ts
            ++ (fu_indicator (b ∷ tail) ∷ fu_header 0 1 (b ∷ tail) ∷ piece))
          (pos len)
          file
        ≡ some (file ++ piece)
    unfolding decode_rtp2h264 put_start nalu_header_of fu_header_of fu_indicator fu_header
        rtp_header_bytes indicator header
    decode-last =
        rw (eqb_true _ 28 (indicator_type b lt), eqb_true _ 1 (last_end b lt))
          (fwrite_from-append 14 (wire_header marker seq ts ++ (indicator b ∷ header 0 1 b ∷ []))
            piece _ len refl el)

-- The RTP header takes twelve bytes.
pub length-wire :
    (marker seq ts : ℕ) (xs : List ℕ) → length (wire_header marker seq ts ++ xs) ≡ 12 + length xs
unfolding rtp_header_bytes
length-wire marker seq ts xs = omega arith
