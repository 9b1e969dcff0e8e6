-- ===== src/Rtp/RoundTrip.antt =====
-- A NAL unit that is sent as RTP packets and decoded packet by packet comes out whole.
use test.Base.{
  ℕ, zero, suc, ◌+◌, ◌-◌, ◌*◌, ◌/◌, ◌%◌, ◌^◌, ◌≤◌, ◌<◌, ◌≡◌, ◌≢◌, ap, ◌∙◌, sym, Option, none, some,
  List, [], ◌∷◌, ◌++◌, leb, take, drop, length, slice, arith, append_assoc, length-take,
  length-drop, take-nil, take_all, le→ltb, lt→ltb, Bool-cases, inl, inr,
}
use test.Base.Int.{pos}
use test.Rtp.Send.{
  Sender, send_buf, send_single, send_first_fu, send_middle_fu, send_last_fu, send_fu, send_fus,
  h264nal2rtp_send, fu_pack_num, last_fu_pack_size, carried_seq,
}
use test.Rtp.Decode.{decode_rtp2h264}
use test.Rtp.Fragments.{
  start_code, take-single_packet, take-fu_packet, decode-single, decode-first, decode-middle,
  decode-last, length-wire, eqb_false,
}

-- A receiver that gets every packet, in order, and decodes it into its file.
abbrev pub deliver : List ℕ → Option (List ℕ) → Option (List ℕ)
deliver packet none = none
deliver packet (some file) = decode_rtp2h264 packet (pos (length packet)) file

-- What a sender has put into the receiver's file.
abbrev pub Link : Type 0
Link = Sender (Option (List ℕ))

-- Consecutive pieces of a list make one piece.
take-slice : (xs : List ℕ) (a n k : ℕ) → k ≡ a + n → take a xs ++ slice a n xs ≡ take k xs
take-slice xs zero n k e = ap (λ t. take t xs) (omega arith)
take-slice [] (suc a) n zero e = absurd (omega arith)
take-slice [] (suc a) n (suc k) e = take-nil n
take-slice (x ∷ xs) (suc a) n zero e = absurd (omega arith)
take-slice (x ∷ xs) (suc a) n (suc k) e = ap (λ t. x ∷ t) (take-slice xs a n k (omega arith))

length-slice : (xs : List ℕ) (a n : ℕ) → a + n ≤ length xs → length (slice a n xs) ≡ n
length-slice xs a n h = omega (arith, length-take n (drop a xs), length-drop a xs)

-- The fragments' number and the size of the last make up the length.
pub fragments_cover :
    (len : ℕ)
    → 0 < len
    → (1400 * (fu_pack_num len - 1) + last_fu_pack_size len ≡ len)
      × (last_fu_pack_size len ≤ 1400)
      × (1 ≤ fu_pack_num len)
fragments_cover len h = ground arith

-- A packet that fits is delivered as its bytes on the wire.
module _ (b : ℕ) (rest file : List ℕ) (lt : b < 256) where
  abbrev nal : List ℕ
  nal = b ∷ rest

  abbrev base : List ℕ
  base = file ++ start_code

  -- A single packet delivers its NAL unit.
  send_single-deliver :
      (s : Link)
      → b % 32 ≢ 28
      → length rest < 1400
      → s.out ≡ some file
      → (send_single deliver nal (suc (length rest)) s).out ≡ some (base ++ nal)
  unfolding send_single send_buf
  send_single-deliver s ne short e =
      let seq = carried_seq s.seq_num in
      let ts = s.ts_current in
      rw
        (
          take-single_packet seq ts b rest (12 + suc (length rest)) lt (omega arith) (omega arith),
          e,
        )
        (decode-single 0 seq ts file b rest _ lt ne (length-wire 0 seq ts nal ∙ omega arith)
          ∙ ap some (
              append_assoc file (start_code ++ (b ∷ [])) rest
              ∙ sym (append_assoc file start_code nal)))

  -- The first fragment delivers the start code and as much of the unit as fits.
  send_first_fu-deliver :
      (s : Link)
      → 1400 ≤ length nal
      → s.out ≡ some file
      → (send_first_fu deliver nal s).out ≡ some (base ++ take 1400 nal)
  unfolding send_first_fu send_buf
  send_first_fu-deliver s long e =
      let seq = carried_seq s.seq_num in
      let ts = s.ts_current in
      let piece : List ℕ = slice 1 1399 nal in
      let size : length piece ≡ 1399 = length-slice nal 1 1399 (omega arith) in
      rw (take-fu_packet 0 seq ts 1 0 nal piece 1413 (omega arith) (omega arith), e)
        (decode-first 0 seq ts file b rest piece _ lt (length-wire 0 seq ts _ ∙ omega arith)
          ∙ ap some (
              append_assoc file (start_code ++ (b ∷ [])) piece
              ∙ sym (append_assoc file start_code (take 1400 nal))))

  -- A middle fragment delivers the next piece.
  send_middle_fu-deliver :
      (s : Link) (k : ℕ)
      → 1400 * k + 1400 ≤ length nal
      → s.out ≡ some (base ++ take (1400 * k) nal)
      → (send_middle_fu deliver nal k s).out ≡ some (base ++ take (1400 * (k + 1)) nal)
  unfolding send_middle_fu send_buf
  send_middle_fu-deliver s k long e =
      let seq = carried_seq s.seq_num in
      let ts = s.ts_current in
      let piece : List ℕ = slice (1400 * k) 1400 nal in
      let size : length piece ≡ 1400 = length-slice nal (1400 * k) 1400 long in
      rw (take-fu_packet 0 seq ts 0 0 nal piece 1414 (omega arith) (omega arith), e)
        (decode-middle 0 seq ts (base ++ take (1400 * k) nal) b rest piece _ lt
            (length-wire 0 seq ts _ ∙ omega arith)
          ∙ ap some (
              append_assoc base (take (1400 * k) nal) piece
              ∙ ap (λ t. base ++ t) (take-slice nal (1400 * k) 1400 _ (omega arith))))

  -- The last delivers what is left.
  send_last_fu-deliver :
      (s : Link) (k size : ℕ)
      → 1400 * k + size ≡ length nal
      → size ≤ 1400
      → s.out ≡ some (base ++ take (1400 * k) nal)
      → (send_last_fu deliver nal k size s).out ≡ some (base ++ nal)
  unfolding send_last_fu send_buf
  send_last_fu-deliver s k n len short e =
      let seq = carried_seq s.seq_num in
      let ts = s.ts_current in
      let piece : List ℕ = slice (1400 * k) n nal in
      let size : length piece ≡ n = length-slice nal (1400 * k) n (omega arith) in
      rw (take-fu_packet 1 seq ts 0 1 nal piece (14 + n) (omega arith) (omega arith), e)
        (decode-last 1 seq ts (base ++ take (1400 * k) nal) b rest piece _ lt
            (length-wire 1 seq ts _ ∙ omega arith)
          ∙ ap some (
              append_assoc base (take (1400 * k) nal) piece
              ∙ ap (λ t. base ++ t)
                  (take-slice nal (1400 * k) n (length nal) (omega arith)
                    ∙ take_all (length nal) nal (omega arith))))

  -- Which fragment a round sends.
  send_fu-middle :
      (s : Link) (k : ℕ)
      → 1 ≤ k
      → k < fu_pack_num (length nal) - 1
      → send_fu deliver nal (length nal) k s ≡ send_middle_fu deliver nal k s
  unfolding send_fu
  send_fu-middle s k pos_k more =
      rw (eqb_false k 0 (omega arith), lt→ltb k (fu_pack_num (length nal) - 1) more)

  send_fu-last :
      (s : Link) (k : ℕ)
      → 1 ≤ k
      → k ≡ fu_pack_num (length nal) - 1
      → send_fu deliver nal (length nal) k s
        ≡ send_last_fu deliver nal k (last_fu_pack_size (length nal)) s
  unfolding send_fu
  send_fu-last s k pos_k end =
      rw (eqb_false k 0 (omega arith), le→ltb k (fu_pack_num (length nal) - 1) (omega arith))

  -- The rounds after the first deliver the rest of the unit.
  send_fus-deliver :
      (r k : ℕ) (s : Link)
      → 1 ≤ k
      → k + suc r ≡ fu_pack_num (length nal)
      → s.out ≡ some (base ++ take (1400 * k) nal)
      → (send_fus deliver (suc r) nal (length nal) k s).out ≡ some (base ++ nal)
  unfolding send_fus
  send_fus-deliver zero k s pos_k sum e =
      let cover = fragments_cover (length nal) (omega arith) in
      let end : k ≡ fu_pack_num (length nal) - 1 = omega arith in
      let whole : 1400 * k + last_fu_pack_size (length nal) ≡ length nal = rw end cover.0 in
      ap (λ (t : Link). t.out) (send_fu-last s k pos_k end)
      ∙ send_last_fu-deliver s k (last_fu_pack_size (length nal)) whole cover.1 e
  send_fus-deliver (suc r) k s pos_k sum e =
      let cover = fragments_cover (length nal) (omega arith) in
      let more : k < fu_pack_num (length nal) - 1 = omega arith in
      let room : 1400 * k + 1400 ≤ length nal = omega arith in
      ap (λ (t : Link). (send_fus deliver (suc r) nal (length nal) (k + 1) t).out)
        (send_fu-middle s k pos_k more)
      ∙ send_fus-deliver r (k + 1) (send_middle_fu deliver nal k s) (omega arith) (omega arith)
          (send_middle_fu-deliver s k room e)

  -- All fragments of a long unit deliver it.
  long-deliver :
      (s : Link)
      → 1400 < length nal
      → s.out ≡ some file
      → (send_fus deliver (fu_pack_num (length nal)) nal (length nal) 0 s).out ≡ some (base ++ nal)
  unfolding send_fus send_fu
  long-deliver s long e =
      let cover = fragments_cover (length nal) (omega arith) in
      let r = fu_pack_num (length nal) - 2 in
      let two : fu_pack_num (length nal) ≡ suc (suc r) = omega arith in
      ap (λ t. (send_fus deliver t nal (length nal) 0 s).out) two
      ∙ send_fus-deliver r 1 (send_first_fu deliver nal s) (omega arith) (omega arith)
          (send_first_fu-deliver s (omega arith) e)

  -- the clock that a call of the packetiser advances
  abbrev advance : ℕ → Link → Link
  advance framerate s = record s { ts_current = (s.ts_current + 90000 / framerate) % 2 ^ 32 }

  -- Sending a NAL unit (its bytes `b ∷ rest`, without start code) over a link that loses and reorders
  -- nothing succeeds, and the receiver's file grows by exactly the start code and the unit, whether
  -- it went as one packet or as fragments. The frame rate is not 0, `b` is a byte, and the type of a
  -- unit that fits one packet is not 28, which the decoder takes for a fragment.
  pub h264nal2rtp_send-deliver :
      (framerate : ℕ) (s : Link)
      → framerate ≢ 0
      → (length nal ≤ 1400 → b % 32 ≢ 28)
      → s.out ≡ some file
      → (s' : Link) × (h264nal2rtp_send deliver framerate nal (length nal) s ≡ some (pos 0, s'))
        × (s'.out ≡ some (base ++ nal))
  unfolding h264nal2rtp_send
  h264nal2rtp_send-deliver framerate s rate type e = elim (Bool-cases (leb (length nal) 1400)) [
    | inl short ↦ (
      send_single deliver nal (length nal) (advance framerate s),
      rw (eqb_false framerate 0 rate, le→ltb (length nal) 1 (omega arith), short),
      send_single-deliver (advance framerate s) (type (ground arith)) (ground arith) e,
    )
    | inr long ↦ (
      send_fus deliver (fu_pack_num (length nal)) nal (length nal) 0 (advance framerate s),
      rw (eqb_false framerate 0 rate, le→ltb (length nal) 1 (omega arith), long),
      long-deliver (advance framerate s) (ground arith) e,
    )
  ]
