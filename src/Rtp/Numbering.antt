-- ===== src/Rtp/Numbering.antt =====
-- How many packets a NAL unit takes, how long they are and how they are numbered.
use test.Base.{
  ℕ, zero, suc, ◌+◌, ◌-◌, ◌*◌, ◌/◌, ◌%◌, ◌^◌, ◌≤◌, ◌<◌, ◌≡◌, ◌≢◌, ◌↔◌, refl, ◌∙◌, some, List, ◌∷◌,
  ltb, leb, length, arith, length-take, All, Bool-cases, inl, inr, le→ltb, ◌==◌,
}
use test.Base.Int.{pos}
use test.Rtp.Send.{
  Sender, send_buf, send_single, send_first_fu, send_middle_fu, send_last_fu, send_fu, send_fus,
  h264nal2rtp_send, fu_pack_num, carried_seq, bump_seq,
}
use test.Rtp.Fragments.{eqb_false}

-- A sender that keeps a log of its packets, the newest first.
abbrev pub log_packet : List ℕ → List (List ℕ) → List (List ℕ)
log_packet packet log = packet ∷ log

abbrev pub Log : Type 0
Log = Sender (List (List ℕ))

-- no longer than the RTP header, the two fragment bytes and 1400 bytes
abbrev pub FitsBuffer : List ℕ → Type 0
FitsBuffer packet = length packet ≤ 1414

-- What sending `k` packets does to a sender.
pub record Ran (k : ℕ) (s t : Log) : Type 0 where
  pub count : length t.out ≡ length s.out + k
  pub number : t.seq_num ≡ (s.seq_num + k) % 2 ^ 16
  pub sizes : All FitsBuffer s.out → All FitsBuffer t.out
  pub clock : t.ts_current ≡ s.ts_current

Ran-trans : {j k n : ℕ} {s t u : Log} → Ran j s t → Ran k t u → n ≡ j + k → Ran n s u
Ran-trans p q e = record {
  count = omega (arith, p.count, q.count);
  number = omega (arith, p.number, q.number);
  sizes = λ h. q.sizes (p.sizes h);
  clock = q.clock ∙ p.clock;
}

send_buf-Ran : (buf : List ℕ) (n : ℕ) (s : Log) → n ≤ 1414 → Ran 1 s (send_buf log_packet buf n s)
unfolding send_buf
send_buf-Ran buf n s h = record {
  count = omega arith;
  number = refl;
  sizes = λ all. (omega (arith, length-take n buf), all);
  clock = refl;
}

module _ (nal : List ℕ) (len : ℕ) where
  send_fu-Ran : (k : ℕ) (s : Log) → Ran 1 s (send_fu log_packet nal len k s)
  unfolding send_fu send_first_fu send_middle_fu send_last_fu
  send_fu-Ran k s = elim (Bool-cases (k == 0)) [
    | inl first ↦ rw first (send_buf-Ran _ _ s (omega arith))
    | inr later ↦ elim (Bool-cases (ltb k (fu_pack_num len - 1))) [
      | inl middle ↦ rw (later, middle) (send_buf-Ran _ _ s (omega arith))
      | inr end ↦ rw (later, end) (send_buf-Ran _ _ s (ground arith))
    ]
  ]

  send_fus-Ran :
      (rounds k : ℕ) (s : Log)
      → s.seq_num < 2 ^ 16
      → Ran rounds s (send_fus log_packet rounds nal len k s)
  unfolding send_fus
  send_fus-Ran zero k s h = record {
    count = omega arith;
    number = omega arith;
    sizes = λ all. all;
    clock = refl;
  }
  send_fus-Ran (suc rounds) k s h =
      let step = send_fu-Ran k s in
      Ran-trans step
        (send_fus-Ran rounds (k + 1) (send_fu log_packet nal len k s) (omega (arith, step.number)))
        (omega arith)

  -- A NAL unit of `len` bytes, `len` not 0, goes out as the least number `k` of packets that hold 1400
  -- of its bytes each. `seq_num` advances by `k` modulo 2^16, the clock by one frame, and no packet is
  -- longer than 1414 bytes, so that each fits SENDBUFFER. The frame rate is not 0.
  pub h264nal2rtp_send-Ran :
      (framerate : ℕ) (s : Log)
      → framerate ≢ 0
      → 0 < len
      → s.seq_num < 2 ^ 16
      → (k : ℕ) × (s' : Log) × (h264nal2rtp_send log_packet framerate nal len s ≡ some (pos 0, s'))
        × (1400 * (k - 1) < len)
        × (len ≤ 1400 * k)
        × (length s'.out ≡ length s.out + k)
        × (s'.seq_num ≡ (s.seq_num + k) % 2 ^ 16)
        × (All FitsBuffer s.out → All FitsBuffer s'.out)
        × (s'.ts_current ≡ (s.ts_current + 90000 / framerate) % 2 ^ 32)
  unfolding h264nal2rtp_send send_single
  h264nal2rtp_send-Ran framerate s rate some_bytes h =
      let t : Log = record s { ts_current = (s.ts_current + 90000 / framerate) % 2 ^ 32 } in
      elim (Bool-cases (leb len 1400)) [
        | inl short ↦
            let ran : Ran 1 t (send_single log_packet nal len t) =
              send_buf-Ran _ (12 + len) t (ground arith) in
            (
              1,
              send_single log_packet nal len t,
              rw (eqb_false framerate 0 rate, le→ltb len 1 some_bytes, short),
              omega arith,
              ground arith,
              ran.count,
              ran.number,
              ran.sizes,
              ran.clock,
            )
        | inr long ↦
            let ran = send_fus-Ran (fu_pack_num len) 0 t h in
            (
              fu_pack_num len,
              send_fus log_packet (fu_pack_num len) nal len 0 t,
              rw (eqb_false framerate 0 rate, le→ltb len 1 some_bytes, long),
              ground arith,
              ground arith,
              ran.count,
              ran.number,
              ran.sizes,
              ran.clock,
            )
      ]

-- Two packets in a row carry the same sequence number exactly when `seq_num` passes from 65535 to 0;
-- in every other case the number grows by one modulo 65535. The number 65535 is never carried.
pub carried_seq-repeats :
    (n : ℕ)
    → n < 2 ^ 16
    → ((carried_seq (bump_seq n) ≡ carried_seq n) ↔ (n ≡ 65534))
      × (n ≢ 65534 → carried_seq (bump_seq n) ≡ (carried_seq n + 1) % 65535)
      × (carried_seq n ≢ 65535)
carried_seq-repeats n h = ((λ e. omega arith, λ e. omega arith), λ ne. omega arith, omega arith)
