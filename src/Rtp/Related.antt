-- ===== src/Rtp/Related.antt =====
-- The packetiser does the same whatever its packets are handed to: a relation between what two sends
-- change is kept by the whole of `h264nal2rtp_send`.
use test.Base.{
  ℕ, zero, suc, ◌+◌, ◌-◌, ◌/◌, ◌%◌, ◌^◌, ◌≡◌, refl, ap, ap₂, inl, inr, Option, none, some, List,
  ◌==◌, ltb, leb, take, Bool-cases,
}
use test.Base.Int.{ℤ}
use test.Rtp.Send.{
  Sender, rtp_payload_max_size, bump_seq, carried_seq, fu_pack_num, fu_packet, single_packet,
  send_buf, send_single, send_first_fu, send_middle_fu, send_last_fu, send_fu, send_fus,
  h264nal2rtp_send,
}

-- Equal counters, and related outputs.
abbrev pub Related {ℓ} : {σ : Type ℓ} {τ : Type ℓ} → (σ → τ → Type 0) → Sender σ → Sender τ → Type 0
Related R s t = (s.seq_num ≡ t.seq_num) × (s.ts_current ≡ t.ts_current) × R s.out t.out

-- Both trapped, or the same result and related states.
abbrev pub RelatedResult {ℓ} :
    {σ : Type ℓ} {τ : Type ℓ}
    → (σ → τ → Type 0)
    → Option (ℤ × Sender σ)
    → Option (ℤ × Sender τ)
    → Type 0
RelatedResult R none none = Unit
RelatedResult R (some (ret, s)) (some (ret', t)) = (ret ≡ ret') × Related R s t
RelatedResult R _ _ = ⊥

module _ {ℓ} {σ : Type ℓ} {τ : Type ℓ} (R : σ → τ → Type 0) (send_data : List ℕ → σ → σ)
    (hand_over : List ℕ → τ → τ)
    (keeps : (packet : List ℕ) (x : σ) (y : τ)
      → R x y
      → R (send_data packet x) (hand_over packet y)) where
  send_buf-Related :
      (p q : List ℕ) (len : ℕ) (s : Sender σ) (t : Sender τ)
      → p ≡ q
      → Related R s t
      → Related R (send_buf send_data p len s) (send_buf hand_over q len t)
  unfolding send_buf
  send_buf-Related p q len s t e (seq, ts, out) =
      (ap bump_seq seq, ts, rw e (keeps (take len q) s.out t.out out))

  send_single-Related :
      (nalu_buf : List ℕ) (nalu_len : ℕ) (s : Sender σ) (t : Sender τ)
      → Related R s t
      → Related R
          (send_single send_data nalu_buf nalu_len s)
          (send_single hand_over nalu_buf nalu_len t)
  unfolding send_single
  send_single-Related nalu_buf nalu_len s t r =
      send_buf-Related _ _ (12 + nalu_len) s t
        (ap₂ (λ n ts. single_packet (carried_seq n) ts nalu_buf nalu_len) r.0 r.1) r

  -- fragments with the same bits and piece
  fu_packet-same :
      (marker first final : ℕ) (nalu_buf piece : List ℕ) (s : Sender σ) (t : Sender τ)
      → Related R s t
      → fu_packet marker first final (carried_seq s.seq_num) s.ts_current nalu_buf piece
        ≡ fu_packet marker first final (carried_seq t.seq_num) t.ts_current nalu_buf piece
  fu_packet-same marker first final nalu_buf piece s t r =
      ap₂ (λ n ts. fu_packet marker first final (carried_seq n) ts nalu_buf piece) r.0 r.1

  send_fu-Related :
      (nalu_buf : List ℕ) (nalu_len fu_seq : ℕ) (s : Sender σ) (t : Sender τ)
      → Related R s t
      → Related R
          (send_fu send_data nalu_buf nalu_len fu_seq s)
          (send_fu hand_over nalu_buf nalu_len fu_seq t)
  unfolding send_fu send_first_fu send_middle_fu send_last_fu
  send_fu-Related nalu_buf nalu_len fu_seq s t r = elim (Bool-cases (fu_seq == 0)) [
    | inl first ↦ rw first (send_buf-Related _ _ _ s t (fu_packet-same 0 1 0 nalu_buf _ s t r) r)
    | inr later ↦ elim (Bool-cases (ltb fu_seq (fu_pack_num nalu_len - 1))) [
      | inl middle ↦
          rw (later, middle) (send_buf-Related _ _ _ s t (fu_packet-same 0 0 0 nalu_buf _ s t r) r)
      | inr final ↦
          rw (later, final) (send_buf-Related _ _ _ s t (fu_packet-same 1 0 1 nalu_buf _ s t r) r)
    ]
  ]

  send_fus-Related :
      (rounds : ℕ) (nalu_buf : List ℕ) (nalu_len fu_seq : ℕ) (s : Sender σ) (t : Sender τ)
      → Related R s t
      → Related R
          (send_fus send_data rounds nalu_buf nalu_len fu_seq s)
          (send_fus hand_over rounds nalu_buf nalu_len fu_seq t)
  unfolding send_fus
  send_fus-Related zero nalu_buf nalu_len fu_seq s t r = r
  send_fus-Related (suc rounds) nalu_buf nalu_len fu_seq s t r =
      send_fus-Related rounds nalu_buf nalu_len (fu_seq + 1) _ _
        (send_fu-Related nalu_buf nalu_len fu_seq s t r)

  pub h264nal2rtp_send-Related :
      (framerate : ℕ) (nalu_buf : List ℕ) (nalu_len : ℕ) (s : Sender σ) (t : Sender τ)
      → Related R s t
      → RelatedResult R
          (h264nal2rtp_send send_data framerate nalu_buf nalu_len s)
          (h264nal2rtp_send hand_over framerate nalu_buf nalu_len t)
  unfolding h264nal2rtp_send
  h264nal2rtp_send-Related framerate nalu_buf nalu_len s t (seq, ts, out) =
      let clock : (s.ts_current + 90000 / framerate) % 2 ^ 32
          ≡ (t.ts_current + 90000 / framerate) % 2 ^ 32 =
        ap (λ c. (c + 90000 / framerate) % 2 ^ 32) ts in
      elim (Bool-cases (framerate == 0)) [
        | inl trap ↦ rw trap tt
        | inr ok ↦ elim (Bool-cases (ltb nalu_len 1)) [
          | inl empty ↦ rw (ok, empty) (refl, (seq, clock, out))
          | inr full ↦ elim (Bool-cases (leb nalu_len rtp_payload_max_size)) [
            | inl short ↦
                rw (ok, full, short)
                  (refl, send_single-Related nalu_buf nalu_len _ _ (seq, clock, out))
            | inr long ↦
                rw (ok, full, long)
                  (
                    refl,
                    send_fus-Related (fu_pack_num nalu_len) nalu_buf nalu_len 0 _ _
                        (seq, clock, out),
                  )
          ]
        ]
      ]
