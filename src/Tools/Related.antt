-- ===== src/Tools/Related.antt =====
-- The main loop does the same whatever its packets are handed to.
use test.Base.{
  ℕ, zero, suc, ◌≡◌, refl, subst, true, false, Bool, Option, none, some, List, length, ltb,
}
use test.Base.Int.{ℤ, is_neg}
use test.Rtp.Send.{Sender, h264nal2rtp_send}
use test.Rtp.Related.{Related, RelatedResult, h264nal2rtp_send-Related}
use test.Nal.Copy.{copy_nal_from_file}
use test.Tools.SendFile.{and_then, unless_overrun, send_nal, after_copy, send_units}

-- Both without fuel, trapped or overrun, or related states.
abbrev pub RelatedEnd {ℓ} :
    {σ : Type ℓ} {τ : Type ℓ} → (σ → τ → Type 0) → Option (Sender σ) → Option (Sender τ) → Type 0
RelatedEnd R none none = Unit
RelatedEnd R (some s) (some t) = Related R s t
RelatedEnd R _ _ = ⊥

module _ {ℓ} {σ : Type ℓ} {τ : Type ℓ} (R : σ → τ → Type 0) (send_data : List ℕ → σ → σ)
    (hand_over : List ℕ → τ → τ)
    (keeps : (packet : List ℕ) (x : σ) (y : τ)
      → R x y
      → R (send_data packet x) (hand_over packet y)) where
  and_then-Related :
      (u : Option (ℤ × Sender σ)) (v : Option (ℤ × Sender τ)) (next : Sender σ → Option (Sender σ))
      (next' : Sender τ → Option (Sender τ))
      → RelatedResult R u v
      → ((s : Sender σ) (t : Sender τ) → Related R s t → RelatedEnd R (next s) (next' t))
      → RelatedEnd R (and_then u next) (and_then v next')
  and_then-Related none none next next' r h = tt
  and_then-Related none (some v) next next' r h = absurd r
  and_then-Related (some u) none next next' r h = absurd r
  and_then-Related (some (ret, s)) (some (ret', t)) next next' r h = h s t r.1

  send_nal-Related :
      (again : List ℕ → Sender σ → Option (Sender σ))
      (again' : List ℕ → Sender τ → Option (Sender τ)) (copied : ℤ × List ℕ × List ℕ) (s : Sender σ)
      (t : Sender τ)
      → ((file : List ℕ) (s : Sender σ) (t : Sender τ)
          → Related R s t
          → RelatedEnd R (again file s) (again' file t))
      → Related R s t
      → RelatedEnd R (send_nal send_data again copied s) (send_nal hand_over again' copied t)
  unfolding send_nal
  send_nal-Related again again' (ret, nal, rest) s t h r = by_sign (is_neg ret)
    where
      by_sign :
          (stop : Bool)
          → RelatedEnd R
              (elim stop [
                | true ↦ some s
                | false ↦ and_then (h264nal2rtp_send send_data 25 nal (length nal) s) (again rest)
              ])
              (elim stop [
                | true ↦ some t
                | false ↦ and_then (h264nal2rtp_send hand_over 25 nal (length nal) t) (again' rest)
              ])
      by_sign true = r
      by_sign false =
          and_then-Related _ _ _ _
            (h264nal2rtp_send-Related R send_data hand_over keeps 25 nal (length nal) s t r)
            (h rest)

  unless_overrun-Related :
      (overrun : Bool) (next : Sender σ → Option (Sender σ)) (next' : Sender τ → Option (Sender τ))
      (s : Sender σ) (t : Sender τ)
      → RelatedEnd R (next s) (next' t)
      → RelatedEnd R (unless_overrun overrun next s) (unless_overrun overrun next' t)
  unless_overrun-Related true next next' s t r = tt
  unless_overrun-Related false next next' s t r = r

  after_copy-Related :
      (room : ℕ) (again : List ℕ → Sender σ → Option (Sender σ))
      (again' : List ℕ → Sender τ → Option (Sender τ)) (copied : ℤ × List ℕ × List ℕ) (s : Sender σ)
      (t : Sender τ)
      → ((file : List ℕ) (s : Sender σ) (t : Sender τ)
          → Related R s t
          → RelatedEnd R (again file s) (again' file t))
      → Related R s t
      → RelatedEnd R
          (after_copy send_data room again copied s)
          (after_copy hand_over room again' copied t)
  unfolding after_copy
  after_copy-Related room again again' (ret, nal, rest) s t h r =
      unless_overrun-Related (ltb room (length nal)) _ _ s t
        (send_nal-Related again again' (ret, nal, rest) s t h r)

  pub send_units-Related :
      (room fuel : ℕ) (file : List ℕ) (s : Sender σ) (t : Sender τ)
      → Related R s t
      → RelatedEnd R (send_units send_data room fuel file s) (send_units hand_over room fuel file t)
  unfolding send_units
  send_units-Related room zero file s t r = tt
  send_units-Related room (suc fuel) file s t r =
      after_copy-Related room (send_units send_data room fuel) (send_units hand_over room fuel)
        (copy_nal_from_file file) s t (send_units-Related room fuel) r

-- what a related run that ended says
pub reached {ℓ} :
    {σ : Type ℓ} {τ : Type ℓ} (R : σ → τ → Type 0) (u : Option (Sender σ)) (v : Option (Sender τ))
    (t : Sender τ)
    → RelatedEnd R u v
    → v ≡ some t
    → (s : Sender σ) × (u ≡ some s) × R s.out t.out
reached R none none t r e = absurd (cc e)
reached R none (some v) t r e = absurd r
reached R (some u) none t r e = absurd r
reached {τ = τ} R (some u) (some v) t r e =
    (u, refl, subst (λ (z : Sender τ). R u.out z.out) same r.2)
  where
    same : v ≡ t
    same = cc e
