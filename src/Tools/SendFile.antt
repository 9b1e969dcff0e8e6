-- ===== src/Tools/SendFile.antt =====
-- The main loop of sample/send_h264file_rtp.c and sample/test_tcp_send_nal.c: every NAL unit that
-- `copy_nal_from_file` finds goes to the packetiser.
use test.Base.{ℕ, zero, suc, Bool, true, false, ◌+◌, Option, none, some, List, length, ltb}
use test.Base.Int.{ℤ, is_neg}
use test.Rtp.Send.{Sender, h264nal2rtp_send}
use test.Nal.Copy.{copy_nal_from_file}

-- one packetised unit and what follows it
abbrev pub and_then {ℓ} :
    {σ : Type ℓ} → Option (ℤ × Sender σ) → (Sender σ → Option (Sender σ)) → Option (Sender σ)
and_then none next = none
and_then (some (ret, s)) next = next s

-- More bytes than the buffer holds were written: undefined behaviour, and else the program goes on.
abbrev pub unless_overrun {ℓ} :
    {σ : Type ℓ} → Bool → (Sender σ → Option (Sender σ)) → Sender σ → Option (Sender σ)
unless_overrun true next s = none
unless_overrun false next s = next s

module _ {ℓ} {σ : Type ℓ} (send_data : List ℕ → σ → σ) where
  -- the test of the loop and its body; `again` is the next round
  unfoldable pub send_nal :
      (List ℕ → Sender σ → Option (Sender σ)) → ℤ × List ℕ × List ℕ → Sender σ → Option (Sender σ)
  send_nal again (ret, nal_buf, rest) s = elim (is_neg ret) [
    | true ↦ some s
    | false ↦ and_then (h264nal2rtp_send send_data 25 nal_buf (length nal_buf) s) (again rest)
  ]

-- `nal_buf` has `nal_buf_size` bytes.
module _ {ℓ} {σ : Type ℓ} (send_data : List ℕ → σ → σ) (nal_buf_size : ℕ) where
  -- What a round does with the result of `copy_nal_from_file`, which writes to `nal_buf` whatever its size
  -- is, also the bytes of a unit that no start code ends.
  unfoldable pub after_copy :
      (List ℕ → Sender σ → Option (Sender σ)) → ℤ × List ℕ × List ℕ → Sender σ → Option (Sender σ)
  unfolding send_nal
  after_copy again (ret, nal_buf, rest) s =
      unless_overrun (ltb nal_buf_size (length nal_buf))
        (send_nal send_data again (ret, nal_buf, rest)) s

  -- `while (copy_nal_from_file(fp, nal_buf, &len) != -1) ret = h264nal2rtp_send(25, nal_buf, len, …)`
  -- on fuel: `none` is the end of the fuel, or an overrun of `nal_buf`.
  unfoldable pub send_units : ℕ → List ℕ → Sender σ → Option (Sender σ)
  send_units zero file s = none
  send_units (suc fuel) file s = after_copy (send_units fuel) (copy_nal_from_file file) s

  -- Each round but the last takes at least a byte of the file.
  unfoldable pub send_h264file : List ℕ → Sender σ → Option (Sender σ)
  send_h264file file s = send_units (length file + 1) file s
