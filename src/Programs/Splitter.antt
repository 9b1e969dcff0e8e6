-- ===== src/Programs/Splitter.antt =====
-- How client/udp/client.c and client/multicast/client.c cut a file at its start codes: MAXBUF bytes are
-- read at a time, each unit but the last is sent, and the last waits for the next read when the
-- buffer was full. `mem` is the buffer with what lies behind it.
pub mod Pieces
pub mod Files
pub mod Whole
pub mod Clients
use test.Base.{
  ℕ, zero, suc, ◌+◌, ◌-◌, ◌*◌, Bool, true, false, ◌&&◌, Option, none, some, List, [], ◌∷◌, ◌++◌,
  ◌==◌, ltb, if◌then◌else◌, length, take, drop, write_at, slice,
}
use test.Base.Int.{ℤ, pos, sub_ℕ, is_neg}
use test.Nal.StartCode.{find_nal_start_code}
use test.Rtp.Send.{Sender, h264nal2rtp_send}

-- The loop goes on, `main` returned because a send failed, or the fuel is spent.
pub data Run {ℓ} (A : Type 0) (σ : Type ℓ) : Type ℓ where
  going : A → σ → Run A σ
  returned : σ → Run A σ
  spent : Run A σ

-- what a send leads to; `again` is what follows when it did not fail
abbrev pub after_send {ℓ} : {σ : Type ℓ} {A : Type 0} → Option σ → σ → (σ → Run A σ) → Run A σ
after_send none s again = returned s
after_send (some s') s again = again s'

-- the next read, after a buffer that was dealt with
abbrev pub and_read {ℓ} :
    {σ : Type ℓ} → (List ℕ → ℕ → σ → Run (List ℕ × ℕ) σ) → Run (List ℕ × ℕ) σ → Run (List ℕ × ℕ) σ
and_read again spent = spent
and_read again (returned s) = returned s
and_read again (going (mem, n_last) s) = again mem n_last s

module _ {ℓ} {σ : Type ℓ} (maxbuf : ℕ) (send_piece send_rest : List ℕ → σ → Option σ) where
  -- the body of the loop over the units, on what `find_nal_start_code` found; `again` is the next round
  unfoldable pub cut_at :
      (ℕ → ℕ → ℕ → σ → Run (ℕ × ℕ × ℕ) σ) → List ℕ → ℕ → ℕ → ℕ → σ → Option ℕ → Run (ℕ × ℕ × ℕ) σ
  cut_at again mem start_code send_len send_count s none =
      going (start_code, send_len, send_count) s
  cut_at again mem start_code send_len send_count s (some k) =
      after_send (send_piece (slice start_code (4 + k) mem) s) s
        (again (start_code + (4 + k)) (send_len + (4 + k)) (send_count + 1))

  -- The loop over the units: `start_code` (an offset), `send_len` and `send_count`.
  unfoldable pub split_loop : ℕ → List ℕ → ℕ → ℕ → ℕ → ℕ → σ → Run (ℕ × ℕ × ℕ) σ
  unfolding cut_at
  split_loop zero mem n start_code send_len send_count s = spent
  split_loop (suc fuel) mem n start_code send_len send_count s =
      cut_at (split_loop fuel mem n) mem start_code send_len send_count s
        (find_nal_start_code (some (drop (start_code + 4) mem)) (sub_ℕ n send_len))

  -- the rest of the buffer: kept when the buffer was full, else sent
  unfoldable pub after_split : List ℕ → ℕ → Run (ℕ × ℕ × ℕ) σ → Run (List ℕ × ℕ) σ
  after_split mem n spent = spent
  after_split mem n (returned s) = returned s
  after_split mem n (going (start_code, send_len, send_count) s) =
      if ltb 0 send_count && (n == maxbuf)
      then going (write_at 0 (slice start_code (n - start_code) mem) mem, n - start_code) s
      else after_send (send_rest (slice start_code (n - send_len) mem) s) s (going (mem, 0))

  -- Without a start code nothing is sent, and `n_last` stays.
  unfoldable pub from_start : List ℕ → ℕ → ℕ → σ → Option ℕ → Run (List ℕ × ℕ) σ
  unfolding split_loop after_split
  from_start mem n n_last s none = going (mem, n_last) s
  from_start mem n n_last s (some start_code) =
      after_split mem n (split_loop (n + 1) mem n start_code 0 0 s)

  -- what is done with the `n` bytes in the buffer
  unfoldable pub send_buffer : List ℕ → ℕ → ℕ → σ → Run (List ℕ × ℕ) σ
  unfolding from_start
  send_buffer mem n n_last s =
      from_start mem n n_last s (find_nal_start_code (some mem) (pos maxbuf))

  -- The loop over `fread`; `file` is what is left of the file.
  unfoldable pub read_loop : ℕ → List ℕ → List ℕ → ℕ → σ → Run (List ℕ × ℕ) σ
  unfolding send_buffer
  read_loop zero file mem n_last s = spent
  read_loop (suc fuel) file mem n_last s =
      let chunk = take (maxbuf - n_last) file in
      let rest =
        and_read (read_loop fuel (drop (maxbuf - n_last) file))
          (send_buffer (write_at n_last chunk mem) (length chunk + n_last) n_last s) in
      if length chunk == 0 then going (mem, n_last) s else rest

  -- a pass over the file; `mem` and `n_last` go on to the next pass
  unfoldable pub send_file : List ℕ → List ℕ → ℕ → σ → Run (List ℕ × ℕ) σ
  unfolding read_loop
  send_file file mem n_last s = read_loop (length file + 1) file mem n_last s

  -- `while (1)`, for a number of passes
  unfoldable pub passes : ℕ → List ℕ → List ℕ → ℕ → σ → Run (List ℕ × ℕ) σ
  passes zero file mem n_last s = going (mem, n_last) s
  passes (suc k) file mem n_last s = and_read (passes k file) (send_file file mem n_last s)

-- MAXBUF
abbrev pub max_buf : ℕ
max_buf = 1024 * 200

-- What `sendto` says, by the number of datagrams that went out before: whether it takes a datagram.
abbrev pub SendTo : Type 0
SendTo = ℕ → List ℕ → Bool

-- `sendto` of client/multicast/client.c; after a failure `main` returns.
abbrev pub send_datagram : SendTo → List ℕ → List (List ℕ) → Option (List (List ℕ))
send_datagram sendto piece sent =
    if sendto (length sent) piece then some (sent ++ (piece ∷ [])) else none

-- the loop of client/multicast/client.c, for a number of passes
unfoldable pub multicast_client :
    SendTo → ℕ → List ℕ → List ℕ → ℕ → List (List ℕ) → Run (List ℕ × ℕ) (List (List ℕ))
multicast_client sendto k file mem n_last sent =
    passes max_buf (send_datagram sendto) (send_datagram sendto) k file mem n_last sent

-- `h264nal2rtp_send(…) < 0`; the trap of a division by 0 ends the program too.
abbrev pub unless_failed {ℓ} : {σ : Type ℓ} → Option (ℤ × Sender σ) → Option (Sender σ)
unless_failed none = none
unless_failed (some (ret, s)) = if is_neg ret then none else some s

-- one call of `h264nal2rtp_send`
abbrev pub send_unit {ℓ} :
    {σ : Type ℓ} → (List ℕ → σ → σ) → ℕ → List ℕ → Sender σ → Option (Sender σ)
send_unit send_data framerate piece s =
    unless_failed (h264nal2rtp_send send_data framerate piece (length piece) s)

-- The loop of client/udp/client.c. Its units are sent with the socket in the place of the frame rate,
-- the last one with 25.
unfoldable pub udp_client {ℓ} :
    {σ : Type ℓ}
    → (List ℕ → σ → σ)
    → ℕ
    → ℕ
    → List ℕ
    → List ℕ
    → ℕ
    → Sender σ
    → Run (List ℕ × ℕ) (Sender σ)
udp_client send_data socket k file mem n_last s =
    passes max_buf (send_unit send_data socket) (send_unit send_data 25) k file mem n_last s
