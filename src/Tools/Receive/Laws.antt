-- ===== src/Tools/Receive/Laws.antt =====
-- A receiver that gets one packet with each `recv`.
use test.Base.{
  ℕ, zero, suc, ◌+◌, ◌-◌, ◌≤◌, ◌<◌, ◌≡◌, refl, ap, ◌∙◌, Option, none, some, List, [], ◌∷◌, ◌++◌,
  length, take, take_all, get_or, write_at, slice, length-write_at, All, arith, map,
}
use test.Base.Int.{pos}
use test.Rtp.Decode.{decode_rtp2h264, fwrite_from}
use test.Rtp.RoundTrip.{deliver}
use test.Net.Os.{Given, gave, failed_recv}
use test.Tools.ClientList.Reach.{received}
use test.Tools.Receive.{Received, closed, still_open, after_decode, recv_fun, recv_datagrams}

get_or-write_at :
    (src dst : List ℕ) (i : ℕ)
    → i < length src
    → length src ≤ length dst
    → get_or (write_at 0 src dst) i 0 ≡ get_or src i 0
get_or-write_at [] dst i low fits = absurd (omega arith)
get_or-write_at (x ∷ src) [] i low fits = absurd (omega arith)
get_or-write_at (x ∷ src) (y ∷ dst) zero low fits = refl
get_or-write_at (x ∷ src) (y ∷ dst) (suc i) low fits =
    get_or-write_at src dst i (omega arith) (omega arith)

slice-write_at_within :
    (src dst : List ℕ) (k n : ℕ)
    → k + n ≤ length src
    → length src ≤ length dst
    → slice k n (write_at 0 src dst) ≡ slice k n src
slice-write_at_within [] dst zero zero low fits = refl
slice-write_at_within [] dst zero (suc n) low fits = absurd (omega arith)
slice-write_at_within [] dst (suc k) n low fits = absurd (omega arith)
slice-write_at_within (x ∷ src) [] k n low fits = absurd (omega arith)
slice-write_at_within (x ∷ src) (y ∷ dst) zero zero low fits = refl
slice-write_at_within (x ∷ src) (y ∷ dst) zero (suc n) low fits =
    ap (λ t. x ∷ t) (slice-write_at_within src dst zero n (omega arith) (omega arith))
slice-write_at_within (x ∷ src) (y ∷ dst) (suc k) n low fits =
    slice-write_at_within src dst k n (omega arith) (omega arith)

-- a packet that has both header bytes and fits the buffer of `size` bytes
abbrev pub Fits : ℕ → List ℕ → Type 0
Fits size packet = (14 ≤ length packet) × (length packet ≤ size)

-- The decoder does not see what an earlier packet left in the buffer.
decode_rtp2h264-write_at :
    (packet buf file : List ℕ)
    → Fits (length buf) packet
    → decode_rtp2h264 (write_at 0 packet buf) (pos (length packet)) file
      ≡ deliver packet (some file)
unfolding decode_rtp2h264 fwrite_from
decode_rtp2h264-write_at packet buf file (long, fits) =
    let first : get_or (write_at 0 packet buf) 12 0 ≡ get_or packet 12 0 =
      get_or-write_at packet buf 12 (omega arith) fits in
    let second : get_or (write_at 0 packet buf) 13 0 ≡ get_or packet 13 0 =
      get_or-write_at packet buf 13 (omega arith) fits in
    let nal : slice 13 (length packet - 13) (write_at 0 packet buf)
        ≡ slice 13 (length packet - 13) packet =
      slice-write_at_within packet buf 13 (length packet - 13) (omega arith) fits in
    let fragment : slice 14 (length packet - 14) (write_at 0 packet buf)
        ≡ slice 14 (length packet - 14) packet =
      slice-write_at_within packet buf 14 (length packet - 14) (omega arith) fits in
    rw (first, second, nal, fragment) refl

received-none : (packets : List (List ℕ)) → received none packets ≡ none
received-none [] = refl
received-none (p ∷ packets) = received-none packets

-- The rest of a run after a packet.
after_decode-received :
    (again : List ℕ → Received) (decoded : Option (List ℕ)) (packets : List (List ℕ)) (out : List ℕ)
    (r : Received)
    → received decoded packets ≡ some out
    → ((file : List ℕ) → received (some file) packets ≡ some out → again file ≡ r)
    → after_decode again decoded ≡ r
after_decode-received again none packets out r e h = absurd (cc (e, received-none packets))
after_decode-received again (some file) packets out r e h = h file e

-- `recv_fun` with one packet of 14 to 2000 bytes in each answer, and then the end of the stream: it ends,
-- and if the packets, decoded one by one, make the file `out`, that is its file, whatever the buffer
-- held before.
pub recv_fun-packets :
    (packets : List (List ℕ)) (recv_buf file out : List ℕ)
    → All (Fits 2000) packets
    → length recv_buf ≡ 2000
    → received (some file) packets ≡ some out
    → recv_fun (map gave packets ++ (gave [] ∷ [])) recv_buf file ≡ closed out
unfolding recv_fun
recv_fun-packets [] recv_buf file out good size e = ap closed (cc e)
recv_fun-packets ([] ∷ packets) recv_buf file out good size e = absurd (omega (arith, good.0.0))
recv_fun-packets ((b ∷ p) ∷ packets) recv_buf file out good size e =
    let whole : take 2000 (b ∷ p) ≡ b ∷ p = take_all 2000 (b ∷ p) good.0.1 in
    let filled : length (write_at 0 (b ∷ p) recv_buf) ≡ 2000 =
      length-write_at 0 (b ∷ p) recv_buf ∙ size in
    let decoded =
      decode_rtp2h264-write_at (b ∷ p) recv_buf file (good.0.0, omega (arith, size, good.0.1)) in
    let rest = map gave packets ++ (gave [] ∷ []) in
    let next = recv_fun rest (write_at 0 (b ∷ p) recv_buf) in
    ap
      (λ t.
        after_decode (recv_fun rest (write_at 0 t recv_buf))
          (decode_rtp2h264 (write_at 0 t recv_buf) (pos (length t)) file))
      whole
    ∙ ap (after_decode next) decoded
    ∙ after_decode-received next _ packets out (closed out) e
        (λ f e'. recv_fun-packets packets _ f out good.1 filled e')

-- the datagrams of a script
abbrev pub datagrams : List Given → List (List ℕ)
datagrams [] = []
datagrams (gave bytes ∷ os) = bytes ∷ datagrams os
datagrams (failed_recv e ∷ os) = datagrams os

-- The UDP receiver, with datagrams of 14 to 1500 bytes and failed calls in any order: if the datagrams,
-- decoded one by one, make the file `out`, that is its file when it waits again.
pub recv_datagrams-received :
    (os : List Given) (buf file out : List ℕ)
    → All (Fits 1500) (datagrams os)
    → length buf ≡ 1500
    → received (some file) (datagrams os) ≡ some out
    → recv_datagrams os buf file ≡ still_open out
unfolding recv_datagrams
recv_datagrams-received [] buf file out good size e = ap still_open (cc e)
recv_datagrams-received (failed_recv x ∷ os) buf file out good size e =
    recv_datagrams-received os buf file out good size e
recv_datagrams-received (gave p ∷ os) buf file out good size e =
    let whole : take 1500 p ≡ p = take_all 1500 p good.0.1 in
    let filled : length (write_at 0 p buf) ≡ 1500 = length-write_at 0 p buf ∙ size in
    let decoded = decode_rtp2h264-write_at p buf file (good.0.0, omega (arith, size, good.0.1)) in
    rw (whole, decoded)
      (after_decode-received _ _ (datagrams os) out (still_open out) e
        (λ f e'. recv_datagrams-received os _ f out good.1 filled e'))
