-- ===== src/Tools/Pipeline.antt =====
-- A byte stream that is sent as RTP packets and decoded again.
use test.Base.{
  ℕ, zero, suc, ◌+◌, ◌%◌, ◌^◌, ◌≤◌, ◌<◌, ◌≡◌, ◌≢◌, refl, ap, ◌∙◌, sym, some, List, [], ◌∷◌, ◌++◌,
  length, arith, append_assoc, length-append, All, append-nil, le→ltb,
}
use test.Base.Int.{ℤ, pos, minus_one}
use test.Rtp.Send.{h264nal2rtp_send}
use test.Rtp.Fragments.{start_code}
use test.Rtp.RoundTrip.{deliver, Link, h264nal2rtp_send-deliver}
use test.Nal.Copy.{copy_nal_from_file}
use test.Nal.Escaped.{IsEscaped, copy_nal_from_file-long_code, copy_nal_from_file-end}
use test.Tools.SendFile.{and_then, unless_overrun, send_nal, after_copy, send_units, send_h264file}

-- A unit that the tools carry: escaped, not empty, of bytes, and not of the type of a fragment.
abbrev pub IsUnit : List ℕ → Type 0
IsUnit [] = ⊥
IsUnit (b ∷ rest) = IsEscaped (b ∷ rest) × (b < 256) × (b % 32 ≢ 28)

-- A unit that a buffer of `room` bytes holds.
abbrev pub Fits : ℕ → List ℕ → Type 0
Fits room nal = length nal ≤ room

-- the byte stream of some units
abbrev pub stream : List (List ℕ) → List ℕ
stream [] = []
stream (nal ∷ nals) = start_code ++ (nal ++ stream nals)

-- the units with start codes between them
abbrev pub joined : List (List ℕ) → List ℕ → List ℕ
joined [] last = last
joined (nal ∷ nals) last = nal ++ (start_code ++ joined nals last)

-- A round that finds a unit, and the round that ends the loop.
send_units-found :
    (room fuel n : ℕ) (file nal rest : List ℕ) (ret : ℤ) (s s' : Link)
    → Fits room nal
    → copy_nal_from_file file ≡ (pos n, nal, rest)
    → h264nal2rtp_send deliver 25 nal (length nal) s ≡ some (ret, s')
    → send_units deliver room (suc fuel) file s ≡ send_units deliver room fuel rest s'
unfolding send_units after_copy send_nal
send_units-found room fuel n file nal rest ret s s' fits e sent =
    let again = send_units deliver room fuel in
    ap (λ t. after_copy deliver room again t s) e
    ∙ ap (λ o. unless_overrun o (send_nal deliver again (pos n, nal, rest)) s) (le→ltb _ _ fits)
    ∙ ap (λ t. and_then t (again rest)) sent

send_units-end :
    (room fuel : ℕ) (file nal rest : List ℕ) (s : Link)
    → Fits room nal
    → copy_nal_from_file file ≡ (minus_one, nal, rest)
    → send_units deliver room (suc fuel) file s ≡ some s
unfolding send_units after_copy send_nal
send_units-end room fuel file nal rest s fits e =
    let again = send_units deliver room fuel in
    ap (λ t. after_copy deliver room again t s) e
    ∙ ap (λ o. unless_overrun o (send_nal deliver again (minus_one, nal, rest)) s) (le→ltb _ _ fits)

-- One unit before a start code goes out, and the loop goes on behind the start code.
send_units-unit :
    (room fuel : ℕ) (nal rest file : List ℕ) (s : Link)
    → IsUnit nal
    → Fits room nal
    → s.out ≡ some file
    → (s' : Link) × (s'.out ≡ some (file ++ (start_code ++ nal)))
      × (send_units deliver room (suc fuel) (nal ++ (start_code ++ rest)) s
          ≡ send_units deliver room fuel rest s')
send_units-unit room fuel [] rest file s h fits e = absurd h
send_units-unit room fuel (b ∷ tail) rest file s h fits e =
    let (s', sent, out) =
      h264nal2rtp_send-deliver b tail file h.1 25 s (omega arith) (λ _. h.2) e in
    (
      s',
      out ∙ ap some (append_assoc file start_code (b ∷ tail)),
      send_units-found room fuel _ _ (b ∷ tail) rest _ s s' fits
          (copy_nal_from_file-long_code (b ∷ tail) rest h.0) sent,
    )

-- The loop delivers every unit that a start code ends.
send_units-joined :
    (room fuel : ℕ) (nals : List (List ℕ)) (last file : List ℕ) (s : Link)
    → All IsUnit nals
    → All (Fits room) nals
    → IsEscaped last
    → Fits room last
    → length nals < fuel
    → s.out ≡ some file
    → (s' : Link) × (send_units deliver room fuel (joined nals last) s ≡ some s')
      × (s'.out ≡ some (file ++ stream nals))
send_units-joined room zero nals last file s good fit end last_fits enough e = absurd (omega arith)
send_units-joined room (suc fuel) [] last file s good fit end last_fits enough e = (
  s,
  send_units-end room fuel last last [] s last_fits (copy_nal_from_file-end last end),
  e ∙ ap some (sym (append-nil file)),
)
send_units-joined room (suc fuel) (nal ∷ nals) last file s good fit end last_fits enough e =
    let (s1, out1, go) = send_units-unit room fuel nal (joined nals last) file s good.0 fit.0 e in
    let (s2, done, out2) =
      send_units-joined room fuel nals last (file ++ (start_code ++ nal)) s1 good.1 fit.1 end
        last_fits (omega arith) out1 in
    (
      s2,
      go ∙ done,
      out2
          ∙ ap some (
              append_assoc file (start_code ++ nal) (stream nals)
              ∙ ap (λ t. file ++ t) (append_assoc start_code nal (stream nals))),
    )

-- The first unit of a stream is the empty one before its first start code: the packetiser refuses it,
-- and the loop goes on.
send_units-first :
    (room fuel : ℕ) (rest : List ℕ) (s : Link)
    → (s' : Link) × (s'.out ≡ s.out)
      × (send_units deliver room (suc fuel) (start_code ++ rest) s
          ≡ send_units deliver room fuel rest s')
unfolding h264nal2rtp_send
send_units-first room fuel rest s = (
  record s { ts_current = (s.ts_current + 3600) % 2 ^ 32 },
  refl,
  send_units-found room fuel _ _ [] rest minus_one s _ (omega arith)
      (copy_nal_from_file-long_code [] rest tt) refl,
)

length-joined : (nals : List (List ℕ)) (last : List ℕ) → length nals ≤ length (joined nals last)
length-joined [] last = omega arith
length-joined (nal ∷ nals) last =
    omega (arith, length-joined nals last, length-append nal (start_code ++ joined nals last))

-- Sending a whole H.264 file over a link that loses and reorders nothing, to a receiver with an empty
-- file: for a stream of units `nals` (escaped, not empty, first byte below 256, not of type 28) and a
-- further escaped unit `last`, none of them longer than the
-- `room` bytes of `nal_buf`, the loop ends without an overrun, and the receiver's file is the stream of
-- `nals`, byte for byte. The unit `last` is not sent.
pub send_h264file-deliver :
    (room : ℕ) (nals : List (List ℕ)) (last : List ℕ) (s : Link)
    → All IsUnit nals
    → All (Fits room) nals
    → IsEscaped last
    → Fits room last
    → s.out ≡ some []
    → (s' : Link) × (send_h264file deliver room (start_code ++ joined nals last) s ≡ some s')
      × (s'.out ≡ some (stream nals))
unfolding send_h264file
send_h264file-deliver room nals last s good fit end last_fits e =
    let fuel : ℕ = length (start_code ++ joined nals last) in
    let (s1, out1, go) = send_units-first room fuel (joined nals last) s in
    let (s2, done, out2) =
      send_units-joined room fuel nals last [] s1 good fit end last_fits
        (omega (arith, length-joined nals last)) (out1 ∙ e) in
    (
      s2,
      ap (λ t. send_units deliver room t (start_code ++ joined nals last) s) (omega arith)
          ∙ go
          ∙ done,
      out2,
    )
