-- ===== src/Tests/Splitting.antt =====
-- A file of two units that the clients split, and a datagram that a server takes.
use test.Base.Int.{pos}
use test.Base.{
  ap, ◌≢◌, not, ltb, ℕ, ◌≡◌, ◌≤◌, refl, some, List, [], ◌∷◌, length, replicate, length-replicate,
  arith,
}
use test.Rtp.RoundTrip.{deliver, Link}
use test.Programs.Splitter.{SendTo, max_buf}
use test.Programs.Splitter.Whole.{coded}
use test.Programs.Mains.{Setup, descriptor, multicast_client_main, udp_client_main}
use test.Programs.Mains.Clients.{
  SentFile, SentUnits, multicast_client_main-SentFile, udp_client_main-SentUnits,
}

-- the buffer before the first read
unfoldable tape : List ℕ
tape = replicate max_buf 0

-- a parameter set, and a unit of type 1
abbrev rest : List ℕ
rest = 103 ∷ 1 ∷ 0 ∷ 0 ∷ 0 ∷ 1 ∷ 33 ∷ 2 ∷ []

tape_fits : max_buf ≤ length tape
unfolding tape
tape_fits = let size = length-replicate {A = ℕ} max_buf 0 in omega (arith, size)

abbrev link : Link
link = record { ts_current = 0; seq_num = 0; out = some [] }

abbrev datagrams : List (List ℕ)
datagrams = coded rest ∷ coded (103 ∷ 1 ∷ []) ∷ []

-- every call succeeds; the socket is 3
abbrev setup : Setup
setup = record { socket = pos 3; bind = pos 0; connect = pos 0; membership = pos 0 }

-- `sendto` that takes datagrams of at most 9 bytes
abbrev up_to_9 : SendTo
up_to_9 n piece = not (ltb 9 (length piece))

-- `sendto` that takes datagrams of at most 65507 bytes
abbrev up_to_65507 : SendTo
up_to_65507 n piece = not (ltb 65507 (length piece))

multicast_client_main-SentFile_example :
    SentFile setup up_to_9 2
      (coded rest)
      (multicast_client_main setup up_to_9 2 (some (coded rest)) tape)
multicast_client_main-SentFile_example =
    multicast_client_main-SentFile setup up_to_9 2 rest tape (omega arith) tape_fits

three : setup.socket ≢ pos 0
three = λ e. let same : descriptor setup.socket ≡ 0 = ap descriptor e in omega (arith, same)

udp_client_main-SentUnits_example :
    SentUnits setup 2 (coded rest) (udp_client_main deliver setup 2 (some (coded rest)) tape link)
udp_client_main-SentUnits_example =
    udp_client_main-SentUnits setup 2 rest tape link three (omega arith) tape_fits
      (λ e. omega (arith, e)) refl
