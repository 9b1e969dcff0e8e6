-- ===== src/Programs/Mains/Clients.antt =====
-- What the clients do with a file that fits their buffer, whatever the system answers.
use test.Base.{
  ℕ, ◌≤◌, ◌<◌, ◌≡◌, ◌≢◌, ◌⊎◌, inl, inr, refl, ap, true, false, some, List, [], length, All,
  Bool-cases,
}
use test.Base.Int.{ℤ, pos, negsuc, minus_one, is_neg, eq_ℤ}
use test.Rtp.RoundTrip.{deliver, Link}
use test.Programs.Splitter.{Run, going, SendTo, max_buf}
use test.Programs.Splitter.Pieces.{concat, IsCoded, NoInner}
use test.Programs.Splitter.Whole.{coded, repeated, EndsNonzero}
use test.Programs.Splitter.Clients.{
  doubled, Posted, posted, multicast_client-file, udp_client-doubles,
}
use test.Programs.Mains.{
  Setup, Main, exited, no_file, ran, over_file, descriptor, multicast_client_main, udp_client_main,
}

-- The program ended before its loop with status 0, because it got no socket or did not join its group. Or it
-- sent datagrams, none of which holds a start code behind its begin: they are the file `k` times; or
-- they are what this begins with, and `sendto` did not take the piece that follows.
abbrev pub SentFile : Setup → SendTo → ℕ → List ℕ → Main (Run (List ℕ × ℕ) (List (List ℕ))) → Type 0
SentFile os sendto k file no_file = ⊥
SentFile os sendto k file (exited status) =
    (status ≡ pos 0) × ((is_neg os.socket ≡ true) ⊎ (is_neg os.membership ≡ true))
SentFile os sendto k file (ran r) = Posted sendto (repeated k file) r × All NoInner (posted r)

-- client/multicast/client.c, for a number `k` of passes, with a file that begins with a start code and is
-- shorter than its buffer, whatever the system answers: the program ends with status 0 without a datagram,
-- because it got no socket or did not join its group; or all passes end, and the payloads of the datagrams,
-- one after another, are the file `k` times; or it returns because `sendto` did not take a piece, and the
-- file `k` times begins with the payloads and this piece. No datagram holds a start code behind its
-- first four bytes.
pub multicast_client_main-SentFile :
    (os : Setup) (sendto : SendTo) (k : ℕ) (rest mem : List ℕ)
    → length (coded rest) < max_buf
    → max_buf ≤ length mem
    → SentFile os sendto k (coded rest) (multicast_client_main os sendto k (some (coded rest)) mem)
unfolding multicast_client_main over_file
multicast_client_main-SentFile os sendto k rest mem short fits =
    elim (Bool-cases (is_neg os.socket)) [
      | inl failed ↦ rw failed (refl, inl failed)
      | inr made ↦ elim (Bool-cases (is_neg os.membership)) [
        | inl failed ↦ rw (made, failed) (refl, inr failed)
        | inr joined ↦
            let (sent, units) = multicast_client-file sendto k rest mem short fits in
            rw (made, joined) (sent, units.1)
      ]
    ]

descriptor_nonzero : (s : ℤ) → s ≢ pos 0 → is_neg s ≡ false → descriptor s ≢ 0
descriptor_nonzero (pos fd) nonzero made = λ e. nonzero (ap pos e)
descriptor_nonzero (negsuc n) nonzero made = absurd (cc made)

-- The program ended before its loop, because it got no socket or could not connect it, with the status of that
-- failure; or the receiver's file has a start code before each unit, each unit begins with its own and holds
-- no further one, and the units are the file `k` times.
abbrev pub SentUnits : Setup → ℕ → List ℕ → Main (Run (List ℕ × ℕ) Link) → Type 0
SentUnits os k file no_file = ⊥
SentUnits os k file (exited status) =
    ((status ≡ pos 0) × (is_neg os.socket ≡ true))
    ⊎ ((status ≡ minus_one) × (eq_ℤ os.connect minus_one ≡ true))
SentUnits os k file (ran r) =
    (mem' : List ℕ) × (s' : Link) × (units : List (List ℕ)) × (r ≡ going (mem', 0) s')
    × (s'.out ≡ some (doubled units))
    × All IsCoded units
    × All NoInner units
    × (concat units ≡ repeated k file)

-- client/udp/client.c, for a number `k` of passes over a link that loses nothing, with a file that begins with a
-- start code, does not end with a byte 0 and is shorter than its buffer, when `socket` does not return 0: the
-- program ends with status 0
-- because it got no socket, or with -1 because it could not connect it; or all passes end, and the
-- receiver's file has a start code before each unit. Each unit begins with its own start code and holds no
-- further one, and the units, one after another, are the file `k` times.
pub udp_client_main-SentUnits :
    (os : Setup) (k : ℕ) (rest mem : List ℕ) (s : Link)
    → os.socket ≢ pos 0
    → length (coded rest) < max_buf
    → max_buf ≤ length mem
    → EndsNonzero (coded rest)
    → s.out ≡ some []
    → SentUnits os k (coded rest) (udp_client_main deliver os k (some (coded rest)) mem s)
unfolding udp_client_main over_file
udp_client_main-SentUnits os k rest mem s nonzero short fits ends new =
    elim (Bool-cases (is_neg os.socket)) [
      | inl failed ↦ rw failed (inl (refl, failed))
      | inr made ↦ elim (Bool-cases (eq_ℤ os.connect minus_one)) [
        | inl failed ↦ rw (made, failed) (inr (refl, failed))
        | inr connected ↦
            rw (made, connected)
              (udp_client-doubles (descriptor os.socket) k rest mem s
                (descriptor_nonzero os.socket nonzero made) short fits ends new)
      ]
    ]
