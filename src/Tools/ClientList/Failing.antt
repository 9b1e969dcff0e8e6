-- ===== src/Tools/ClientList/Failing.antt =====
-- A client whose sends fail.
use test.Base.{
  ℕ, suc, ◌+◌, ◌-◌, ◌≡◌, refl, ap, ◌∙◌, true, some, List, [], ◌∷◌, ltb, length, if◌then◌else◌,
  arith,
}
use test.Tools.ClientList.{Client, after_send, send_to}

-- every packet of a list for one client
abbrev pub send_all : List (List ℕ) → Client → Client
send_all [] c = c
send_all (packet ∷ packets) c = send_all packets (send_to packet c)

-- the state after `fails` failures without an end
abbrev pub failing : ℕ → ℕ → Client
failing errno fails = record {
  answer = λ n. some (suc errno);
  calls = fails;
  sent = [];
  send_fail_n = fails;
  closes = fails - 29;
}

send_to-failing :
    (errno fails : ℕ) (packet : List ℕ)
    → send_to packet (failing errno fails) ≡ failing errno (fails + 1)
unfolding send_to after_send
send_to-failing errno fails packet =
    let is_error : ltb 0 (suc errno) ≡ true = ground arith in
    let closed : (if ltb 29 (fails + 1) then fails - 29 + 1 else fails - 29) ≡ fails + 1 - 29 =
      ground arith in
    rw (is_error, closed) refl

-- A client whose sends all fail with an error above 0 is never removed: when `fails` sends failed before,
-- a further list of packets is counted as so many more failures, nothing goes out, and the socket is
-- closed once for each failure beyond the 29th.
pub send_all-closes :
    (errno : ℕ) (packets : List (List ℕ)) (fails : ℕ)
    → send_all packets (failing errno fails) ≡ failing errno (fails + length packets)
send_all-closes errno [] fails = ap (failing errno) (omega arith)
send_all-closes errno (packet ∷ packets) fails =
    ap (send_all packets) (send_to-failing errno fails packet)
    ∙ send_all-closes errno packets (fails + 1)
    ∙ ap (failing errno) (omega arith)
