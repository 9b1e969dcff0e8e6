-- ===== src/Server/Returns.antt =====
-- Rounds in which no message overruns the buffer of the reply.
use test.Base.{
  ℕ, zero, suc, ◌+◌, ◌≤◌, ◌<◌, ◌≡◌, subst, inl, inr, refl, sym, true, Option, some, List, [], ◌∷◌,
  ◌++◌, ◌==◌, ltb, length, take, replicate, write_at, All, arith, Bool-cases, length-take,
}
use test.Base.Int.{ℤ, is_neg, is_positive}
use test.Net.Os.{is_transient, Errno, Given, gave, failed_recv}
use test.Net.Tcp.{Wrote, wrote, write_waits, comm_tcp_write}
use test.Server.{
  ClientSession, MyServer, buf_size, c_string, yse, ClientAnswer, Handled, handled, handler_fault,
  handler_waits, with_reply, with_received, after_reply, reply, admit, place, opened, our_random64,
  incoming_connection_handler, incoming_connection_handler_client,
}
use test.Server.Round.{
  initial, merged, Answers, is_set, Served, served, serve_fault, serve_waits, and_serve, serve_one,
  serve_from, Round, finished, round_fault, round_waits, sweep, serve_and_sweep, round, rounds,
}
use test.Server.Invariant.{IsValid}
use test.Server.Ownership.{gained, Accounted, Accepts}
use test.Server.Rounds.{round-Accounted, initial-IsValid}

-- a message of fewer than 4092 bytes, or none
abbrev pub IsShort : Given → Type 0
IsShort (gave bytes) = length bytes < 4092
IsShort (failed_recv e) = Unit

-- no client sends a long message
abbrev pub AllShort : Answers → Type 0
AllShort a = (i : ℕ) → IsShort (a.clients i).recv

abbrev Returns : Handled → Type 0
Returns handler_fault = ⊥
Returns handler_waits = Unit
Returns (handled s sent) = Unit

abbrev ReturnsAll : Served → Type 0
ReturnsAll serve_fault = ⊥
ReturnsAll serve_waits = Unit
ReturnsAll (served cs sents) = Unit

-- The string in a buffer of zeroes is not longer than what was written to it.
c_string-le :
    (m : ℕ) (bytes : List ℕ) → length (c_string (write_at 0 bytes (replicate m 0))) ≤ length bytes
c_string-le zero [] = omega arith
c_string-le (suc m) [] = omega arith
c_string-le zero (b ∷ bytes) = omega arith
c_string-le (suc m) (b ∷ bytes) = elim (Bool-cases (b == 0)) [
  | inl e ↦ rw (e, length, c_string) (omega arith)
  | inr e ↦ rw (e, length, c_string) (omega (arith, c_string-le m bytes))
]

after_reply-Returns : (s : ClientSession) (e : Errno) (w : Wrote) → Returns (after_reply s e w)
after_reply-Returns s e (write_waits sent) = tt
after_reply-Returns s e (wrote ret sent os) = elim (Bool-cases (is_positive ret)) [
  | inl good ↦ rw good tt
  | inr bad ↦ elim (Bool-cases (is_transient e)) [
    | inl again ↦ rw (bad, again) tt
    | inr lost ↦ rw (bad, lost) tt
  ]
]

reply-Returns :
    (s : ClientSession) (a : ClientAnswer)
    → length (c_string s.recv_buf) < 4092
    → Returns (reply s a)
unfolding reply
reply-Returns s a short =
    let text = yse ++ c_string s.recv_buf in
    let fits : ltb (length text) buf_size ≡ true = ground (arith, short) in
    rw fits (
      after_reply-Returns (with_reply s text) a.errno
        (comm_tcp_write s.sock text (length text) a.writes))

handler-Returns :
    (s : ClientSession) (a : ClientAnswer) (g : Given)
    → IsShort g
    → Returns (incoming_connection_handler_client s a g)
unfolding incoming_connection_handler_client
handler-Returns s a (failed_recv e) short = elim (Bool-cases (is_transient e)) [
  | inl again ↦ rw again tt
  | inr lost ↦ rw lost tt
]
handler-Returns s a (gave []) short = tt
handler-Returns s a (gave (b ∷ bytes)) short =
    reply-Returns (with_received s a.time_now (b ∷ bytes)) a (
      omega (
        arith,
        c_string-le buf_size (take buf_size (b ∷ bytes)),
        length-take buf_size (b ∷ bytes),
        short,
      ))

serve_one-Returns :
    (set : List ℤ) (a : Answers) (i : ℕ) (s : ClientSession)
    → AllShort a
    → Returns (serve_one set a i s)
unfolding serve_one
serve_one-Returns set a i s short = elim (Bool-cases (s.b_use == 0)) [
  | inl free ↦ rw free tt
  | inr used ↦ elim (Bool-cases (is_set set a s.sock)) [
    | inl ready ↦ rw (used, ready) (handler-Returns s (a.clients i) (a.clients i).recv (short i))
    | inr quiet ↦ rw (used, quiet) tt
  ]
]

and_serve-ReturnsAll :
    (u : Handled) (v : Served) → Returns u → ReturnsAll v → ReturnsAll (and_serve u v)
and_serve-ReturnsAll handler_fault v h k = absurd h
and_serve-ReturnsAll handler_waits v h k = tt
and_serve-ReturnsAll (handled s sent) serve_fault h k = absurd k
and_serve-ReturnsAll (handled s sent) serve_waits h k = tt
and_serve-ReturnsAll (handled s sent) (served cs sents) h k = tt

serve_from-ReturnsAll :
    (set : List ℤ) (a : Answers) (i : ℕ) (cs : List ClientSession)
    → AllShort a
    → ReturnsAll (serve_from set a i cs)
unfolding serve_from
serve_from-ReturnsAll set a i [] short = tt
serve_from-ReturnsAll set a i (s ∷ cs) short =
    and_serve-ReturnsAll (serve_one set a i s) (serve_from set a (i + 1) cs)
      (serve_one-Returns set a i s short) (serve_from-ReturnsAll set a (i + 1) cs short)

-- A round that did not overrun a buffer, and if it returned, kept the invariant and lost no descriptor.
abbrev pub Kept : MyServer → List ℤ → Round → Type 0
Kept h new round_fault = ⊥
Kept h new round_waits = Unit
Kept h new (finished h' closed) = Accounted h new (finished h' closed)

-- Neither kind of round is one that overran a buffer.
abbrev pub NotFault : Round → Type 0
NotFault round_fault = ⊥
NotFault round_waits = Unit
NotFault (finished h closed) = Unit

sweep-NotFault :
    (h : MyServer) (closed : List ℤ) (v : Served) → ReturnsAll v → NotFault (sweep h closed v)
sweep-NotFault h closed serve_fault k = k
sweep-NotFault h closed serve_waits k = tt
sweep-NotFault h closed (served cs sents) k = tt

serve_and_sweep-NotFault :
    (set : List ℤ) (a : Answers) (h : MyServer) (closed : List ℤ)
    → AllShort a
    → NotFault (serve_and_sweep set a (some h, closed))
serve_and_sweep-NotFault set a h closed short =
    sweep-NotFault h closed (serve_from set a 0 h.client)
      (serve_from-ReturnsAll set a 0 h.client short)

-- The handler of a new connection returns a server.
handler_server :
    (h : MyServer) (fd : ℤ) (high low : ℕ)
    → (h' : MyServer) × (closed : List ℤ) × (incoming_connection_handler (some h) fd high low
        ≡ (some h', closed))
unfolding incoming_connection_handler
handler_server h fd high low = elim (Bool-cases (is_neg fd)) [
  | inl bad ↦ (h, [], rw bad refl)
  | inr good ↦
      let r = admit h fd (place (opened fd (our_random64 high low)) h.client) in
      (r.0, r.1, rw good refl)
]

round-NotFault : (h : MyServer) (a : Answers) → AllShort a → NotFault (round h a)
unfolding round
round-NotFault h a short = elim (Bool-cases (is_positive a.selected)) [
  | inr none_ready ↦ rw none_ready tt
  | inl some_ready ↦ elim (Bool-cases (is_set (h.my_socket ∷ merged h.client) a h.my_socket)) [
    | inr quiet ↦
        rw (some_ready, quiet)
          (serve_and_sweep-NotFault (h.my_socket ∷ merged h.client) a h [] short)
    | inl calling ↦
        let set = h.my_socket ∷ merged h.client in
        let (h', closed, e) = handler_server h a.accepted a.high a.low in
        rw (some_ready, calling)
          (subst (λ (p : Option MyServer × List ℤ). NotFault (serve_and_sweep set a p)) (sym e)
            (serve_and_sweep-NotFault set a h' closed short))
  ]
]

Kept-both :
    (h : MyServer) (new : List ℤ) (r : Round) → Accounted h new r → NotFault r → Kept h new r
Kept-both h new round_fault k n = n
Kept-both h new round_waits k n = tt
Kept-both h new (finished h' closed) k n = k

-- A round of the loop on a valid server, when `accept` returns a positive descriptor or fails and no
-- client sends 4092 bytes or more: no buffer is overrun, and the round returns or waits for a client in a
-- write. When it returns, the server is valid, and each descriptor is open in a session or was closed in
-- the round, as often as it was open before or was accepted in it: none is lost or closed twice.
pub round-Kept :
    (h : MyServer) (a : Answers)
    → IsValid h
    → Accepts a.accepted
    → AllShort a
    → Kept h (gained h a) (round h a)
round-Kept h a good accepts short =
    Kept-both h (gained h a) (round h a) (round-Accounted h a good accepts)
      (round-NotFault h a short)

-- Rounds one after another did not overrun a buffer, and if all returned, the server is valid.
abbrev pub StaysValid : Round → Type 0
StaysValid round_fault = ⊥
StaysValid round_waits = Unit
StaysValid (finished h closed) = IsValid h

StaysValid-then :
    (h : MyServer) (new closed : List ℤ) (answers : List Answers) (r : Round)
    → Kept h new r
    → ((h' : MyServer) (more : List ℤ) → IsValid h' → StaysValid (rounds h' answers more))
    → StaysValid (elim r [
      | finished h' more ↦ rounds h' answers (closed ++ more)
      | round_fault ↦ round_fault
      | round_waits ↦ round_waits
    ])
StaysValid-then h new closed answers round_fault k next = k
StaysValid-then h new closed answers round_waits k next = tt
StaysValid-then h new closed answers (finished h' more) k next = next h' (closed ++ more) k.0

rounds-StaysValid :
    (h : MyServer) (answers : List Answers) (closed : List ℤ)
    → IsValid h
    → All (λ (a : Answers). Accepts a.accepted × AllShort a) answers
    → StaysValid (rounds h answers closed)
unfolding rounds
rounds-StaysValid h [] closed good accepts = good
rounds-StaysValid h (a ∷ answers) closed good accepts =
    StaysValid-then h (gained h a) closed answers (round h a)
      (round-Kept h a good accepts.0.0 accepts.0.1)
      (λ h' more valid. rounds-StaysValid h' answers more valid accepts.1)

-- From the start of the program, for any number of rounds in which `accept` returns a positive descriptor
-- or fails and no client sends 4092 bytes or more: no buffer is overrun; and when no round waits in a
-- write, there are four sessions at the end, each is either cleared or in use with an open descriptor and
-- active, and `clientNum` is the number of those in use.
pub rounds-initial-StaysValid :
    (listening : ℤ) (answers : List Answers)
    → All (λ (a : Answers). Accepts a.accepted × AllShort a) answers
    → StaysValid (rounds (initial listening) answers [])
rounds-initial-StaysValid listening answers accepts =
    rounds-StaysValid (initial listening) answers [] (initial-IsValid listening) accepts
