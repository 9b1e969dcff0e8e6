-- ===== src/Server/Rounds.antt =====
-- Whole rounds, and rounds one after another.
use test.Base.{
  ℕ, zero, suc, ◌≡◌, inl, inr, refl, true, Option, none, some, List, [], ◌∷◌, if◌then◌else◌, arith,
  Bool-cases,
}
use test.Base.Int.{ℤ, pos, negsuc, is_positive}
use test.Server.{MyServer, opened, our_random64, place, incoming_connection_handler}
use test.Server.Round.{initial, merged, Answers, is_set, serve_from, serve_and_sweep, round}
use test.Server.Invariant.{IsValid, place-Placed}
use test.Server.Serving.{serve_from-KeepsAll}
use test.Server.Ownership.{gained, Accounted, Accepts, Admitted, sweep-Accounted, admit-Admitted}

-- The handler of a new connection, for what `accept` returned.
incoming_connection_handler-Admitted :
    (h : MyServer) (fd : ℤ) (high low : ℕ)
    → IsValid h
    → Accepts fd
    → Admitted h
        (if is_positive fd then fd ∷ [] else [])
        (incoming_connection_handler (some h) fd high low)
unfolding incoming_connection_handler
incoming_connection_handler-Admitted h (pos n) high low good (inl never) = absurd (cc never)
incoming_connection_handler-Admitted h (negsuc n) high low good bad = (good, λ x. omega arith)
incoming_connection_handler-Admitted h (pos zero) high low good (inr (n, e)) = absurd (cc e)
incoming_connection_handler-Admitted h (pos (suc fd)) high low good (inr (n, e)) =
    let positive : is_positive (pos (suc fd)) ≡ true = ground arith in
    rw positive (
      admit-Admitted h fd (place (opened (pos (suc fd)) (our_random64 high low)) h.client) good
        (place-Placed fd (our_random64 high low) h.client))

serve_and_sweep-Accounted :
    (h : MyServer) (new set : List ℤ) (a : Answers) (p : Option MyServer × List ℤ)
    → Admitted h new p
    → Accounted h new (serve_and_sweep set a p)
serve_and_sweep-Accounted h new set a (none, closed) r = absurd r
serve_and_sweep-Accounted h new set a (some h', closed) (good, balance) =
    sweep-Accounted h h' new closed (serve_from set a 0 h'.client) good balance
      (serve_from-KeepsAll set a 0 h'.client good.slots)

-- A round of the loop on a valid server, when `accept` returns a positive descriptor or fails: if every
-- handler returns, the server is valid afterwards, and each descriptor is open in a session or was
-- closed in the round, as often as it was open before or was accepted in it. None is lost or closed
-- twice.
pub round-Accounted :
    (h : MyServer) (a : Answers)
    → IsValid h
    → Accepts a.accepted
    → Accounted h (gained h a) (round h a)
unfolding round
round-Accounted h a good accepts = elim (Bool-cases (is_positive a.selected)) [
  | inr none_ready ↦ rw none_ready (good, λ x. omega arith)
  | inl some_ready ↦ elim (Bool-cases (is_set (h.my_socket ∷ merged h.client) a h.my_socket)) [
    | inr quiet ↦
        rw (some_ready, quiet)
          (serve_and_sweep-Accounted h [] (h.my_socket ∷ merged h.client) a (some h, [])
            (good, λ x. omega arith))
    | inl calling ↦
        rw (some_ready, calling)
          (serve_and_sweep-Accounted h (if is_positive a.accepted then a.accepted ∷ [] else [])
            (h.my_socket ∷ merged h.client) a
            (incoming_connection_handler (some h) a.accepted a.high a.low)
            (incoming_connection_handler-Admitted h a.accepted a.high a.low good accepts))
  ]
]

pub initial-IsValid : (listening : ℤ) → IsValid (initial listening)
unfolding initial
initial-IsValid listening = record {
  four = refl;
  slots = (inl refl, (inl refl, (inl refl, (inl refl, tt))));
  counted = refl;
}
