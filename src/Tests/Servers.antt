-- ===== src/Tests/Servers.antt =====
-- The TCP server with a client that connects, talks and hangs up.
use test.Base.{◌≡◌, refl, inl, inr, some, List, [], ◌∷◌, ◌<◌, get_elem?, arith}
use test.Base.Int.{ℤ, pos, minus_one, eq_ℤ}
use test.Net.Os.{eintr, gave, ready, took}
use test.Server.{
  ClientSession, MyServer, blank, opened, ClientAnswer, mark_inactive, with_clear,
  incoming_connection_handler, incoming_connection_handler_client,
}
use test.Server.Round.{
  initial, merged, Answers, served, serve_one, serve_from, finished, round, rounds,
}
use test.Server.Invariant.{IsValid, count}
use test.Server.Ownership.{gained}
use test.Server.Returns.{Kept, round-Kept, StaysValid, rounds-initial-StaysValid}
use test.Server.Hangup.{round-makes_room}
use test.Server.Echo.{Echoes, incoming_connection_handler_client-Echoes}

abbrev talks : ClientAnswer
talks = record {
  recv = gave (104 ∷ 105 ∷ []);
  time_now = 5;
  writes = ready (took 6) ∷ [];
  errno = eintr;
}

abbrev hangs_up : ClientAnswer
hangs_up = record { recv = gave []; time_now = 6; writes = []; errno = eintr }

-- a connection as descriptor 7, a message on it, and its end
abbrev calling : Answers
calling = record {
  selected = pos 1;
  ready = λ fd. eq_ℤ fd (pos 3);
  accepted = pos 7;
  high = 1;
  low = 2;
  clients = λ i. talks;
}

abbrev talking : Answers
talking = record calling { ready = λ fd. eq_ℤ fd (pos 7); accepted = minus_one }

abbrev hanging : Answers
hanging = record talking { clients = λ i. hangs_up }

-- one session in use
abbrev session : ClientSession
session = opened (pos 7) 9

abbrev one_client : MyServer
one_client = record {
  my_port = 554;
  my_socket = pos 3;
  client_num = pos 1;
  client = session ∷ blank ∷ blank ∷ blank ∷ [];
}

one_client-IsValid : IsValid one_client
one_client-IsValid = record {
  four = refl;
  slots = (inr ((refl, (6, refl)), refl), (inl refl, (inl refl, (inl refl, tt))));
  counted = refl;
}

round-Kept_example : Kept one_client (gained one_client talking) (round one_client talking)
round-Kept_example = round-Kept one_client talking one_client-IsValid (inl refl) (λ i. omega arith)

rounds-initial-StaysValid_example :
    StaysValid (rounds (initial (pos 3)) (calling ∷ talking ∷ hanging ∷ []) [])
rounds-initial-StaysValid_example =
    rounds-initial-StaysValid (pos 3) (calling ∷ talking ∷ hanging ∷ []) (
      (inr (6, refl), λ i. omega arith),
      ((inl refl, λ i. omega arith), ((inl refl, λ i. omega arith), tt)),
    )

abbrev served_sessions : List ClientSession
served_sessions = mark_inactive (with_clear session) ∷ blank ∷ blank ∷ blank ∷ []

all_returned :
    serve_from (pos 3 ∷ pos 7 ∷ []) hanging 0 one_client.client
    ≡ served served_sessions ([] ∷ [] ∷ [] ∷ [] ∷ [])
unfolding serve_from serve_one incoming_connection_handler_client
all_returned = refl

round-makes_room_example :
    (h1 : MyServer) × (closed : List ℤ) × (h2 : MyServer) × (round one_client hanging
      ≡ finished h1 closed)
    × (get_elem? h1.client 0 ≡ some blank)
    × (incoming_connection_handler (some h1) (pos 8) 1 2 ≡ (some h2, []))
    × (0 < count (pos 8) (merged h2.client))
round-makes_room_example =
    round-makes_room one_client hanging 0 session served_sessions ([] ∷ [] ∷ [] ∷ [] ∷ []) 7 1 2
      (refl, refl, refl, refl) refl refl all_returned

incoming_connection_handler_client-Echoes_example :
    Echoes session
      (104 ∷ 105 ∷ [])
      eintr
      (incoming_connection_handler_client session talks (gave (104 ∷ 105 ∷ [])))
incoming_connection_handler_client-Echoes_example =
    incoming_connection_handler_client-Echoes session talks 104 (105 ∷ [])
      (λ e. omega (arith, e), (λ e. omega (arith, e), tt)) (omega arith)
