-- ===== src/Server/Round.antt =====
-- One round of the loop of `main` in server/tcp/tcp_server.cpp.
use test.Base.{
  ℕ, ◌+◌, Bool, false, Option, none, some, List, [], ◌∷◌, ◌++◌, ◌&&◌, ◌||◌, ◌==◌, if◌then◌else◌,
  replicate,
}
use test.Base.Int.{ℤ, pos, eq_ℤ, minus_one, is_positive}
use test.Server.{
  ClientSession, MyServer, blank, max_client_num, ClientAnswer, Handled, handled, handler_fault,
  handler_waits, incoming_connection_handler, incoming_connection_handler_client, destroy_where,
}

-- the server before the loop: its port is 554
unfoldable pub initial : ℤ → MyServer
initial listening = record {
  my_port = 554;
  my_socket = listening;
  client_num = pos 0;
  client = replicate max_client_num blank;
}

-- the descriptors that `MERGEFD` puts into the set
abbrev pub merged : List ClientSession → List ℤ
merged [] = []
merged (s ∷ cs) = if s.b_use == 0 then merged cs else s.sock ∷ merged cs

abbrev pub has : List ℤ → ℤ → Bool
has [] fd = false
has (x ∷ set) fd = eq_ℤ x fd || has set fd

-- What the system says in a round: the result of `select`, which descriptors are ready, what `accept`
-- and `random` return, and the answers to each session.
pub record Answers : Type 0 where
  pub selected : ℤ
  pub ready : ℤ → Bool
  pub accepted : ℤ
  pub high : ℕ
  pub low : ℕ
  pub clients : ℕ → ClientAnswer

-- `FD_ISSET` after `select`
abbrev pub is_set : List ℤ → Answers → ℤ → Bool
is_set set a fd = has set fd && a.ready fd

-- one session in the loop over the ready ones
unfoldable pub serve_one : List ℤ → Answers → ℕ → ClientSession → Handled
serve_one set a i s =
    if s.b_use == 0
    then handled s []
    else if is_set set a s.sock
    then incoming_connection_handler_client s (a.clients i) (a.clients i).recv
    else handled s []

-- The sessions after the loop, with what went out to each; or the handler that did not return.
pub data Served : Type 0 where
  served : List ClientSession → List (List ℕ) → Served
  serve_fault : Served
  serve_waits : Served

abbrev pub and_serve : Handled → Served → Served
and_serve handler_fault rest = serve_fault
and_serve handler_waits rest = serve_waits
and_serve (handled s sent) (served cs sents) = served (s ∷ cs) (sent ∷ sents)
and_serve (handled s sent) serve_fault = serve_fault
and_serve (handled s sent) serve_waits = serve_waits

unfoldable pub serve_from : List ℤ → Answers → ℕ → List ClientSession → Served
unfolding serve_one
serve_from set a i [] = served [] []
serve_from set a i (s ∷ cs) = and_serve (serve_one set a i s) (serve_from set a (i + 1) cs)

-- The round returned, with the descriptors that it closed; or it did not.
pub data Round : Type 0 where
  finished : MyServer → List ℤ → Round
  round_fault : Round
  round_waits : Round

abbrev pub is_marked : ClientSession → Bool
is_marked s = eq_ℤ s.b_is_active minus_one

-- the loop that destroys the sessions marked with -1
abbrev pub sweep : MyServer → List ℤ → Served → Round
sweep h closed serve_fault = round_fault
sweep h closed serve_waits = round_waits
sweep h closed (served cs sents) =
    let (cs', n, closed') = destroy_where is_marked cs h.client_num in
    finished (record h { client_num = n; client = cs' }) (closed ++ closed')

-- the rest of a round after the new connection
abbrev pub serve_and_sweep : List ℤ → Answers → Option MyServer × List ℤ → Round
serve_and_sweep set a (none, closed) = round_fault
serve_and_sweep set a (some h, closed) = sweep h closed (serve_from set a 0 h.client)

-- the body of `while (1)`
unfoldable pub round : MyServer → Answers → Round
unfolding serve_from
round h a =
    let set = h.my_socket ∷ merged h.client in
    if is_positive a.selected
    then serve_and_sweep set a (
        if is_set set a h.my_socket
        then incoming_connection_handler (some h) a.accepted a.high a.low
        else (some h, []))
    else finished h []

-- rounds one after another, with all the descriptors that they closed
unfoldable pub rounds : MyServer → List Answers → List ℤ → Round
unfolding round
rounds h [] closed = finished h closed
rounds h (a ∷ answers) closed = elim (round h a) [
  | finished h' more ↦ rounds h' answers (closed ++ more)
  | round_fault ↦ round_fault
  | round_waits ↦ round_waits
]
