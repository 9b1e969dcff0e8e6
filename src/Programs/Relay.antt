-- ===== src/Programs/Relay.antt =====
-- From a file through client/multicast/client.c and a multicast group to the file of
-- server/multicast/server.c, when each datagram arrives once and in order.
use test.Base.{ℕ, ◌≡◌, ◌⊎◌, List, [], ◌++◌}
use test.Programs.Splitter.Pieces.{concat, BeginsZero}
use test.Programs.Receiver.{Server}
use test.Programs.Receiver.Collect.{Collected}
use test.Programs.Receiver.Kept.{Kept}

-- The datagrams are what the file begins with, and more pieces follow.
abbrev Prefix : List (List ℕ) → List ℕ → Type 0
Prefix datagrams file =
    (more : List ℕ) × (concat datagrams ++ more ≡ file) × ((more ≡ []) ⊎ BeginsZero more)

-- What the server made of the datagrams, and its file is these datagrams while it waits and has not counted
-- two sequence parameter sets.
abbrev pub Relayed : List ℕ → List (List ℕ) → Server → Type 0
Relayed mem datagrams r = Collected 15 mem 0 [] datagrams r × Kept 0 [] datagrams r
