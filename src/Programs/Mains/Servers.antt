-- ===== src/Programs/Mains/Servers.antt =====
-- What the servers collect from their first datagram on, whatever the system answers.
use test.Base.{ℕ, ◌≡◌, ◌⊎◌, true, List}
use test.Base.Int.{pos, is_neg}
use test.Programs.Receiver.{Server}
use test.Programs.Receiver.Collect.{Collected}
use test.Programs.Mains.{Setup, Main, exited, no_file, ran}

-- The program ended before its loop with status 0, because a call that made its socket ready failed; or it
-- collected datagrams, until the parameter set of number `limit`.
abbrev pub MainCollected :
    (Setup → Type 0) → ℕ → Setup → List ℕ → List ℕ → List (List ℕ) → Main Server → Type 0
MainCollected Failed limit os mem file datagrams no_file = ⊥
MainCollected Failed limit os mem file datagrams (exited status) = (status ≡ pos 0) × Failed os
MainCollected Failed limit os mem file datagrams (ran r) = Collected limit mem 0 file datagrams r

-- The server got no socket or no port.
abbrev pub Unbound : Setup → Type 0
Unbound os = (is_neg os.socket ≡ true) ⊎ (is_neg os.bind ≡ true)

-- It got neither of these, or did not join its group.
abbrev pub Unjoined : Setup → Type 0
Unjoined os = Unbound os ⊎ (is_neg os.membership ≡ true)
