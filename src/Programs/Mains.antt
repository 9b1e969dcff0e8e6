-- ===== src/Programs/Mains.antt =====
-- `main` of the two clients and the two servers: the calls that make the socket ready, then the loop. What the
-- system answers is a parameter; the buffer sizes of a socket, which change nothing here, are left out.
pub mod Clients
pub mod Servers
use test.Base.{ℕ, zero, suc, Bool, true, false, Option, none, some, List, [], if◌then◌else◌}
use test.Base.Int.{ℤ, pos, negsuc, minus_one, is_neg, eq_ℤ}
use test.Rtp.Send.{Sender}
use test.Programs.Splitter.{Run, going, SendTo, multicast_client, udp_client}
use test.Programs.Receiver.{Server, udp_server, multicast_server}

-- What `socket`, `bind`, `connect` and `setsockopt` with IP_ADD_MEMBERSHIP return.
pub record Setup : Type 0 where
  pub socket : ℤ
  pub bind : ℤ
  pub connect : ℤ
  pub membership : ℤ

-- A program ended with this status while it made its socket ready; or it read a file that did not open;
-- or it came to its loop.
pub data Main {ℓ} (A : Type ℓ) : Type ℓ where
  exited : ℤ → Main A
  no_file : Main A
  ran : A → Main A

-- a number of passes over SEND_FILE; the result of `fopen` is not tested
unfoldable pub over_file {ℓ} : {A : Type ℓ} → Option (List ℕ) → ℕ → A → (List ℕ → A) → Main A
over_file (some file) k idle loop = ran (loop file)
over_file none zero idle loop = ran idle
over_file none (suc k) idle loop = no_file

-- client/multicast/client.c; `sendto` says which datagrams go out.
unfoldable pub multicast_client_main :
    Setup → SendTo → ℕ → Option (List ℕ) → List ℕ → Main (Run (List ℕ × ℕ) (List (List ℕ)))
unfolding over_file
multicast_client_main os sendto k send_file mem =
    if is_neg os.socket
    then exited (pos 0)
    else if is_neg os.membership
    then exited (pos 0)
    else over_file send_file k (going (mem, 0) []) (λ file. multicast_client sendto k file mem 0 [])

-- the descriptor as an `int` that is not negative
abbrev pub descriptor : ℤ → ℕ
descriptor (pos fd) = fd
descriptor (negsuc n) = 0

-- client/udp/client.c; `s` holds the packetiser's static variables and what the socket was given.
unfoldable pub udp_client_main {ℓ} :
    {σ : Type ℓ}
    → (List ℕ → σ → σ)
    → Setup
    → ℕ
    → Option (List ℕ)
    → List ℕ
    → Sender σ
    → Main (Run (List ℕ × ℕ) (Sender σ))
unfolding over_file
udp_client_main send_data os k send_file mem s =
    if is_neg os.socket
    then exited (pos 0)
    else if eq_ℤ os.connect minus_one
    then exited minus_one
    else over_file send_file k (going (mem, 0) s)
        (λ file. udp_client send_data (descriptor os.socket) k file mem 0 s)

-- server/udp/server.c; `file` is what RECEIVE_FILE holds when it is opened, which succeeds.
unfoldable pub udp_server_main : Setup → List (List ℕ) → List ℕ → List ℕ → Main Server
udp_server_main os datagrams mem file =
    if is_neg os.socket
    then exited (pos 0)
    else if is_neg os.bind
    then exited (pos 0)
    else ran (udp_server datagrams mem 0 file)

-- server/multicast/server.c
unfoldable pub multicast_server_main : Setup → List (List ℕ) → List ℕ → List ℕ → Main Server
multicast_server_main os datagrams mem file =
    if is_neg os.socket
    then exited (pos 0)
    else if is_neg os.bind
    then exited (pos 0)
    else if is_neg os.membership
    then exited (pos 0)
    else ran (multicast_server datagrams mem 0 file)
