-- ===== src/Net/Options.antt =====
-- The rest of common/commonsocket.c that sets or reads one thing of a socket.
use Prim.Native.Nat.{bit_and, bit_or}
use test.Base.{ℕ, ◌-◌, ◌%◌, ◌^◌, Bool, Option, none, some, List, if◌then◌else◌}
use test.Base.Int.{ℤ, pos, is_neg}
use test.Net.Socket.{SockAddr, swap16}
use test.Net.Buffer.{comm_get_buffer_size, comm_set_buffer_to, comm_increase_buffer_to}

-- O_NONBLOCK
abbrev pub o_nonblock : ℕ
o_nonblock = 2048

-- `comm_socket_nonblock`: the flags that it sets, as 32 bits, from those that it reads
unfoldable pub comm_socket_nonblock : ℕ → Bool → ℕ
comm_socket_nonblock flags enable =
    if enable then bit_or flags o_nonblock else bit_and flags (2 ^ 32 - 1 - o_nonblock)

-- the `bufOptName` of a buffer
pub data BufOptName : Type 0 where
  so_sndbuf so_rcvbuf : BufOptName

-- What `getsockopt` reads of each buffer, or that it fails.
abbrev pub Sizes : Type 0
Sizes = BufOptName → Option ℕ

unfoldable pub comm_get_send_buffer_size : Sizes → ℕ
comm_get_send_buffer_size sizes = comm_get_buffer_size (sizes so_sndbuf)

unfoldable pub comm_get_receive_buffer_size : Sizes → ℕ
comm_get_receive_buffer_size sizes = comm_get_buffer_size (sizes so_rcvbuf)

-- from the sizes after the call of `setsockopt` with its result
unfoldable pub comm_set_send_buffer_to : ℤ → Sizes → ℕ
comm_set_send_buffer_to set_result after = comm_set_buffer_to set_result (after so_sndbuf)

unfoldable pub comm_set_receive_buffer_to : ℤ → Sizes → ℕ
comm_set_receive_buffer_to set_result after = comm_set_buffer_to set_result (after so_rcvbuf)

-- from the sizes before and after the loop
unfoldable pub comm_increase_send_buffer_to : (ℕ → ℤ) → Sizes → Sizes → ℕ → Option ℕ
comm_increase_send_buffer_to setsockopt before after requested_size =
    comm_increase_buffer_to setsockopt (before so_sndbuf) (after so_sndbuf) requested_size

unfoldable pub comm_increase_receive_buffer_to : (ℕ → ℤ) → Sizes → Sizes → ℕ → Option ℕ
comm_increase_receive_buffer_to setsockopt before after requested_size =
    comm_increase_buffer_to setsockopt (before so_rcvbuf) (after so_rcvbuf) requested_size

-- `comm_resolve_host6`: what `inet_pton` and `gethostbyname2` find. The address of a name goes to the
-- pointer's own place and not to the structure.
unfoldable pub comm_resolve_host6 : Option ℕ → Option ℕ → ℤ × Option ℕ
comm_resolve_host6 (some addr) by_name = (pos 1, some addr)
comm_resolve_host6 none none = (pos 0, none)
comm_resolve_host6 none (some addr) = (pos 1, none)

-- `comm_make_sockAddr6`: its result, and the structure if all of it was filled in
unfoldable pub comm_make_sock_addr6 : Option (Option ℕ × Option ℕ) → ℕ → ℤ × Option SockAddr
unfolding comm_resolve_host6
comm_make_sock_addr6 none port =
    (pos 28, some (record { sin_addr = some 0; sin_port = swap16 (port % 2 ^ 16) }))
comm_make_sock_addr6 (some (pton, by_name)) port =
    let (ret, addr) = comm_resolve_host6 pton by_name in
    if is_neg ret
    then (pos 0, none)
    else (pos 28, some (record { sin_addr = addr; sin_port = swap16 (port % 2 ^ 16) }))

-- The text of an address: NULL, a text, or a pointer into the frame of the call that returned it.
pub data Text : Type 0 where
  null : Text
  text : List ℕ → Text
  dangling : Text

-- `comm_socket_getIp`, from the address that `getsockname` writes
unfoldable pub comm_socket_get_ip : (ℕ → List ℕ) → Option ℕ → Text
comm_socket_get_ip inet_ntoa none = null
comm_socket_get_ip inet_ntoa (some sin_addr) = text (inet_ntoa sin_addr)

-- `comm_socket_getIp6`; `inet_ntop` succeeds, and writes to a local array.
unfoldable pub comm_socket_get_ip6 : Option ℕ → Text
comm_socket_get_ip6 none = null
comm_socket_get_ip6 (some sin6_addr) = dangling

-- `comm_socket_getPeerIp`, from the address that `getpeername` writes
unfoldable pub comm_socket_get_peer_ip : (ℕ → List ℕ) → Option ℕ → Text
comm_socket_get_peer_ip inet_ntoa none = null
comm_socket_get_peer_ip inet_ntoa (some sin_addr) = text (inet_ntoa sin_addr)

unfoldable pub comm_socket_get_peer_ip6 : Option ℕ → Text
comm_socket_get_peer_ip6 none = null
comm_socket_get_peer_ip6 (some sin6_addr) = dangling
