-- ===== src/Net/Socket.antt =====
-- Making sockets: common/commonsocket.c and the connecting and listening functions of
-- common/tcpsocket.c. A function returns its result and the descriptors that it closed, in order.
pub mod Ownership
use Prim.Native.Nat.{bit_and}
use test.Base.{
  ℕ, zero, suc, ◌+◌, ◌*◌, ◌/◌, ◌%◌, ◌^◌, Bool, true, false, ◌&&◌, ◌||◌, not, Option, none, some,
  List, [], ◌∷◌, ◌==◌, ltb, leb, if◌then◌else◌,
}
use test.Base.Int.{ℤ, pos, negsuc, minus_one, is_neg, is_positive}

-- `ntohs` and `htons`, `ntohl` and `htonl` on a little-endian machine
abbrev pub swap16 : ℕ → ℕ
swap16 x = x % 256 * 256 + x / 256 % 256

abbrev pub swap32 : ℕ → ℕ
swap32 x = swap16 (x % 2 ^ 16) * 2 ^ 16 + swap16 (x / 2 ^ 16 % 2 ^ 16)

-- `comm_resolve_host`: what `inet_aton` and `gethostbyname` find. The result, and the address that is
-- written if there is one.
pub comm_resolve_host : Option ℕ → Option ℕ → ℤ × Option ℕ
comm_resolve_host (some addr) by_name = (pos 1, some addr)
comm_resolve_host none none = (pos 0, none)
comm_resolve_host none (some addr) = (pos 1, some addr)

-- a `sockaddr_in`; an address that was never written is `none`
pub record SockAddr : Type 0 where
  pub sin_addr : Option ℕ
  pub sin_port : ℕ

-- the answers of the resolver for a host name that is not NULL
abbrev pub Host : Type 0
Host = Option (Option ℕ × Option ℕ)

-- `comm_make_sockAddr`: its result, and the structure if all of it was filled in
unfoldable pub comm_make_sock_addr : Host → ℕ → ℤ × Option SockAddr
unfolding comm_resolve_host
comm_make_sock_addr none port =
    (pos 16, some (record { sin_addr = some 0; sin_port = swap16 (port % 2 ^ 16) }))
comm_make_sock_addr (some (aton, by_name)) port =
    let (ret, addr) = comm_resolve_host aton by_name in
    if is_neg ret
    then (pos 0, none)
    else (pos 16, some (record { sin_addr = addr; sin_port = swap16 (port % 2 ^ 16) }))

-- the returned value is 0
abbrev pub is_zero : ℤ → Bool
is_zero (pos n) = n == 0
is_zero (negsuc n) = false

pub data SocketType : Type 0 where
  intf_tcp intf_udp intf_other : SocketType

-- What the system answers while a socket is made.
pub record Answers : Type 0 where
  pub socket : ℤ
  pub nonblock : ℤ
  pub reuse : ℤ
  pub bind : ℤ

-- `comm_isocket_creat` (for AF_INET, and for AF_INET6, where only the size of the address differs)
unfoldable pub comm_isocket_creat : SocketType → ℕ → Answers → ℤ × List ℤ
unfolding comm_make_sock_addr
comm_isocket_creat intf_other port os = (minus_one, [])
comm_isocket_creat socktype port os =
    if is_neg os.socket
    then (minus_one, [])
    else if is_neg os.nonblock
    then (minus_one, os.socket ∷ [])
    else if is_neg os.reuse
    then (minus_one, os.socket ∷ [])
    else if is_zero (comm_make_sock_addr none port).0
    then (minus_one, os.socket ∷ [])
    else if not (is_zero os.bind)
    then (minus_one, os.socket ∷ [])
    else (os.socket, [])

-- `port < 0 || port > 65536`
abbrev pub bad_port : ℤ → Bool
bad_port (pos n) = ltb 65536 n
bad_port (negsuc n) = true

abbrev pub port_or_zero : ℤ → ℕ
port_or_zero (pos n) = if ltb 65536 n then 0 else n
port_or_zero (negsuc n) = 0

abbrev pub port_of : ℤ → ℕ
port_of (pos n) = n
port_of (negsuc n) = 0

-- the parameter `af`
pub data Family : Type 0 where
  af_inet af_inet6 : Family

-- What follows the call of `comm_make_sockAddr` or `comm_make_sockAddr6`, neither of which returns 0. With
-- AF_INET6, an address goes behind the 16 bytes of `struct sockaddr addr`, and that of a name to the place
-- of a pointer: undefined behaviour. Only a host that is not found leaves `addr` without an address.
abbrev pub with_address {ℓ} : {A : Type ℓ} → Family → Host → A → Option A
with_address af_inet dst_host next = some next
with_address af_inet6 none next = none
with_address af_inet6 (some (none, none)) next = some next
with_address af_inet6 (some (some addr, by_name)) next = none
with_address af_inet6 (some (none, some addr)) next = none

-- `comm_tcp_connect`; `connected` is what `connect` returns.
unfoldable pub comm_tcp_connect : Family → ℤ → Host → ℤ → Answers → ℤ → Option (ℤ × List ℤ)
unfolding comm_isocket_creat
comm_tcp_connect af src_port dst_host dst_port os connected =
    let made = comm_isocket_creat intf_tcp (port_or_zero src_port) os in
    if bad_port dst_port
    then some (minus_one, [])
    else if is_neg made.0
    then some (minus_one, made.1)
    else with_address af dst_host (
        if is_zero (comm_make_sock_addr dst_host (port_of dst_port)).0
        then (minus_one, made.0 ∷ made.1)
        else if not (is_zero connected)
        then (minus_one, made.0 ∷ made.1)
        else made)

-- How a `connect` that does not block goes on: done at once, failed with an `errno` that ends it, or in
-- progress; then `select` finds the socket ready or not, and `SO_ERROR` is 0 or not.
pub data Progress : Type 0 where
  at_once : Progress
  hard_error : Progress
  not_ready : Progress
  ready_with : ℕ → Progress

-- the end of `comm_tcp_nobolock_connect`, from `connect` on
abbrev pub after_connect : ℤ → List ℤ → Progress → ℤ × List ℤ
after_connect fd closed at_once = (fd, closed)
after_connect fd closed hard_error = (minus_one, fd ∷ closed)
after_connect fd closed not_ready = (minus_one, fd ∷ closed)
after_connect fd closed (ready_with so_error) =
    if so_error == 0 then (fd, closed) else (minus_one, fd ∷ closed)

-- `comm_tcp_nobolock_connect`
pub comm_tcp_noblock_connect : Family → ℤ → Host → ℤ → Answers → Progress → Option (ℤ × List ℤ)
unfolding comm_isocket_creat
comm_tcp_noblock_connect af src_port dst_host dst_port os progress =
    let made = comm_isocket_creat intf_tcp (port_or_zero src_port) os in
    if bad_port dst_port
    then some (minus_one, [])
    else if is_neg made.0
    then some (minus_one, made.1)
    else with_address af dst_host (
        if is_zero (comm_make_sock_addr dst_host (port_of dst_port)).0
        then (minus_one, made.0 ∷ made.1)
        else after_connect made.0 made.1 progress)

-- `comm_tcp_create`; `listened` is what `listen` returns.
pub comm_tcp_create : ℤ → Answers → ℤ → ℤ × List ℤ
unfolding comm_isocket_creat
comm_tcp_create i_port os listened =
    let made = comm_isocket_creat intf_tcp (port_of i_port) os in
    if bad_port i_port
    then (minus_one, [])
    else if is_neg made.0
    then (minus_one, made.1)
    else if not (is_zero listened)
    then (minus_one, made.0 ∷ made.1)
    else made

-- `comm_tcp_listen` with the static `g_RtspSocket`: the result, the new value, what was closed
pub comm_tcp_listen : ℤ → ℤ → Answers → ℤ → ℤ × ℤ × List ℤ
unfolding comm_isocket_creat
comm_tcp_listen g_rtsp_socket i_port os listened =
    let made = comm_isocket_creat intf_tcp (port_of i_port) os in
    if is_positive g_rtsp_socket
    then (g_rtsp_socket, g_rtsp_socket, [])
    else if bad_port i_port
    then (minus_one, g_rtsp_socket, [])
    else if is_neg made.0
    then (minus_one, made.0, made.1)
    else if not (is_zero listened)
    then (minus_one, made.0, made.0 ∷ made.1)
    else (made.0, made.0, made.1)
