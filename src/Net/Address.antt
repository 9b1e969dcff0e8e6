-- ===== src/Net/Address.antt =====
-- Ports and addresses in common/commonsocket.c. An address in memory is a number in network order.
use test.Base.{
  ℕ, ◌+◌, ◌*◌, ◌<◌, ◌≡◌, Bool, false, ◌&&◌, ◌||◌, not, Option, none, some, ◌==◌, ltb, leb, arith,
}
use test.Net.Socket.{swap16, swap32}

-- `comm_socket_getPort`, `comm_socket_getPort6` and `comm_socket_getPeerPort`, from the port that
-- `getsockname` or `getpeername` writes
unfoldable pub comm_socket_get_port : Option ℕ → ℕ
comm_socket_get_port none = 0
comm_socket_get_port (some sin_port) = swap16 sin_port

unfoldable pub comm_socket_get_port6 : Option ℕ → ℕ
comm_socket_get_port6 none = 0
comm_socket_get_port6 (some sin6_port) = swap16 sin6_port

unfoldable pub comm_socket_get_peer_port : Option ℕ → ℕ
comm_socket_get_peer_port none = 0
comm_socket_get_peer_port (some sin_port) = swap16 sin_port

-- `comm_socket_badAddress`
unfoldable pub comm_socket_bad_address : ℕ → Bool
comm_socket_bad_address addr =
    let h_addr = swap32 addr in (h_addr == 0x7f000001) || ((h_addr == 0) || (h_addr == 0xffffffff))

-- `comm_sMulticastAddress`, from what `inet_aton` writes
unfoldable pub comm_s_multicast_address : Option ℕ → Bool
comm_s_multicast_address none = false
comm_s_multicast_address (some s_addr) =
    let address_in_host_order = swap32 s_addr in
    ltb 0xe00000ff address_in_host_order && leb address_in_host_order 0xefffffff

-- the address a.b.c.d in network order, on a little-endian machine
abbrev pub s_addr_of : ℕ → ℕ → ℕ → ℕ → ℕ
s_addr_of a b c d = a + b * 256 + c * 65536 + d * 16777216

swap32-s_addr_of :
    (a b c d : ℕ)
    → a < 256
    → b < 256
    → c < 256
    → d < 256
    → swap32 (s_addr_of a b c d) ≡ a * 16777216 + b * 65536 + c * 256 + d
swap32-s_addr_of a b c d ha hb hc hd = omega arith

-- `comm_sMulticastAddress` of a.b.c.d holds for 224.0.1.0 to 239.255.255.255: a is from 224 to 239, and
-- the address is not one of 224.0.0.d.
pub comm_s_multicast_address-range :
    (a b c d : ℕ)
    → a < 256
    → b < 256
    → c < 256
    → d < 256
    → comm_s_multicast_address (some (s_addr_of a b c d))
      ≡ (leb 224 a && (leb a 239 && not ((a == 224) && ((b == 0) && (c == 0)))))
unfolding comm_s_multicast_address
comm_s_multicast_address-range a b c d ha hb hc hd =
    let host = swap32-s_addr_of a b c d ha hb hc hd in rw host (ground arith)
