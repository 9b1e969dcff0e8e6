-- ===== src/Net/Socket/Ownership.antt =====
-- Who closes a socket that was made.
use test.Base.{
  ℕ, suc, ◌≡◌, ◌≢◌, ◌⊎◌, inl, inr, refl, ap₂, Bool, true, false, not, Option, none, some, List, [],
  ◌∷◌, ltb, if◌then◌else◌, arith, Bool-cases,
}
use test.Base.Int.{ℤ, pos, minus_one, is_neg}
use test.Net.Socket.{
  comm_make_sock_addr, is_zero, SocketType, intf_tcp, intf_other, Answers, comm_isocket_creat,
  bad_port, port_or_zero, port_of, Host, Family, af_inet, af_inet6, with_address, comm_tcp_connect,
  comm_tcp_create, comm_tcp_listen,
}

-- Without a socket nothing is closed; with one the descriptor comes back or is closed.
abbrev pub Leakless : ℤ → ℤ × List ℤ → Type 0
Leakless fd (ret, closed) =
    ((is_neg ret ≡ false) × (ret ≡ fd) × (closed ≡ []))
    ⊎ ((ret ≡ minus_one) × (is_neg fd ≡ false) × (closed ≡ fd ∷ []))
    ⊎ ((ret ≡ minus_one) × (is_neg fd ≡ true) × (closed ≡ []))

-- `comm_isocket_creat` of a TCP or UDP socket: when it fails after the socket was made, it has closed it
-- once, and when it succeeds it returns the open socket; it closes nothing else.
pub comm_isocket_creat-Leakless :
    (socktype : SocketType) (port : ℕ) (os : Answers)
    → socktype ≢ intf_other
    → Leakless os.socket (comm_isocket_creat socktype port os)
unfolding comm_isocket_creat comm_make_sock_addr
comm_isocket_creat-Leakless intf_other port os ne = absurd (ne refl)
comm_isocket_creat-Leakless _ port os ne = elim (Bool-cases (is_neg os.socket)) [
  | inl bad ↦ rw bad (inr (inr (refl, refl, refl)))
  | inr good ↦ elim (Bool-cases (is_neg os.nonblock)) [
    | inl no_block ↦ rw (good, no_block) (inr (inl (refl, refl, refl)))
    | inr block ↦ elim (Bool-cases (is_neg os.reuse)) [
      | inl no_reuse ↦ rw (good, block, no_reuse) (inr (inl (refl, refl, refl)))
      | inr reuse ↦ elim (Bool-cases (is_zero os.bind)) [
        | inl bound ↦ rw (good, block, reuse, bound) (inl (good, refl, refl))
        | inr unbound ↦ rw (good, block, reuse, unbound) (inr (inl (refl, refl, refl)))
      ]
    ]
  ]
]

-- A later step that fails closes the open socket of an earlier one.
Leakless-then :
    (fd : ℤ) (made : ℤ × List ℤ) (fails : Bool)
    → Leakless fd made
    → Leakless fd (
        if is_neg made.0
        then (minus_one, made.1)
        else if fails
        then (minus_one, made.0 ∷ made.1)
        else made)
Leakless-then fd (ret, closed) true (inl (up, same, none_closed)) =
    rw up (inr (inl (refl, is_up, ap₂ ◌∷◌ same none_closed)))
  where
    is_up : is_neg fd ≡ false
    is_up = rw (← same) up
Leakless-then fd (ret, closed) false (inl (up, same, none_closed)) =
    rw up (inl (up, same, none_closed))
Leakless-then fd (ret, closed) fails (inr (inl (e, up, once))) =
    let down : is_neg ret ≡ true = rw e in rw down (inr (inl (refl, up, once)))
Leakless-then fd (ret, closed) fails (inr (inr (e, no_fd, none_closed))) =
    let down : is_neg ret ≡ true = rw e in rw down (inr (inr (refl, no_fd, none_closed)))

tcp_not_other : intf_tcp ≢ intf_other
tcp_not_other = cc

-- With AF_INET the function returned, and the socket has an owner. With AF_INET6 it returned as the failed
-- attempt to make the socket left it; or its behaviour is undefined; or the host was not found, and it
-- returned the same as with AF_INET.
abbrev pub Connects : ℤ → ℤ × List ℤ → Host → (Family → Option (ℤ × List ℤ)) → Type 0
Connects fd made dst_host connect =
    ((r : ℤ × List ℤ) × (connect af_inet ≡ some r) × Leakless fd r)
    × (((is_neg made.0 ≡ true) × (connect af_inet6 ≡ some (minus_one, made.1)))
        ⊎ ((is_neg made.0 ≡ false) × (connect af_inet6 ≡ none))
        ⊎ ((dst_host ≡ some (none, none)) × (connect af_inet6 ≡ connect af_inet)))

-- The rest of a function that has made its socket, or not.
Connects-made :
    (fd : ℤ) (made : ℤ × List ℤ) (dst_host : Host) (rest : ℤ × List ℤ)
    → Leakless fd (if is_neg made.0 then (minus_one, made.1) else rest)
    → Connects fd made dst_host
        (λ af. if is_neg made.0 then some (minus_one, made.1) else with_address af dst_host rest)
Connects-made fd made dst_host rest leakless = by_sign (is_neg made.0) dst_host leakless
  where
    after : Bool → Host → Family → Option (ℤ × List ℤ)
    after b host af = if b then some (minus_one, made.1) else with_address af host rest

    by_sign :
        (b : Bool) (host : Host)
        → Leakless fd (if b then (minus_one, made.1) else rest)
        → ((r : ℤ × List ℤ) × (after b host af_inet ≡ some r) × Leakless fd r)
          × (((b ≡ true) × (after b host af_inet6 ≡ some (minus_one, made.1)))
              ⊎ ((b ≡ false) × (after b host af_inet6 ≡ none))
              ⊎ ((host ≡ some (none, none)) × (after b host af_inet6 ≡ after b host af_inet)))
    by_sign true host kept = (((minus_one, made.1), refl, kept), inl (refl, refl))
    by_sign false none kept = ((rest, refl, kept), inr (inl (refl, refl)))
    by_sign false (some (none, none)) kept = ((rest, refl, kept), inr (inr (refl, refl)))
    by_sign false (some (some addr, by_name)) kept = ((rest, refl, kept), inr (inl (refl, refl)))
    by_sign false (some (none, some addr)) kept = ((rest, refl, kept), inr (inl (refl, refl)))

-- `comm_tcp_connect` with a destination port from 0 to 65536: with AF_INET, whichever step fails, the socket
-- that was made is closed exactly once, and on success it is returned open; with AF_INET6 its behaviour
-- is undefined once the socket is made, but for a host that is not found.
pub comm_tcp_connect-Leakless :
    (src_port : ℤ) (dst_host : Host) (dst_port : ℤ) (os : Answers) (connected : ℤ)
    → bad_port dst_port ≡ false
    → Connects os.socket
        (comm_isocket_creat intf_tcp (port_or_zero src_port) os)
        dst_host
        (λ af. comm_tcp_connect af src_port dst_host dst_port os connected)
unfolding comm_tcp_connect
comm_tcp_connect-Leakless src_port dst_host dst_port os connected good = rw good (
    Connects-made os.socket _ dst_host _
      (elim (Bool-cases (is_zero (comm_make_sock_addr dst_host (port_of dst_port)).0)) [
        | inl zero_addr ↦ rw zero_addr (Leakless-then os.socket _ true made)
        | inr addr ↦ rw addr (Leakless-then os.socket _ (not (is_zero connected)) made)
      ]))
  where
    made : Leakless os.socket (comm_isocket_creat intf_tcp (port_or_zero src_port) os)
    made = comm_isocket_creat-Leakless intf_tcp (port_or_zero src_port) os tcp_not_other

-- `comm_tcp_create` with a port from 0 to 65536: whichever step fails, the socket that was made is closed
-- exactly once, and on success it is returned open.
pub comm_tcp_create-Leakless :
    (i_port : ℤ) (os : Answers) (listened : ℤ)
    → bad_port i_port ≡ false
    → Leakless os.socket (comm_tcp_create i_port os listened)
unfolding comm_tcp_create
comm_tcp_create-Leakless i_port os listened good = rw good (
    Leakless-then os.socket _ (not (is_zero listened))
      (comm_isocket_creat-Leakless intf_tcp (port_of i_port) os tcp_not_other))

-- `comm_tcp_listen` without a listening socket, when the socket can be made as descriptor `suc fd` and
-- `listen` fails: it closes the socket and returns -1, and every later call returns the closed
-- descriptor as the listening socket.
pub comm_tcp_listen-stale :
    (fd i_port next_port : ℕ) (os next_os : Answers) (next_listened : ℤ)
    → ltb 65536 i_port ≡ false
    → comm_isocket_creat intf_tcp i_port os ≡ (pos (suc fd), [])
    → (comm_tcp_listen minus_one (pos i_port) os minus_one
        ≡ (minus_one, pos (suc fd), pos (suc fd) ∷ []))
      × (comm_tcp_listen (pos (suc fd)) (pos next_port) next_os next_listened
          ≡ (pos (suc fd), pos (suc fd), []))
unfolding comm_tcp_listen
comm_tcp_listen-stale fd i_port next_port os next_os next_listened good made = (
  rw (good, made) refl,
  (let positive : ltb 0 (suc fd) ≡ true = ground arith in rw positive refl),
)
