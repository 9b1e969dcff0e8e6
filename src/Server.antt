-- ===== src/Server.antt =====
-- server/tcp/tcp_server.cpp with the records of server/include/server.h: a server of four sessions that
-- answers each message. The operating system's answers are arguments; a function returns the
-- descriptors that it closed. The back pointer `ourServer`, which nothing reads, is left out.
pub mod Round
pub mod Invariant
pub mod Serving
pub mod Ownership
pub mod Rounds
pub mod Returns
pub mod Hangup
pub mod Echo
use test.Base.{
  ℕ, zero, suc, ◌+◌, ◌*◌, ◌%◌, ◌^◌, Bool, true, false, Option, none, some, List, [], ◌∷◌, ◌++◌,
  ◌==◌, ltb, leb, if◌then◌else◌, length, take, replicate, write_at,
}
use test.Base.Int.{ℤ, pos, negsuc, minus_one, is_neg, is_positive, succ_ℤ, pred_ℤ}
use test.Net.Os.{Errno, is_transient, Given, gave, failed_recv, Poll, Taken}
use test.Net.Tcp.{Wrote, wrote, write_waits, comm_tcp_write}

-- MAX_CLIENT_NUM and the size of both buffers
abbrev pub max_client_num : ℕ
max_client_num = 4

abbrev pub buf_size : ℕ
buf_size = 4096

pub record ClientSession : Type 0 where
  pub sock : ℤ
  pub b_use : ℕ
  pub b_is_active : ℤ
  pub rtcp_keep_alive_time : ℕ
  pub session : ℕ
  pub send_buf : List ℕ
  pub recv_buf : List ℕ

-- `memset(…, 0, sizeof(ClientSession))`
abbrev pub blank : ClientSession
blank = record {
  sock = pos 0;
  b_use = 0;
  b_is_active = pos 0;
  rtcp_keep_alive_time = 0;
  session = 0;
  send_buf = replicate buf_size 0;
  recv_buf = replicate buf_size 0;
}

pub record MyServer : Type 0 where
  pub my_port : ℕ
  pub my_socket : ℤ
  pub client_num : ℤ
  pub client : List ClientSession

-- `our_random64` from the two numbers that `random` gives, each below 2^31
pub our_random64 : ℕ → ℕ → ℕ
our_random64 high low = high * 2 ^ 32 + low

-- the session of a new connection
abbrev pub opened : ℤ → ℕ → ClientSession
opened client_socket id = record blank {
  sock = client_socket;
  session = id;
  b_use = 1;
  b_is_active = pos 1;
}

-- The first session that is not used is replaced; `none` if all are used.
unfoldable pub place : ClientSession → List ClientSession → Option (List ClientSession)
place new [] = none
place new (c ∷ cs) =
    if c.b_use == 0
    then some (new ∷ cs)
    else elim (place new cs) [ none ↦ none | some cs' ↦ some (c ∷ cs') ]

-- `comm_socket_close`
abbrev pub comm_socket_close : ℤ → List ℤ
comm_socket_close socket = if is_neg socket then [] else socket ∷ []

-- the end of the handler: a session for the connection, or a close when all are used
abbrev pub admit : MyServer → ℤ → Option (List ClientSession) → MyServer × List ℤ
admit h client_socket none = (h, comm_socket_close client_socket)
admit h client_socket (some cs) = (record h { client_num = succ_ℤ h.client_num; client = cs }, [])

-- `incomingConnectionHandler`: what `accept` returns, and the two random numbers
unfoldable pub incoming_connection_handler : Option MyServer → ℤ → ℕ → ℕ → Option MyServer × List ℤ
unfolding place our_random64
incoming_connection_handler none client_socket high low = (none, [])
incoming_connection_handler (some h) client_socket high low =
    if is_neg client_socket
    then (some h, [])
    else (let (h', closed) =
          admit h client_socket (place (opened client_socket (our_random64 high low)) h.client) in
        (some h', closed))

-- the string at the begin of a buffer, up to its first zero
abbrev pub c_string : List ℕ → List ℕ
c_string [] = []
c_string (b ∷ bytes) = elim (b == 0) [ true ↦ [] | false ↦ b ∷ c_string bytes ]

-- What `recv`, the clock, the writes and then `errno` say to one client.
pub record ClientAnswer : Type 0 where
  pub recv : Given
  pub time_now : ℕ
  pub writes : List (Poll Taken)
  pub errno : Errno

-- The handler returned, with the session and the bytes that went out; or undefined behaviour (a
-- string that overruns a buffer), or a write that waits.
pub data Handled : Type 0 where
  handled : ClientSession → List ℕ → Handled
  handler_fault : Handled
  handler_waits : Handled

-- "yse,"
abbrev pub yse : List ℕ
yse = 121 ∷ 115 ∷ 101 ∷ 44 ∷ []

abbrev pub mark_inactive : ClientSession → ClientSession
mark_inactive s = record s { b_is_active = minus_one }

-- what the result of `comm_tcp_write` leads to
abbrev pub after_reply : ClientSession → Errno → Wrote → Handled
after_reply s errno (write_waits sent) = handler_waits
after_reply s errno (wrote ret sent os) =
    if is_positive ret
    then handled s sent
    else if is_transient errno
    then handled s sent
    else handled (mark_inactive s) sent

-- the session with the reply in its buffer
abbrev pub with_reply : ClientSession → List ℕ → ClientSession
with_reply s text = record s { send_buf = write_at 0 text s.send_buf }

-- the session with cleared buffers, and with the bytes that were read
abbrev pub with_clear : ClientSession → ClientSession
with_clear s = record s { send_buf = replicate buf_size 0; recv_buf = replicate buf_size 0 }

abbrev pub with_received : ClientSession → ℕ → List ℕ → ClientSession
with_received s time_now bytes = record s {
  send_buf = replicate buf_size 0;
  recv_buf = write_at 0 (take buf_size bytes) (replicate buf_size 0);
  rtcp_keep_alive_time = time_now;
}

-- The reply. `sprintf` overruns `sendBuf` when the string and its four letters do not fit.
unfoldable pub reply : ClientSession → ClientAnswer → Handled
reply s a =
    let text = yse ++ c_string s.recv_buf in
    if ltb (length text) buf_size
    then after_reply (with_reply s text) a.errno (comm_tcp_write s.sock text (length text) a.writes)
    else handler_fault

-- `incomingConnectionHandlerClient`
unfoldable pub incoming_connection_handler_client : ClientSession → ClientAnswer → Given → Handled
unfolding reply
incoming_connection_handler_client s a (failed_recv e) =
    if is_transient e then handled (with_clear s) [] else handled (mark_inactive (with_clear s)) []
incoming_connection_handler_client s a (gave []) = handled (mark_inactive (with_clear s)) []
incoming_connection_handler_client s a (gave (b ∷ bytes)) =
    reply (with_received s a.time_now (b ∷ bytes)) a

-- `pRtspServer->clientNum--; if (clientNum < 0) clientNum = 0`
abbrev pub one_less : ℤ → ℤ
one_less n = if is_neg (pred_ℤ n) then pos 0 else pred_ℤ n

-- `DestroyClientSession` on a session and `clientNum`
unfoldable pub destroy_client_session : ClientSession → ℤ → ClientSession × ℤ × List ℤ
destroy_client_session s client_num =
    if s.b_use == 0
    then (s, client_num, [])
    else (blank, one_less client_num, if is_positive s.sock then comm_socket_close s.sock else [])

-- The sessions for which `test` holds are destroyed, in order.
unfoldable pub destroy_where :
    (ClientSession → Bool) → List ClientSession → ℤ → List ClientSession × ℤ × List ℤ
unfolding destroy_client_session
destroy_where test [] client_num = ([], client_num, [])
destroy_where test (s ∷ cs) client_num =
    let (s', n, closed) =
      if test s then destroy_client_session s client_num else (s, client_num, []) in
    let (cs', n', closed') = destroy_where test cs n in (s' ∷ cs', n', closed ++ closed')

-- `DestroyServer`; the listening socket is forgotten, not closed.
pub destroy_server : Option MyServer → Option MyServer × List ℤ
unfolding destroy_where
destroy_server none = (none, [])
destroy_server (some h) =
    let (cs, n, closed) = destroy_where (λ s. s.b_use == 1) h.client h.client_num in
    (
      some (record h {
        my_socket = if is_positive h.my_socket then pos 0 else h.my_socket;
        client_num = n;
        client = cs;
      }),
      closed,
    )
