-- ===== src/Server/Echo.antt =====
-- What a client gets back.
use test.Base.{
  ℕ, zero, suc, ◌≤◌, ◌<◌, ◌≡◌, subst, ◌≢◌, ◌⊎◌, ◌∙◌, inl, inr, refl, sym, ap, true, false, List, [],
  ◌∷◌, ◌++◌, ◌==◌, if◌then◌else◌, ltb, length, take, take_all, replicate, write_at, All, arith,
  Bool-cases,
}
use test.Base.Int.{ℤ, pos, minus_one, is_positive}
use test.Net.Os.{Errno, is_transient, gave}
use test.Net.Tcp.{Wrote, wrote, write_waits, comm_tcp_write}
use test.Net.Tcp.Write.{IsWrite, comm_tcp_write-IsWrite}
use test.Server.{
  ClientSession, buf_size, c_string, yse, ClientAnswer, Handled, handled, handler_fault,
  handler_waits, with_reply, with_received, after_reply, reply, incoming_connection_handler_client,
}

-- the string of a buffer of zeroes that bytes other than 0 were copied to
c_string-write_at :
    (m : ℕ) (bytes : List ℕ)
    → All (λ b. b ≢ 0) bytes
    → length bytes ≤ m
    → c_string (write_at 0 bytes (replicate m 0)) ≡ bytes
c_string-write_at zero [] nonzero fits = refl
c_string-write_at (suc m) [] nonzero fits = refl
c_string-write_at zero (b ∷ bytes) nonzero fits = absurd (omega arith)
c_string-write_at (suc m) (b ∷ bytes) nonzero fits =
    let letter : (b == 0) ≡ false = ground (arith, nonzero.0) in
    rw (letter, c_string) (ap (λ t. b ∷ t) (c_string-write_at m bytes nonzero.1 (omega arith)))

-- The whole reply went out and the session goes on as before; or a part did, and the session is marked
-- unless `errno` is EINTR or EAGAIN. Undefined behaviour is for messages of 4092 bytes and more, and for
-- all of them.
abbrev pub Echoes : ClientSession → List ℕ → Errno → Handled → Type 0
Echoes s bytes e handler_fault = 4092 ≤ length bytes
Echoes s bytes e handler_waits = length bytes < 4092
Echoes s bytes e (handled s' sent) =
    (length bytes < 4092)
    × (((sent ≡ yse ++ bytes) × (s'.b_is_active ≡ s.b_is_active))
        ⊎ ((sent ≡ take (length sent) (yse ++ bytes))
            × (s'.b_is_active ≡ (if is_transient e then s.b_is_active else minus_one))))

after_reply-Echoes :
    (s : ClientSession) (bytes : List ℕ) (e : Errno) (w : Wrote)
    → length bytes < 4092
    → IsWrite (yse ++ bytes) w
    → Echoes s bytes e (after_reply s e w)
after_reply-Echoes s bytes e (write_waits sent) short h = short
after_reply-Echoes s bytes e (wrote ret sent os) short (part, inl (all, whole)) =
    let positive : is_positive ret ≡ true = ap is_positive all ∙ (ground arith) in
    rw positive (short, inl (whole, refl))
after_reply-Echoes s bytes e (wrote ret sent os) short (part, inr failed) =
    let not_positive : is_positive ret ≡ false = failing ret failed in
    elim (Bool-cases (is_transient e)) [
      | inl again ↦
          let same : (if is_transient e then s.b_is_active else minus_one) ≡ s.b_is_active =
            rw again in
          rw (not_positive, again) (short, inr (part, sym same))
      | inr lost ↦
          let marked : (if is_transient e then s.b_is_active else minus_one) ≡ minus_one =
            rw lost in
          rw (not_positive, lost) (short, inr (part, sym marked))
    ]
  where
    failing : (r : ℤ) → (r ≡ pos 0) ⊎ (r ≡ minus_one) → is_positive r ≡ false
    failing r (inl z) = ap is_positive z
    failing r (inr m) = ap is_positive m

reply-Echoes :
    (s : ClientSession) (a : ClientAnswer) (bytes : List ℕ)
    → c_string s.recv_buf ≡ bytes
    → Echoes s bytes a.errno (reply s a)
unfolding reply
reply-Echoes s a bytes e =
    subst (λ (t : List ℕ). Echoes s t a.errno (reply s a)) e
      (elim (Bool-cases (ltb (length (yse ++ c_string s.recv_buf)) buf_size)) [
        | inl fits ↦
            let text = yse ++ c_string s.recv_buf in
            rw fits (
              after_reply-Echoes (with_reply s text) (c_string s.recv_buf) a.errno
                (comm_tcp_write s.sock text (length text) a.writes) (ground arith)
                (comm_tcp_write-IsWrite s.sock text a.writes))
        | inr long ↦ rw long (ground arith)
      ])

-- `incomingConnectionHandlerClient` on a message of 1 to 4096 bytes other than 0: with 4092 or more the
-- reply overruns its buffer. With fewer it returns or waits in the write; when it returns, what went
-- out is "yse," with the message, and the session goes on, or a first part of that, and the session is
-- marked unless `errno` says to try again.
pub incoming_connection_handler_client-Echoes :
    (s : ClientSession) (a : ClientAnswer) (b : ℕ) (bytes : List ℕ)
    → All (λ c. c ≢ 0) (b ∷ bytes)
    → length (b ∷ bytes) ≤ 4096
    → Echoes s (b ∷ bytes) a.errno (incoming_connection_handler_client s a (gave (b ∷ bytes)))
unfolding incoming_connection_handler_client
incoming_connection_handler_client-Echoes s a b bytes nonzero fits =
    reply-Echoes (with_received s a.time_now (b ∷ bytes)) a (b ∷ bytes) (
      ap (λ t. c_string (write_at 0 t (replicate buf_size 0))) (take_all buf_size (b ∷ bytes) fits)
      ∙ c_string-write_at buf_size (b ∷ bytes) nonzero fits)
