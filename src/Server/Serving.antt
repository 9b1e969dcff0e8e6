-- ===== src/Server/Serving.antt =====
-- What the handlers do to the sessions in the loop over the ready ones.
use test.Base.{
  ℕ, suc, ◌+◌, ◌≡◌, subst, ◌⊎◌, ◌∙◌, inl, inr, refl, sym, ap, ap₂, false, List, [], ◌∷◌, ◌++◌, ◌==◌,
  if◌then◌else◌, ltb, length, All, arith, Bool-cases,
}
use test.Base.Int.{ℤ, pos, minus_one, is_positive}
use test.Net.Os.{Errno, is_transient, Given, gave, failed_recv}
use test.Net.Tcp.{Wrote, wrote, write_waits, comm_tcp_write}
use test.Server.{
  ClientSession, opened, ClientAnswer, Handled, handled, handler_fault, handler_waits, reply,
  with_reply, with_received, c_string, yse, buf_size, after_reply,
  incoming_connection_handler_client,
}
use test.Server.Round.{
  merged, Answers, serve_one, Served, served, serve_fault, serve_waits, and_serve, serve_from,
  is_set,
}
use test.Server.Invariant.{IsOpen, IsSlot, IsServed}

-- A handler that returns leaves the descriptor and the use, and at most marks the session.
abbrev pub Keeps : ClientSession → Handled → Type 0
Keeps s handler_fault = Unit
Keeps s handler_waits = Unit
Keeps s (handled s' sent) =
    (s'.sock ≡ s.sock)
    × (s'.b_use ≡ s.b_use)
    × ((s'.b_is_active ≡ s.b_is_active) ⊎ (s'.b_is_active ≡ minus_one))

after_reply-Keeps : (s : ClientSession) (e : Errno) (w : Wrote) → Keeps s (after_reply s e w)
after_reply-Keeps s e (write_waits sent) = tt
after_reply-Keeps s e (wrote ret sent os) = elim (Bool-cases (is_positive ret)) [
  | inl all ↦ rw all (refl, refl, inl refl)
  | inr none_sent ↦ elim (Bool-cases (is_transient e)) [
    | inl again ↦ rw (none_sent, again) (refl, refl, inl refl)
    | inr lost ↦ rw (none_sent, lost) (refl, refl, inr refl)
  ]
]

reply-Keeps : (s : ClientSession) (a : ClientAnswer) → Keeps s (reply s a)
unfolding reply
reply-Keeps s a =
    let text = yse ++ c_string s.recv_buf in
    elim (Bool-cases (ltb (length text) buf_size)) [
      | inl fits ↦ rw fits (
          after_reply-Keeps (with_reply s text) a.errno
            (comm_tcp_write s.sock text (length text) a.writes))
      | inr long ↦ rw long tt
    ]

pub incoming_connection_handler_client-Keeps :
    (s : ClientSession) (a : ClientAnswer) (g : Given)
    → Keeps s (incoming_connection_handler_client s a g)
unfolding incoming_connection_handler_client
incoming_connection_handler_client-Keeps s a (gave []) = (refl, refl, inr refl)
incoming_connection_handler_client-Keeps s a (gave (b ∷ bytes)) =
    reply-Keeps (with_received s a.time_now (b ∷ bytes)) a
incoming_connection_handler_client-Keeps s a (failed_recv e) = elim (Bool-cases (is_transient e)) [
  | inl again ↦ rw again (refl, refl, inl refl)
  | inr lost ↦ rw lost (refl, refl, inr refl)
]

-- What the sessions are after the loop over the ready ones.
abbrev pub KeepsAll : List ClientSession → Served → Type 0
KeepsAll cs serve_fault = Unit
KeepsAll cs serve_waits = Unit
KeepsAll cs (served cs' sents) =
    (length cs' ≡ length cs) × (merged cs' ≡ merged cs) × All IsServed cs'

-- the same for one session
abbrev pub ServedOne : ClientSession → Handled → Type 0
ServedOne s handler_fault = Unit
ServedOne s handler_waits = Unit
ServedOne s (handled s' sent) = (s'.sock ≡ s.sock) × (s'.b_use ≡ s.b_use) × IsServed s'

ServedOne-Keeps :
    (s : ClientSession) (u : Handled) → IsOpen s → s.b_is_active ≡ pos 1 → Keeps s u → ServedOne s u
ServedOne-Keeps s handler_fault opened active k = tt
ServedOne-Keeps s handler_waits opened active k = tt
ServedOne-Keeps s (handled s' sent) (in_use, (fd, at_fd)) active (sock, use_kept, inl same) =
    (sock, use_kept, inr ((use_kept ∙ in_use, (fd, sock ∙ at_fd)), inl (same ∙ active)))
ServedOne-Keeps s (handled s' sent) (in_use, (fd, at_fd)) active (sock, use_kept, inr marked) =
    (sock, use_kept, inr ((use_kept ∙ in_use, (fd, sock ∙ at_fd)), inr marked))

pub serve_one-ServedOne :
    (set : List ℤ) (a : Answers) (i : ℕ) (s : ClientSession)
    → IsSlot s
    → ServedOne s (serve_one set a i s)
unfolding serve_one
serve_one-ServedOne set a i s (inl free) =
    subst (λ t. ServedOne t (serve_one set a i t)) (sym free) (refl, refl, inl refl)
serve_one-ServedOne set a i s (inr (is_open, active)) =
    let used : (s.b_use == 0) ≡ false = ground (arith, is_open.0) in
    elim (Bool-cases (is_set set a s.sock)) [
      | inl ready ↦
          rw (used, ready)
            (ServedOne-Keeps s _ is_open active
              (incoming_connection_handler_client-Keeps s (a.clients i) (a.clients i).recv))
      | inr quiet ↦ rw (used, quiet) (refl, refl, inr (is_open, inl active))
    ]

KeepsAll-cons :
    (s : ClientSession) (cs : List ClientSession) (u : Handled) (v : Served)
    → ServedOne s u
    → KeepsAll cs v
    → KeepsAll (s ∷ cs) (and_serve u v)
KeepsAll-cons s cs handler_fault v h k = tt
KeepsAll-cons s cs handler_waits v h k = tt
KeepsAll-cons s cs (handled s' sent) serve_fault h k = tt
KeepsAll-cons s cs (handled s' sent) serve_waits h k = tt
KeepsAll-cons s cs (handled s' sent) (served cs' sents) (sock, use_kept, this) (len, same, good) = (
  ap suc len,
  ap₂ (λ (fd : ℤ) (n : ℕ). if n == 0 then merged cs' else fd ∷ merged cs') sock use_kept
      ∙ ap (λ t. if s.b_use == 0 then t else s.sock ∷ t) same,
  (this, good),
)

pub serve_from-KeepsAll :
    (set : List ℤ) (a : Answers) (i : ℕ) (cs : List ClientSession)
    → All IsSlot cs
    → KeepsAll cs (serve_from set a i cs)
unfolding serve_from
serve_from-KeepsAll set a i [] good = (refl, refl, tt)
serve_from-KeepsAll set a i (s ∷ cs) good =
    KeepsAll-cons s cs (serve_one set a i s) (serve_from set a (i + 1) cs)
      (serve_one-ServedOne set a i s good.0) (serve_from-KeepsAll set a (i + 1) cs good.1)
