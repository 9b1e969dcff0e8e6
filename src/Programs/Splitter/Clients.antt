-- ===== src/Programs/Splitter/Clients.antt =====
-- What the two clients send of a file that fits their buffer.
use test.Base.{
  All, ℕ, ◌≤◌, ◌<◌, ◌≡◌, ◌≢◌, subst, ◌∙◌, refl, sym, ap, some, List, [], ◌∷◌, ◌++◌, length, arith,
  append_assoc, append-nil, false, Bool-cases, inl, inr,
}
use test.Rtp.Fragments.{start_code}
use test.Rtp.RoundTrip.{deliver, Link, h264nal2rtp_send-deliver}
use test.Programs.Splitter.{
  Run, going, returned, spent, max_buf, SendTo, send_datagram, multicast_client, unless_failed,
  send_unit, udp_client,
}
use test.Programs.Splitter.Pieces.{concat, BeginsZero, IsCoded, NoInner, Piece, Sends}
use test.Programs.Splitter.Whole.{coded, EndsNonzero, repeated, Whole, passes-Whole}

-- Each of the pieces holds at most one start code, at its begin, and has it there if `Good` holds.
abbrev pub Units : Type 0 → List (List ℕ) → Type 0
Units Good ps = (Good → All IsCoded ps) × All NoInner ps

-- The datagrams are the pieces.
abbrev IsSent : Type 0 → List (List ℕ) → List (List ℕ) → Type 0
IsSent Good ps s = (s ≡ ps) × Units Good ps

-- `sendto` does not take the piece after those that it took.
abbrev Refused : SendTo → List (List ℕ) → List ℕ → Type 0
Refused sendto ps p = (sendto (length ps) p ≡ false) × BeginsZero p

All-snoc :
    (P : List ℕ → Type 0) (ps : List (List ℕ)) (p : List ℕ)
    → All P ps
    → P p
    → All P (ps ++ (p ∷ []))
All-snoc P [] p all last = (last, tt)
All-snoc P (q ∷ ps) p all last = (all.0, All-snoc P ps p all.1 last)

Units-snoc :
    (Good : Type 0) (ps : List (List ℕ)) (p : List ℕ)
    → Units Good ps
    → Piece Good p
    → Units Good (ps ++ (p ∷ []))
Units-snoc Good ps p units piece = (
  λ good. All-snoc IsCoded ps p (units.0 good) (piece.1 good),
  All-snoc NoInner ps p units.1 piece.2,
)

send_datagram-Sends :
    (sendto : SendTo) (Good : Type 0)
    → Sends Good (Refused sendto) (IsSent Good) (send_datagram sendto)
send_datagram-Sends sendto Good ps p s piece (same, units) =
    elim (Bool-cases (sendto (length s) p)) [
      | inl takes ↦ inl (
        s ++ (p ∷ []),
        rw takes refl,
        (ap (λ t. t ++ (p ∷ [])) same, Units-snoc Good ps p units piece),
      )
      | inr refuses ↦
          inr (rw refuses refl, (ap (λ t. sendto (length t) p) (sym same) ∙ refuses, piece.0))
    ]

-- the datagrams that a run of client/multicast/client.c sent
abbrev pub posted : Run (List ℕ × ℕ) (List (List ℕ)) → List (List ℕ)
posted spent = []
posted (returned datagrams) = datagrams
posted (going kept datagrams) = datagrams

-- All passes ended with nothing kept in the buffer, and the payloads of the datagrams, one after another, are
-- these bytes; or the program returned, since `sendto` did not take a further piece, and the bytes begin
-- with the payloads and this piece.
abbrev pub Posted : SendTo → List ℕ → Run (List ℕ × ℕ) (List (List ℕ)) → Type 0
Posted sendto bytes spent = ⊥
Posted sendto bytes (going (mem', n_last) datagrams) = (n_last ≡ 0) × (concat datagrams ≡ bytes)
Posted sendto bytes (returned datagrams) =
    (p : List ℕ) × (left : List ℕ) × (sendto (length datagrams) p ≡ false)
    × BeginsZero p
    × (concat datagrams ++ (p ++ left) ≡ bytes)

-- client/multicast/client.c on a file that begins with a start code and is shorter than its buffer: a
-- number `k` of passes end, or the program returns at the first datagram that `sendto` does not take; the
-- payloads of the datagrams, one after another, are the file `k` times, or what it begins with. No datagram
-- holds a start code behind its begin; each begins with one if the last byte of the file is not 0.
pub multicast_client-file :
    (sendto : SendTo) (k : ℕ) (rest mem : List ℕ)
    → length (coded rest) < max_buf
    → max_buf ≤ length mem
    → let r = multicast_client sendto k (coded rest) mem 0 [] in
      Posted sendto (repeated k (coded rest)) r × Units (EndsNonzero (coded rest)) (posted r)
unfolding multicast_client
multicast_client-file sendto k rest mem short fits = conclude _ (
    passes-Whole max_buf (send_datagram sendto) (send_datagram sendto) Good (Refused sendto)
      (IsSent Good) (send_datagram-Sends sendto Good) (send_datagram-Sends sendto Good) k rest mem
      [] [] short fits (λ ends. ends) (refl, ((λ _. tt), tt)))
  where
    Good : Type 0
    Good = EndsNonzero (coded rest)

    conclude :
        (r : Run (List ℕ × ℕ) (List (List ℕ)))
        → Whole max_buf
            (send_datagram sendto)
            (send_datagram sendto)
            Good
            (Refused sendto)
            (IsSent Good)
            (send_datagram-Sends sendto Good)
            (send_datagram-Sends sendto Good)
            mem
            (repeated k (coded rest))
            []
            r
        → Posted sendto (repeated k (coded rest)) r × Units Good (posted r)
    conclude spent w = absurd w
    conclude (returned s) (qs, p, left, (refused, begins), (same, units), joined) = (
      (
        p,
        left,
        ap (λ t. sendto (length t) p) same ∙ refused,
        begins,
        ap (λ t. concat t ++ (p ++ left)) same ∙ joined,
      ),
      subst (Units Good) (sym same) units,
    )
    conclude (going (mem', n_last) s) (empty, size, (qs, (same, units), joined)) =
        ((empty, ap concat same ∙ joined), subst (Units Good) (sym same) units)

-- what a receiver writes for units that still have their start codes
abbrev pub doubled : List (List ℕ) → List ℕ
doubled [] = []
doubled (p ∷ ps) = start_code ++ (p ++ doubled ps)

doubled-append :
    (ps : List (List ℕ)) (p : List ℕ) → doubled (ps ++ (p ∷ [])) ≡ doubled ps ++ (start_code ++ p)
doubled-append [] p = ap (λ t. start_code ++ t) (append-nil p)
doubled-append (q ∷ ps) p =
    ap (λ t. start_code ++ (q ++ t)) (doubled-append ps p)
    ∙ ap (λ t. start_code ++ t) (sym (append_assoc q (doubled ps) (start_code ++ p)))
    ∙ sym (append_assoc start_code (q ++ doubled ps) (start_code ++ p))

abbrev Doubled : List (List ℕ) → Link → Type 0
Doubled ps s = (s.out ≡ some (doubled ps)) × Units (Unit {0}) ps

-- No unit is refused.
abbrev Never : List (List ℕ) → List ℕ → Type 0
Never ps p = ⊥

send_unit-Sends :
    (framerate : ℕ) → framerate ≢ 0 → Sends (Unit {0}) Never Doubled (send_unit deliver framerate)
send_unit-Sends framerate running ps p s ((tail, e), coded_piece, inner) (out, units) =
    let (s', sent, out') =
      h264nal2rtp_send-deliver 0 tail (doubled ps) (omega arith) framerate s running
        (λ _ zero_type. omega (arith, zero_type)) out in
    inl (
      s',
      subst (λ t. send_unit deliver framerate t s ≡ some s') (sym e) (ap unless_failed sent),
      (
        out'
            ∙ ap some (
                append_assoc (doubled ps) start_code (0 ∷ tail)
                ∙ ap (λ t. doubled ps ++ (start_code ++ t)) (sym e)
                ∙ sym (doubled-append ps p)),
        Units-snoc Unit ps p units ((tail, e), coded_piece, inner),
      ),
    )

-- client/udp/client.c on a file that begins with a start code, does not end with a byte 0 and is shorter than
-- its buffer, over a link that loses nothing, with a socket other than 0: a number `k` of passes end, no
-- call fails, and the receiver's file has a start code before each unit; each unit begins with its own
-- start code and holds no further one; and the units one after another are the file `k` times.
pub udp_client-doubles :
    (socket k : ℕ) (rest mem : List ℕ) (s : Link)
    → socket ≢ 0
    → length (coded rest) < max_buf
    → max_buf ≤ length mem
    → EndsNonzero (coded rest)
    → s.out ≡ some []
    → (mem' : List ℕ) × (s' : Link) × (units : List (List ℕ)) × (udp_client deliver socket k
          (coded rest)
          mem
          0
          s
        ≡ going (mem', 0) s')
      × (s'.out ≡ some (doubled units))
      × All IsCoded units
      × All NoInner units
      × (concat units ≡ repeated k (coded rest))
unfolding udp_client
udp_client-doubles socket k rest mem s open_socket short fits ends new = conclude _ (
    passes-Whole max_buf (send_unit deliver socket) (send_unit deliver 25) Unit Never Doubled
      (send_unit-Sends socket open_socket) (send_unit-Sends 25 (λ e. omega (arith, e))) k rest mem
      [] s short fits (λ _. ends) (new, ((λ _. tt), tt)))
  where
    conclude :
        (r : Run (List ℕ × ℕ) Link)
        → Whole max_buf
            (send_unit deliver socket)
            (send_unit deliver 25)
            Unit
            Never
            Doubled
            (send_unit-Sends socket open_socket)
            (send_unit-Sends 25 (λ e. omega (arith, e)))
            mem
            (repeated k (coded rest))
            []
            r
        → (mem' : List ℕ) × (s' : Link) × (units : List (List ℕ)) × (r ≡ going (mem', 0) s')
          × (s'.out ≡ some (doubled units))
          × All IsCoded units
          × All NoInner units
          × (concat units ≡ repeated k (coded rest))
    conclude spent w = absurd w
    conclude (returned s1) (qs, p, left, never, sent, joined) = absurd never
    conclude (going (mem', n_last) s1) (empty, size, (qs, (out, units), joined)) =
        (mem', s1, qs, ap (λ t. going (mem', t) s1) empty, out, units.0 tt, units.1, joined)
