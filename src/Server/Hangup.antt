-- ===== src/Server/Hangup.antt =====
-- A client that hangs up makes room for another.
use test.Base.{
  ℕ, zero, suc, ◌+◌, ◌<◌, ◌≤◌, ◌≡◌, ◌∙◌, inl, inr, refl, ap, Bool, true, false, Option, none, some,
  List, [], ◌∷◌, ◌==◌, length, get_elem?, arith, Bool-cases,
}
use test.Base.Int.{ℤ, pos, eq_ℤ, is_positive}
use test.Net.Os.{gave}
use test.Server.{
  ClientSession, MyServer, blank, opened, our_random64, place, admit, incoming_connection_handler,
  mark_inactive, with_clear, Handled, handled, handler_fault, handler_waits,
  incoming_connection_handler_client, destroy_client_session, destroy_where,
}
use test.Server.Round.{
  merged, Answers, is_set, Served, served, serve_fault, serve_waits, and_serve, serve_one,
  serve_from, is_marked, finished, sweep, round,
}
use test.Server.Invariant.{count, merged-free, merged-used, Placed, place-Placed}

-- The handlers that all returned left at `i` what the handler of `i` returned.
and_serve-served :
    (u : Handled) (v : Served) (cs : List ClientSession) (sents : List (List ℕ))
    → and_serve u v ≡ served cs sents
    → (s : ClientSession) × (sent : List ℕ) × (cs' : List ClientSession) × (sents' : List (List ℕ))
      × (u ≡ handled s sent)
      × (v ≡ served cs' sents')
      × (cs ≡ s ∷ cs')
and_serve-served handler_fault v cs sents e = absurd (cc e)
and_serve-served handler_waits v cs sents e = absurd (cc e)
and_serve-served (handled s sent) serve_fault cs sents e = absurd (cc e)
and_serve-served (handled s sent) serve_waits cs sents e = absurd (cc e)
and_serve-served (handled s sent) (served cs' sents') cs sents e =
    (s, sent, cs', sents', refl, refl, cc e)

serve_from-at :
    (set : List ℤ) (a : Answers) (k i : ℕ) (cs cs' : List ClientSession) (sents : List (List ℕ))
    (s s' : ClientSession) (sent : List ℕ)
    → serve_from set a k cs ≡ served cs' sents
    → get_elem? cs i ≡ some s
    → serve_one set a (k + i) s ≡ handled s' sent
    → get_elem? cs' i ≡ some s'
unfolding serve_from
serve_from-at set a k i [] cs' sents s s' sent e at_i one = absurd (cc at_i)
serve_from-at set a k zero (c ∷ cs) cs' sents s s' sent e at_i one =
    let (d, sent_d, ds, ds_sents, this, rest, shape) = and_serve-served _ _ cs' sents e in
    ap (λ t. get_elem? t 0) shape ∙ ap some (cc (this, one'))
  where
    one' : serve_one set a k c ≡ handled s' sent
    one' =
        ap (λ t. serve_one set a k t) (cc at_i) ∙ ap (λ t. serve_one set a t s) (omega arith) ∙ one
serve_from-at set a k (suc i) (c ∷ cs) cs' sents s s' sent e at_i one =
    let (d, sent_d, ds, ds_sents, this, rest, shape) = and_serve-served _ _ cs' sents e in
    ap (λ t. get_elem? t (suc i)) shape
    ∙ serve_from-at set a (k + 1) i cs ds ds_sents s s' sent rest at_i
        (ap (λ t. serve_one set a t s) (omega arith) ∙ one)

-- A session in use for which the test holds is cleared.
destroy_where-at :
    (test : ClientSession → Bool) (i : ℕ) (cs : List ClientSession) (n : ℤ) (s : ClientSession)
    → get_elem? cs i ≡ some s
    → test s ≡ true
    → (s.b_use == 0) ≡ false
    → get_elem? (destroy_where test cs n).0 i ≡ some blank
unfolding destroy_where destroy_client_session
destroy_where-at test i [] n s at_i e used = absurd (cc at_i)
destroy_where-at test zero (c ∷ cs) n s at_i e used =
    let same : c ≡ s = cc at_i in
    let test_c : test c ≡ true = ap test same ∙ e in
    let used_c : (c.b_use == 0) ≡ false = ap (λ (t : ClientSession). t.b_use == 0) same ∙ used in
    rw (test_c, used_c) refl
destroy_where-at test (suc i) (c ∷ cs) n s at_i e used = destroy_where-at test i cs _ s at_i e used

merged-le : (cs : List ClientSession) → length (merged cs) ≤ length cs
merged-le [] = omega arith
merged-le (c ∷ cs) = elim (Bool-cases (c.b_use == 0)) [
  | inl free ↦ omega (arith, ap length (merged-free c cs free), merged-le cs)
  | inr used ↦ omega (arith, ap length (merged-used c cs used), merged-le cs)
]

-- With a free session not all are used.
merged-blank :
    (i : ℕ) (cs : List ClientSession) → get_elem? cs i ≡ some blank → length (merged cs) < length cs
merged-blank i [] e = absurd (cc e)
merged-blank zero (c ∷ cs) e =
    let same : c ≡ blank = cc e in
    let free : (c.b_use == 0) ≡ true = ap (λ (t : ClientSession). t.b_use == 0) same in
    omega (arith, ap length (merged-free c cs free), merged-le cs)
merged-blank (suc i) (c ∷ cs) e = elim (Bool-cases (c.b_use == 0)) [
  | inl free ↦ omega (arith, ap length (merged-free c cs free), merged-blank i cs e)
  | inr used ↦ omega (arith, ap length (merged-used c cs used), merged-blank i cs e)
]

-- With a free session, a connection gets one.
admit-free :
    (h : MyServer) (fd : ℕ) (o : Option (List ClientSession))
    → length (merged h.client) < length h.client
    → Placed (pos (suc fd)) h.client o
    → (h' : MyServer) × (admit h (pos (suc fd)) o ≡ (h', []))
      × (0 < count (pos (suc fd)) (merged h'.client))
admit-free h fd none room all_used = absurd (omega (arith, all_used, room))
admit-free h fd (some cs) room (len, more, counts, slots) =
    let same : eq_ℤ (pos (suc fd)) (pos (suc fd)) ≡ true = ground arith in
    let one : count (pos (suc fd)) (pos (suc fd) ∷ []) ≡ 1 = rw same refl in
    (_, refl, omega (arith, counts (pos (suc fd)), one))

-- Session `i` is in use, its descriptor is ready, and the client hung up.
abbrev pub HangsUp : MyServer → Answers → ℕ → ClientSession → Type 0
HangsUp h a i s =
    (get_elem? h.client i ≡ some s)
    × ((s.b_use == 0) ≡ false)
    × (is_set (h.my_socket ∷ merged h.client) a s.sock ≡ true)
    × ((a.clients i).recv ≡ gave [])

serve_one-hangup :
    (h : MyServer) (a : Answers) (i : ℕ) (s : ClientSession)
    → HangsUp h a i s
    → serve_one (h.my_socket ∷ merged h.client) a i s ≡ handled (mark_inactive (with_clear s)) []
unfolding serve_one incoming_connection_handler_client
serve_one-hangup h a i s (at_i, used, ready, end) =
    rw (used, ready) (ap (λ t. incoming_connection_handler_client s (a.clients i) t) end)

-- A session whose client hung up is cleared at the end of the round, in which no connection came and all
-- handlers returned; the next connection then gets a session, and none is closed for it.
pub round-makes_room :
    (h : MyServer) (a : Answers) (i : ℕ) (s : ClientSession) (cs : List ClientSession)
    (sents : List (List ℕ)) (fd high low : ℕ)
    → HangsUp h a i s
    → is_positive a.selected ≡ true
    → is_set (h.my_socket ∷ merged h.client) a h.my_socket ≡ false
    → serve_from (h.my_socket ∷ merged h.client) a 0 h.client ≡ served cs sents
    → (h1 : MyServer) × (closed : List ℤ) × (h2 : MyServer) × (round h a ≡ finished h1 closed)
      × (get_elem? h1.client i ≡ some blank)
      × (incoming_connection_handler (some h1) (pos (suc fd)) high low ≡ (some h2, []))
      × (0 < count (pos (suc fd)) (merged h2.client))
unfolding round incoming_connection_handler
round-makes_room h a i s cs sents fd high low (at_i, used, ready, end) some_ready quiet
      all_returned =
    let set = h.my_socket ∷ merged h.client in
    let left = mark_inactive (with_clear s) in
    let one = serve_one-hangup h a i s (at_i, used, ready, end) in
    let after : get_elem? cs i ≡ some left =
      serve_from-at set a 0 i h.client cs sents s left [] all_returned at_i
        (ap (λ t. serve_one set a t s) (omega arith) ∙ one) in
    let swept = destroy_where is_marked cs h.client_num in
    let cleared : get_elem? swept.0 i ≡ some blank =
      destroy_where-at is_marked i cs h.client_num left after refl used in
    let h1 : MyServer = record h { client_num = swept.1; client = swept.0 } in
    let (h2, got, kept) =
      admit-free h1 fd (place (opened (pos (suc fd)) (our_random64 high low)) h1.client)
        (merged-blank i h1.client cleared) (place-Placed fd (our_random64 high low) h1.client) in
    (
      h1,
      swept.2,
      h2,
      rw (some_ready, quiet) (ap (sweep h []) all_returned),
      cleared,
      ap (λ (p : MyServer × List ℤ). (some p.0, p.1)) got,
      kept,
    )
