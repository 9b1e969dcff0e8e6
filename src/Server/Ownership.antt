-- ===== src/Server/Ownership.antt =====
-- A round keeps the invariant, and closes exactly the descriptors that no session has any more.
use test.Base.{
  ℕ, suc, ◌+◌, ◌≡◌, subst, ◌⊎◌, ◌∙◌, inl, inr, refl, sym, ap, Bool, true, false, Option, none, some,
  List, [], ◌∷◌, ◌++◌, ◌==◌, ◌&&◌, if◌then◌else◌, length, All, arith,
}
use test.Base.Int.{ℤ, pos, eq_ℤ, minus_one, is_neg, is_positive, succ_ℤ}
use test.Server.{
  ClientSession, MyServer, blank, admit, comm_socket_close, one_less, destroy_client_session,
  destroy_where,
}
use test.Server.Round.{
  merged, Answers, is_set, Served, served, serve_fault, serve_waits, is_marked, Round, finished,
  round_fault, round_waits, sweep,
}
use test.Server.Invariant.{IsSlot, IsServed, IsValid, count, count-append, merged-used, Placed}
use test.Server.Serving.{KeepsAll}

-- What is left of `cs`, with `k` further sessions counted.
abbrev pub Swept : ℕ → List ClientSession → List ClientSession × ℤ × List ℤ → Type 0
Swept k cs (cs', n, closed) =
    (length cs' ≡ length cs)
    × All IsSlot cs'
    × (n ≡ pos (k + length (merged cs')))
    × ((x : ℤ) → count x (merged cs') + count x closed ≡ count x (merged cs))

destroy_where-kept :
    (test : ClientSession → Bool) (s : ClientSession) (cs : List ClientSession) (n : ℤ)
    → test s ≡ false
    → destroy_where test (s ∷ cs) n ≡ (let r = destroy_where test cs n in (s ∷ r.0, r.1, r.2))
unfolding destroy_where
destroy_where-kept test s cs n e = rw e refl

-- a session with an open descriptor is cleared, counted off and closed
pub destroy_client_session-open :
    (s : ClientSession) (n : ℤ) (fd : ℕ)
    → s.b_use ≡ 1
    → s.sock ≡ pos (suc fd)
    → destroy_client_session s n ≡ (blank, one_less n, pos (suc fd) ∷ [])
unfolding destroy_client_session
destroy_client_session-open s n fd in_use at_fd =
    let used : (s.b_use == 0) ≡ false = ap (λ t. t == 0) in_use in
    let positive : is_positive (pos (suc fd)) ≡ true = ground arith in
    let closes : (if is_positive s.sock then comm_socket_close s.sock else []) ≡ pos (suc fd) ∷ [] =
      ap (λ t. if is_positive t then comm_socket_close t else []) at_fd ∙ rw positive refl in
    rw used (ap (λ (t : List ℤ). (blank, one_less n, t)) closes)

destroy_where-dropped :
    (test : ClientSession → Bool) (s : ClientSession) (cs : List ClientSession) (n : ℤ) (fd : ℕ)
    → test s ≡ true
    → s.b_use ≡ 1
    → s.sock ≡ pos (suc fd)
    → destroy_where test (s ∷ cs) n
      ≡ (let r = destroy_where test cs (one_less n) in (blank ∷ r.0, r.1, pos (suc fd) ∷ r.2))
unfolding destroy_where
destroy_where-dropped test s cs n fd e in_use at_fd = rw e (
    ap
      (λ (t : ClientSession × ℤ × List ℤ).
        let r = destroy_where test cs t.1 in (t.0 ∷ r.0, r.1, t.2 ++ r.2))
      (destroy_client_session-open s n fd in_use at_fd))

pub destroy_where-Swept :
    (k : ℕ) (cs : List ClientSession) (n : ℤ)
    → All IsServed cs
    → n ≡ pos (k + length (merged cs))
    → Swept k cs (destroy_where is_marked cs n)
unfolding destroy_where
destroy_where-Swept k [] n good e = (refl, tt, e, λ x. omega arith)
destroy_where-Swept k (s ∷ cs) n (inl free, good) e =
    subst
      (λ t.
        n ≡ pos (k + length (merged (t ∷ cs)))
        → Swept k (t ∷ cs) (destroy_where is_marked (t ∷ cs) n))
      (sym free)
      (λ e'. let r = destroy_where-Swept k cs n good e' in (ap suc r.0, (inl refl, r.1), r.2, r.3))
      e
destroy_where-Swept k (s ∷ cs) n (inr ((in_use, (fd, at_fd)), inl active), good) e =
    let used : (s.b_use == 0) ≡ false = ap (λ t. t == 0) in_use in
    let more = ap length (merged-used s cs used) in
    let r = destroy_where-Swept (k + 1) cs n good (e ∙ ap pos (omega (arith, more))) in
    let kept = destroy_where is_marked cs n in
    let after = merged-used s kept.0 used in
    subst (Swept k (s ∷ cs))
      (sym (destroy_where-kept is_marked s cs n (ap (λ t. eq_ℤ t minus_one) active)))
      (
        ap suc r.0,
        (inr ((in_use, (fd, at_fd)), active), r.1),
        r.2 ∙ ap pos (omega (arith, ap length after)),
        λ x. omega (arith, r.3 x, ap (count x) after, ap (count x) (merged-used s cs used)),
      )
destroy_where-Swept k (s ∷ cs) n (inr ((in_use, (fd, at_fd)), inr marked), good) e =
    let used : (s.b_use == 0) ≡ false = ap (λ t. t == 0) in_use in
    let before : merged (s ∷ cs) ≡ pos (suc fd) ∷ merged cs =
      merged-used s cs used ∙ ap (λ t. t ∷ merged cs) at_fd in
    let fewer : n ≡ pos (suc (k + length (merged cs))) =
      e ∙ ap pos (omega (arith, ap length before)) in
    let r = destroy_where-Swept k cs (one_less n) good (ap one_less fewer) in
    subst (Swept k (s ∷ cs))
      (sym (
        destroy_where-dropped is_marked s cs n fd (ap (λ t. eq_ℤ t minus_one) marked) in_use at_fd))
      (ap suc r.0, (inl refl, r.1), r.2, λ x. omega (arith, r.3 x, ap (count x) before))

-- The descriptors that a round gains.
abbrev pub gained : MyServer → Answers → List ℤ
gained h a =
    if is_positive a.selected
      && (is_set (h.my_socket ∷ merged h.client) a h.my_socket && is_positive a.accepted)
    then a.accepted ∷ []
    else []

-- A round that returned keeps the invariant; each descriptor is open afterwards or was closed, as often
-- as it was open before or was gained.
abbrev pub Accounted : MyServer → List ℤ → Round → Type 0
Accounted h new round_fault = Unit
Accounted h new round_waits = Unit
Accounted h new (finished h' closed) =
    IsValid h'
    × ((x : ℤ)
        → count x (merged h'.client) + count x closed ≡ count x (merged h.client) + count x new)

-- `accept` returns a positive descriptor or fails.
abbrev pub Accepts : ℤ → Type 0
Accepts fd = (is_neg fd ≡ true) ⊎ ((n : ℕ) × (fd ≡ pos (suc n)))

-- The state after the new connection, before the sessions are served.
abbrev pub Admitted : MyServer → List ℤ → Option MyServer × List ℤ → Type 0
Admitted h new (none, closed) = ⊥
Admitted h new (some h', closed) =
    IsValid h'
    × ((x : ℤ)
        → count x (merged h'.client) + count x closed ≡ count x (merged h.client) + count x new)

pub sweep-Accounted :
    (h h' : MyServer) (new closed : List ℤ) (v : Served)
    → IsValid h'
    → ((x : ℤ)
        → count x (merged h'.client) + count x closed ≡ count x (merged h.client) + count x new)
    → KeepsAll h'.client v
    → Accounted h new (sweep h' closed v)
sweep-Accounted h h' new closed serve_fault good balance k = tt
sweep-Accounted h h' new closed serve_waits good balance k = tt
sweep-Accounted h h' new closed (served cs sents) good balance (len, same, all) =
    let r =
      destroy_where-Swept 0 cs h'.client_num all
        (good.counted ∙ ap pos (omega (arith, ap length same))) in
    let swept = destroy_where is_marked cs h'.client_num in
    (
      record { four = r.0 ∙ len ∙ good.four; slots = r.1; counted = r.2 ∙ ap pos (omega arith) },
      λ x. omega (arith, r.3 x, balance x, ap (count x) same, count-append x closed swept.2),
    )

pub admit-Admitted :
    (h : MyServer) (fd : ℕ) (o : Option (List ClientSession))
    → IsValid h
    → Placed (pos (suc fd)) h.client o
    → (let (h', closed) = admit h (pos (suc fd)) o in
        Admitted h (pos (suc fd) ∷ []) (some h', closed))
admit-Admitted h fd none good all_used = (good, λ x. omega arith)
admit-Admitted h fd (some cs) good (len, more, counts, slots) = (
  record {
    four = len ∙ good.four;
    slots = slots good.slots;
    counted = ap succ_ℤ good.counted ∙ ap pos (sym more);
  },
  λ x. omega (arith, counts x),
)
