-- ===== src/Programs/Splitter/Pieces.antt =====
-- The pieces that a buffer is cut into are the buffer.
use test.Base.{
  ℕ, zero, suc, ◌+◌, ◌-◌, ◌≤◌, ◌<◌, ◌≡◌, subst, ◌⊎◌, ◌∙◌, inl, inr, refl, sym, ap, true, Option,
  none, some, List, [], ◌∷◌, ◌++◌, ◌&&◌, ◌==◌, take, drop, slice, arith, Bool-cases, append_assoc,
  append-nil, drop-drop, take-nil, false, get_elem?, Bool, dec_lt,
}
use test.Base.Int.{pos, sub_ℕ}
use test.Nal.StartCode.{is_byte, is_code_at, find_nal_start_code}
use test.Nal.StartCode.Laws.{IsFirst, find_nal_start_code-IsFirst}
use test.Programs.Splitter.{Run, going, returned, spent, after_send, cut_at, split_loop}

abbrev pub concat : List (List ℕ) → List ℕ
concat [] = []
concat (p ∷ ps) = p ++ concat ps

pub concat-append : (ps qs : List (List ℕ)) → concat (ps ++ qs) ≡ concat ps ++ concat qs
concat-append [] qs = refl
concat-append (p ∷ ps) qs =
    ap (λ t. p ++ t) (concat-append ps qs) ∙ sym (append_assoc p (concat ps) (concat qs))

pub take-add : (a b : ℕ) (xs : List ℕ) → take (a + b) xs ≡ take a xs ++ take b (drop a xs)
take-add zero b xs = let e : 0 + b ≡ b = omega arith in ap (λ t. take t xs) e
take-add (suc a) b [] = take-nil (suc a + b) ∙ sym (take-nil b)
take-add (suc a) b (x ∷ xs) =
    let e : suc a + b ≡ suc (a + b) = omega arith in
    ap (λ t. take t (x ∷ xs)) e ∙ ap (λ t. x ∷ t) (take-add a b xs)

-- Consecutive slices make one.
pub slice-cut :
    (a k n : ℕ) (mem : List ℕ)
    → a + k ≤ n
    → slice a k mem ++ slice (a + k) (n - (a + k)) mem ≡ slice a (n - a) mem
slice-cut a k n mem inside =
    let lengths : k + (n - (a + k)) ≡ n - a = omega arith in
    ap (λ t. slice a k mem ++ take (n - (a + k)) t) (sym (drop-drop a k (a + k) mem refl))
    ∙ sym (take-add k (n - (a + k)) (drop a mem))
    ∙ ap (λ t. take t (drop a mem)) lengths

-- a start code of a list is one at the begin of what is dropped to
pub is_code_at-drop : (i : ℕ) (buff : List ℕ) → is_code_at buff i ≡ is_code_at (drop i buff) 0
unfolding is_code_at
is_code_at-drop zero buff = refl
is_code_at-drop (suc i) [] = refl
is_code_at-drop (suc i) (x ∷ buff) =
    let e1 : suc i + 1 ≡ suc (i + 1) = omega arith in
    let e2 : suc i + 2 ≡ suc (i + 2) = omega arith in
    let e3 : suc i + 3 ≡ suc (i + 3) = omega arith in rw (e1, e2, e3) (is_code_at-drop i buff)

-- The list begins with a byte 0.
abbrev pub BeginsZero : List ℕ → Type 0
BeginsZero p = (tail : List ℕ) × (p ≡ 0 ∷ tail)

is_code_at-BeginsZero : (buff : List ℕ) → is_code_at buff 0 ≡ true → BeginsZero buff
unfolding is_code_at
is_code_at-BeginsZero [] e = absurd (cc e)
is_code_at-BeginsZero (b ∷ buff) e = elim (Bool-cases (b == 0)) [
  | inl zero_byte ↦ (buff, ap (λ t. t ∷ buff) (ground arith))
  | inr other ↦ absurd (cc (rw other at e))
]

pub BeginsZero-take : (n : ℕ) (p : List ℕ) → 0 < n → BeginsZero p → BeginsZero (take n p)
BeginsZero-take zero p some_left begins = absurd (omega arith)
BeginsZero-take (suc n) p some_left (tail, e) = (take n tail, ap (take (suc n)) e)

-- The list begins with a start code.
abbrev pub IsCoded : List ℕ → Type 0
IsCoded p = (tail : List ℕ) × (p ≡ 0 ∷ 0 ∷ 0 ∷ 1 ∷ tail)

pub is_code_at-IsCoded : (buff : List ℕ) → is_code_at buff 0 ≡ true → IsCoded buff
unfolding is_code_at
is_code_at-IsCoded [] e = absurd (cc e)
is_code_at-IsCoded (b0 ∷ []) e = absurd (ground (arith, e))
is_code_at-IsCoded (b0 ∷ b1 ∷ []) e = absurd (ground (arith, e))
is_code_at-IsCoded (b0 ∷ b1 ∷ b2 ∷ []) e = absurd (ground (arith, e))
is_code_at-IsCoded (b0 ∷ b1 ∷ b2 ∷ b3 ∷ buff) e =
    let bytes : ((b0 == 0) && ((b1 == 0) && ((b2 == 0) && (b3 == 1)))) ≡ true = e in
    let z0 : b0 ≡ 0 = ground (arith, bytes) in
    let z1 : b1 ≡ 0 = ground (arith, bytes) in
    let z2 : b2 ≡ 0 = ground (arith, bytes) in
    let one : b3 ≡ 1 = ground (arith, bytes) in (buff, cc (z0, z1, z2, one))

IsCoded-take : (n : ℕ) (p : List ℕ) → 4 ≤ n → IsCoded p → IsCoded (take n p)
IsCoded-take n p room (tail, e) =
    let split : n ≡ suc (suc (suc (suc (n - 4)))) = omega (arith, room) in
    (take (n - 4) tail, ap (take n) e ∙ ap (λ m. take m (0 ∷ 0 ∷ 0 ∷ 1 ∷ tail)) split)

-- a start code behind a start code, by what is dropped
shifted :
    (start j : ℕ) (mem : List ℕ)
    → 4 ≤ j
    → is_code_at (drop (start + 4) mem) (j - 4) ≡ is_code_at (drop start mem) j
shifted start j mem low =
    is_code_at-drop (j - 4) (drop (start + 4) mem)
    ∙ ap (λ t. is_code_at t 0)
        (drop-drop (start + 4) (j - 4) (start + j) mem (omega arith)
          ∙ sym (drop-drop start j (start + j) mem refl))
    ∙ sym (is_code_at-drop j (drop start mem))

-- No start code begins at the fifth byte of the list or behind it.
abbrev pub NoInner : List ℕ → Type 0
NoInner p = (j : ℕ) → 4 ≤ j → is_code_at p j ≡ false

get_elem?-take : (n : ℕ) (p : List ℕ) (i : ℕ) → i < n → get_elem? (take n p) i ≡ get_elem? p i
get_elem?-take zero p i inside = absurd (omega arith)
get_elem?-take (suc n) [] i inside = refl
get_elem?-take (suc n) (x ∷ p) zero inside = refl
get_elem?-take (suc n) (x ∷ p) (suc i) inside = get_elem?-take n p i (omega arith)

get_elem?-behind : (n : ℕ) (p : List ℕ) (i : ℕ) → n ≤ i → get_elem? (take n p) i ≡ none
get_elem?-behind zero p i behind = refl
get_elem?-behind (suc n) [] i behind = refl
get_elem?-behind (suc n) (x ∷ p) zero behind = absurd (omega arith)
get_elem?-behind (suc n) (x ∷ p) (suc i) behind = get_elem?-behind n p i (omega arith)

none_last : (a b c : Bool) → (a && (b && (c && false))) ≡ false
none_last false b c = refl
none_last true false c = refl
none_last true true false = refl
none_last true true true = refl

-- What a start code of the first bytes needs is in them.
is_code_at-take :
    (n : ℕ) (p : List ℕ) (j : ℕ)
    → (j < n → is_code_at p j ≡ false)
    → is_code_at (take n p) j ≡ false
unfolding is_code_at
is_code_at-take n p j miss = elim (dec_lt (j + 3) n) [
  | yes whole ↦
      rw
        (
          get_elem?-take n p j (omega (arith, whole)),
          get_elem?-take n p (j + 1) (omega (arith, whole)),
          get_elem?-take n p (j + 2) (omega (arith, whole)),
          get_elem?-take n p (j + 3) whole,
        )
        (miss (omega (arith, whole)))
  | no cut ↦ rw (get_elem?-behind n p (j + 3) (omega (arith, cut))) (
      none_last (is_byte (get_elem? (take n p) j) 0) (is_byte (get_elem? (take n p) (j + 1)) 0)
        (is_byte (get_elem? (take n p) (j + 2)) 0))
]

NoInner-take :
    (n : ℕ) (p : List ℕ) → ((j : ℕ) → 4 ≤ j → j < n → is_code_at p j ≡ false) → NoInner (take n p)
NoInner-take n p inner = λ j low. is_code_at-take n p j (inner j low)

-- A part of the buffer that is sent begins with a byte 0, and with a start code if `Good` holds.
abbrev pub Piece : Type 0 → List ℕ → Type 0
Piece Good p = BeginsZero p × (Good → IsCoded p) × NoInner p

-- what is taken from a start code on
pub Piece-take :
    (Good : Type 0) (n : ℕ) (p : List ℕ)
    → 0 < n
    → (Good → 4 ≤ n)
    → is_code_at p 0 ≡ true
    → ((j : ℕ) → 4 ≤ j → j < n → is_code_at p j ≡ false)
    → Piece Good (take n p)
Piece-take Good n p some_left room code inner = (
  BeginsZero-take n p some_left (is_code_at-BeginsZero p code),
  λ good. IsCoded-take n p (room good) (is_code_at-IsCoded p code),
  NoInner-take n p inner,
)

-- Sends that keep an invariant of what was sent, or fail.
abbrev pub Sends {ℓ} :
    {σ : Type ℓ}
    → Type 0
    → (List (List ℕ) → List ℕ → Type 0)
    → (List (List ℕ) → σ → Type 0)
    → (List ℕ → σ → Option σ)
    → Type ℓ
Sends {σ} Good Failed Sent send =
    (ps : List (List ℕ)) (p : List ℕ) (s : σ)
    → Piece Good p
    → Sent ps s
    → ((s' : σ) × (send p s ≡ some s') × Sent (ps ++ (p ∷ [])) s')
      ⊎ ((send p s ≡ none) × Failed ps p)

module _ {ℓ} {σ : Type ℓ} (maxbuf : ℕ) (send_piece send_rest : List ℕ → σ → Option σ)
    (Good : Type 0) (Failed : List (List ℕ) → List ℕ → Type 0) (Sent : List (List ℕ) → σ → Type 0)
    (piece_sent : Sends Good Failed Sent send_piece)
    (rest_sent : Sends Good Failed Sent send_rest) where
  -- What the loop over the units leaves, from `start_code` on: further pieces were sent, and they and the
  -- bytes from the new `start_code` on, with no start code behind it, are what there was; or the send of
  -- a piece that follows them failed.
  abbrev pub Cut : List ℕ → ℕ → ℕ → ℕ → List (List ℕ) → Run (ℕ × ℕ × ℕ) σ → Type 0
  Cut mem n start_code send_count ps spent = ⊥
  Cut mem n start_code send_count ps (returned s) =
      (qs : List (List ℕ)) × (p : List ℕ) × (left : List ℕ) × Failed (ps ++ qs) p
      × Sent (ps ++ qs) s
      × (concat qs ++ (p ++ left) ≡ slice start_code (n - start_code) mem)
  Cut mem n start_code send_count ps (going (start', len', count') s) =
      (qs : List (List ℕ)) × Sent (ps ++ qs) s
      × (start' ≡ len')
      × (start' < n)
      × (is_code_at (drop start' mem) 0 ≡ true)
      × (send_count ≤ count')
      × ((start' ≡ start_code) ⊎ (0 < count'))
      × ((j : ℕ) → 4 ≤ j → j < n - start' → is_code_at (drop start' mem) j ≡ false)
      × (concat qs ++ slice start' (n - start') mem ≡ slice start_code (n - start_code) mem)

  Cut-extend :
      (mem : List ℕ) (n start_code next send_count : ℕ) (piece : List ℕ) (ps : List (List ℕ))
      (r : Run (ℕ × ℕ × ℕ) σ)
      → piece ++ slice next (n - next) mem ≡ slice start_code (n - start_code) mem
      → Cut mem n next (send_count + 1) (ps ++ (piece ∷ [])) r
      → Cut mem n start_code send_count ps r
  Cut-extend mem n start_code next send_count piece ps spent whole cut = cut
  Cut-extend mem n start_code next send_count piece ps (returned s) whole
        (qs, p, left, failed, sent, joined) =
      (
        piece ∷ qs,
        p,
        left,
        subst (λ t. Failed t p) (append_assoc ps (piece ∷ []) qs) failed,
        subst (λ t. Sent t s) (append_assoc ps (piece ∷ []) qs) sent,
        append_assoc piece (concat qs) (p ++ left) ∙ ap (λ t. piece ++ t) joined ∙ whole,
      )
  Cut-extend mem n start_code next send_count piece ps (going (start', len', count') s) whole
        (qs, sent, same, inside, begins, more, moved, no_code, joined) =
      (
        piece ∷ qs,
        subst (λ t. Sent t s) (append_assoc ps (piece ∷ []) qs) sent,
        same,
        inside,
        begins,
        omega (arith, more),
        inr (omega (arith, more)),
        no_code,
        append_assoc piece (concat qs) (slice start' (n - start') mem)
            ∙ ap (λ t. piece ++ t) joined
            ∙ whole,
      )

  cut_at-Cut :
      (fuel : ℕ) (mem : List ℕ) (n start_code send_count : ℕ) (ps : List (List ℕ)) (s : σ)
      → n < start_code + suc fuel
      → start_code < n
      → is_code_at (drop start_code mem) 0 ≡ true
      → Sent ps s
      → (found : Option ℕ) → IsFirst (drop (start_code + 4) mem) 0 (n - start_code - 4) found
      → ((start' count' : ℕ) (ps' : List (List ℕ)) (s' : σ)
          → start_code < start'
          → start' < n
          → is_code_at (drop start' mem) 0 ≡ true
          → Sent ps' s'
          → Cut mem n start' count' ps'
              (split_loop maxbuf send_piece send_rest fuel mem n start' start' count' s'))
      → Cut mem n start_code send_count ps (
          cut_at maxbuf send_piece send_rest
            (split_loop maxbuf send_piece send_rest fuel mem n)
            mem
            start_code
            start_code
            send_count
            s
            found)
  unfolding cut_at
  cut_at-Cut fuel mem n start_code send_count ps s enough inside begins sent none first again = (
    [],
    subst (λ t. Sent t s) (sym (append-nil ps)) sent,
    refl,
    inside,
    begins,
    omega arith,
    inl refl,
    λ j low high. sym (shifted start_code j mem low) ∙ first (j - 4) (omega arith) (omega arith),
    refl,
  )
  cut_at-Cut fuel mem n start_code send_count ps s enough inside begins sent (some k) first again =
      let next = start_code + (4 + k) in
      let piece = slice start_code (4 + k) mem in
      let at_next : drop k (drop (start_code + 4) mem) ≡ drop next mem =
        drop-drop (start_code + 4) k next mem (omega arith) in
      let code : is_code_at (drop next mem) 0 ≡ true =
        ap (λ t. is_code_at t 0) (sym at_next)
        ∙ sym (is_code_at-drop k (drop (start_code + 4) mem))
        ∙ first.2 in
      let whole : piece ++ slice next (n - next) mem ≡ slice start_code (n - start_code) mem =
        slice-cut start_code (4 + k) n mem (omega (arith, first.1)) in
      let loop = split_loop maxbuf send_piece send_rest fuel mem n next next (send_count + 1) in
      elim (piece_sent ps piece s
        (Piece-take Good (4 + k) (drop start_code mem) (omega arith) (λ _. omega arith) begins
          (λ j low high.
            sym (shifted start_code j mem low) ∙ first.3 (j - 4) (omega arith) (omega arith)))
        sent) [
          | inl (s1, ok, sent1) ↦
              subst (λ o. Cut mem n start_code send_count ps (after_send o s loop)) (sym ok)
                (Cut-extend mem n start_code next send_count piece ps (loop s1) whole (
                  again next (send_count + 1) (ps ++ (piece ∷ [])) s1 (omega arith)
                    (omega (arith, first.1)) code sent1))
          | inr (refused, failed) ↦
              subst (λ o. Cut mem n start_code send_count ps (after_send o s loop)) (sym refused)
                (
                  [],
                  piece,
                  slice next (n - next) mem,
                  subst (λ t. Failed t piece) (sym (append-nil ps)) failed,
                  subst (λ t. Sent t s) (sym (append-nil ps)) sent,
                  whole,
                )
        ]

  pub split_loop-Cut :
      (fuel : ℕ) (mem : List ℕ) (n start_code send_count : ℕ) (ps : List (List ℕ)) (s : σ)
      → n < start_code + fuel
      → start_code < n
      → is_code_at (drop start_code mem) 0 ≡ true
      → Sent ps s
      → Cut mem n start_code send_count ps
          (split_loop maxbuf send_piece send_rest fuel mem n start_code start_code send_count s)
  unfolding split_loop
  split_loop-Cut zero mem n start_code send_count ps s enough inside begins sent =
      absurd (omega arith)
  split_loop-Cut (suc fuel) mem n start_code send_count ps s enough inside begins sent =
      let left : sub_ℕ n start_code ≡ pos (n - start_code) = ground arith in
      let buff = drop (start_code + 4) mem in
      let found = find_nal_start_code (some buff) (pos (n - start_code)) in
      let next =
        cut_at maxbuf send_piece send_rest (split_loop maxbuf send_piece send_rest fuel mem n) mem
          start_code start_code send_count s in
      subst (λ o. Cut mem n start_code send_count ps (next o))
        (sym (ap (λ t. find_nal_start_code (some buff) t) left))
        (cut_at-Cut fuel mem n start_code send_count ps s enough inside begins sent found
          (find_nal_start_code-IsFirst buff (n - start_code))
          (λ start' count' ps' s' further within begins' sent'.
            split_loop-Cut fuel mem n start' count' ps' s' (omega (arith, enough, further)) within
              begins' sent'))
