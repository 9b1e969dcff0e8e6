-- ===== src/Programs/Splitter/Files.antt =====
-- A buffer, a file and passes over a file are sent whole.
use test.Base.{
  ◌≢◌, get_or, dec_lt, ℕ, zero, suc, ◌+◌, ◌-◌, ◌≤◌, ◌<◌, ◌≡◌, subst, ◌⊎◌, ◌∙◌, inl, inr, refl, sym,
  ap, true, ◌&&◌, Option, none, some, List, [], ◌∷◌, ◌++◌, ◌==◌, ltb, length, take, drop, write_at,
  slice, arith, Bool-cases, append_assoc, append-nil, take-write_at, length-drop, length-take,
  length-write_at,
}
use test.Base.Int.{pos}
use test.Nal.StartCode.{is_code_at, find_nal_start_code}
use test.Nal.StartCode.Laws.{IsFirst, find_nal_start_code-IsFirst}
use test.Programs.Splitter.{
  Run, going, returned, spent, after_send, split_loop, after_split, from_start, send_buffer,
}
use test.Programs.Splitter.Pieces.{
  concat, concat-append, is_code_at-IsCoded, Piece-take, Sends, Cut, split_loop-Cut,
}

pub first_at_zero :
    (buff : List ℕ) (hi : ℕ) (r : Option ℕ)
    → is_code_at buff 0 ≡ true
    → 0 < hi
    → IsFirst buff 0 hi r
    → r ≡ some 0
first_at_zero buff hi none code wide first = absurd (cc (code, first 0 (omega arith) wide))
first_at_zero buff hi (some zero) code wide first = refl
first_at_zero buff hi (some (suc i)) code wide first =
    absurd (cc (code, first.3 0 (omega arith) (omega arith)))

pub code_written :
    (rest mem : List ℕ)
    → 4 ≤ length mem
    → is_code_at (write_at 0 (0 ∷ 0 ∷ 0 ∷ 1 ∷ rest) mem) 0 ≡ true
unfolding is_code_at
code_written rest (a ∷ b ∷ c ∷ d ∷ mem) long = refl
code_written rest [] long = absurd (omega arith)
code_written rest (a ∷ []) long = absurd (omega arith)
code_written rest (a ∷ b ∷ []) long = absurd (omega arith)
code_written rest (a ∷ b ∷ c ∷ []) long = absurd (omega arith)

get_or-drop : (k : ℕ) (mem : List ℕ) (i : ℕ) → get_or (drop k mem) i 0 ≡ get_or mem (k + i) 0
get_or-drop zero mem i = ap (λ j. get_or mem j 0) (omega arith)
get_or-drop (suc k) [] i = refl
get_or-drop (suc k) (x ∷ mem) i =
    let e : suc k + i ≡ suc (k + i) = omega arith in rw e (get_or-drop k mem i)

-- A start code at an offset below `n` lies whole below `n` when the last byte there is not 0.
code_room :
    (start n : ℕ) (mem : List ℕ)
    → start < n
    → is_code_at (drop start mem) 0 ≡ true
    → get_or mem (n - 1) 0 ≢ 0
    → 4 ≤ n - start
code_room start n mem inside code last = elim (dec_lt (n - start) 4) [
  | no room ↦ omega (arith, room)
  | yes short ↦
      let (tail, e) = is_code_at-IsCoded (drop start mem) code in
      absurd (
        last (
          ap (λ j. get_or mem j 0) (omega (arith, inside))
          ∙ sym (get_or-drop start mem (n - start - 1))
          ∙ ap (λ t. get_or t (n - start - 1) 0) e
          ∙ zero_before (n - start - 1) tail (omega (arith, short))))
]
  where
    zero_before : (j : ℕ) (tail : List ℕ) → j < 3 → get_or (0 ∷ 0 ∷ 0 ∷ 1 ∷ tail) j 0 ≡ 0
    zero_before zero tail lt = refl
    zero_before (suc zero) tail lt = refl
    zero_before (suc (suc zero)) tail lt = refl
    zero_before (suc (suc (suc j))) tail lt = absurd (omega arith)

module _ {ℓ} {σ : Type ℓ} (maxbuf : ℕ) (send_piece send_rest : List ℕ → σ → Option σ)
    (Good : Type 0) (Failed : List (List ℕ) → List ℕ → Type 0) (Sent : List (List ℕ) → σ → Type 0)
    (piece_sent : Sends Good Failed Sent send_piece)
    (rest_sent : Sends Good Failed Sent send_rest) where
  -- What was sent of the `n` bytes in the buffer, and what is kept at its begin, are these bytes.
  abbrev pub Buffered : List ℕ → ℕ → List (List ℕ) → Run (List ℕ × ℕ) σ → Type 0
  Buffered mem n ps spent = ⊥
  Buffered mem n ps (returned s) =
      (qs : List (List ℕ)) × (p : List ℕ) × (left : List ℕ) × Failed (ps ++ qs) p
      × Sent (ps ++ qs) s
      × (concat qs ++ (p ++ left) ≡ take n mem)
  Buffered mem n ps (going (mem', n_last) s) =
      (qs : List (List ℕ)) × Sent (ps ++ qs) s
      × (length mem' ≡ length mem)
      × (concat qs ++ take n_last mem' ≡ take n mem)
      × ((n ≡ maxbuf) ⊎ (n_last ≡ 0))

  after_split-Buffered :
      (mem : List ℕ) (n : ℕ) (ps : List (List ℕ)) (r : Run (ℕ × ℕ × ℕ) σ)
      → n ≤ length mem
      → (Good → get_or mem (n - 1) 0 ≢ 0)
      → Cut maxbuf send_piece send_rest Good Failed Sent piece_sent rest_sent mem n 0 0 ps r
      → Buffered mem n ps (after_split maxbuf send_piece send_rest mem n r)
  unfolding after_split
  after_split-Buffered mem n ps spent fits ends cut = cut
  after_split-Buffered mem n ps (returned s) fits ends (qs, p, left, failed, sent, joined) = (
    qs,
    p,
    left,
    failed,
    sent,
    joined ∙ (let e : n - 0 ≡ n = omega arith in ap (λ t. take t mem) e),
  )
  after_split-Buffered mem n ps (going (start', len', count') s) fits ends
        (qs, sent, same, inside, begins, more, moved, no_code, joined) =
      let all : concat qs ++ slice start' (n - start') mem ≡ take n mem =
        joined ∙ (let e : n - 0 ≡ n = omega arith in ap (λ t. take t mem) e) in
      elim (Bool-cases (ltb 0 count' && (n == maxbuf))) [
        | inl keep ↦ rw keep (
          qs,
          sent,
          length-write_at 0 (slice start' (n - start') mem) mem,
          ap (λ t. concat qs ++ t)
                (take-write_at 0 (slice start' (n - start') mem) mem (n - start')
                  (omega (
                    arith,
                    inside,
                    fits,
                    length-take (n - start') (drop start' mem),
                    length-drop start' mem,
                  ))
                  (omega (arith, fits)))
              ∙ all,
          inl (full_buffer count' keep),
        )
        | inr send ↦
            rw (send, ← same)
              (elim (rest_sent (ps ++ qs) (slice start' (n - start') mem) s
                (Piece-take Good (n - start') (drop start' mem) (omega (arith, inside))
                  (λ good. code_room start' n mem inside begins (ends good)) begins no_code)
                sent) [
                  | inl (s1, ok, sent1) ↦
                      (subst (λ o. Buffered mem n ps (after_send o s (going (mem, 0)))) (sym ok)
                        (
                          qs ++ (slice start' (n - start') mem ∷ []),
                          subst (λ t. Sent t s1)
                              (append_assoc ps qs (slice start' (n - start') mem ∷ [])) sent1,
                          refl,
                          append-nil (concat (qs ++ (slice start' (n - start') mem ∷ [])))
                              ∙ concat-append qs (slice start' (n - start') mem ∷ [])
                              ∙ ap (λ t. concat qs ++ t)
                                  (append-nil (slice start' (n - start') mem))
                              ∙ all,
                          inr refl,
                        ))
                  | inr (refused, failed) ↦
                      subst (λ o. Buffered mem n ps (after_send o s (going (mem, 0)))) (sym refused)
                        (
                          qs,
                          slice start' (n - start') mem,
                          [],
                          failed,
                          sent,
                          ap (λ t. concat qs ++ t) (append-nil (slice start' (n - start') mem))
                              ∙ all,
                        )
                ])
      ]
    where
      full_buffer : (c : ℕ) → (ltb 0 c && (n == maxbuf)) ≡ true → n ≡ maxbuf
      full_buffer c e = ground arith

  from_start-Buffered :
      (mem : List ℕ) (n n_last : ℕ) (ps : List (List ℕ)) (s : σ)
      → 0 < n
      → n ≤ length mem
      → (Good → get_or mem (n - 1) 0 ≢ 0)
      → is_code_at mem 0 ≡ true
      → Sent ps s
      → Buffered mem n ps (from_start maxbuf send_piece send_rest mem n n_last s (some 0))
  unfolding from_start
  from_start-Buffered mem n n_last ps s some_bytes fits ends begins sent =
      after_split-Buffered mem n ps (split_loop maxbuf send_piece send_rest (n + 1) mem n 0 0 0 s)
        fits ends
        (split_loop-Cut maxbuf send_piece send_rest Good Failed Sent piece_sent rest_sent (n + 1)
          mem n 0 0 ps s (omega arith) some_bytes begins sent)

  -- A buffer of `n` bytes that begins with a start code is dealt with whole: what is sent of it, and the
  -- bytes that are kept for the next read, are its bytes in order; bytes are kept only if it was full.
  pub send_buffer-Buffered :
      (mem : List ℕ) (n n_last : ℕ) (ps : List (List ℕ)) (s : σ)
      → 0 < n
      → n ≤ length mem
      → 4 < maxbuf
      → (Good → get_or mem (n - 1) 0 ≢ 0)
      → is_code_at mem 0 ≡ true
      → Sent ps s
      → Buffered mem n ps (send_buffer maxbuf send_piece send_rest mem n n_last s)
  unfolding send_buffer
  send_buffer-Buffered mem n n_last ps s some_bytes fits wide ends code sent =
      let first =
        first_at_zero mem (maxbuf - 4) (find_nal_start_code (some mem) (pos maxbuf)) code
          (omega (arith, wide)) (find_nal_start_code-IsFirst mem maxbuf) in
      subst (λ o. Buffered mem n ps (from_start maxbuf send_piece send_rest mem n n_last s o))
        (sym first) (from_start-Buffered mem n n_last ps s some_bytes fits ends code sent)
