-- ===== src/Programs/Splitter/Whole.antt =====
-- A file that fits the buffer is sent whole, in each pass.
use test.Base.{
  ◌≢◌, get_or, ℕ, zero, suc, ◌+◌, ◌-◌, ◌≤◌, ◌<◌, ◌≡◌, subst, ◌∙◌, inl, inr, refl, sym, ap, false,
  Option, List, [], ◌∷◌, ◌++◌, ◌==◌, length, take, drop, write_at, arith, append_assoc, append-nil,
  take-write_at, take_all, drop_all, length-write_at, take-nil,
}
use test.Programs.Splitter.{
  Run, going, returned, spent, and_read, send_buffer, read_loop, send_file, passes,
}
use test.Programs.Splitter.Pieces.{concat, concat-append, Sends}
use test.Programs.Splitter.Files.{Buffered, send_buffer-Buffered, code_written}

-- a file that begins with a start code
abbrev pub coded : List ℕ → List ℕ
coded rest = 0 ∷ 0 ∷ 0 ∷ 1 ∷ rest

-- The last byte is not 0.
abbrev pub EndsNonzero : List ℕ → Type 0
EndsNonzero file = get_or file (length file - 1) 0 ≢ 0

-- the same list again and again
abbrev pub repeated : ℕ → List ℕ → List ℕ
repeated zero xs = []
repeated (suc k) xs = xs ++ repeated k xs

-- a byte of what was written
get_or-written :
    (file mem : List ℕ) (j : ℕ)
    → j < length file
    → length file ≤ length mem
    → get_or (write_at 0 file mem) j 0 ≡ get_or file j 0
get_or-written [] mem j inside fits = absurd (omega arith)
get_or-written (x ∷ file) [] j inside fits = absurd (omega arith)
get_or-written (x ∷ file) (y ∷ mem) zero inside fits = refl
get_or-written (x ∷ file) (y ∷ mem) (suc j) inside fits =
    get_or-written file mem j (omega arith) (omega arith)

module _ {ℓ} {σ : Type ℓ} (maxbuf : ℕ) (send_piece send_rest : List ℕ → σ → Option σ)
    (Good : Type 0) (Failed : List (List ℕ) → List ℕ → Type 0) (Sent : List (List ℕ) → σ → Type 0)
    (piece_sent : Sends Good Failed Sent send_piece)
    (rest_sent : Sends Good Failed Sent send_rest) where
  -- The run ended with an empty buffer of the same size, and sent `bytes` in pieces; or the send of a piece
  -- failed, and the pieces before it and this one are what `bytes` begin with.
  abbrev pub Whole : List ℕ → List ℕ → List (List ℕ) → Run (List ℕ × ℕ) σ → Type 0
  Whole mem bytes ps spent = ⊥
  Whole mem bytes ps (returned s) =
      (qs : List (List ℕ)) × (p : List ℕ) × (left : List ℕ) × Failed (ps ++ qs) p
      × Sent (ps ++ qs) s
      × (concat qs ++ (p ++ left) ≡ bytes)
  Whole mem bytes ps (going (mem', n_last) s) =
      (n_last ≡ 0)
      × (length mem' ≡ length mem)
      × ((qs : List (List ℕ)) × Sent (ps ++ qs) s × (concat qs ≡ bytes))

  read_loop-end :
      (fuel : ℕ) (mem : List ℕ) (n_last : ℕ) (s : σ)
      → read_loop maxbuf send_piece send_rest (suc fuel) [] mem n_last s ≡ going (mem, n_last) s
  unfolding read_loop
  read_loop-end fuel mem n_last s =
      let nothing : take {A = ℕ} (maxbuf - n_last) [] ≡ [] = take-nil (maxbuf - n_last) in
      rw nothing refl

  -- After a buffer that was not full, the next read finds the end of the file.
  Whole-Buffered :
      (fuel : ℕ) (mem mem1 file : List ℕ) (n : ℕ) (ps : List (List ℕ)) (r : Run (List ℕ × ℕ) σ)
      → n < maxbuf
      → length mem1 ≡ length mem
      → take n mem1 ≡ file
      → Buffered maxbuf send_piece send_rest Good Failed Sent piece_sent rest_sent mem1 n ps r
      → Whole mem file ps (and_read (read_loop maxbuf send_piece send_rest (suc fuel) []) r)
  Whole-Buffered fuel mem mem1 file n ps spent short size holds b = b
  Whole-Buffered fuel mem mem1 file n ps (returned s) short size holds
        (qs, p, left, failed, sent, joined) =
      (qs, p, left, failed, sent, joined ∙ holds)
  Whole-Buffered fuel mem mem1 file n ps (going (mem', n_last) s) short size holds
        (qs, sent, len, joined, inl full) =
      absurd (omega arith)
  Whole-Buffered fuel mem mem1 file n ps (going (mem', n_last) s) short size holds
        (qs, sent, len, joined, inr empty) =
      subst (Whole mem file ps) (sym (read_loop-end fuel mem' n_last s)) (
        empty,
        len ∙ size,
        (
          qs,
          sent,
          sym (append-nil (concat qs))
              ∙ ap (λ t. concat qs ++ take t mem') (sym empty)
              ∙ joined
              ∙ holds,
        ),
      )

  read_loop-first :
      (fuel : ℕ) (rest mem : List ℕ) (s : σ)
      → length (coded rest) < maxbuf
      → read_loop maxbuf send_piece send_rest (suc fuel) (coded rest) mem 0 s
        ≡ and_read (read_loop maxbuf send_piece send_rest fuel []) (
            send_buffer maxbuf send_piece send_rest
              (write_at 0 (coded rest) mem)
              (length (coded rest) + 0)
              0
              s)
  unfolding read_loop
  read_loop-first fuel rest mem s short =
      let file = coded rest in
      let chunk : take (maxbuf - 0) file ≡ file =
        take_all (maxbuf - 0) file (omega (arith, short)) in
      let left : drop (maxbuf - 0) file ≡ [] = drop_all (maxbuf - 0) file (omega (arith, short)) in
      let more : (length file == 0) ≡ false = ground arith in rw (chunk, left, more) refl

  send_file-Whole :
      (rest mem : List ℕ) (ps : List (List ℕ)) (s : σ)
      → length (coded rest) < maxbuf
      → maxbuf ≤ length mem
      → (Good → EndsNonzero (coded rest))
      → Sent ps s
      → Whole mem (coded rest) ps (send_file maxbuf send_piece send_rest (coded rest) mem 0 s)
  unfolding send_file
  send_file-Whole rest mem ps s short fits ends sent =
      let file = coded rest in
      let mem1 = write_at 0 file mem in
      let n = length file + 0 in
      let fuel : length file + 1 ≡ suc (suc (length rest + 3)) = omega arith in
      let size : length mem1 ≡ length mem = length-write_at 0 file mem in
      subst (λ f. Whole mem file ps (read_loop maxbuf send_piece send_rest f file mem 0 s))
        (sym fuel)
        (subst (Whole mem file ps) (sym (read_loop-first (suc (length rest + 3)) rest mem s short))
          (Whole-Buffered (length rest + 3) mem mem1 file n ps _ (omega (arith, short)) size
            (take-write_at 0 file mem n (omega arith) (omega (arith, short, fits)))
            (send_buffer-Buffered maxbuf send_piece send_rest Good Failed Sent piece_sent rest_sent
              mem1 n 0 ps s (omega arith) (omega (arith, short, fits, size)) (omega (arith, short))
              (λ good e. ends good (
                sym (
                  get_or-written file mem (length file - 1) (omega arith)
                    (omega (arith, short, fits)))
                ∙ ap (λ j. get_or mem1 j 0) (omega arith)
                ∙ e))
              (code_written rest mem (omega (arith, short, fits))) sent)))

  Whole-and :
      (mem bytes : List ℕ) (k : ℕ) (ps : List (List ℕ)) (r : Run (List ℕ × ℕ) σ)
      (again : List ℕ → ℕ → σ → Run (List ℕ × ℕ) σ)
      → Whole mem bytes ps r
      → ((mem' : List ℕ) (ps' : List (List ℕ)) (s' : σ)
          → length mem' ≡ length mem
          → Sent ps' s'
          → Whole mem' (repeated k bytes) ps' (again mem' 0 s'))
      → Whole mem (bytes ++ repeated k bytes) ps (and_read again r)
  Whole-and mem bytes k ps spent again w next = w
  Whole-and mem bytes k ps (returned s) again (qs, p, left, failed, sent, joined) next = (
    qs,
    p,
    left ++ repeated k bytes,
    failed,
    sent,
    ap (λ t. concat qs ++ t) (sym (append_assoc p left (repeated k bytes)))
        ∙ sym (append_assoc (concat qs) (p ++ left) (repeated k bytes))
        ∙ ap (λ t. t ++ repeated k bytes) joined,
  )
  Whole-and mem bytes k ps (going (mem', n_last) s) again (empty, size, (qs, sent, joined)) next =
      subst (λ t. Whole mem (bytes ++ repeated k bytes) ps (again mem' t s)) (sym empty)
        (joint (again mem' 0 s) (next mem' (ps ++ qs) s size sent))
    where
      joint :
          (r : Run (List ℕ × ℕ) σ)
          → Whole mem' (repeated k bytes) (ps ++ qs) r
          → Whole mem (bytes ++ repeated k bytes) ps r
      joint spent w = w
      joint (returned s') (qs', p, left, failed, sent', joined') = (
        qs ++ qs',
        p,
        left,
        subst (λ t. Failed t p) (append_assoc ps qs qs') failed,
        subst (λ t. Sent t s') (append_assoc ps qs qs') sent',
        ap (λ t. t ++ (p ++ left)) (concat-append qs qs')
            ∙ append_assoc (concat qs) (concat qs') (p ++ left)
            ∙ ap (λ t. t ++ (concat qs' ++ (p ++ left))) joined
            ∙ ap (λ t. bytes ++ t) joined',
      )
      joint (going (mem2, n2) s') (empty', size', (qs', sent', joined')) = (
        empty',
        size' ∙ size,
        (
          qs ++ qs',
          subst (λ t. Sent t s') (append_assoc ps qs qs') sent',
          concat-append qs qs' ∙ ap (λ t. t ++ concat qs') joined ∙ ap (λ t. bytes ++ t) joined',
        ),
      )

  -- Each pass over a file that begins with a start code and is shorter than the buffer ends, and sends
  -- the whole file in pieces; `k` passes send it `k` times.
  pub passes-Whole :
      (k : ℕ) (rest mem : List ℕ) (ps : List (List ℕ)) (s : σ)
      → length (coded rest) < maxbuf
      → maxbuf ≤ length mem
      → (Good → EndsNonzero (coded rest))
      → Sent ps s
      → Whole mem
          (repeated k (coded rest))
          ps
          (passes maxbuf send_piece send_rest k (coded rest) mem 0 s)
  unfolding passes
  passes-Whole zero rest mem ps s short fits ends sent =
      (refl, refl, ([], subst (λ t. Sent t s) (sym (append-nil ps)) sent, refl))
  passes-Whole (suc k) rest mem ps s short fits ends sent =
      Whole-and mem (coded rest) k ps _ (passes maxbuf send_piece send_rest k (coded rest))
        (send_file-Whole rest mem ps s short fits ends sent)
        (λ mem' ps' s' size sent'.
          passes-Whole k rest mem' ps' s' short (omega (arith, fits, size)) ends sent')
