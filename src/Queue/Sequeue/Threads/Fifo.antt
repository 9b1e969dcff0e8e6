-- ===== src/Queue/Sequeue/Threads/Fifo.antt =====
-- The blocks come out in order, in every interleaving in which no block is taken before it is filled.
use test.Base.{
  ℕ, suc, ◌+◌, ◌-◌, ◌*◌, ◌%◌, ◌≤◌, ◌<◌, ◌≡◌, ◌≢◌, ◌∙◌, refl, subst, sym, ap, Bool, true, false,
  ◌&&◌, ◌||◌, List, [], ◌∷◌, ◌++◌, ◌==◌, length, slice, arith, append_assoc,
}
use test.Queue.Cells.{cells, cells-push, cells_of_slot}
use test.Queue.Sequeue.{Run, done, fault, blocked, en_publish}
use test.Queue.Sequeue.Laws.{count, filled, slice-filled_self, slice-filled_ne}
use test.Queue.Sequeue.Threads.{
  EnPc, en_out, en_locked, en_room, en_published, en_leaving, DePc, de_out, de_locked, de_found,
  de_moved, de_leaving, Threads, is_filling, takes_early, Step, en_lock, en_full, en_test, en_move,
  en_fill, en_unlock, de_lock, de_empty, de_test, de_move, de_copy, de_unlock, Reach, begin, later,
}
use test.Queue.Sequeue.Threads.Invariant.{EnFits, DeFits, Inv, Reach-Inv, fill_block, de_read_slot}

-- a slot that was taken and is not copied yet; one that is published and not filled yet
abbrev pub copying : DePc → ℕ
copying de_moved = 1
copying _ = 0

abbrev pub filling : EnPc → ℕ
filling (en_published item) = 1
filling _ = 0

-- the blocks that are filled and not copied out, from the slot at `front` on while it is copied
abbrev pub waiting : ℕ → ℕ → ℕ → List ℕ → ℕ → ℕ → List (List ℕ)
waiting size front rear block c f =
    cells (λ i. slice (i * size) size block) 3 (front + 1 - c) (count front rear + c - f)

-- What came out and what waits is what went in.
abbrev pub Fifo : ℕ → ℕ → ℕ → List ℕ → ℕ → ℕ → List (List ℕ) → List (List ℕ) → Type 0
Fifo size front rear block c f got sent =
    (f ≤ count front rear) × (got ++ waiting size front rear block c f ≡ sent)

copying_le : (pc : DePc) → copying pc ≤ 1
copying_le de_out = omega arith
copying_le de_locked = omega arith
copying_le de_found = omega arith
copying_le de_moved = omega arith
copying_le de_leaving = omega arith

module _ (size front rear : ℕ) (block : List ℕ) (got sent : List (List ℕ)) (front_in : front < 3)
    (rear_in : rear < 3) where
  abbrev read : ℕ → List ℕ
  read i = slice (i * size) size block

  Fifo-publish :
      (c : ℕ)
      → (rear + 1) % 3 ≢ front
      → Fifo size front rear block c 0 got sent
      → Fifo size front ((rear + 1) % 3) block c 1 got sent
  Fifo-publish c room (low, order) =
      let more : count front ((rear + 1) % 3) ≡ count front rear + 1 =
        omega (arith, room, front_in, rear_in) in
      (
        omega (arith, more),
        ap (λ n. got ++ cells read 3 (front + 1 - c) n) (omega (arith, more)) ∙ order,
      )

  Fifo-fill :
      (c : ℕ) (item : List ℕ)
      → c ≤ 1
      → length item ≡ size
      → length block ≡ 3 * size
      → Fifo size front rear block c 1 got sent
      → Fifo size front rear (filled rear size item block) c 0 got (sent ++ (item ∷ []))
  Fifo-fill c item few len whole (low, order) =
      let n : ℕ = count front rear + c - 1 in
      let one_more : count front rear + c - 0 ≡ suc n = omega (arith, low) in
      let read' : ℕ → List ℕ = λ i. slice (i * size) size (filled rear size item block) in
      (
        omega arith,
        ap (λ m. got ++ cells read' 3 (front + 1 - c) m) one_more
            ∙ ap (λ t. got ++ t)
                (cells-push read read' 3 item n (front + 1 - c) rear (omega (arith, few))
                  (omega (arith, few, low, front_in, rear_in))
                  (slice-filled_self rear size item block len rear_in whole)
                  (slice-filled_ne rear size item block len rear_in whole))
            ∙ sym (append_assoc got (cells read 3 (front + 1 - c) n) (item ∷ []))
            ∙ ap (λ t. t ++ (item ∷ [])) order,
      )

  Fifo-take :
      (f : ℕ)
      → front ≢ rear
      → f ≤ count ((front + 1) % 3) rear
      → Fifo size front rear block 0 f got sent
      → Fifo size ((front + 1) % 3) rear block 1 f got sent
  Fifo-take f found enough (low, order) =
      let fewer : count front rear ≡ count ((front + 1) % 3) rear + 1 =
        omega (arith, found, front_in, rear_in) in
      let same : count ((front + 1) % 3) rear + 1 - f ≡ count front rear + 0 - f =
        omega (arith, fewer) in
      (
        enough,
        ap (λ n. got ++ cells read 3 ((front + 1) % 3 + 1 - 1) n) same
            ∙ ap (λ t. got ++ t)
                (cells_of_slot read 3 (count front rear + 0 - f) ((front + 1) % 3 + 1 - 1)
                  (front + 1 - 0) (omega arith))
            ∙ order,
      )

  Fifo-copy :
      (f : ℕ)
      → Fifo size front rear block 1 f got sent
      → Fifo size front rear block 0 f (got ++ (read front ∷ [])) sent
  Fifo-copy f (low, order) =
      let n : ℕ = count front rear + 0 - f in
      let one_more : count front rear + 1 - f ≡ suc n = omega (arith, low) in
      let at_front : (front + 1 - 1) % 3 ≡ front = omega (arith, front_in) in
      let next : front + 1 - 1 + 1 ≡ front + 1 - 0 = omega arith in
      let shape : waiting size front rear block 1 f ≡ read front ∷ cells read 3 (front + 1 - 0) n =
        ap (λ m. cells read 3 (front + 1 - 1) m) one_more
        ∙ ap (λ i. read i ∷ cells read 3 (front + 1 - 1 + 1) n) at_front
        ∙ ap (λ k. read front ∷ cells read 3 k n) next in
      (
        low,
        append_assoc got (read front ∷ []) (cells read 3 (front + 1 - 0) n)
            ∙ ap (λ t. got ++ t) (sym shape)
            ∙ order,
      )

abbrev pub FifoOf : ℕ → Threads → Type 0
FifoOf size s = Fifo size s.front s.rear s.block (copying s.de) (filling s.en) s.got s.sent

-- The claim of a state with its two numbers known.
at_en :
    (size : ℕ) (s : Threads) {pc : EnPc}
    → s.en ≡ pc
    → FifoOf size s
    → Fifo size s.front s.rear s.block (copying s.de) (filling pc) s.got s.sent
at_en size s e fifo =
    subst (λ f. Fifo size s.front s.rear s.block (copying s.de) f s.got s.sent) (ap filling e) fifo

at_de :
    (size : ℕ) (s : Threads) {pc : DePc}
    → s.de ≡ pc
    → FifoOf size s
    → Fifo size s.front s.rear s.block (copying pc) (filling s.en) s.got s.sent
at_de size s e fifo =
    subst (λ c. Fifo size s.front s.rear s.block c (filling s.en) s.got s.sent) (ap copying e) fifo

or_false : (a b : Bool) → (a || b) ≡ false → (a ≡ false) × (b ≡ false)
or_false false b e = (refl, e)
or_false true b e = absurd (cc e)

-- A slot that is not taken early leaves a filled one behind when a slot is being filled.
still_ahead :
    (front rear : ℕ) (pc : EnPc)
    → front < 3
    → rear < 3
    → front ≢ rear
    → (is_filling pc && ((front + 1) % 3 == rear)) ≡ false
    → filling pc ≤ count ((front + 1) % 3) rear
still_ahead front rear en_out f r ne calm = omega arith
still_ahead front rear (en_locked item) f r ne calm = omega arith
still_ahead front rear (en_room item) f r ne calm = omega arith
still_ahead front rear (en_published item) f r ne calm = ground (arith, f, r, ne, calm)
still_ahead front rear en_leaving f r ne calm = omega arith

abbrev bytes_read : Run (List ℕ) → List ℕ
bytes_read (done b) = b
bytes_read fault = []
bytes_read blocked = []

Step-Fifo :
    {size : ℕ} {s t : Threads}
    → Step size s t
    → Inv size s
    → (s.raced ≡ false → FifoOf size s)
    → t.raced ≡ false
    → FifoOf size t
unfolding en_publish
Step-Fifo {size} {s} (en_lock item e len) inv so_far calm = at_en size s e (so_far calm)
Step-Fifo {size} {s} (en_full item e full) inv so_far calm = at_en size s e (so_far calm)
Step-Fifo {size} {s} (en_test item e room) inv so_far calm = at_en size s e (so_far calm)
Step-Fifo {size} {s} (en_move item e) inv so_far calm =
    let (len, room) = subst (EnFits size s.front s.rear) e inv.en_fits in
    Fifo-publish size s.front s.rear s.block s.got s.sent inv.front_in inv.rear_in (copying s.de)
      room (at_en size s e (so_far calm))
Step-Fifo {size} {s} (en_fill item block e ran) inv so_far calm =
    let len : length item ≡ size = subst (EnFits size s.front s.rear) e inv.en_fits in
    subst (λ b. Fifo size s.front s.rear b (copying s.de) 0 s.got (s.sent ++ (item ∷ [])))
      (sym (fill_block size item block s ran inv.block_size inv.rear_in))
      (Fifo-fill size s.front s.rear s.block s.got s.sent inv.front_in inv.rear_in (copying s.de)
        item (copying_le s.de) len inv.block_size (at_en size s e (so_far calm)))
Step-Fifo {size} {s} (en_unlock e) inv so_far calm = at_en size s e (so_far calm)
Step-Fifo {size} {s} (de_lock e) inv so_far calm = at_de size s e (so_far calm)
Step-Fifo {size} {s} (de_empty e none_left) inv so_far calm = at_de size s e (so_far calm)
Step-Fifo {size} {s} (de_test e some_left) inv so_far calm = at_de size s e (so_far calm)
Step-Fifo {size} {s} (de_move e) inv so_far calm =
    let (calm_before, in_time) = or_false s.raced (takes_early s) calm in
    let found : s.front ≢ s.rear = subst (DeFits s.front s.rear) e inv.de_fits in
    Fifo-take size s.front s.rear s.block s.got s.sent inv.front_in inv.rear_in (filling s.en) found
      (still_ahead s.front s.rear s.en inv.front_in inv.rear_in found in_time)
      (at_de size s e (so_far calm_before))
Step-Fifo {size} {s} (de_copy out e ran) inv so_far calm =
    let slot : List ℕ = slice (s.front * size) size s.block in
    let copied : slot ≡ out =
      ap bytes_read (sym (de_read_slot size s inv.block_size inv.front_in) ∙ ran) in
    subst (λ o. Fifo size s.front s.rear s.block 0 (filling s.en) (s.got ++ (o ∷ [])) s.sent) copied
      (Fifo-copy size s.front s.rear s.block s.got s.sent inv.front_in inv.rear_in (filling s.en)
        (at_de size s e (so_far calm)))
Step-Fifo {size} {s} (de_unlock e) inv so_far calm = at_de size s e (so_far calm)

Reach-Fifo :
    {size : ℕ} {block : List ℕ} {s : Threads}
    → length block ≡ 3 * size
    → Reach size block s
    → s.raced ≡ false
    → FifoOf size s
Reach-Fifo whole begin calm = (omega arith, refl)
Reach-Fifo whole (later r st) calm = Step-Fifo st (Reach-Inv whole r) (Reach-Fifo whole r) calm

-- From an empty queue, for any number of calls of `EnDataQueue` and `DeDataQueue` in any interleaving in
-- which no slot is taken before it is filled: the blocks that came out, and then those that are filled and
-- not copied out, are the blocks that went in, in order, each once and whole.
pub threads-Fifo :
    (size : ℕ) (block : List ℕ) (s : Threads)
    → length block ≡ 3 * size
    → Reach size block s
    → s.raced ≡ false
    → s.got ++ waiting size s.front s.rear s.block (copying s.de) (filling s.en) ≡ s.sent
threads-Fifo size block s whole r calm = (Reach-Fifo whole r calm).1
