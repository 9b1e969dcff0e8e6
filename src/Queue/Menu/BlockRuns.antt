-- ===== src/Queue/Menu/BlockRuns.antt =====
-- What common/queue_test.c prints.
use test.Base.{
  ℕ, ◌+◌, ◌*◌, ◌%◌, ◌≡◌, ◌∙◌, refl, sym, ap, subst, Bool, true, false, Option, none, some, List, [],
  ◌∷◌, ◌++◌, ◌==◌, slice, ltb, if◌then◌else◌, length, arith, replicate, All, dec_lt,
}
use test.Base.Int.{ℤ, pos, minus_one}
use test.Queue.Cells.{cells, length-cells}
use test.Queue.Sequeue.{
  Sequeue, create_empty_data_sequeue, en_data_queue, de_data_queue, get_sequeue_size,
}
use test.Queue.Sequeue.Laws.{
  live, IsValid, count, contents, en_data_queue-full, en_data_queue-append, de_data_queue-empty,
  de_data_queue-pop, get_sequeue_size-count,
}
use test.Queue.Menu.{
  Cmd, create, push, pop, destroy, leave, wrong, Calls, silent, shown, command, menu,
}
use test.Queue.Menu.Refines.{SameStep, menu-same}
use test.Queue.Menu.Programs.{blocks_program, blocks_calls, blocks_kept, blocks_popped}

-- the same calls on a list of at most two blocks, the oldest first, which is there after a `create`
abbrev pub row_push : List ℕ → Option (List (List ℕ)) → Option (Option (List (List ℕ)))
row_push item none = none
row_push item (some xs) = some (some (if ltb (length xs) 2 then xs ++ (item ∷ []) else xs))

abbrev pub row_pop : ℕ → Option (List (List ℕ)) → Option (List ℕ × Option (List (List ℕ)))
row_pop size none = none
row_pop size (some []) = some (replicate size 0, some [])
row_pop size (some (item ∷ xs)) = some (item, some xs)

-- An empty row counts as three.
abbrev pub row_size : Option (List (List ℕ)) → ℤ
row_size none = minus_one
row_size (some xs) = pos (if length xs == 0 then 3 else length xs)

unfoldable pub row_calls : ℕ → Calls (List ℕ) (Option (List (List ℕ)))
row_calls size = record {
  on_create = λ q. some (some []);
  on_push = row_push;
  on_pop = row_pop size;
  on_destroy = λ q. some q;
  size_of = λ q. some (row_size q);
}

-- A block that is typed has this size.
abbrev pub IsSized : ℕ → Cmd (List ℕ) → Type 0
IsSized size (push item) = length item ≡ size
IsSized size create = Unit {0}
IsSized size pop = Unit {0}
IsSized size destroy = Unit {0}
IsSized size leave = Unit {0}
IsSized size wrong = Unit {0}

-- The queue is not there, or it is valid, its locks are free and the row has its blocks.
abbrev Rows : ℕ → Option Sequeue → Option (List (List ℕ)) → Type 0
Rows size none none = Unit {0}
Rows size none (some xs) = ⊥
Rows size (some q) none = ⊥
Rows size (some q) (some xs) =
    (front : ℕ) × (rear : ℕ) × (block : List ℕ) × (q ≡ live front rear block)
    × IsValid size front rear block
    × (contents size front rear block ≡ xs)

abbrev Holds : ℕ → List (Cmd (List ℕ)) → Option Sequeue → Option (List (List ℕ)) → Type 0
Holds size cmds q xs = All (IsSized size) cmds × Rows size q xs

length-contents :
    (size front rear : ℕ) (block : List ℕ)
    → length (contents size front rear block) ≡ count front rear
length-contents size front rear block =
    length-cells (λ i. slice (i * size) size block) 3 (front + 1) (count front rear)

size_same :
    (size : ℕ) (q : Option Sequeue) (xs : Option (List (List ℕ)))
    → Rows size q xs
    → get_sequeue_size q ≡ row_size xs
unfolding get_sequeue_size
size_same size none none r = refl
size_same size none (some xs) r = absurd r
size_same size (some q) none r = absurd r
size_same size (some q) (some xs) (front, rear, block, e, v, same) =
    ap (λ t. get_sequeue_size (some t)) e
    ∙ get_sequeue_size-count size front rear block v
    ∙ ap (λ n. pos (if n == 0 then 3 else n))
        (sym (length-contents size front rear block) ∙ ap length same)

module _ (size : ℕ) (first : Bool) (second : Option (List ℕ)) where
  -- A step of both, when the queues behind it are known.
  row_step :
      (popped : Option (List ℕ)) (q : Option Sequeue) (xs : Option (List (List ℕ)))
      (cmds : List (Cmd (List ℕ)))
      → All (IsSized size) cmds
      → Rows size q xs
      → SameStep
          (blocks_calls size first second)
          (row_calls size)
          (Holds size)
          cmds
          (some (popped, q))
          (some (popped, xs))
  unfolding blocks_calls row_calls
  row_step popped q xs cmds sized r = (refl, ap some (size_same size q xs r), (sized, r))

  module _ (front rear : ℕ) (block : List ℕ) (v : IsValid size front rear block) where
    push_step :
        (item : List ℕ) (cmds : List (Cmd (List ℕ)))
        → length item ≡ size
        → All (IsSized size) cmds
        → SameStep
            (blocks_calls size first second)
            (row_calls size)
            (Holds size)
            cmds
            (silent (blocks_kept (en_data_queue (some (live front rear block)) item size)))
            (silent (row_push item (some (contents size front rear block))))
    push_step item cmds len sized =
        let n = length-contents size front rear block in
        elim (dec_lt (count front rear) 2) [
          | yes room ↦
              let (block', ran, v', same) =
                en_data_queue-append size front rear block v item len room in
              let free : ltb (length (contents size front rear block)) 2 ≡ true =
                ground (arith, n, room) in
              rw (ran, free)
                (row_step none (some (live front ((rear + 1) % 3) block'))
                  (some (contents size front rear block ++ (item ∷ []))) cmds sized
                  (front, (rear + 1) % 3, block', refl, v', same))
          | no other ↦
              let two : count front rear ≡ 2 = omega (arith, other) in
              let full : ltb (length (contents size front rear block)) 2 ≡ false =
                ground (arith, n, two) in
              rw (en_data_queue-full size front rear block v item two, full)
                (row_step none (some (live front rear block))
                  (some (contents size front rear block)) cmds sized
                  (front, rear, block, refl, v, refl))
        ]

    pop_step :
        (cmds : List (Cmd (List ℕ)))
        → All (IsSized size) cmds
        → SameStep
            (blocks_calls size first second)
            (row_calls size)
            (Holds size)
            cmds
            (shown (blocks_popped size (de_data_queue (some (live front rear block)) true size)))
            (shown (row_pop size (some (contents size front rear block))))
    pop_step cmds sized = elim (dec_lt 0 (count front rear)) [
      | yes items ↦
          let (item, ran, v', same) = de_data_queue-pop size front rear block v true items in
          rw (ran, same)
            (row_step (some item) (some (live ((front + 1) % 3) rear block))
              (some (contents size ((front + 1) % 3) rear block)) cmds sized
              ((front + 1) % 3, rear, block, refl, v', refl))
      | no other ↦
          let none_left : count front rear ≡ 0 = omega (arith, other) in
          let empty : contents size front rear block ≡ [] =
            ap (cells (λ i. slice (i * size) size block) 3 (front + 1)) none_left in
          rw (de_data_queue-empty size front rear block v true none_left, empty)
            (row_step (some (replicate size 0)) (some (live front rear block)) (some []) cmds sized
              (front, rear, block, refl, v, empty))
    ]

module _ (size : ℕ) (block₀ : List ℕ) (whole : length block₀ ≡ 3 * size) where
  abbrev Same :
      List (Cmd (List ℕ))
      → Option (Option (List ℕ) × Option Sequeue)
      → Option (Option (List ℕ) × Option (List (List ℕ)))
      → Type 0
  Same = SameStep (blocks_calls size true (some block₀)) (row_calls size) (Holds size)

  command-SameStep :
      (cmd : Cmd (List ℕ)) (cmds : List (Cmd (List ℕ))) (q : Option Sequeue)
      (xs : Option (List (List ℕ)))
      → Holds size (cmd ∷ cmds) q xs
      → Same cmds
          (command (blocks_calls size true (some block₀)) cmd q)
          (command (row_calls size) cmd xs)
  unfolding command blocks_calls row_calls create_empty_data_sequeue en_data_queue de_data_queue
  command-SameStep create cmds q xs ((len, sized), r) =
      row_step size true (some block₀) none (some (live 0 0 block₀)) (some []) cmds sized (
        0,
        0,
        block₀,
        refl,
        record { block_size = whole; front_in = omega arith; rear_in = omega arith },
        refl,
      )
  command-SameStep destroy cmds q xs ((len, sized), r) =
      row_step size true (some block₀) none q xs cmds sized r
  command-SameStep leave cmds q xs ((len, sized), r) =
      row_step size true (some block₀) none q xs cmds sized r
  command-SameStep wrong cmds q xs ((len, sized), r) =
      row_step size true (some block₀) none q xs cmds sized r
  command-SameStep (push item) cmds none none ((len, sized), r) = tt
  command-SameStep (push item) cmds none (some xs) ((len, sized), r) = absurd r
  command-SameStep (push item) cmds (some q) none ((len, sized), r) = absurd r
  command-SameStep (push item) cmds (some q) (some xs)
        ((len, sized), (front, rear, block, e, v, same)) =
      subst
        (λ t.
          Same cmds (silent (blocks_kept (en_data_queue (some t) item size)))
            (silent (row_push item (some xs))))
        (sym e)
        (subst
          (λ t.
            Same cmds
              (silent (blocks_kept (en_data_queue (some (live front rear block)) item size)))
              (silent (row_push item (some t))))
          same (push_step size true (some block₀) front rear block v item cmds len sized))
  command-SameStep pop cmds none none ((len, sized), r) = tt
  command-SameStep pop cmds none (some xs) ((len, sized), r) = absurd r
  command-SameStep pop cmds (some q) none ((len, sized), r) = absurd r
  command-SameStep pop cmds (some q) (some xs) ((len, sized), (front, rear, block, e, v, same)) =
      subst
        (λ t.
          Same cmds (shown (blocks_popped size (de_data_queue (some t) true size)))
            (shown (row_pop size (some xs))))
        (sym e)
        (subst
          (λ t.
            Same cmds
              (shown (blocks_popped size (de_data_queue (some (live front rear block)) true size)))
              (shown (row_pop size (some t))))
          same (pop_step size true (some block₀) front rear block v cmds sized))

-- The program common/queue_test.c, when each `malloc` gives its block (with the same bytes each time) and each
-- block that is typed has `size` bytes, prints line for line what a list of at most two blocks prints: there is none before the first
-- command 1, where a command 2 or 3 is undefined and the size is -1; a block on two is lost; taking
-- shows the oldest block or a cleared one; and each line has the number of blocks, or 3 for none.
pub blocks_program-menu :
    (size : ℕ) (block : List ℕ) (cmds : List (Cmd (List ℕ)))
    → length block ≡ 3 * size
    → All (IsSized size) cmds
    → blocks_program size true (some block) cmds ≡ menu (row_calls size) cmds none
blocks_program-menu size block cmds whole sized =
    menu-same (blocks_calls size true (some block)) (row_calls size) (Holds size)
      (command-SameStep size block whole) cmds none none (sized, tt)
