-- ===== src/Queue/Menu/PointerRuns.antt =====
-- What data_structure/queue_linear_pointer_test.c prints.
use test.Base.{
  ℕ, suc, ◌+◌, ◌-◌, ◌^◌, ◌<◌, ◌≡◌, refl, sym, ap, subst, true, false, Option, none, some, List, [],
  ◌∷◌, ◌++◌, ltb, length, arith, get_or, dec_lt,
}
use test.Queue.Cells.{cells}
use test.Queue.Item.{Item, no_item}
use test.Queue.Pointer.{
  Queue, push_queue, full_queue, pop_queue, destroy_queue, create_queue, empty_queue, is_null, free,
  rem, allocated,
}
use test.Queue.Pointer.Laws.{queue, IsValid, contents, push_queue-contents, pop_queue-contents}
use test.Queue.Menu.{Cmd, create, push, pop, destroy, leave, wrong, silent, shown, command, menu}
use test.Queue.Menu.Refines.{SameStep, menu-same}
use test.Queue.Menu.Programs.{
  pointer_program, pointer_calls, pointer_start, pointer_pushed, pointer_popped,
}
use test.Queue.Menu.Stock.{
  Stock, absent, holding, gone, stock_push, stock_pop, stock_calls, emptied, Holds, length-contents,
  size_same,
}

module _ (block : List Item) (whole : length block ≡ 3) where
  abbrev Same :
      List (Cmd Item) → Option (Option Item × Queue) → Option (Option Item × Stock) → Type 0
  Same = SameStep (pointer_calls block) stock_calls Holds

  stock_step :
      (popped : Option Item) (q : Queue) (x : Stock) (cmds : List (Cmd Item))
      → Holds cmds q x
      → Same cmds (some (popped, q)) (some (popped, x))
  unfolding pointer_calls stock_calls
  stock_step popped q x cmds r = (refl, size_same cmds q x r, r)

  module _ (head rear : ℕ) (s : List Item) (v : IsValid 2 head rear s) where
    push_step :
        (item : Item) (cmds : List (Cmd Item))
        → rear + suc (length cmds) < 2 ^ 32
        → Same cmds
            (silent
              (pointer_pushed (queue 2 head rear s) (push_queue (some (queue 2 head rear s)) item)))
            (silent (stock_push item (holding (contents 2 head rear s))))
    push_step item cmds room =
        let n = length-contents head rear s in
        let (refuses, appends) = push_queue-contents 2 head rear s v item (omega (arith, room)) in
        elim (dec_lt (length (contents 2 head rear s)) 3) [
          | yes part ↦
              let (s', ran, v', same) = appends part in
              let free : ltb (length (contents 2 head rear s)) 3 ≡ true = ground (arith, part) in
              rw (ran, free)
                (stock_step none (queue 2 head (rear + 1) s')
                  (holding (contents 2 head rear s ++ (item ∷ []))) cmds
                  (head, rear + 1, s', refl, v', same, omega (arith, room)))
          | no other ↦
              let all : length (contents 2 head rear s) ≡ 3 = omega (arith, n, other, v.room) in
              let full : ltb (length (contents 2 head rear s)) 3 ≡ false = ground (arith, all) in
              rw (refuses all, full)
                (stock_step none (queue 2 head rear s) (holding (contents 2 head rear s)) cmds
                  (head, rear, s, refl, v, refl, omega (arith, room)))
        ]

    pop_step :
        (cmds : List (Cmd Item))
        → rear + suc (length cmds) < 2 ^ 32
        → Same cmds
            (shown (pointer_popped (queue 2 head rear s) (pop_queue (some (queue 2 head rear s)))))
            (shown (some (stock_pop (holding (contents 2 head rear s)))))
    pop_step cmds room =
        let n = length-contents head rear s in
        let (refuses, hands_out) = pop_queue-contents 2 head rear s v in
        elim (dec_lt 0 (length (contents 2 head rear s))) [
          | yes items ↦
              let (item, ran, v', same) = hands_out items in
              rw (ran, same)
                (stock_step (some item) (queue 2 (head + 1) rear s)
                  (holding (contents 2 (head + 1) rear s)) cmds
                  (head + 1, rear, s, refl, v', refl, omega (arith, room)))
          | no other ↦
              let none_left : rear - head ≡ 0 = omega (arith, n, other) in
              let empty : contents 2 head rear s ≡ [] =
                ap (cells (λ i. get_or s i no_item) 3 head) none_left in
              rw (refuses empty, empty)
                (stock_step (some no_item) (queue 2 head rear s) (holding []) cmds
                  (head, rear, s, refl, v, empty, omega (arith, room)))
        ]

  created :
      (cmds : List (Cmd Item)) (q : Queue) (x : Stock)
      → length cmds < 2 ^ 32
      → Same cmds (command (pointer_calls block) create q) (command stock_calls create x)
  unfolding command pointer_calls stock_calls create_queue allocated
  created cmds q x room =
      let v : IsValid 2 0 0 block = record {
        slots = whole;
        order = omega arith;
        room = omega arith;
        word = omega arith;
      } in
      stock_step none (queue 2 0 0 block) (holding []) cmds
        (0, 0, block, refl, v, refl, omega (arith, room))

  -- A command on the queue of a stock, when there is no array.
  start_step :
      (cmd : Cmd Item) (cmds : List (Cmd Item))
      → length (cmd ∷ cmds) < 2 ^ 32
      → Same cmds (command (pointer_calls block) cmd pointer_start) (command stock_calls cmd absent)
  unfolding command pointer_calls stock_calls push_queue full_queue pop_queue empty_queue is_null
      destroy_queue
  start_step create cmds room = created cmds pointer_start absent (omega arith)
  start_step (push item) cmds room = stock_step none pointer_start absent cmds (refl, omega arith)
  start_step pop cmds room = stock_step (some no_item) pointer_start absent cmds (refl, omega arith)
  start_step destroy cmds room = stock_step none pointer_start absent cmds (refl, omega arith)
  start_step leave cmds room = stock_step none pointer_start absent cmds (refl, omega arith)
  start_step wrong cmds room = stock_step none pointer_start absent cmds (refl, omega arith)

  -- The same when the array was freed.
  gone_step :
      (cmd : Cmd Item) (cmds : List (Cmd Item))
      → length (cmd ∷ cmds) < 2 ^ 32
      → Same cmds (command (pointer_calls block) cmd emptied) (command stock_calls cmd gone)
  unfolding command pointer_calls stock_calls push_queue full_queue pop_queue empty_queue is_null
      destroy_queue rem free
  gone_step create cmds room = created cmds emptied gone (omega arith)
  gone_step (push item) cmds room = tt
  gone_step pop cmds room = stock_step (some no_item) emptied gone cmds (refl, omega arith)
  gone_step destroy cmds room = tt
  gone_step leave cmds room = stock_step none emptied gone cmds (refl, omega arith)
  gone_step wrong cmds room = stock_step none emptied gone cmds (refl, omega arith)

  -- The same when it holds items.
  held_step :
      (cmd : Cmd Item) (cmds : List (Cmd Item)) (head rear : ℕ) (s : List Item)
      → IsValid 2 head rear s
      → rear + length (cmd ∷ cmds) < 2 ^ 32
      → Same cmds
          (command (pointer_calls block) cmd (queue 2 head rear s))
          (command stock_calls cmd (holding (contents 2 head rear s)))
  unfolding command pointer_calls stock_calls destroy_queue is_null free
  held_step create cmds head rear s v room =
      created cmds (queue 2 head rear s) (holding (contents 2 head rear s)) (omega (arith, room))
  held_step (push item) cmds head rear s v room = push_step head rear s v item cmds room
  held_step pop cmds head rear s v room = pop_step head rear s v cmds room
  held_step destroy cmds head rear s v room =
      stock_step none emptied gone cmds (refl, omega (arith, room))
  held_step leave cmds head rear s v room =
      stock_step none (queue 2 head rear s) (holding (contents 2 head rear s)) cmds
        (head, rear, s, refl, v, refl, omega (arith, room))
  held_step wrong cmds head rear s v room =
      stock_step none (queue 2 head rear s) (holding (contents 2 head rear s)) cmds
        (head, rear, s, refl, v, refl, omega (arith, room))

  command-SameStep :
      (cmd : Cmd Item) (cmds : List (Cmd Item)) (q : Queue) (x : Stock)
      → Holds (cmd ∷ cmds) q x
      → Same cmds (command (pointer_calls block) cmd q) (command stock_calls cmd x)
  command-SameStep cmd cmds q absent (e, room) =
      subst (λ t. Same cmds (command (pointer_calls block) cmd t) (command stock_calls cmd absent))
        (sym e) (start_step cmd cmds room)
  command-SameStep cmd cmds q gone (e, room) =
      subst (λ t. Same cmds (command (pointer_calls block) cmd t) (command stock_calls cmd gone))
        (sym e) (gone_step cmd cmds room)
  command-SameStep cmd cmds q (holding xs) (head, rear, s, e, v, same, room) =
      subst
        (λ t.
          Same cmds (command (pointer_calls block) cmd t) (command stock_calls cmd (holding xs)))
        (sym e)
        (subst
          (λ t.
            Same cmds (command (pointer_calls block) cmd (queue 2 head rear s))
              (command stock_calls cmd (holding t)))
          same (held_step cmd cmds head rear s v room))

-- The program data_structure/queue_linear_pointer_test.c on fewer than 2^32 commands, when `malloc` gives
-- arrays of three slots, prints line for line what a stock of items prints: before a command 1 and behind a
-- command 4 there is nothing in it, and a command 2 or 4 behind a command 4 is undefined; else it is a
-- list of at most three items, on which a further one is lost and a command 3 shows the oldest.
pub pointer_program-menu :
    (block : List Item) (cmds : List (Cmd Item))
    → length block ≡ 3
    → length cmds < 2 ^ 32
    → pointer_program block cmds ≡ menu stock_calls cmds absent
pointer_program-menu block cmds whole few =
    menu-same (pointer_calls block) stock_calls Holds (command-SameStep block whole) cmds
      pointer_start absent (refl, few)
