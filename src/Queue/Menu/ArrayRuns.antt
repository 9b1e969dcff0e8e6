-- ===== src/Queue/Menu/ArrayRuns.antt =====
-- What data_structure/queue_linear_arrary_test.c prints.
use test.Base.{
  ◌+◌, ◌^◌, ◌≤◌, ◌<◌, ◌≡◌, inl, inr, ◌∙◌, refl, sym, ap, true, false, Option, none, some, List, [],
  ◌∷◌, ◌++◌, ltb, if◌then◌else◌, length, arith, Bool-cases,
}
use test.Base.Int.{ℤ, pos}
use test.Queue.Item.{Item, no_item}
use test.Queue.Array.{
  Queue, get_queue_size, push_queue, pop_queue, destroy_queue, full_queue, empty_queue, put,
}
use test.Queue.Array.Laws.{
  IsValid, contents, get_queue_size-contents, Pushed, push_queue-Pushed, Popped, pop_queue-Popped,
}
use test.Queue.Menu.{Cmd, create, push, pop, destroy, leave, wrong, Calls, command, menu}
use test.Queue.Menu.Refines.{SameStep, menu-same}
use test.Queue.Menu.Programs.{array_program, array_calls, array_start, array_queue_of, array_popped}

-- the same calls on a list of at most three items, the oldest first
abbrev pub fifo_push : Item → List Item → List Item
fifo_push item xs = if ltb (length xs) 3 then xs ++ (item ∷ []) else xs

abbrev pub fifo_pop : List Item → Item × List Item
fifo_pop [] = (no_item, [])
fifo_pop (item ∷ xs) = (item, xs)

unfoldable pub fifo_calls : Calls Item (List Item)
fifo_calls = record {
  on_create = λ xs. some xs;
  on_push = λ item xs. some (fifo_push item xs);
  on_pop = λ xs. some (fifo_pop xs);
  on_destroy = λ xs. some [];
  size_of = λ xs. some (pos (length xs));
}

-- The list has the items of a valid queue, whose counter `rear` has room for the commands.
abbrev Holds : List (Cmd Item) → Queue → List Item → Type 0
Holds cmds q xs = IsValid q × (contents q ≡ xs) × (q.rear + length cmds < 2 ^ 32)

size_same :
    (q : Queue) (xs : List Item) → IsValid q → contents q ≡ xs → get_queue_size (some q) ≡ length xs
size_same q xs v e = (get_queue_size-contents q v).0 ∙ ap length e

-- a call of `push_queue` moves `rear` by one at most
push_queue-rear :
    (q : Queue) (item : Item) → (array_queue_of q (push_queue (some q) item)).rear ≤ q.rear + 1
unfolding push_queue put
push_queue-rear q item = elim (Bool-cases (full_queue (some q))) [
  | inl full ↦ rw full (omega arith)
  | inr free ↦ rw free (omega arith)
]

pop_queue-rear : (q : Queue) → (array_popped q (pop_queue (some q))).1.rear ≡ q.rear
unfolding pop_queue
pop_queue-rear q = elim (Bool-cases (empty_queue (some q))) [
  | inl empty ↦ rw empty refl
  | inr items ↦ rw items refl
]

push-Holds :
    (q : Queue) (item : Item) (xs : List Item) (r : ℤ × Option Queue)
    → contents q ≡ xs
    → Pushed q item r
    → IsValid (array_queue_of q r) × (contents (array_queue_of q r) ≡ fifo_push item xs)
push-Holds q item xs (ret, none) e p = absurd p
push-Holds q item xs (ret, some q') e (v, inl (three, failed, same)) =
    let full : ltb (length xs) 3 ≡ false = let n = ap length e in ground arith in
    (v, rw full (ap contents same ∙ e))
push-Holds q item xs (ret, some q') e (v, inr (room, done, more)) =
    let free : ltb (length xs) 3 ≡ true = let n = ap length e in ground arith in
    (v, rw free (more ∙ ap (λ t. t ++ (item ∷ [])) e))

pop-Holds :
    (q : Queue) (xs : List Item) (r : ℤ × Option Item × Option Queue)
    → contents q ≡ xs
    → Popped q r
    → IsValid (array_popped q r).1
      × ((array_popped q r).0 ≡ (fifo_pop xs).0)
      × (contents (array_popped q r).1 ≡ (fifo_pop xs).1)
pop-Holds q xs (ret, out, none) e p = absurd p
pop-Holds q xs (ret, none, some q') e (v, empty, failed, same) =
    let nothing : [] ≡ xs = sym empty ∙ e in
    (
      v,
      ap (λ t. (fifo_pop t).0) nothing,
      ap contents same ∙ empty ∙ ap (λ t. (fifo_pop t).1) nothing,
    )
pop-Holds q xs (ret, some item, some q') e (v, first, done) =
    let front : item ∷ contents q' ≡ xs = sym first ∙ e in
    (v, ap (λ t. (fifo_pop t).0) front, ap (λ t. (fifo_pop t).1) front)

command-SameStep :
    (cmd : Cmd Item) (cmds : List (Cmd Item)) (q : Queue) (xs : List Item)
    → Holds (cmd ∷ cmds) q xs
    → SameStep array_calls fifo_calls Holds cmds
        (command array_calls cmd q)
        (command fifo_calls cmd xs)
unfolding command array_calls fifo_calls destroy_queue
command-SameStep create cmds q xs (v, e, room) =
    (refl, ap (λ n. some (pos n)) (size_same q xs v e), (v, e, omega arith))
command-SameStep leave cmds q xs (v, e, room) =
    (refl, ap (λ n. some (pos n)) (size_same q xs v e), (v, e, omega arith))
command-SameStep wrong cmds q xs (v, e, room) =
    (refl, ap (λ n. some (pos n)) (size_same q xs v e), (v, e, omega arith))
command-SameStep destroy cmds q xs (v, e, room) =
    let q' : Queue = record q { head = 0; rear = 0 } in
    let v' : IsValid q' = record {
      slots = v.slots;
      order = omega arith;
      room = omega arith;
      word = omega arith;
    } in
    (refl, ap (λ n. some (pos n)) (size_same q' [] v' refl), (v', refl, omega arith))
command-SameStep (push item) cmds q xs (v, e, room) =
    let q' = array_queue_of q (push_queue (some q) item) in
    let (v', e') = push-Holds q item xs _ e (push_queue-Pushed q item v (omega arith)) in
    (
      refl,
      ap (λ n. some (pos n)) (size_same q' (fifo_push item xs) v' e'),
      (v', e', omega (arith, push_queue-rear q item)),
    )
command-SameStep pop cmds q xs (v, e, room) =
    let q' = (array_popped q (pop_queue (some q))).1 in
    let (v', first, e') = pop-Holds q xs _ e (pop_queue-Popped q v) in
    (
      ap some first,
      ap (λ n. some (pos n)) (size_same q' (fifo_pop xs).1 v' e'),
      (v', e', omega (arith, pop_queue-rear q)),
    )

array_start-IsValid : IsValid array_start
array_start-IsValid = record {
  slots = refl;
  order = omega arith;
  room = omega arith;
  word = omega arith;
}

-- The program data_structure/queue_linear_arrary_test.c on fewer than 2^32 commands prints, line for line,
-- what a list of at most three items prints on them: a `push` on three items is lost, a `pop` shows the
-- oldest item or a cleared one, and each line has the number of items.
pub array_program-menu :
    (cmds : List (Cmd Item)) → length cmds < 2 ^ 32 → array_program cmds ≡ menu fifo_calls cmds []
array_program-menu cmds few =
    menu-same array_calls fifo_calls Holds command-SameStep cmds array_start []
      (array_start-IsValid, refl, omega (arith, few))
