-- ===== src/Queue/Menu/Stock.antt =====
-- What the queue of data_structure/queue_linear_pointer_test.c stands for.
use test.Base.{
  ℕ, ◌+◌, ◌-◌, ◌^◌, ◌<◌, ◌≡◌, ◌∙◌, ap, Option, none, some, List, [], ◌==◌, length, arith, get_or,
  Bool-cases, inl, inr,
}
use test.Base.Int.{pos}
use test.Queue.Cells.{length-cells}
use test.Queue.Item.{Item, no_item}
use test.Queue.Pointer.{Queue, freed, get_queue_size, empty_queue, is_null, rem}
use test.Queue.Pointer.Laws.{queue, IsValid, contents}
use test.Queue.Menu.{Cmd, Calls}
use test.Queue.Menu.Programs.{pointer_start, sized}
use test.Queue.Menu.ArrayRuns.{fifo_push, fifo_pop}

-- There is no array yet; or it holds items, at most three, the oldest first; or it was freed.
pub data Stock : Type 0 where
  absent : Stock
  holding : List Item → Stock
  gone : Stock

-- the calls on a stock
abbrev pub stock_push : Item → Stock → Option Stock
stock_push item absent = some absent
stock_push item (holding xs) = some (holding (fifo_push item xs))
stock_push item gone = none

abbrev pub stock_pop : Stock → Item × Stock
stock_pop absent = (no_item, absent)
stock_pop (holding xs) = ((fifo_pop xs).0, holding (fifo_pop xs).1)
stock_pop gone = (no_item, gone)

abbrev pub stock_destroy : Stock → Option Stock
stock_destroy absent = some absent
stock_destroy (holding xs) = some gone
stock_destroy gone = none

abbrev pub stock_size : Stock → ℕ
stock_size absent = 0
stock_size (holding xs) = length xs
stock_size gone = 0

unfoldable pub stock_calls : Calls Item Stock
stock_calls = record {
  on_create = λ x. some (holding []);
  on_push = stock_push;
  on_pop = λ x. some (stock_pop x);
  on_destroy = stock_destroy;
  size_of = λ x. some (pos (stock_size x));
}

-- the queue behind `destroy_queue`
abbrev pub emptied : Queue
emptied = record { head = 0; rear = 0; slots = freed; node_size = 0 }

-- The queue is in the state that the stock tells, and its counter `rear` has room for the commands.
abbrev pub Holds : List (Cmd Item) → Queue → Stock → Type 0
Holds cmds q absent = (q ≡ pointer_start) × (length cmds < 2 ^ 32)
Holds cmds q gone = (q ≡ emptied) × (length cmds < 2 ^ 32)
Holds cmds q (holding xs) =
    (head : ℕ) × (rear : ℕ) × (s : List Item) × (q ≡ queue 2 head rear s)
    × IsValid 2 head rear s
    × (contents 2 head rear s ≡ xs)
    × (rear + length cmds < 2 ^ 32)

pub length-contents :
    (head rear : ℕ) (s : List Item) → length (contents 2 head rear s) ≡ rear - head
length-contents head rear s = length-cells (λ i. get_or s i no_item) 3 head (rear - head)

get_queue_size-held :
    (head rear : ℕ) (s : List Item)
    → IsValid 2 head rear s
    → get_queue_size (some (queue 2 head rear s)) ≡ some (length (contents 2 head rear s))
unfolding get_queue_size empty_queue is_null rem
get_queue_size-held head rear s v =
    let n = length-contents head rear s in
    elim (Bool-cases (rear == head)) [
      | inl empty ↦ rw empty (ap some (ground (arith, n, empty)))
      | inr items ↦ rw items (ap some (ground (arith, n, items, v.order, v.room)))
    ]

pub size_same :
    (cmds : List (Cmd Item)) (q : Queue) (x : Stock)
    → Holds cmds q x
    → sized (get_queue_size (some q)) ≡ some (pos (stock_size x))
unfolding get_queue_size empty_queue is_null
size_same cmds q absent (e, room) = ap (λ t. sized (get_queue_size (some t))) e
size_same cmds q gone (e, room) = ap (λ t. sized (get_queue_size (some t))) e
size_same cmds q (holding xs) (head, rear, s, e, v, same, room) =
    ap (λ t. sized (get_queue_size (some t))) e
    ∙ ap sized (get_queue_size-held head rear s v)
    ∙ ap (λ t. some (pos (length t))) same
