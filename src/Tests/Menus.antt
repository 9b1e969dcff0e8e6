-- ===== src/Tests/Menus.antt =====
-- What the programs that try the queues print for a few commands.
use test.Base.{ℕ, ◌≡◌, refl, true, none, some, List, [], ◌∷◌, replicate, arith}
use test.Base.Int.{pos}
use test.Queue.Item.{Item, no_item}
use test.Queue.Menu.{Cmd, create, push, pop, destroy, leave, command, menu}
use test.Queue.Menu.Programs.{array_program, pointer_program, blocks_program}
use test.Queue.Menu.ArrayRuns.{fifo_calls, array_program-menu}
use test.Queue.Menu.BlockRuns.{row_calls, blocks_program-menu}
use test.Queue.Menu.Stock.{absent, stock_calls}
use test.Queue.Menu.PointerRuns.{pointer_program-menu}

abbrev guest : ℕ → Item
guest n = record { name = n ∷ []; num = pos n }

-- four are typed, and the fourth is lost
abbrev cmds : List (Cmd Item)
cmds =
    create
    ∷ push (guest 1)
    ∷ push (guest 2)
    ∷ push (guest 3)
    ∷ push (guest 4)
    ∷ pop
    ∷ destroy
    ∷ leave
    ∷ []

four_typed :
    menu fifo_calls cmds []
    ≡ some (
        record { popped = none; size = pos 0 }
        ∷ record { popped = none; size = pos 1 }
        ∷ record { popped = none; size = pos 2 }
        ∷ record { popped = none; size = pos 3 }
        ∷ record { popped = none; size = pos 3 }
        ∷ record { popped = some (guest 1); size = pos 2 }
        ∷ record { popped = none; size = pos 0 }
        ∷ record { popped = none; size = pos 0 }
        ∷ [])
unfolding menu command fifo_calls
four_typed = refl

array_program-menu_example : array_program cmds ≡ menu fifo_calls cmds []
array_program-menu_example = array_program-menu cmds (omega arith)

abbrev slots : List Item
slots = no_item ∷ no_item ∷ no_item ∷ []

pointer_program-menu_example : pointer_program slots cmds ≡ menu stock_calls cmds absent
pointer_program-menu_example = pointer_program-menu slots cmds refl (omega arith)

abbrev blocks : List (Cmd (List ℕ))
blocks = create ∷ push (1 ∷ 2 ∷ []) ∷ pop ∷ pop ∷ leave ∷ []

blocks_program-menu_example :
    blocks_program 2 true (some (replicate 6 0)) blocks ≡ menu (row_calls 2) blocks none
blocks_program-menu_example =
    blocks_program-menu 2 (replicate 6 0) blocks refl (tt, (refl, (tt, (tt, (tt, tt)))))
