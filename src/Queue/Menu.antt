-- ===== src/Queue/Menu.antt =====
-- The programs that try the queues: common/queue_test.c and queue_linear_arrary_test.c,
-- queue_linear_pointer_test.c and queue_list_test.c of data_structure/. They are one loop over the
-- commands that are typed, for four queues. What is typed is a list, and a line of output is what the
-- program prints of the items in a round, without the counters that one of them adds; `none` is undefined
-- behaviour.
pub mod Programs
pub mod Refines
pub mod ArrayRuns
pub mod BlockRuns
pub mod Stock
pub mod PointerRuns
use test.Base.{ℕ, Bool, true, false, Option, none, some, List, [], ◌∷◌}
use test.Base.Int.{ℤ}

-- `cmd` and what is read with it
pub data Cmd (I : Type 0) : Type 0 where
  create : Cmd I
  push : I → Cmd I
  pop : Cmd I
  destroy : Cmd I
  leave : Cmd I
  wrong : Cmd I

-- What a round prints: the item behind a `pop`, and the size of the queue.
pub record Line (I : Type 0) : Type 0 where
  pub popped : Option I
  pub size : ℤ

-- The calls of a program, on what it keeps; a `pop` gives what is printed.
pub record Calls (I S : Type 0) : Type 0 where
  pub on_create : S → Option S
  pub on_push : I → S → Option S
  pub on_pop : S → Option (I × S)
  pub on_destroy : S → Option S
  pub size_of : S → Option ℤ

abbrev pub and_then {ℓ κ} : {A : Type ℓ} {B : Type κ} → Option A → (A → Option B) → Option B
and_then none f = none
and_then (some a) f = f a

abbrev pub silent : {I S : Type 0} → Option S → Option (Option I × S)
silent none = none
silent (some s) = some (none, s)

abbrev pub shown : {I S : Type 0} → Option (I × S) → Option (Option I × S)
shown none = none
shown (some (item, s)) = some (some item, s)

-- a line before what follows
abbrev pub before : {I : Type 0} → Line I → Option (List (Line I)) → Option (List (Line I))
before l none = none
before l (some ls) = some (l ∷ ls)

-- `if (5 == cmd) break`, behind the line
abbrev pub go_on :
    {I S : Type 0}
    → Cmd I
    → (S → Option (List (Line I)))
    → Option (Line I × S)
    → Option (List (Line I))
go_on cmd again none = none
go_on leave again (some (l, s)) = some (l ∷ [])
go_on cmd again (some (l, s)) = before l (again s)

module _ {I S : Type 0} (c : Calls I S) where
  -- the `switch`
  unfoldable pub command : Cmd I → S → Option (Option I × S)
  command create s = silent (c.on_create s)
  command (push item) s = silent (c.on_push item s)
  command pop s = shown (c.on_pop s)
  command destroy s = silent (c.on_destroy s)
  command leave s = some (none, s)
  command wrong s = some (none, s)

  -- the line behind it
  abbrev pub line : Option I × S → Option (Line I × S)
  line (popped, s) = and_then (c.size_of s) λ n. some (record { popped = popped; size = n }, s)

  -- the loop of `main`, up to the end of what is typed
  unfoldable pub menu : List (Cmd I) → S → Option (List (Line I))
  unfolding command
  menu [] s = some []
  menu (cmd ∷ cmds) s = go_on cmd (menu cmds) (and_then (command cmd s) line)
