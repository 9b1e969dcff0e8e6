-- ===== src/Queue/Item.antt =====
-- The payload of the queues of data_structure/: `node` of the two circular ones, `data` of the list.
use test.Base.{ℕ, List, []}
use test.Base.Int.{ℤ, pos}

-- `char name[32]; int num;`
pub record Item : Type 0 where
  pub name : List ℕ
  pub num : ℤ

-- what a slot that was never written is read as
abbrev pub no_item : Item
no_item = record { name = []; num = pos 0 }
