-- ===== src/Queue/Menu/Refines.antt =====
-- Two queues whose calls answer the same let a program print the same.
use test.Base.{◌≡◌, ap, ap₂, ◌∙◌, refl, Option, none, some, List, [], ◌∷◌}
use test.Base.Int.{ℤ}
use test.Queue.Menu.{
  Cmd, create, push, pop, destroy, leave, wrong, Calls, and_then, command, line, before, go_on,
  menu,
}

module _ {I S T : Type 0} (c : Calls I S) (d : Calls I T) (R : List (Cmd I) → S → T → Type 0) where
  -- Both calls end and print the same, and the queues behind them are related for the commands that are
  -- left; or both are undefined.
  abbrev pub SameStep : List (Cmd I) → Option (Option I × S) → Option (Option I × T) → Type 0
  SameStep cmds none none = Unit {0}
  SameStep cmds none (some b) = ⊥
  SameStep cmds (some a) none = ⊥
  SameStep cmds (some (popped, s)) (some (popped', t)) =
      (popped ≡ popped') × (c.size_of s ≡ d.size_of t) × R cmds s t

  go_on-same :
      (cmd : Cmd I) (cmds : List (Cmd I)) (popped popped' : Option I) (s : S) (t : T) (x : Option ℤ)
      → popped ≡ popped'
      → menu c cmds s ≡ menu d cmds t
      → go_on cmd (menu c cmds) (and_then x λ n. some (record { popped = popped; size = n }, s))
        ≡ go_on cmd (menu d cmds) (and_then x λ n. some (record { popped = popped'; size = n }, t))
  go_on-same cmd cmds popped popped' s t none p next = refl
  go_on-same leave cmds popped popped' s t (some n) p next =
      ap (λ i. some (record { popped = i; size = n } ∷ [])) p
  go_on-same create cmds popped popped' s t (some n) p next =
      ap₂ (λ i ls. before (record { popped = i; size = n }) ls) p next
  go_on-same (push item) cmds popped popped' s t (some n) p next =
      ap₂ (λ i ls. before (record { popped = i; size = n }) ls) p next
  go_on-same pop cmds popped popped' s t (some n) p next =
      ap₂ (λ i ls. before (record { popped = i; size = n }) ls) p next
  go_on-same destroy cmds popped popped' s t (some n) p next =
      ap₂ (λ i ls. before (record { popped = i; size = n }) ls) p next
  go_on-same wrong cmds popped popped' s t (some n) p next =
      ap₂ (λ i ls. before (record { popped = i; size = n }) ls) p next

  menu-after :
      (cmd : Cmd I) (cmds : List (Cmd I)) (a : Option (Option I × S)) (b : Option (Option I × T))
      → SameStep cmds a b
      → ((s : S) (t : T) → R cmds s t → menu c cmds s ≡ menu d cmds t)
      → go_on cmd (menu c cmds) (and_then a (line c))
        ≡ go_on cmd (menu d cmds) (and_then b (line d))
  menu-after cmd cmds none none same next = refl
  menu-after cmd cmds none (some b) same next = absurd same
  menu-after cmd cmds (some a) none same next = absurd same
  menu-after cmd cmds (some (popped, s)) (some (popped', t)) (p, size, r) next =
      go_on-same cmd cmds popped popped' s t (c.size_of s) p (next s t r)
      ∙ ap
          (λ x.
            go_on cmd (menu d cmds)
              (and_then x λ n. some (record { popped = popped'; size = n }, t)))
          size

  -- When each command keeps the queues related, for the commands that are left, the programs print the
  -- same.
  pub menu-same :
      ((cmd : Cmd I) (cmds : List (Cmd I)) (s : S) (t : T)
        → R (cmd ∷ cmds) s t
        → SameStep cmds (command c cmd s) (command d cmd t))
      → (cmds : List (Cmd I)) (s : S) (t : T) → R cmds s t
      → menu c cmds s ≡ menu d cmds t
  unfolding menu
  menu-same steps [] s t r = refl
  menu-same steps (cmd ∷ cmds) s t r =
      menu-after cmd cmds (command c cmd s) (command d cmd t) (steps cmd cmds s t r)
        (menu-same steps cmds)
