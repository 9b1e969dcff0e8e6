-- ===== src/Queue/Sequeue/Threads/Calls.antt =====
-- A call that no step of the other end interrupts is a run of steps.
use test.Base.{
  ℕ, ◌+◌, ◌*◌, ◌%◌, ◌≡◌, ◌⊎◌, refl, ap, true, false, ◌||◌, Option, none, some, List, [], ◌∷◌, ◌++◌,
  length, slice, arith, Bool-cases, inl, inr,
}
use test.Base.Int.{ℤ, pos, minus_one}
use test.Queue.Sequeue.{
  done, is_one, full_data_sequeue, empty_data_sequeue, en_publish, en_data_queue, de_data_queue,
  max_data_sequeue, en_finish, map_run, de_finish,
}
use test.Queue.Sequeue.Laws.{filled}
use test.Queue.Sequeue.Threads.{
  en_out, en_published, de_out, de_moved, Threads, queue_of, en_held, de_held, takes_early, en_lock,
  en_full, en_test, en_move, en_fill, en_unlock, de_lock, de_empty, de_test, de_move, de_copy,
  de_unlock, Step, Reach, later,
}
use test.Queue.Sequeue.Threads.Invariant.{Reach-Inv, en_write-filled, de_read_slot}

-- Steps of the thread in `EnDataQueue` lead from `s` to a state: where the other thread stands never
-- changes, which every step of that thread does.
pub data EnSteps (size : ℕ) (s : Threads) : Threads → Type 0 where
  en_stay : EnSteps size s s
  en_go : {t u : Threads} → EnSteps size s t → Step size t u → u.de ≡ t.de → EnSteps size s u

-- Steps of the thread in `DeDataQueue` lead from `s` to a state.
pub data DeSteps (size : ℕ) (s : Threads) : Threads → Type 0 where
  de_stay : DeSteps size s s
  de_go : {t u : Threads} → DeSteps size s t → Step size t u → u.en ≡ t.en → DeSteps size s u

EnSteps-Reach :
    {size : ℕ} {block : List ℕ} {s t : Threads}
    → Reach size block s
    → EnSteps size s t
    → Reach size block t
EnSteps-Reach r en_stay = r
EnSteps-Reach r (en_go steps step same) = later (EnSteps-Reach r steps) step

DeSteps-Reach :
    {size : ℕ} {block : List ℕ} {s t : Threads}
    → Reach size block s
    → DeSteps size s t
    → Reach size block t
DeSteps-Reach r de_stay = r
DeSteps-Reach r (de_go steps step same) = later (DeSteps-Reach r steps) step

-- What a call of `EnDataQueue` in the state `s` did: steps of its thread lead from `s` to a state `t`, which
-- can be reached and in which its lock is free again. The call leaves the queue of `t`, and wrote its block
-- or returned -1.
abbrev pub EnCalled : ℕ → List ℕ → Threads → List ℕ → Type 0
EnCalled size block s item =
    (ret : ℤ) × (t : Threads) × EnSteps size s t
    × Reach size block t
    × (t.en ≡ en_out)
    × (en_data_queue (some (queue_of s)) item size ≡ done (ret, some (queue_of t)))
    × (t.de ≡ s.de)
    × (((ret ≡ pos 0) × (t.sent ≡ s.sent ++ (item ∷ []))) ⊎ ((ret ≡ minus_one) × (t.sent ≡ s.sent)))

-- `EnDataQueue` in any state that can be reached in which its lock is free, wherever the reader stands:
-- it returns 0 with its block written, or -1 with none, and when no step of the other end comes between,
-- steps of its thread alone lead from this state to one whose queue is the one that it leaves.
pub en_data_queue-Reach :
    (size : ℕ) (block : List ℕ) (s : Threads) (item : List ℕ)
    → length block ≡ 3 * size
    → Reach size block s
    → s.en ≡ en_out
    → length item ≡ size
    → EnCalled size block s item
unfolding en_data_queue en_publish full_data_sequeue
en_data_queue-Reach size block s item whole r free len =
    let inv = Reach-Inv whole r in
    let locked = en_go en_stay (en_lock item free len) refl in
    let unheld : en_held s.en ≡ false = ap en_held free in
    elim (Bool-cases (is_one (full_data_sequeue (some (queue_of s))))) [
      | inl full ↦
          let steps = en_go (en_go locked (en_full item refl full) refl) (en_unlock refl) refl in
          (
            minus_one,
            _,
            steps,
            EnSteps-Reach r steps,
            refl,
            rw (unheld, full) refl,
            refl,
            inr (refl, refl),
          )
      | inr room ↦
          let moved = en_go (en_go locked (en_test item refl room) refl) (en_move item refl) refl in
          let u : Threads = record s {
            en = en_published item;
            rear = (s.rear + 1) % max_data_sequeue;
          } in
          let ran = en_write-filled size item u inv.block_size (omega arith) in
          let steps =
            en_go (en_go moved (en_fill item (filled u.rear size item s.block) refl ran) refl)
              (en_unlock refl) refl in
          (
            pos 0,
            _,
            steps,
            EnSteps-Reach r steps,
            refl,
            rw (unheld, room) (ap (map_run (en_finish (pos 0))) ran),
            refl,
            inl (refl, refl),
          )
    ]

-- What a call of `DeDataQueue` in the state `s` did.
abbrev pub DeCalled : ℕ → List ℕ → Threads → Type 0
DeCalled size block s =
    (ret : ℤ) × (out : Option (List ℕ)) × (t : Threads) × DeSteps size s t
    × Reach size block t
    × (t.de ≡ de_out)
    × (de_data_queue (some (queue_of s)) true size ≡ done (ret, out, some (queue_of t)))
    × (t.en ≡ s.en)
    × (t.got ≡ elim out [ none ↦ s.got | some item ↦ s.got ++ (item ∷ []) ])

-- `DeDataQueue` in any state that can be reached in which its lock is free, wherever the writer stands: it
-- returns, and when no step of the other end comes between, steps of its thread alone lead from this state
-- to one whose queue is the one that it leaves, and they copied out the block that it hands out, if any.
pub de_data_queue-Reach :
    (size : ℕ) (block : List ℕ) (s : Threads)
    → length block ≡ 3 * size
    → Reach size block s
    → s.de ≡ de_out
    → DeCalled size block s
unfolding de_data_queue empty_data_sequeue
de_data_queue-Reach size block s whole r free =
    let inv = Reach-Inv whole r in
    let locked = de_go de_stay (de_lock free) refl in
    let unheld : de_held s.de ≡ false = ap de_held free in
    elim (Bool-cases (is_one (empty_data_sequeue (some (queue_of s))))) [
      | inl empty ↦
          let steps = de_go (de_go locked (de_empty refl empty) refl) (de_unlock refl) refl in
          (
            minus_one,
            none,
            _,
            steps,
            DeSteps-Reach r steps,
            refl,
            rw (unheld, empty) refl,
            refl,
            refl,
          )
      | inr found ↦
          let moved = de_go (de_go locked (de_test refl found) refl) (de_move refl) refl in
          let u : Threads = record s {
            de = de_moved;
            front = (s.front + 1) % max_data_sequeue;
            raced = s.raced || takes_early s;
          } in
          let ran = de_read_slot size u inv.block_size (omega arith) in
          let item : List ℕ = slice (u.front * size) size s.block in
          let steps = de_go (de_go moved (de_copy item refl ran) refl) (de_unlock refl) refl in
          (
            pos 0,
            some item,
            _,
            steps,
            DeSteps-Reach r steps,
            refl,
            rw (unheld, found) (ap (map_run (λ o. de_finish (pos 0) (queue_of u) (some o))) ran),
            refl,
            refl,
          )
    ]
