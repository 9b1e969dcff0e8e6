-- ===== src/Queue/Sequeue/Threads/Progress.antt =====
-- A thread that holds a lock goes on.
use test.Base.{
  ℕ, ◌*◌, ◌<◌, ◌≡◌, ◌⊎◌, refl, ap, true, false, some, List, length, slice, arith, Bool-cases, inl,
  inr,
}
use test.Queue.Sequeue.{is_one, full_data_sequeue, empty_data_sequeue}
use test.Queue.Sequeue.Laws.{filled}
use test.Queue.Sequeue.Threads.{
  EnPc, en_out, en_locked, en_room, en_published, en_leaving, DePc, de_out, de_locked, de_found,
  de_moved, de_leaving, Threads, queue_of, en_held, de_held, Step, en_full, en_test, en_move,
  en_fill, en_unlock, de_empty, de_test, de_move, de_copy, de_unlock, Reach,
}
use test.Queue.Sequeue.Threads.Invariant.{Inv, Reach-Inv, en_write-filled, de_read_slot}

-- how many steps the thread at each end has at most before it is out
abbrev pub en_left : EnPc → ℕ
en_left en_out = 0
en_left (en_locked item) = 4
en_left (en_room item) = 3
en_left (en_published item) = 2
en_left en_leaving = 1

abbrev pub de_left : DePc → ℕ
de_left de_out = 0
de_left de_locked = 4
de_left de_found = 3
de_left de_moved = 2
de_left de_leaving = 1

-- A step at the one end that brings it nearer to its end and leaves the other end where it is.
abbrev pub EnGoesOn : ℕ → Threads → Type 0
EnGoesOn size s = (t : Threads) × Step size s t × (en_left t.en < en_left s.en) × (t.de ≡ s.de)

abbrev pub DeGoesOn : ℕ → Threads → Type 0
DeGoesOn size s = (t : Threads) × Step size s t × (de_left t.de < de_left s.de) × (t.en ≡ s.en)

en_step :
    (size : ℕ) (s : Threads) (pc : EnPc)
    → Inv size s
    → s.en ≡ pc
    → en_held pc ≡ true
    → EnGoesOn size s
en_step size s en_out inv e held = absurd (cc held)
en_step size s (en_locked item) inv e held =
    elim (Bool-cases (is_one (full_data_sequeue (some (queue_of s))))) [
      | inl full ↦ (_, en_full item e full, omega (arith, ap en_left e), refl)
      | inr room ↦ (_, en_test item e room, omega (arith, ap en_left e), refl)
    ]
en_step size s (en_room item) inv e held = (_, en_move item e, omega (arith, ap en_left e), refl)
en_step size s (en_published item) inv e held = (
  _,
  en_fill item (filled s.rear size item s.block) e
      (en_write-filled size item s inv.block_size inv.rear_in),
  omega (arith, ap en_left e),
  refl,
)
en_step size s en_leaving inv e held = (_, en_unlock e, omega (arith, ap en_left e), refl)

de_step :
    (size : ℕ) (s : Threads) (pc : DePc)
    → Inv size s
    → s.de ≡ pc
    → de_held pc ≡ true
    → DeGoesOn size s
de_step size s de_out inv e held = absurd (cc held)
de_step size s de_locked inv e held =
    elim (Bool-cases (is_one (empty_data_sequeue (some (queue_of s))))) [
      | inl empty ↦ (_, de_empty e empty, omega (arith, ap de_left e), refl)
      | inr found ↦ (_, de_test e found, omega (arith, ap de_left e), refl)
    ]
de_step size s de_found inv e held = (_, de_move e, omega (arith, ap de_left e), refl)
de_step size s de_moved inv e held = (
  _,
  de_copy (slice (s.front * size) size s.block) e (de_read_slot size s inv.block_size inv.front_in),
  omega (arith, ap de_left e),
  refl,
)
de_step size s de_leaving inv e held = (_, de_unlock e, omega (arith, ap de_left e), refl)

-- In every state that can be reached from an empty queue, a thread that holds the lock of the writing end
-- can make its next step, whatever the other end does: no copy leaves the block, and each step brings it
-- nearer to its unlock, which is at most four steps away. The same holds at the reading end.
pub threads-GoesOn :
    (size : ℕ) (block : List ℕ) (s : Threads)
    → length block ≡ 3 * size
    → Reach size block s
    → ((en_held s.en ≡ false) ⊎ EnGoesOn size s) × ((de_held s.de ≡ false) ⊎ DeGoesOn size s)
threads-GoesOn size block s whole r =
    let inv = Reach-Inv whole r in
    (
      elim (Bool-cases (en_held s.en)) [
        | inl held ↦ inr (en_step size s s.en inv refl held)
        | inr free ↦ inl free
      ],
      elim (Bool-cases (de_held s.de)) [
        | inl held ↦ inr (de_step size s s.de inv refl held)
        | inr free ↦ inl free
      ],
    )
