-- ===== src/Net/Tcp/Write.antt =====
-- What `comm_tcp_write` reports, and what it has sent.
use test.Base.{
  ℕ, ◌+◌, ◌-◌, ◌<◌, ◌≡◌, ◌⊎◌, inl, inr, refl, ap, ◌∙◌, sym, true, false, List, [], ◌∷◌, ◌++◌, ◌==◌,
  ltb, if◌then◌else◌, length, take, drop, min, arith, Bool-cases, append-nil, append_assoc,
  take-append, take-append-drop, length-drop,
}
use test.Base.Int.{ℤ, pos, minus_one, is_neg}
use test.Net.Os.{Errno, is_transient, Taken, took, refused, Poll, ready, failed, timeout}
use test.Net.Tcp.{Wrote, wrote, write_waits, write_loop, comm_tcp_write}

-- A write of `buf`, all of it: the bytes taken are a first part of `buf`, and they are the whole of it
-- when the result is its length. Any other result is 0 or -1.
abbrev pub IsWrite : List ℕ → Wrote → Type 0
IsWrite buf (write_waits sent) = sent ≡ take (length sent) buf
IsWrite buf (wrote ret sent os) =
    (sent ≡ take (length sent) buf)
    × (((ret ≡ pos (length buf)) × (sent ≡ buf)) ⊎ (ret ≡ pos 0) ⊎ (ret ≡ minus_one))

-- The state of the loop: `sent` went out, `rest` did not.
module _ (buf : List ℕ) where
  prefix : (sent rest : List ℕ) → sent ++ rest ≡ buf → sent ≡ take (length sent) buf
  prefix sent rest e = sym (take-append sent rest (length sent) refl) ∙ ap (take (length sent)) e

  IsWrite-end :
      (sent rest : List ℕ) (size : ℕ) (os : List (Poll Taken))
      → sent ++ rest ≡ buf
      → length rest ≡ size
      → (size == 0) ≡ true
      → IsWrite buf (wrote (pos (length buf - size)) sent os)
  IsWrite-end sent [] size os e len over =
      (prefix sent [] e, inl (ap pos (ground arith), sym (append-nil sent) ∙ e))
  IsWrite-end sent (x ∷ rest) size os e len over = absurd (ground arith)

  write_loop-IsWrite :
      (os : List (Poll Taken)) (selectcnt : ℕ) (sent rest : List ℕ) (size : ℕ)
      → sent ++ rest ≡ buf
      → length rest ≡ size
      → IsWrite buf (write_loop (length buf) os selectcnt rest size sent)
  unfolding write_loop
  write_loop-IsWrite [] selectcnt sent rest size e len = elim (Bool-cases (size == 0)) [
    | inl over ↦ rw over (IsWrite-end sent rest size [] e len over)
    | inr more ↦ rw more (prefix sent rest e)
  ]
  write_loop-IsWrite (ready (took n) ∷ os) selectcnt sent rest size e len =
      elim (Bool-cases (size == 0)) [
        | inl over ↦ rw over (IsWrite-end sent rest size (ready (took n) ∷ os) e len over)
        | inr more ↦
            let k : ℕ = min n size in
            rw more (
              write_loop-IsWrite os selectcnt (sent ++ take k rest) (drop k rest) (size - k)
                (append_assoc sent (take k rest) (drop k rest)
                  ∙ ap (λ t. sent ++ t) (take-append-drop k rest)
                  ∙ e)
                (omega (arith, length-drop k rest)))
      ]
  write_loop-IsWrite (ready (refused eno) ∷ os) selectcnt sent rest size e len =
      elim (Bool-cases (size == 0)) [
        | inl over ↦ rw over (IsWrite-end sent rest size (ready (refused eno) ∷ os) e len over)
        | inr more ↦ elim (Bool-cases (is_transient eno)) [
          | inl again ↦ rw (more, again) (write_loop-IsWrite os selectcnt sent rest size e len)
          | inr fatal ↦ rw (more, fatal) (prefix sent rest e, inr (inr refl))
        ]
      ]
  write_loop-IsWrite (failed eno ∷ os) selectcnt sent rest size e len =
      elim (Bool-cases (size == 0)) [
        | inl over ↦ rw over (IsWrite-end sent rest size (failed eno ∷ os) e len over)
        | inr more ↦ elim (Bool-cases (is_transient eno)) [
          | inl again ↦ elim (Bool-cases (ltb (selectcnt + 1) 11)) [
            | inl few ↦
                rw (more, again, few) (write_loop-IsWrite os (selectcnt + 1) sent rest size e len)
            | inr many ↦ rw (more, again, many) (prefix sent rest e, inr (inr refl))
          ]
          | inr fatal ↦ rw (more, fatal) (prefix sent rest e, inr (inr refl))
        ]
      ]
  write_loop-IsWrite (timeout eno ∷ os) selectcnt sent rest size e len =
      elim (Bool-cases (size == 0)) [
        | inl over ↦ rw over (IsWrite-end sent rest size (timeout eno ∷ os) e len over)
        | inr more ↦ elim (Bool-cases (is_transient eno)) [
          | inl again ↦ rw (more, again) (prefix sent rest e, inr (inl refl))
          | inr fatal ↦ rw (more, fatal) (prefix sent rest e, inr (inr refl))
        ]
      ]

-- Whatever the operating system answers, the bytes that `comm_tcp_write` hands to it are a first part
-- of the buffer, in order and without repetition; a result other than 0 and -1 is the full length, and
-- then the whole buffer was sent.
pub comm_tcp_write-IsWrite :
    (fd : ℤ) (buf : List ℕ) (os : List (Poll Taken))
    → IsWrite buf (comm_tcp_write fd buf (length buf) os)
unfolding comm_tcp_write
comm_tcp_write-IsWrite fd buf os = elim (Bool-cases (is_neg fd)) [
  | inl bad ↦ rw bad (refl, inr (inr refl))
  | inr good ↦ rw good (write_loop-IsWrite buf os 0 [] buf (length buf) refl refl)
]

-- A timeout after a part was sent is reported as 0 or -1, and the part is not counted: for a buffer of
-- more than `n` bytes of which the kernel takes `n` before the timeout.
pub comm_tcp_write-loses_count :
    (fd n : ℕ) (buf : List ℕ) (e : Errno) (os : List (Poll Taken))
    → n < length buf
    → comm_tcp_write (pos fd) buf (length buf) (ready (took n) ∷ timeout e ∷ os)
      ≡ wrote (if is_transient e then pos 0 else minus_one) (take n buf) os
unfolding comm_tcp_write write_loop
comm_tcp_write-loses_count fd n buf e os part =
    let kept : min n (length buf) ≡ n = omega arith in
    let more : (length buf == 0) ≡ false = ground arith in
    let left : (length buf - n == 0) ≡ false = ground arith in
    elim (Bool-cases (is_transient e)) [
      | inl again ↦ rw (kept, more, left, again)
      | inr fatal ↦ rw (kept, more, left, fatal)
    ]
