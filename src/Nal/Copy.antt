-- ===== src/Nal/Copy.antt =====
-- `copy_nal_from_file` of sample/send_h264file_rtp.c (sample/test_tcp_send_nal.c and
-- sample/test_rtp2h264.c hold it too), which reads a file byte by byte up to the next
-- start code. The file is the list of the bytes that are left; `buf` is the part of the caller's
-- buffer that has been written, so `*len` is its length. The buffer's size is not checked.
use test.Base.{ℕ, List, [], ◌∷◌, ◌++◌, ◌==◌, if◌then◌else◌, length}
use test.Base.Int.{ℤ, pos, minus_one}

-- the local variables: `flag`, the zeroes kept in `tmpbuf`, and the output
pub record Scan : Type 0 where
  pub flag : ℕ
  pub tmp0 : ℕ
  pub tmp1 : ℕ
  pub tmp2 : ℕ
  pub buf : List ℕ

-- what one byte leads to: the next round, or `return *len`
pub data Next : Type 0 where
  more : Scan → Next
  found : Scan → Next

-- `case 1` of the switch
unfoldable pub after_one_zero : Scan → ℕ → Next
after_one_zero s x =
    if x == 0
    then more (record s { flag = 2; tmp1 = x })
    else more (record s { flag = 0; buf = s.buf ++ (s.tmp0 ∷ x ∷ []) })

-- `case 2`
unfoldable pub after_two_zeroes : Scan → ℕ → Next
after_two_zeroes s x =
    if x == 0
    then more (record s { flag = 3; tmp2 = x })
    else if x == 1
    then found (record s { flag = 0 })
    else more (record s { flag = 0; buf = s.buf ++ (s.tmp0 ∷ s.tmp1 ∷ x ∷ []) })

-- `case 3`
unfoldable pub after_three_zeroes : Scan → ℕ → Next
after_three_zeroes s x =
    if x == 1 then found (record s { flag = 0 }) else more (record s { flag = 0 })

-- the body of the loop for the byte `x`
unfoldable pub copy_step : Scan → ℕ → Next
unfolding after_one_zero after_two_zeroes after_three_zeroes
copy_step s x =
    if s.flag == 0
    then (if x == 0
        then more (record s { flag = 1; tmp0 = x })
        else more (record s { buf = s.buf ++ (x ∷ []) }))
    else if s.flag == 1
    then after_one_zero s x
    else if s.flag == 2
    then after_two_zeroes s x
    else if s.flag == 3
    then after_three_zeroes s x
    else more s

-- The loop gives the return value, the buffer and the rest of the file.
unfoldable pub copy_loop : Scan → List ℕ → ℤ × List ℕ × List ℕ
copy_loop s [] = (minus_one, s.buf, [])
copy_loop s (x ∷ file) = elim (copy_step s x) [
  | more s' ↦ copy_loop s' file
  | found s' ↦ (pos (length s'.buf), s'.buf, file)
]

abbrev pub fresh_scan : Scan
fresh_scan = record { flag = 0; tmp0 = 0; tmp1 = 0; tmp2 = 0; buf = [] }

unfoldable pub copy_nal_from_file : List ℕ → ℤ × List ℕ × List ℕ
copy_nal_from_file file = copy_loop fresh_scan file
