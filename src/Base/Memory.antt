-- ===== src/Base/Memory.antt =====
-- Byte buffers: `memcpy`, `memset` and reads of a stretch of bytes, over a list of bytes.
use Prim.Native.Nat.{ℕ, zero, suc, ◌+◌, ◌≤◌}
use mathlib.Core.Path.{◌≡◌, refl, ap}
use mathlib.Core.List.{List, [], ◌∷◌, ◌++◌}
use native.Mathlib.Omega.{arith}
use test.Base.Lists.{length, take, drop, replicate}

-- `memcpy(dst + off, src, length src)`. What lies past the end of `dst` is not written.
abbrev pub write_at : ℕ → List ℕ → List ℕ → List ℕ
write_at zero [] dst = dst
write_at zero (x ∷ src) [] = []
write_at zero (x ∷ src) (y ∷ dst) = x ∷ write_at zero src dst
write_at (suc off) src [] = []
write_at (suc off) src (y ∷ dst) = y ∷ write_at off src dst

-- the `n` bytes from `off` on
abbrev pub slice : ℕ → ℕ → List ℕ → List ℕ
slice off n buf = take n (drop off buf)

-- `memset(dst + off, c, n)`
abbrev pub fill_at : ℕ → ℕ → ℕ → List ℕ → List ℕ
fill_at off c n dst = write_at off (replicate n c) dst

pub length-write_at : (off : ℕ) (src dst : List ℕ) → length (write_at off src dst) ≡ length dst
length-write_at zero [] dst = refl
length-write_at zero (x ∷ src) [] = refl
length-write_at zero (x ∷ src) (y ∷ dst) = ap suc (length-write_at zero src dst)
length-write_at (suc off) src [] = refl
length-write_at (suc off) src (y ∷ dst) = ap suc (length-write_at off src dst)

-- Up to the end of a write there is what stood before it, and then what was written.
pub take-write_at :
    (off : ℕ) (src dst : List ℕ) (n : ℕ)
    → n ≡ off + length src
    → n ≤ length dst
    → take n (write_at off src dst) ≡ take off dst ++ src
take-write_at zero [] dst zero e h = refl
take-write_at zero [] dst (suc n) e h = absurd (omega arith)
take-write_at zero (x ∷ src) dst zero e h = absurd (omega arith)
take-write_at zero (x ∷ src) [] (suc n) e h = absurd (omega arith)
take-write_at zero (x ∷ src) (y ∷ dst) (suc n) e h =
    ap (λ t. x ∷ t) (take-write_at zero src dst n (omega arith) (omega arith))
take-write_at (suc off) src [] n e h = absurd (omega arith)
take-write_at (suc off) src (y ∷ dst) zero e h = absurd (omega arith)
take-write_at (suc off) src (y ∷ dst) (suc n) e h =
    ap (λ t. y ∷ t) (take-write_at off src dst n (omega arith) (omega arith))

-- A read of the bytes just written gives them back.
pub slice-write_at_self :
    (off : ℕ) (src dst : List ℕ) (n : ℕ)
    → n ≡ length src
    → off + n ≤ length dst
    → slice off n (write_at off src dst) ≡ src
slice-write_at_self zero src dst n e h = take-write_at zero src dst n (omega arith) (omega arith)
slice-write_at_self (suc off) [] [] n e h = absurd (omega arith)
slice-write_at_self (suc off) (x ∷ src) [] n e h = absurd (omega arith)
slice-write_at_self (suc off) src (y ∷ dst) n e h =
    slice-write_at_self off src dst n e (omega arith)

-- A read that ends before a write does not see it.
take-write_at_before :
    (off : ℕ) (src dst : List ℕ) (n : ℕ) → n ≤ off → take n (write_at off src dst) ≡ take n dst
take-write_at_before off src dst zero h = refl
take-write_at_before zero src dst (suc n) h = absurd (omega arith)
take-write_at_before (suc off) src [] (suc n) h = refl
take-write_at_before (suc off) src (y ∷ dst) (suc n) h =
    ap (λ t. y ∷ t) (take-write_at_before off src dst n (omega arith))

pub slice-write_at_before :
    (off : ℕ) (src dst : List ℕ) (i n : ℕ)
    → i + n ≤ off
    → slice i n (write_at off src dst) ≡ slice i n dst
slice-write_at_before off src dst zero n h = take-write_at_before off src dst n (omega arith)
slice-write_at_before zero src dst (suc i) n h = absurd (omega arith)
slice-write_at_before (suc off) src [] (suc i) n h = refl
slice-write_at_before (suc off) src (y ∷ dst) (suc i) n h =
    slice-write_at_before off src dst i n (omega arith)

-- A read that begins after a write does not see it.
pub drop-write_at_after :
    (off : ℕ) (src dst : List ℕ) (i : ℕ)
    → off + length src ≤ i
    → drop i (write_at off src dst) ≡ drop i dst
drop-write_at_after zero [] dst i h = refl
drop-write_at_after zero (x ∷ src) [] i h = refl
drop-write_at_after zero (x ∷ src) (y ∷ dst) zero h = absurd (omega arith)
drop-write_at_after zero (x ∷ src) (y ∷ dst) (suc i) h =
    drop-write_at_after zero src dst i (omega arith)
drop-write_at_after (suc off) src [] i h = refl
drop-write_at_after (suc off) src (y ∷ dst) zero h = absurd (omega arith)
drop-write_at_after (suc off) src (y ∷ dst) (suc i) h =
    drop-write_at_after off src dst i (omega arith)
