-- ===== src/Rtp/Bytes.antt =====
-- Facts about single bytes, checked at each of the 256 values.
use test.Base.{ℕ, zero, suc, ◌<◌, ◌≡◌, Bool, true, ◌&&◌, ◌==◌, ==_iff, arith}

-- `p` holds of every number below `n`
abbrev pub holds_below : ℕ → (ℕ → Bool) → Bool
holds_below zero p = true
holds_below (suc n) p = p n && holds_below n p

pub holds_below-lt : (n : ℕ) (p : ℕ → Bool) (b : ℕ) → b < n → holds_below n p ≡ true → p b ≡ true
holds_below-lt zero p b lt h = absurd (omega arith)
holds_below-lt (suc n) p b lt h = ground (arith, holds_below-lt n p b)

-- Two functions of a byte that agree on the table agree.
pub eq_of_table :
    (f g : ℕ → ℕ) (b : ℕ) → b < 256 → holds_below 256 (λ x. f x == g x) ≡ true → f b ≡ g b
eq_of_table f g b lt h = (==_iff (f b) (g b)).0 (holds_below-lt 256 (λ x. f x == g x) b lt h)
