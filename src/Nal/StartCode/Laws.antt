-- ===== src/Nal/StartCode/Laws.antt =====
-- Which start code `find_nal_start_code` finds, and which it misses.
use test.Base.{
  ℕ, zero, suc, ◌+◌, ◌-◌, ◌≤◌, ◌<◌, ◌≡◌, inl, inr, refl, true, false, Option, none, some, List, ltb,
  arith, Bool-cases, dec_lt,
}
use test.Base.Int.{pos}
use test.Nal.StartCode.{is_code_at, find_from, find_nal_start_code}

-- The first start code among the offsets from `lo` up to, and without, `hi`; `none` if there is none.
abbrev pub IsFirst : List ℕ → ℕ → ℕ → Option ℕ → Type 0
IsFirst buff lo hi none = (j : ℕ) → lo ≤ j → j < hi → is_code_at buff j ≡ false
IsFirst buff lo hi (some i) =
    (lo ≤ i)
    × (i < hi)
    × (is_code_at buff i ≡ true)
    × ((j : ℕ) → lo ≤ j → j < i → is_code_at buff j ≡ false)

-- A miss at `lo` leaves the search to the offsets behind.
IsFirst-step :
    (buff : List ℕ) (lo hi : ℕ) (r : Option ℕ)
    → is_code_at buff lo ≡ false
    → IsFirst buff (lo + 1) hi r
    → IsFirst buff lo hi r
IsFirst-step buff lo hi none miss h = λ j low high. elim (dec_lt lo j) [
  | yes p ↦ h j (omega arith) high
  | no p ↦ let e : lo ≡ j = omega arith in rw (← e) miss
]
IsFirst-step buff lo hi (some i) miss h = (
  omega arith,
  h.1,
  h.2,
  λ j low high. elim (dec_lt lo j) [
    | yes p ↦ h.3 j (omega arith) high
    | no p ↦ let e : lo ≡ j = omega arith in rw (← e) miss
  ],
)

find_from-IsFirst :
    (rounds i hi : ℕ) (buff : List ℕ)
    → hi ≡ i + rounds
    → IsFirst buff i hi (find_from rounds i buff)
unfolding find_from
find_from-IsFirst zero i hi buff e = λ j low high. absurd (omega arith)
find_from-IsFirst (suc rounds) i hi buff e = elim (Bool-cases (is_code_at buff i)) [
  | inl hit ↦ rw hit (omega arith, omega arith, hit, λ j low high. absurd (omega arith))
  | inr miss ↦ rw miss (
      IsFirst-step buff i hi (find_from rounds (i + 1) buff) miss
        (find_from-IsFirst rounds (i + 1) hi buff (omega arith)))
]

-- On a buffer of which `n` bytes are given, `find_nal_start_code` returns the first start code among
-- the offsets below `n - 4`, and NULL if there is none there.
pub find_nal_start_code-IsFirst :
    (buff : List ℕ) (n : ℕ) → IsFirst buff 0 (n - 4) (find_nal_start_code (some buff) (pos n))
unfolding find_nal_start_code
find_nal_start_code-IsFirst buff n = elim (Bool-cases (ltb n 4)) [
  | inl short ↦ rw short (λ j low high. absurd (ground arith))
  | inr long ↦ rw long (find_from-IsFirst (n - 4) 0 (n - 4) buff (omega arith))
]

-- A start code that fills the last four of the `n` bytes is missed: with no other before it the result
-- is NULL.
pub find_nal_start_code-misses :
    (buff : List ℕ) (n : ℕ)
    → 4 ≤ n
    → is_code_at buff (n - 4) ≡ true
    → ((j : ℕ) → j < n - 4 → is_code_at buff j ≡ false)
    → find_nal_start_code (some buff) (pos n) ≡ none
find_nal_start_code-misses buff n long last before =
    conclude (find_nal_start_code (some buff) (pos n)) (find_nal_start_code-IsFirst buff n)
  where
    conclude : (r : Option ℕ) → IsFirst buff 0 (n - 4) r → r ≡ none
    conclude none h = refl
    conclude (some i) h = absurd (cc (before i h.1, h.2))
