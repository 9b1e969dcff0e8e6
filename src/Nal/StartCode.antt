-- ===== src/Nal/StartCode.antt =====
-- `find_nal_start_code` of file_parse/file_parse.c (the clients and servers hold copies of it). The
-- result is the offset of the start code in the buffer. A byte past the end of the list matches nothing.
pub mod Laws
use test.Base.{
  ℕ, zero, suc, ◌+◌, ◌-◌, Bool, true, false, ◌&&◌, Option, none, some, List, ◌==◌, ltb,
  if◌then◌else◌, get_elem?,
}
use test.Base.Int.{ℤ, pos, negsuc}

abbrev pub is_byte : Option ℕ → ℕ → Bool
is_byte none x = false
is_byte (some b) x = b == x

-- the four comparisons of the condition
unfoldable pub is_code_at : List ℕ → ℕ → Bool
is_code_at buff i =
    is_byte (get_elem? buff i) 0
    && (is_byte (get_elem? buff (i + 1)) 0
        && (is_byte (get_elem? buff (i + 2)) 0 && is_byte (get_elem? buff (i + 3)) 1))

-- the loop from `i` on, by the rounds that are left
pub find_from : ℕ → ℕ → List ℕ → Option ℕ
find_from zero i buff = none
find_from (suc rounds) i buff =
    let rest = find_from rounds (i + 1) buff in if is_code_at buff i then some i else rest

unfoldable pub find_nal_start_code : Option (List ℕ) → ℤ → Option ℕ
unfolding find_from is_code_at
find_nal_start_code none n_read_len = none
find_nal_start_code (some buff) (negsuc n) = none
find_nal_start_code (some buff) (pos n) = if ltb n 4 then none else find_from (n - 4) 0 buff
