-- ===== src/Nal/Parse.antt =====
-- `parse_h264_file` of file_parse/file_parse.c, which counts the NAL units of a buffer by type. The
-- static counters of `print_nal_type` are a state; what is printed is left out.
pub mod Laws
use Prim.Native.Nat.{bit_and}
use test.Base.{
  ℕ, zero, suc, ◌+◌, ◌-◌, Bool, true, false, ◌&&◌, Option, none, some, List, [], ◌∷◌, ◌==◌, ltb,
  if◌then◌else◌, get_or, length,
}
use test.Base.Int.{ℤ, pos, minus_one}
use test.Nal.StartCode.{is_code_at}

-- the types of `g_nal_str`
abbrev pub nal_types : List ℕ
nal_types = 1 ∷ 2 ∷ 3 ∷ 4 ∷ 5 ∷ 6 ∷ 7 ∷ 8 ∷ 9 ∷ 10 ∷ 11 ∷ 12 ∷ 13 ∷ 19 ∷ 0xff0f001 ∷ []

-- `static int I` and `P`
pub record Counters : Type 0 where
  pub idr : ℕ
  pub slices : ℕ

abbrev pub count_type : Counters → ℕ → Counters
count_type c nal_type =
    if nal_type == 5
    then record c { idr = c.idr + 1 }
    else if nal_type == 1
    then record c { slices = c.slices + 1 }
    else c

-- the loop over the table
pub print_from : List ℕ → Counters → ℕ → ℤ × Counters
print_from [] c nal_type = (minus_one, c)
print_from (t ∷ table) c nal_type =
    let rest = print_from table c nal_type in
    if nal_type == t then (pos 0, count_type c nal_type) else rest

pub print_nal_type : Counters → ℕ → ℤ × Counters
unfolding print_from
print_nal_type c nal_type = print_from nal_types c nal_type

-- `find_nal_type`: a start code at `p_buff`, of which `n_read_len` bytes are given
unfoldable pub find_nal_type : List ℕ → ℕ → ℕ → Bool
find_nal_type buff p_buff n_read_len = if ltb n_read_len 4 then false else is_code_at buff p_buff

-- `*(p_buff+4) & 0x1f`
abbrev pub type_at : List ℕ → ℕ → ℕ
type_at buff i = bit_and (get_or buff i 0) 0x1f

-- How the loop ends: at the end of the bytes; by a read of `*(p_buff+4)` behind the memory of the buffer;
-- or it is out of fuel.
pub data Parsed : Type 0 where
  parsed : ℕ → Counters → Parsed
  read_behind : Parsed
  spent : Parsed

-- `while (n_read_len)`, on fuel; `p_buff` and `p_parse_buff` are offsets, and `buff` is all of the memory
-- from the first one on.
unfoldable pub parse_loop : ℕ → List ℕ → ℕ → ℕ → ℕ → Counters → Parsed
unfolding find_nal_type
parse_loop zero buff p_buff p_parse_buff n_read_len c = spent
parse_loop (suc fuel) buff p_buff p_parse_buff n_read_len c =
    let nal_type = type_at buff (p_buff + 4) in
    let unit =
      parse_loop fuel buff (p_buff + 4) (p_buff + 4) (n_read_len - 4)
        (print_nal_type c nal_type).1 in
    let byte = parse_loop fuel buff (p_buff + 1) p_parse_buff (n_read_len - 1) c in
    if n_read_len == 0
    then parsed p_parse_buff c
    else if find_nal_type buff p_buff n_read_len
    then (if ltb (p_buff + 4) (length buff) then unit else read_behind)
    else byte

-- What the function returns; `failed` is undefined behaviour, and `endless` a loop that does not end.
pub data Result : Type 0 where
  result : ℤ → Option ℕ → Counters → Result
  failed endless : Result

abbrev pub report : Parsed → Result
report (parsed n_parse_len c) = result (pos 0) (some n_parse_len) c
report read_behind = failed
report spent = endless

-- `parse_h264_file` for a length that is not negative: the return value, what is written to
-- `*n_parse_len` and the counters.
unfoldable pub parse_h264_file : Option (List ℕ) → ℕ → Counters → Result
unfolding parse_loop
parse_h264_file none n_read_len c = result minus_one none c
parse_h264_file (some buff) n_read_len c =
    report (parse_loop (n_read_len + 1) buff 0 0 n_read_len c)
