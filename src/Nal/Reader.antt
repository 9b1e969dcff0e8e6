-- ===== src/Nal/Reader.antt =====
-- `copy_nal_from_file` of file_parse/file_parse.c, a second reader of NAL units, which nothing calls. It
-- reads a file in chunks into a static buffer and looks for two start codes in it. `behind` is the
-- memory behind the static buffer, which the second search reaches.
pub mod Laws
use test.Base.{
  ℕ, zero, suc, ◌+◌, ◌-◌, Bool, true, false, Option, none, some, List, [], ◌∷◌, ◌++◌, ◌==◌, ltb,
  if◌then◌else◌, length, take, drop, write_at, slice,
}
use test.Base.Int.{ℤ, pos, negsuc, minus_one}
use test.Nal.StartCode.{find_nal_start_code}

-- The size of `temp_buff`; `temp_last` stays 0.
abbrev pub temp_size : ℕ
temp_size = 1024

-- What a call leaves: its return value (`none` where it falls off its end), `*read_len` if it was written,
-- the caller's buffer, the static buffer and the rest of the file.
pub record Left : Type 0 where
  pub ret : Option ℤ
  pub read_len : Option ℕ
  pub p_buff : List ℕ
  pub temp_buff : List ℕ
  pub rest : List ℕ

-- A call ends, or it writes behind the caller's buffer, or the fuel is spent.
pub data Ran : Type 0 where
  ended : Left → Ran
  outside : Ran
  spent : Ran

-- `buff_len > n`
abbrev pub is_above : ℤ → ℕ → Bool
is_above (pos len) n = ltb n len
is_above (negsuc len) n = false

-- What a chunk leads to: the next round, or `return -1`, or a write behind the caller's buffer.
pub data Chunk : Type 0 where
  go_on : List ℕ → Chunk
  too_long : Chunk
  overrun : Chunk

-- the `memcpy` of a unit of `n` bytes at offset `p_start`
abbrev pub copy_unit : ℤ → List ℕ → ℕ → ℕ → List ℕ → Chunk
copy_unit buff_len temp_buff p_start n p_buff =
    if is_above buff_len n
    then (if ltb (length p_buff) n
        then overrun
        else go_on (write_at 0 (slice p_start n temp_buff) p_buff))
    else too_long

-- what follows the second search, from offset `p_start + 4` on
abbrev pub on_second : ℤ → List ℕ → ℕ → List ℕ → Option ℕ → Chunk
on_second buff_len temp_buff p_start p_buff none = go_on p_buff
on_second buff_len temp_buff p_start p_buff (some k) =
    copy_unit buff_len temp_buff p_start (4 + k) p_buff

-- what follows the first search; the second is told that as many bytes are left as there are from
-- `p_start` on
unfoldable pub on_first : ℤ → List ℕ → List ℕ → List ℕ → Option ℕ → Chunk
on_first buff_len behind temp_buff p_buff none = go_on p_buff
on_first buff_len behind temp_buff p_buff (some p_start) =
    on_second buff_len temp_buff p_start p_buff (
      find_nal_start_code (some (drop (p_start + 4) (temp_buff ++ behind)))
        (pos (temp_size - p_start)))

-- the body of the loop; `start_code_count` stays 0
unfoldable pub on_chunk : ℤ → List ℕ → List ℕ → List ℕ → Chunk
unfolding on_first
on_chunk buff_len behind temp_buff p_buff =
    on_first buff_len behind temp_buff p_buff (find_nal_start_code (some temp_buff) (pos temp_size))

-- what a call leaves when it stops at a chunk; `again` is the next round
abbrev pub after_chunk : (List ℕ → Ran) → List ℕ → List ℕ → List ℕ → Chunk → Ran
after_chunk again p_buff temp_buff rest (go_on p_buff') = again p_buff'
after_chunk again p_buff temp_buff rest too_long = ended (record {
  ret = some minus_one;
  read_len = some 0;
  p_buff = p_buff;
  temp_buff = temp_buff;
  rest = rest;
})
after_chunk again p_buff temp_buff rest overrun = outside

-- The loop over `fread`, on fuel. Behind it the function ends without a `return`.
unfoldable pub read_chunks : ℕ → ℤ → List ℕ → List ℕ → List ℕ → List ℕ → Ran
unfolding on_chunk
read_chunks zero buff_len behind temp_buff p_buff file = spent
read_chunks (suc fuel) buff_len behind temp_buff p_buff file =
    let chunk = take temp_size file in
    let filled = write_at 0 chunk temp_buff in
    let rest = drop temp_size file in
    let next =
      after_chunk (λ p_buff'. read_chunks fuel buff_len behind filled p_buff' rest) p_buff filled
        rest (on_chunk buff_len behind filled p_buff) in
    if length chunk == 0
    then ended (record {
      ret = none;
      read_len = some 0;
      p_buff = p_buff;
      temp_buff = temp_buff;
      rest = file;
    })
    else next

-- the whole function, for pointers that are NULL or not
unfoldable pub copy_nal_from_file :
    List ℕ → List ℕ → Option (List ℕ) → Option (List ℕ) → ℤ → Bool → Ran
unfolding read_chunks
copy_nal_from_file behind temp_buff (some file) (some p_buff) buff_len true =
    read_chunks (length file + 1) buff_len behind temp_buff p_buff file
copy_nal_from_file behind temp_buff fp p_buff buff_len wanted = ended (record {
  ret = some minus_one;
  read_len = none;
  p_buff = elim p_buff [ none ↦ [] | some b ↦ b ];
  temp_buff = temp_buff;
  rest = elim fp [ none ↦ [] | some f ↦ f ];
})
