-- ===== src/Nal/Reader/Laws.antt =====
-- What a call of the second reader leaves.
use test.Base.{
  ℕ, zero, suc, ◌+◌, ◌≤◌, ◌<◌, ◌≡◌, ◌⊎◌, inl, inr, subst, ◌∙◌, refl, sym, true, false, Option, none,
  some, List, [], ◌∷◌, ◌==◌, ltb, length, take, drop, write_at, slice, arith, Bool-cases,
  length-write_at, length-drop,
}
use test.Base.Int.{ℤ, pos, negsuc, minus_one}
use test.Nal.StartCode.{find_nal_start_code}
use test.Nal.Reader.{
  temp_size, Ran, ended, outside, spent, Chunk, go_on, too_long, overrun, copy_unit, on_second,
  on_first, on_chunk, after_chunk, read_chunks, copy_nal_from_file,
}

-- The call ended with `*read_len` at 0 and the caller's buffer at its size: it read the whole file and
-- returned nothing, or it returned -1.
abbrev pub ReadsNothing : List ℕ → Ran → Type 0
ReadsNothing p_buff spent = ⊥
ReadsNothing p_buff outside = ⊥
ReadsNothing p_buff (ended l) =
    (l.read_len ≡ some 0)
    × (length l.p_buff ≡ length p_buff)
    × (((l.ret ≡ none) × (l.rest ≡ [])) ⊎ (l.ret ≡ some minus_one))

-- A chunk leaves the size of the caller's buffer alone and does not write behind it.
abbrev KeepsSize : List ℕ → Chunk → Type 0
KeepsSize p_buff (go_on p_buff') = length p_buff' ≡ length p_buff
KeepsSize p_buff too_long = length p_buff ≡ length p_buff
KeepsSize p_buff overrun = ⊥

copy_unit-KeepsSize :
    (buff_len : ℤ) (temp_buff : List ℕ) (p_start n : ℕ) (p_buff : List ℕ)
    → ((len : ℕ) → buff_len ≡ pos len → len ≤ length p_buff)
    → KeepsSize p_buff (copy_unit buff_len temp_buff p_start n p_buff)
copy_unit-KeepsSize (negsuc len) temp_buff p_start n p_buff room = refl
copy_unit-KeepsSize (pos len) temp_buff p_start n p_buff room = elim (Bool-cases (ltb n len)) [
  | inr long ↦ rw long refl
  | inl fits ↦
      let inside : ltb (length p_buff) n ≡ false = let h = room len refl in ground arith in
      rw (fits, inside) (length-write_at 0 (slice p_start n temp_buff) p_buff)
]

on_first-KeepsSize :
    (buff_len : ℤ) (behind temp_buff p_buff : List ℕ) (first : Option ℕ)
    → ((len : ℕ) → buff_len ≡ pos len → len ≤ length p_buff)
    → KeepsSize p_buff (on_first buff_len behind temp_buff p_buff first)
unfolding on_first
on_first-KeepsSize buff_len behind temp_buff p_buff none room = refl
on_first-KeepsSize buff_len behind temp_buff p_buff (some p_start) room = second _
  where
    second : (k : Option ℕ) → KeepsSize p_buff (on_second buff_len temp_buff p_start p_buff k)
    second none = refl
    second (some k) = copy_unit-KeepsSize buff_len temp_buff p_start (4 + k) p_buff room

-- What a chunk leads to, when the next round reads nothing.
after_chunk-ReadsNothing :
    (again : List ℕ → Ran) (p_buff temp_buff rest : List ℕ) (c : Chunk)
    → KeepsSize p_buff c
    → ((p_buff' : List ℕ) → length p_buff' ≡ length p_buff → ReadsNothing p_buff' (again p_buff'))
    → ReadsNothing p_buff (after_chunk again p_buff temp_buff rest c)
after_chunk-ReadsNothing again p_buff temp_buff rest overrun keeps next = keeps
after_chunk-ReadsNothing again p_buff temp_buff rest too_long keeps next = (refl, refl, inr refl)
after_chunk-ReadsNothing again p_buff temp_buff rest (go_on p_buff') keeps next =
    resize p_buff' p_buff (again p_buff') keeps (next p_buff' keeps)
  where
    resize :
        (from to : List ℕ) (r : Ran)
        → length from ≡ length to
        → ReadsNothing from r
        → ReadsNothing to r
    resize from to spent same h = h
    resize from to outside same h = h
    resize from to (ended l) same (reported, size, how) = (reported, size ∙ same, how)

read_chunks-ReadsNothing :
    (fuel : ℕ) (buff_len : ℤ) (behind temp_buff p_buff file : List ℕ)
    → length file < fuel
    → ((len : ℕ) → buff_len ≡ pos len → len ≤ length p_buff)
    → ReadsNothing p_buff (read_chunks fuel buff_len behind temp_buff p_buff file)
unfolding read_chunks on_chunk
read_chunks-ReadsNothing zero buff_len behind temp_buff p_buff file enough room =
    absurd (omega arith)
read_chunks-ReadsNothing (suc fuel) buff_len behind temp_buff p_buff [] enough room =
    (refl, refl, inl (refl, refl))
read_chunks-ReadsNothing (suc fuel) buff_len behind temp_buff p_buff (x ∷ file) enough room =
    let filled = write_at 0 (take temp_size (x ∷ file)) temp_buff in
    let some_read : (length (take temp_size (x ∷ file)) == 0) ≡ false = ground arith in
    rw some_read (
      after_chunk-ReadsNothing _ p_buff filled _ _
        (on_first-KeepsSize buff_len behind filled p_buff
          (find_nal_start_code (some filled) (pos temp_size)) room)
        (λ p_buff' same.
          read_chunks-ReadsNothing fuel buff_len behind filled p_buff' (drop temp_size (x ∷ file))
            (omega (arith, enough, length-drop 1023 file))
            (λ len e. subst (λ n. len ≤ n) (sym same) (room len e))))

-- A call of `copy_nal_from_file` in file_parse/file_parse.c with no null pointer, when the buffer has at least
-- `buff_len` bytes: the loop ends, nothing is written behind the buffer, and `*read_len` is 0, whatever
-- the file holds. Either the call read the whole file and ended without a return value, or it returned -1.
pub copy_nal_from_file-ReadsNothing :
    (behind temp_buff file p_buff : List ℕ) (buff_len : ℤ)
    → ((len : ℕ) → buff_len ≡ pos len → len ≤ length p_buff)
    → ReadsNothing p_buff
        (copy_nal_from_file behind temp_buff (some file) (some p_buff) buff_len true)
unfolding copy_nal_from_file
copy_nal_from_file-ReadsNothing behind temp_buff file p_buff buff_len room =
    read_chunks-ReadsNothing (length file + 1) buff_len behind temp_buff p_buff file (omega arith)
      room
