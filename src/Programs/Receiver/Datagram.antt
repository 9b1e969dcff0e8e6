-- ===== src/Programs/Receiver/Datagram.antt =====
-- What a datagram adds to the file.
use Prim.Native.Nat.{bit_and}
use test.Base.{
  get_or, ℕ, zero, suc, ◌+◌, ◌-◌, ◌≤◌, ◌<◌, ◌≡◌, subst, ◌⊎◌, ◌∙◌, inl, inr, refl, sym, ap, Bool,
  true, false, ◌&&◌, Option, none, some, List, [], ◌∷◌, ◌++◌, ◌==◌, ltb, if◌then◌else◌, length,
  take, drop, write_at, slice, arith, append_assoc, take-nil, take-write_at, take_all,
  length-write_at,
}
use test.Base.Int.{ℤ, pos, sub_ℕ}
use test.Nal.StartCode.{is_code_at, find_nal_start_code}
use test.Nal.StartCode.Laws.{IsFirst, find_nal_start_code-IsFirst}
use test.Nal.Parse.{type_at}
use test.Programs.Splitter.Pieces.{slice-cut}
use test.Programs.Splitter.Files.{first_at_zero, code_written}
use test.Programs.Splitter.Whole.{coded}
use test.Programs.Receiver.{
  count_start, Loop, take_unit, at_unit, unit_loop, Server, waiting, closed, read_null, spent,
  after_units, on_start, receive,
}
use test.Programs.Receiver.Sets.{
  set_at, sets, is_set, IsLast, code_shift, none_between, sets-next, sets-end, count_start-set,
}

-- The units up to the last start code are in the file, and the parameter sets behind the first one were
-- counted.
abbrev Taken : List ℕ → ℕ → Loop → Option Loop → Type 0
Taken mem n l none = ⊥
Taken mem n l (some l') =
    (l'.start_code ≡ l'.reveive_len)
    × IsLast mem n l'.reveive_len
    × (l'.start ≡ l.start + sets mem (l.reveive_len + 1) (n - (l.reveive_len + 1)))
    × (l'.file ++ slice l'.reveive_len (n - l'.reveive_len) mem
        ≡ l.file ++ slice l.reveive_len (n - l.reveive_len) mem)

-- A unit that is taken moves from the rest to the file.
take_unit-Taken :
    (mem : List ℕ) (n k : ℕ) (l : Loop) (r : Option Loop)
    → l.start_code ≡ l.reveive_len
    → l.reveive_len + (4 + k) < n
    → 0 < l.start
    → is_code_at mem (l.reveive_len + (4 + k)) ≡ true
    → ((j : ℕ) → l.reveive_len < j → j < l.reveive_len + (4 + k) → is_code_at mem j ≡ false)
    → Taken mem n (take_unit mem k l) r
    → Taken mem n l r
take_unit-Taken mem n k l none same inside started code miss t = t
take_unit-Taken mem n k l (some l') same inside started code miss (same', last, more, joined) =
    let next = l.reveive_len + (4 + k) in
    let at_code : l.start_code + (4 + k) ≡ next = ap (λ t. t + (4 + k)) same in
    let counted : count_start mem (l.start_code + (4 + k)) l.start ≡ l.start + set_at mem next =
      ap (λ t. count_start mem t l.start) at_code ∙ count_start-set mem next l.start code in
    let all =
      sets-next mem (l.reveive_len + 1) next n (omega arith) inside
        (λ j low high. miss j (omega (arith, low)) high) in
    let written : (count_start mem (l.start_code + (4 + k)) l.start == 0) ≡ false =
      ground (arith, counted) in
    let piece = slice l.start_code (4 + k) mem in
    (
      same',
      last,
      omega (arith, more, counted, all),
      joined
          ∙ ap (λ (b : Bool). (if b then l.file else l.file ++ piece) ++ slice next (n - next) mem)
              written
          ∙ append_assoc l.file piece (slice next (n - next) mem)
          ∙ ap (λ t. l.file ++ t)
              (ap (λ t. slice t (4 + k) mem ++ slice next (n - next) mem) same
                ∙ slice-cut l.reveive_len (4 + k) n mem (omega (arith, inside))),
    )

at_unit-Taken :
    (mem : List ℕ) (n : ℕ) (l : Loop) (again : Loop → Option Loop) (found : Option ℕ)
    → l.start_code ≡ l.reveive_len
    → l.reveive_len < n
    → 0 < l.start
    → is_code_at mem l.reveive_len ≡ true
    → IsFirst (drop (l.reveive_len + 4) mem) 0 (n - l.reveive_len - 4) found
    → ((k : ℕ)
        → l.reveive_len + (4 + k) < n
        → is_code_at mem (l.reveive_len + (4 + k)) ≡ true
        → Taken mem n (take_unit mem k l) (again (take_unit mem k l)))
    → Taken mem n l (at_unit again mem l found)
unfolding at_unit
at_unit-Taken mem n l again none same inside started code first next =
    let miss : (j : ℕ) → l.reveive_len < j → j < n → is_code_at mem j ≡ false = λ j low high.
      none_between mem l.reveive_len (n - l.reveive_len - 4) code first j low
        (omega (arith, low, high)) in
    let over =
      sets-end mem (l.reveive_len + 1) n (λ j low high. miss j (omega (arith, low)) high) in
    (same, (inside, code, miss), omega (arith, over), refl)
at_unit-Taken mem n l again (some k) same inside started code first next =
    let at = l.reveive_len + (4 + k) in
    let within : at < n = omega (arith, first.1) in
    let index : at - (l.reveive_len + 4) ≡ k = omega arith in
    let found_code : is_code_at mem at ≡ true =
      code_shift (l.reveive_len + 4) at mem (omega arith)
      ∙ ap (λ i. is_code_at (drop (l.reveive_len + 4) mem) i) index
      ∙ first.2 in
    take_unit-Taken mem n k l (again (take_unit mem k l)) same within started found_code
      (none_between mem l.reveive_len k code first.3) (next k within found_code)

unit_loop-Taken :
    (fuel : ℕ) (mem : List ℕ) (n : ℕ) (l : Loop)
    → n < l.reveive_len + fuel
    → l.start_code ≡ l.reveive_len
    → l.reveive_len < n
    → 0 < l.start
    → is_code_at mem l.reveive_len ≡ true
    → Taken mem n l (unit_loop fuel mem n l)
unfolding unit_loop
unit_loop-Taken zero mem n l enough same inside started code = absurd (omega arith)
unit_loop-Taken (suc fuel) mem n l enough same inside started code =
    let left : sub_ℕ n l.reveive_len ≡ pos (n - l.reveive_len) = ground arith in
    let buff = drop (l.start_code + 4) mem in
    subst
      (λ (t : ℤ).
        Taken mem n l (at_unit (unit_loop fuel mem n) mem l (find_nal_start_code (some buff) t)))
      (sym left)
      (at_unit-Taken mem n l (unit_loop fuel mem n) _ same inside started code
        (subst
          (λ s.
            IsFirst (drop (s + 4) mem) 0 (n - l.reveive_len - 4)
              (find_nal_start_code (some buff) (pos (n - l.reveive_len))))
          same (find_nal_start_code-IsFirst buff (n - l.reveive_len)))
        (λ k within next.
          unit_loop-Taken fuel mem n (take_unit mem k l) (omega arith) (ap (λ t. t + (4 + k)) same)
            within (ground arith) next))

-- A datagram of these bytes, with its last start code at `k` of the buffer `filled`, was written whole, since
-- fewer than two sequence parameter sets are counted or no parameter set (type 7 or 8) follows this start
-- code; or all of it up to `k` was written.
abbrev pub Put : List ℕ → ℕ → ℕ → List ℕ → List ℕ → List ℕ → Type 0
Put filled k start' file bytes file' =
    (((start' < 2) ⊎ (is_set (type_at filled (k + 4)) ≡ false)) × (file' ≡ file ++ bytes))
    ⊎ ((2 ≤ start')
        × (is_set (type_at filled (k + 4)) ≡ true)
        × (file' ++ drop k bytes ≡ file ++ bytes))

-- After a datagram of the `n` bytes `bytes` at the begin of the buffer `filled`, when `start` parameter sets had
-- been counted before: those of the datagram are counted too, at least one was, and the datagram was
-- written whole or up to its last start code; or the file was closed, since the first unit of the datagram
-- is the last sequence parameter set that is waited for.
abbrev pub Written : ℕ → ℕ → ℕ → ℕ → List ℕ → List ℕ → List ℕ → Server → Type 0
Written maxbuf limit start n filled file bytes read_null = ⊥
Written maxbuf limit start n filled file bytes spent = ⊥
Written maxbuf limit start n filled file bytes (closed file') =
    (file' ≡ file) × (start + 1 ≡ limit) × (type_at filled 4 ≡ 7)
Written maxbuf limit start n filled file bytes (waiting mem start' file') =
    (mem ≡ filled)
    × (maxbuf ≤ length mem)
    × (start' ≡ start + sets filled 0 n)
    × (0 < start')
    × ((k : ℕ) × IsLast filled n k × Put filled k start' file bytes file')

drop-take : (k n : ℕ) (xs : List ℕ) → drop k (take n xs) ≡ take (n - k) (drop k xs)
drop-take zero n xs = let left : n ≡ n - 0 = omega arith in ap (λ t. take t xs) left
drop-take (suc k) zero [] = sym (take-nil (0 - suc k))
drop-take (suc k) zero (x ∷ xs) =
    let left : 0 ≡ 0 - suc k = omega arith in ap (λ t. take t (drop k xs)) left
drop-take (suc k) (suc n) [] = sym (take-nil (suc n - suc k))
drop-take (suc k) (suc n) (x ∷ xs) =
    let left : n - k ≡ suc n - suc k = omega arith in
    drop-take k n xs ∙ ap (λ t. take t (drop k xs)) left

-- either branch of a test
branches :
    (P : Server → Type 0) (b : Bool) (x y : Server)
    → (b ≡ true → P x)
    → (b ≡ false → P y)
    → P (if b then x else y)
branches P true x y by_true by_false = by_true refl
branches P false x y by_true by_false = by_false refl

after_units-Written :
    (maxbuf limit start n : ℕ) (mem file : List ℕ) (bytes : List ℕ) (l : Loop) (r : Option Loop)
    → n < maxbuf
    → maxbuf ≤ length mem
    → take n mem ≡ bytes
    → l.start + sets mem (l.reveive_len + 1) (n - (l.reveive_len + 1)) ≡ start + sets mem 0 n
    → 0 < l.start
    → l.file ++ slice l.reveive_len (n - l.reveive_len) mem ≡ file ++ bytes
    → Taken mem n l r
    → Written maxbuf limit start n mem file bytes (after_units maxbuf mem n r)
after_units-Written maxbuf limit start n mem file bytes l none room fits read up begun whole t = t
after_units-Written maxbuf limit start n mem file bytes l (some l') room fits read up begun whole
      (same, last, more, joined) =
    let k : ℕ = l'.reveive_len in
    let type : ℕ = type_at mem (k + 4) in
    let rest : List ℕ = slice k (n - k) mem in
    let full : (ltb 0 l'.receive_count && (n == maxbuf)) ≡ false = ground (arith, room) in
    let all : l'.file ++ rest ≡ file ++ bytes = joined ∙ whole in
    let tail : drop k bytes ≡ rest = ap (drop k) (sym read) ∙ drop-take k n mem in
    let kept : l'.file ++ drop k bytes ≡ file ++ bytes = ap (λ t. l'.file ++ t) tail ∙ all in
    let total : l'.start ≡ start + sets mem 0 n = more ∙ up in
    let counted : 0 < l'.start = omega (arith, begun, more) in
    let moved : Server =
      waiting (write_at 0 (slice l'.start_code (n - l'.start_code) mem) mem) l'.start l'.file in
    let left : Server = waiting mem l'.start l'.file in
    let added : Server = waiting mem l'.start (l'.file ++ rest) in
    let ok = Written maxbuf limit start n mem file bytes in
    branches ok _ moved (if ltb l'.start 2 then added else if is_set type then left else added)
      (λ e. absurd (cc (e, full)))
      (λ _.
        branches ok _ added (if is_set type then left else added)
          (λ few. (refl, fits, total, counted, (k, last, inl (inl (ground (arith, few)), all))))
          (λ many.
            branches ok (is_set type) left added
              (λ e. (refl, fits, total, counted, (k, last, inr (ground (arith, many), e, kept))))
              (λ e. (refl, fits, total, counted, (k, last, inl (inr e, all))))))

on_start-Written :
    (maxbuf limit start n : ℕ) (mem file bytes : List ℕ)
    → n < maxbuf
    → 0 < n
    → maxbuf ≤ length mem
    → take n mem ≡ bytes
    → is_code_at mem 0 ≡ true
    → 0 < count_start mem 0 start
    → Written maxbuf limit start n mem file bytes (on_start maxbuf limit mem n start file (some 0))
unfolding on_start
on_start-Written maxbuf limit start n mem file bytes room more fits read code started =
    let start' : ℕ = count_start mem 0 start in
    let first : Loop = record {
      start_code = 0;
      reveive_len = 0;
      receive_count = 0;
      start = start';
      file = file;
    } in
    let whole : file ++ take (n - 0) mem ≡ file ++ bytes =
      ap (λ t. file ++ t) (ap (λ t. take t mem) (omega arith) ∙ read) in
    let none_before : (j : ℕ) → 0 ≤ j → j < 0 → is_code_at mem j ≡ false =
      λ j low high. absurd (omega (arith, high)) in
    let here = count_start-set mem 0 start code in
    let next = sets-next mem 0 0 n (omega arith) more none_before in
    let width : sets mem 0 (n - 0) ≡ sets mem 0 n = ap (λ t. sets mem 0 t) (omega arith) in
    branches (Written maxbuf limit start n mem file bytes)
      ((type_at mem 4 == 7) && (start' == limit)) (closed file) _
      (λ e. (refl, ground (arith, e), ground (arith, e)))
      (λ _.
        after_units-Written maxbuf limit start n mem file bytes first _ room fits read
          (omega (arith, here, next, width)) started whole
          (unit_loop-Taken (n + 1) mem n first (omega arith) refl more started code))

byte_written :
    (b : ℕ) (rest mem : List ℕ)
    → 4 < length mem
    → get_or (write_at 0 (coded (b ∷ rest)) mem) 4 0 ≡ b
byte_written b rest [] long = absurd (omega arith)
byte_written b rest (m0 ∷ []) long = absurd (omega arith)
byte_written b rest (m0 ∷ m1 ∷ []) long = absurd (omega arith)
byte_written b rest (m0 ∷ m1 ∷ m2 ∷ []) long = absurd (omega arith)
byte_written b rest (m0 ∷ m1 ∷ m2 ∷ m3 ∷ []) long = absurd (omega arith)
byte_written b rest (m0 ∷ m1 ∷ m2 ∷ m3 ∷ m4 ∷ mem) long = refl

-- A sequence parameter set was counted, or the datagram begins with one.
abbrev pub Begun : ℕ → List ℕ → Type 0
Begun start bytes = (0 < start) ⊎ (type_at bytes 4 ≡ 7)

Begun-counted :
    (start : ℕ) (rest mem : List ℕ)
    → 4 < length mem
    → Begun start (coded rest)
    → 0 < count_start (write_at 0 (coded rest) mem) 0 start
Begun-counted start rest mem long (inl counted) = ground (arith, counted)
Begun-counted start [] mem long (inr set) = absurd (omega (arith, set))
Begun-counted start (b ∷ rest) mem long (inr set) =
    let type : type_at (write_at 0 (coded (b ∷ rest)) mem) 4 ≡ 7 =
      ap (λ t. bit_and t 0x1f) (byte_written b rest mem long) ∙ set in
    ground (arith, type)

-- A datagram that begins with a start code and is shorter than the buffer, with a sequence parameter set as its
-- first unit or after one was counted: its parameter sets are counted, and it is written whole, or, when two
-- were counted and a parameter set is its last unit, up to this unit; or it closes the file.
pub receive-Written :
    (maxbuf limit start : ℕ) (rest mem file : List ℕ)
    → length (coded rest) < maxbuf
    → maxbuf ≤ length mem
    → Begun start (coded rest)
    → Written maxbuf limit start
        (length (coded rest))
        (write_at 0 (coded rest) mem)
        file
        (coded rest)
        (receive maxbuf limit (coded rest) mem start file)
unfolding receive
receive-Written maxbuf limit start rest mem file short fits started =
    let bytes : List ℕ = coded rest in
    let n : ℕ = length bytes in
    let filled : List ℕ = write_at 0 bytes mem in
    let size : length filled ≡ length mem = length-write_at 0 bytes mem in
    let chunk : take maxbuf bytes ≡ bytes = take_all maxbuf bytes (omega (arith, short)) in
    let read : take n filled ≡ bytes =
      take-write_at 0 bytes mem n (omega arith) (omega (arith, short, fits)) in
    let ok = Written maxbuf limit start n filled file bytes in
    let wide : 0 < maxbuf - 4 = omega (arith, short) in
    let code : is_code_at filled 0 ≡ true = code_written rest mem (omega (arith, short, fits)) in
    let found : find_nal_start_code (some filled) (pos maxbuf) ≡ some 0 =
      first_at_zero filled (maxbuf - 4) (find_nal_start_code (some filled) (pos maxbuf)) code wide
        (find_nal_start_code-IsFirst filled maxbuf) in
    let more : (n == 0) ≡ false = ground arith in
    subst ok (sym (rw (chunk, more, found) refl)) (
      on_start-Written maxbuf limit start n filled file bytes short (omega arith)
        (omega (arith, fits, size)) read code
        (Begun-counted start rest mem (omega (arith, short, fits)) started))
