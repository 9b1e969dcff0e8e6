-- ===== src/Nal/Escaped.antt =====
-- What `copy_nal_from_file` returns on a byte stream.
use test.Base.{
  ℕ, zero, suc, ◌<◌, ◌≡◌, ◌≢◌, refl, ap, ◌∙◌, sym, Bool, false, ◌&&◌, List, [], ◌∷◌, ◌++◌, ◌==◌,
  ltb, length, arith, append_assoc, append-nil,
}
use test.Base.Int.{pos, minus_one}
use test.Nal.Copy.{Scan, copy_step, copy_loop, copy_nal_from_file}

-- The list begins with 00 00 00 or 00 00 01, or is nothing but one or two zeroes.
abbrev pub opens_code : List ℕ → Bool
opens_code [] = false
opens_code (a ∷ []) = a == 0
opens_code (a ∷ b ∷ []) = (a == 0) && (b == 0)
opens_code (a ∷ b ∷ c ∷ xs) = (a == 0) && ((b == 0) && ltb c 2)

-- A NAL unit as the standard wants it: no start code inside (emulation prevention), and no zero at
-- its end.
abbrev pub IsEscaped : List ℕ → Type 0
IsEscaped [] = Unit
IsEscaped (x ∷ xs) = (opens_code (x ∷ xs) ≡ false) × IsEscaped xs

-- a scan between two bytes that have been copied
abbrev pub scan : ℕ → ℕ → ℕ → List ℕ → Scan
scan a b c out = record { flag = 0; tmp0 = a; tmp1 = b; tmp2 = c; buf = out }

-- Two starts of a scan that differ in the kept zeroes alone.
plain_byte :
    (a b c x : ℕ) (out file : List ℕ)
    → x ≢ 0
    → copy_loop (scan a b c out) (x ∷ file) ≡ copy_loop (scan a b c (out ++ (x ∷ []))) file
unfolding copy_loop copy_step
plain_byte a b c x out file ne = ground arith

zero_byte :
    (a b c x : ℕ) (out file : List ℕ)
    → x ≢ 0
    → copy_loop (scan a b c out) (0 ∷ x ∷ file) ≡ copy_loop (scan 0 b c (out ++ (0 ∷ x ∷ []))) file
unfolding copy_loop copy_step
zero_byte a b c x out file ne = ground arith

two_zeroes :
    (a b c x : ℕ) (out file : List ℕ)
    → 1 < x
    → copy_loop (scan a b c out) (0 ∷ 0 ∷ x ∷ file)
      ≡ copy_loop (scan 0 0 c (out ++ (0 ∷ 0 ∷ x ∷ []))) file
unfolding copy_loop copy_step
two_zeroes a b c x out file gt = ground arith

-- A start code of three or of four bytes ends the unit.
short_code :
    (a b c : ℕ) (out file : List ℕ)
    → copy_loop (scan a b c out) (0 ∷ 0 ∷ 1 ∷ file) ≡ (pos (length out), out, file)
unfolding copy_loop copy_step
short_code a b c out file = refl

long_code :
    (a b c : ℕ) (out file : List ℕ)
    → copy_loop (scan a b c out) (0 ∷ 0 ∷ 0 ∷ 1 ∷ file) ≡ (pos (length out), out, file)
unfolding copy_loop copy_step
long_code a b c out file = refl

-- the scan that is left after a unit was copied to `out`
record Copied (a b c : ℕ) (nal out file : List ℕ) : Type 0 where
  kept0 : ℕ
  kept1 : ℕ
  kept2 : ℕ
  same :
      copy_loop (scan a b c out) (nal ++ file)
      ≡ copy_loop (scan kept0 kept1 kept2 (out ++ nal)) file

-- One step of the copy followed by the rest of it.
Copied-step :
    {a b c a' b' c' : ℕ} (front nal out file : List ℕ)
    → copy_loop (scan a b c out) (front ++ (nal ++ file))
      ≡ copy_loop (scan a' b' c' (out ++ front)) (nal ++ file)
    → Copied a' b' c' nal (out ++ front) file
    → Copied a b c (front ++ nal) out file
Copied-step front nal out file step rest = record {
  kept0 = rest.kept0;
  kept1 = rest.kept1;
  kept2 = rest.kept2;
  same = rw (append_assoc front nal file) (
      step
      ∙ rest.same
      ∙ ap (λ t. copy_loop (scan rest.kept0 rest.kept1 rest.kept2 t) file)
          (append_assoc out front nal));
}

-- An escaped unit is copied as it is.
copy_loop-Copied : (a b c : ℕ) (nal out file : List ℕ) → IsEscaped nal → Copied a b c nal out file
copy_loop-Copied a b c [] out file h = record {
  kept0 = a;
  kept1 = b;
  kept2 = c;
  same = ap (λ t. copy_loop (scan a b c t) file) (sym (append-nil out));
}
copy_loop-Copied a b c (suc x ∷ nal) out file h =
    Copied-step (suc x ∷ []) nal out file (plain_byte a b c (suc x) out (nal ++ file) (omega arith))
      (copy_loop-Copied a b c nal (out ++ (suc x ∷ [])) file h.1)
copy_loop-Copied a b c (zero ∷ []) out file h = absurd (cc h.0)
copy_loop-Copied a b c (zero ∷ suc x ∷ nal) out file h =
    Copied-step (0 ∷ suc x ∷ []) nal out file
      (zero_byte a b c (suc x) out (nal ++ file) (omega arith))
      (copy_loop-Copied 0 b c nal (out ++ (0 ∷ suc x ∷ [])) file h.1.1)
copy_loop-Copied a b c (zero ∷ zero ∷ []) out file h = absurd (cc h.0)
copy_loop-Copied a b c (zero ∷ zero ∷ x ∷ nal) out file h =
    Copied-step (0 ∷ 0 ∷ x ∷ []) nal out file (two_zeroes a b c x out (nal ++ file) (ground arith))
      (copy_loop-Copied 0 0 c nal (out ++ (0 ∷ 0 ∷ x ∷ [])) file h.1.1.1)

-- An escaped unit before a start code of four bytes is returned whole, and the file stands behind the
-- start code.
pub copy_nal_from_file-long_code :
    (nal rest : List ℕ)
    → IsEscaped nal
    → copy_nal_from_file (nal ++ (0 ∷ 0 ∷ 0 ∷ 1 ∷ rest)) ≡ (pos (length nal), nal, rest)
unfolding copy_nal_from_file
copy_nal_from_file-long_code nal rest h =
    let whole = copy_loop-Copied 0 0 0 nal [] (0 ∷ 0 ∷ 0 ∷ 1 ∷ rest) h in
    whole.same ∙ long_code whole.kept0 whole.kept1 whole.kept2 nal rest

-- So it is before a start code of three bytes.
pub copy_nal_from_file-short_code :
    (nal rest : List ℕ)
    → IsEscaped nal
    → copy_nal_from_file (nal ++ (0 ∷ 0 ∷ 1 ∷ rest)) ≡ (pos (length nal), nal, rest)
unfolding copy_nal_from_file
copy_nal_from_file-short_code nal rest h =
    let whole = copy_loop-Copied 0 0 0 nal [] (0 ∷ 0 ∷ 1 ∷ rest) h in
    whole.same ∙ short_code whole.kept0 whole.kept1 whole.kept2 nal rest

-- A unit that the end of the file ends is copied and not reported: the result is -1.
pub copy_nal_from_file-end :
    (nal : List ℕ) → IsEscaped nal → copy_nal_from_file nal ≡ (minus_one, nal, [])
unfolding copy_nal_from_file copy_loop
copy_nal_from_file-end nal h =
    let whole = copy_loop-Copied 0 0 0 nal [] [] h in
    ap (λ t. copy_loop (scan 0 0 0 []) t) (sym (append-nil nal)) ∙ whole.same

-- The code drops four bytes 00 00 00 x with x other than 1: what follows is read as if they were not
-- there.
pub copy_loop-drops :
    (a b c x : ℕ) (out file : List ℕ)
    → x ≢ 1
    → copy_loop (scan a b c out) (0 ∷ 0 ∷ 0 ∷ x ∷ file) ≡ copy_loop (scan 0 0 0 out) file
unfolding copy_loop copy_step
copy_loop-drops a b c x out file ne = ground arith
