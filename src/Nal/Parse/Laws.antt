-- ===== src/Nal/Parse/Laws.antt =====
-- `parse_h264_file` ends, and tells where the last start code of the buffer ends.
use test.Base.{
  ℕ, zero, suc, ◌+◌, ◌-◌, ◌≤◌, ◌<◌, ◌≡◌, ◌⊎◌, inl, inr, refl, ap, true, false, some, List, ◌==◌,
  ltb, length, if◌then◌else◌, arith, Bool-cases, dec_lt,
}
use test.Base.Int.{pos}
use test.Nal.StartCode.{is_code_at}
use test.Nal.Parse.{
  Counters, print_from, print_nal_type, find_nal_type, parsed, result, parse_loop, parse_h264_file,
  report, type_at,
}

-- no start code lies in `[a, b)`
abbrev pub NoCode : List ℕ → ℕ → ℕ → Type 0
NoCode buff a b = (j : ℕ) → a ≤ j → j + 4 ≤ b → is_code_at buff j ≡ false

-- Scanning from `p` to `b`, the offset behind the last start code is `r`; it is `q` if there is none.
abbrev pub IsLastEnd : List ℕ → ℕ → ℕ → ℕ → ℕ → Type 0
IsLastEnd buff p q b r =
    ((r ≡ q) × NoCode buff p b)
    ⊎ ((p + 4 ≤ r) × (r ≤ b) × (is_code_at buff (r - 4) ≡ true) × NoCode buff r b)

IsLastEnd-unit :
    (buff : List ℕ) (p q b r : ℕ)
    → p + 4 ≤ b
    → is_code_at buff p ≡ true
    → IsLastEnd buff (p + 4) (p + 4) b r
    → IsLastEnd buff p q b r
IsLastEnd-unit buff p q b r room hit (inl h) =
    let back : r - 4 ≡ p = omega (arith, h.0) in
    inr (
      omega (arith, h.0),
      omega (arith, h.0),
      rw back hit,
      λ j low high. h.1 j (omega (arith, h.0)) high,
    )
IsLastEnd-unit buff p q b r room hit (inr h) = inr (omega (arith, h.0), h.1, h.2, h.3)

IsLastEnd-byte :
    (buff : List ℕ) (p q b r : ℕ)
    → (p + 4 ≤ b → is_code_at buff p ≡ false)
    → IsLastEnd buff (p + 1) q b r
    → IsLastEnd buff p q b r
IsLastEnd-byte buff p q b r miss (inl h) = inl (
  h.0,
  λ j low high. elim (dec_lt p j) [
    | yes later ↦ h.1 j (omega arith) high
    | no same ↦ let e : p ≡ j = omega arith in rw (← e) (miss (omega arith))
  ],
)
IsLastEnd-byte buff p q b r miss (inr h) = inr (omega (arith, h.0), h.1, h.2, h.3)

parse_loop-IsLastEnd :
    (fuel : ℕ) (buff : List ℕ) (p q n b : ℕ) (c : Counters)
    → n < fuel
    → b ≡ p + n
    → b < length buff
    → (r : ℕ) × (c' : Counters) × (parse_loop fuel buff p q n c ≡ parsed r c')
      × IsLastEnd buff p q b r
unfolding parse_loop find_nal_type
parse_loop-IsLastEnd zero buff p q n b c enough e room = absurd (omega arith)
parse_loop-IsLastEnd (suc fuel) buff p q n b c enough e room = elim (Bool-cases (n == 0)) [
  | inl over ↦ (q, c, rw over, inl (refl, λ j low high. absurd (ground arith)))
  | inr more ↦ elim (Bool-cases (ltb n 4)) [
    | inl short ↦
        let (r, c', run, last) =
          parse_loop-IsLastEnd fuel buff (p + 1) q (n - 1) b c (ground arith) (ground arith) room in
        (
          r,
          c',
          rw (more, short) run,
          IsLastEnd-byte buff p q b r (λ inside. absurd (ground arith)) last,
        )
    | inr long ↦ elim (Bool-cases (is_code_at buff p)) [
      | inl hit ↦
          let (r, c', run, last) =
            parse_loop-IsLastEnd fuel buff (p + 4) (p + 4) (n - 4) b
              (print_nal_type c (type_at buff (p + 4))).1 (ground arith) (ground arith) room in
          let memory : ltb (p + 4) (length buff) ≡ true = ground arith in
          (
            r,
            c',
            rw (more, long, hit, memory) run,
            IsLastEnd-unit buff p q b r (ground arith) hit last,
          )
      | inr miss ↦
          let (r, c', run, last) =
            parse_loop-IsLastEnd fuel buff (p + 1) q (n - 1) b c (ground arith) (ground arith)
              room in
          (r, c', rw (more, long, miss) run, IsLastEnd-byte buff p q b r (λ inside. miss) last)
    ]
  ]
]

-- On a buffer of which `n` bytes are given and which has a further byte of memory, `parse_h264_file` stays
-- within the memory, ends with 0 and writes the offset behind the last start code of these bytes to
-- `*n_parse_len`, or 0 if they hold no start code.
pub parse_h264_file-IsLastEnd :
    (buff : List ℕ) (n : ℕ) (c : Counters)
    → n < length buff
    → (r : ℕ) × (c' : Counters) × (parse_h264_file (some buff) n c ≡ result (pos 0) (some r) c')
      × IsLastEnd buff 0 0 n r
unfolding parse_h264_file
parse_h264_file-IsLastEnd buff n c room =
    let (r, c', run, last) =
      parse_loop-IsLastEnd (n + 1) buff 0 0 n n c (omega arith) (omega arith) room in
    (r, c', ap report run, last)

-- `print_nal_type` counts an IDR slice (type 5) and a slice (type 1), and no other type.
pub print_nal_type-counts :
    (c : Counters) (t : ℕ)
    → ((print_nal_type c t).1.idr ≡ c.idr + (if t == 5 then 1 else 0))
      × ((print_nal_type c t).1.slices ≡ c.slices + (if t == 1 then 1 else 0))
unfolding print_nal_type print_from
print_nal_type-counts c t = (ground arith, ground arith)
