-- ===== src/Programs/Receiver/Kept.antt =====
-- When the file of a server is what came.
use test.Base.{
  ℕ, ◌≤◌, ◌<◌, ◌≡◌, ◌⊎◌, ◌∙◌, inl, inr, sym, ap, List, [], ◌∷◌, ◌++◌, map, length, All, write_at,
  arith, append_assoc, append-nil,
}
use test.Programs.Splitter.Pieces.{concat}
use test.Programs.Splitter.Whole.{coded}
use test.Programs.Receiver.{Server, waiting, closed, read_null, spent, receive, receive_all}
use test.Programs.Receiver.Datagram.{Written, receive-Written}
use test.Programs.Receiver.Collect.{Starts, Starts-counted}

-- A server that waits has the datagrams, one after another, in its file, or it counted two sequence
-- parameter sets; the count does not fall.
abbrev pub Kept : ℕ → List ℕ → List (List ℕ) → Server → Type 0
Kept start file datagrams read_null = ⊥
Kept start file datagrams spent = ⊥
Kept start file datagrams (closed file') = 0 ≤ start
Kept start file datagrams (waiting mem start' file') =
    (start ≤ start') × ((file' ≡ file ++ concat datagrams) ⊎ (2 ≤ start'))

-- one datagram more before a row
Kept-cons :
    (start next : ℕ) (file bytes file' : List ℕ) (datagrams : List (List ℕ)) (r : Server)
    → start ≤ next
    → (file' ≡ file ++ bytes) ⊎ (2 ≤ next)
    → Kept next file' datagrams r
    → Kept start file (bytes ∷ datagrams) r
Kept-cons start next file bytes file' datagrams read_null up how k = k
Kept-cons start next file bytes file' datagrams spent up how k = k
Kept-cons start next file bytes file' datagrams (closed end) up how k = omega arith
Kept-cons start next file bytes file' datagrams (waiting mem start' end) up how (more, inr two) =
    (omega (arith, up, more), inr two)
Kept-cons start next file bytes file' datagrams (waiting mem start' end) up (inr two)
      (more, inl same) =
    (omega (arith, up, more), inr (omega (arith, two, more)))
Kept-cons start next file bytes file' datagrams (waiting mem start' end) up (inl whole)
      (more, inl same) =
    (
      omega (arith, up, more),
      inl (
          same
          ∙ ap (λ t. t ++ concat datagrams) whole
          ∙ append_assoc file bytes (concat datagrams)),
    )

-- what the first datagram leads to
after_receive-Kept :
    (maxbuf limit start : ℕ) (mem file bytes : List ℕ) (datagrams : List (List ℕ)) (r : Server)
    → Written maxbuf limit start (length bytes) (write_at 0 bytes mem) file bytes r
    → ((mem : List ℕ) (start' : ℕ) (file' : List ℕ)
        → maxbuf ≤ length mem
        → 0 < start'
        → Kept start' file' datagrams (receive_all maxbuf limit datagrams mem start' file'))
    → Kept start file (bytes ∷ datagrams) (elim r [
      | waiting mem' start' file' ↦ receive_all maxbuf limit datagrams mem' start' file'
      | closed file' ↦ closed file'
      | read_null ↦ read_null
      | spent ↦ spent
    ])
after_receive-Kept maxbuf limit start mem file bytes datagrams read_null w next = w
after_receive-Kept maxbuf limit start mem file bytes datagrams spent w next = w
after_receive-Kept maxbuf limit start mem file bytes datagrams (closed file') w next = omega arith
after_receive-Kept maxbuf limit start mem file bytes datagrams (waiting mem' start' file')
      (same, fits, up, counted, (k, last, inl (few, whole))) next =
    Kept-cons start start' file bytes file' datagrams _ (omega (arith, up)) (inl whole)
      (next mem' start' file' fits counted)
after_receive-Kept maxbuf limit start mem file bytes datagrams (waiting mem' start' file')
      (same, fits, up, counted, (k, last, inr (two, type, kept))) next =
    Kept-cons start start' file bytes file' datagrams _ (omega (arith, up)) (inr two)
      (next mem' start' file' fits counted)

pub receive_all-Kept :
    (maxbuf limit start : ℕ) (rests : List (List ℕ)) (mem file : List ℕ)
    → All (λ rest. length (coded rest) < maxbuf) rests
    → maxbuf ≤ length mem
    → Starts start (map coded rests)
    → Kept start file (map coded rests) (receive_all maxbuf limit (map coded rests) mem start file)
unfolding receive_all
receive_all-Kept maxbuf limit start [] mem file short fits started =
    (omega arith, inl (sym (append-nil file)))
receive_all-Kept maxbuf limit start (rest ∷ rests) mem file short fits started =
    after_receive-Kept maxbuf limit start mem file (coded rest) (map coded rests)
      (receive maxbuf limit (coded rest) mem start file)
      (receive-Written maxbuf limit start rest mem file short.0 fits started)
      (λ mem' start' file' fits' started'.
        receive_all-Kept maxbuf limit start' rests mem' file' short.1 fits'
          (Starts-counted start' (map coded rests) started'))
