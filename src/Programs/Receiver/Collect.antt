-- ===== src/Programs/Receiver/Collect.antt =====
-- What a row of datagrams adds to the file.
use test.Base.{
  ℕ, ◌+◌, ◌≤◌, ◌<◌, ◌≡◌, subst, inl, refl, List, [], ◌∷◌, ◌++◌, map, length, All, write_at, arith,
}
use test.Programs.Splitter.Whole.{coded}
use test.Programs.Receiver.{Server, waiting, closed, read_null, spent, receive, receive_all}
use test.Nal.Parse.{type_at}
use test.Programs.Receiver.Sets.{sets, IsLast}
use test.Programs.Receiver.Datagram.{Begun, Put, Written, receive-Written}

-- A datagram was added to a file, with `mem` the buffer before it came: its sequence parameter sets are
-- counted, and it is in the file whole or up to its last start code.
abbrev pub Grown : List ℕ → ℕ → List ℕ → List ℕ → ℕ → List ℕ → Type 0
Grown mem start file bytes start' file' =
    (start' ≡ start + sets (write_at 0 bytes mem) 0 (length bytes))
    × ((k : ℕ) × IsLast (write_at 0 bytes mem) (length bytes) k
        × Put (write_at 0 bytes mem) k start' file bytes file')

-- Datagrams were added to a file one after another, from the count `start` to the count `start'`.
abbrev pub AddedAll : List ℕ → ℕ → List ℕ → List (List ℕ) → ℕ → List ℕ → Type 0
AddedAll mem start file [] start' file' = (start' ≡ start) × (file' ≡ file)
AddedAll mem start file (bytes ∷ datagrams) start' file' =
    (between : ℕ) × (next : List ℕ) × Grown mem start file bytes between next
    × AddedAll (write_at 0 bytes mem) between next datagrams start' file'

-- the buffer after some datagrams
abbrev pub held : List ℕ → List (List ℕ) → List ℕ
held mem [] = mem
held mem (bytes ∷ datagrams) = held (write_at 0 bytes mem) datagrams

-- The server waits, and all datagrams were added; or it closed the file at one of them, whose first unit is
-- the last sequence parameter set of the `limit` that it waits for, and those before it were added.
abbrev pub Collected : ℕ → List ℕ → ℕ → List ℕ → List (List ℕ) → Server → Type 0
Collected limit mem start file datagrams read_null = ⊥
Collected limit mem start file datagrams spent = ⊥
Collected limit mem start file datagrams (waiting mem' start' file') =
    AddedAll mem start file datagrams start' file'
Collected limit mem start file datagrams (closed file') =
    (before : List (List ℕ)) × (last : List ℕ) × (after : List (List ℕ)) × (count : ℕ) × (datagrams
      ≡ before ++ (last ∷ after))
    × AddedAll mem start file before count file'
    × (count + 1 ≡ limit)
    × (type_at (held mem (before ++ (last ∷ []))) 4 ≡ 7)

-- one datagram more before a row
Collected-cons :
    (limit : ℕ) (mem : List ℕ) (start between : ℕ) (file bytes next : List ℕ)
    (datagrams : List (List ℕ)) (r : Server)
    → Grown mem start file bytes between next
    → Collected limit (write_at 0 bytes mem) between next datagrams r
    → Collected limit mem start file (bytes ∷ datagrams) r
Collected-cons limit mem start between file bytes next datagrams read_null g c = c
Collected-cons limit mem start between file bytes next datagrams spent g c = c
Collected-cons limit mem start between file bytes next datagrams (waiting mem' start' file') g c =
    (between, next, g, c)
Collected-cons limit mem start between file bytes next datagrams (closed file') g
      (before, last, after, count, shape, added, full, type) =
    (bytes ∷ before, last, after, count, cc shape, (between, next, g, added), full, type)

-- what the first datagram leads to
after_receive-Collected :
    (maxbuf limit start : ℕ) (mem file bytes : List ℕ) (datagrams : List (List ℕ)) (r : Server)
    → Written maxbuf limit start (length bytes) (write_at 0 bytes mem) file bytes r
    → ((mem' : List ℕ) (start' : ℕ) (file' : List ℕ)
        → maxbuf ≤ length mem'
        → 0 < start'
        → Collected limit mem' start' file' datagrams
            (receive_all maxbuf limit datagrams mem' start' file'))
    → Collected limit mem start file (bytes ∷ datagrams) (elim r [
      | waiting mem' start' file' ↦ receive_all maxbuf limit datagrams mem' start' file'
      | closed file' ↦ closed file'
      | read_null ↦ read_null
      | spent ↦ spent
    ])
after_receive-Collected maxbuf limit start mem file bytes datagrams read_null w next = w
after_receive-Collected maxbuf limit start mem file bytes datagrams spent w next = w
after_receive-Collected maxbuf limit start mem file bytes datagrams (closed file')
      (same, full, type) next =
    ([], bytes, datagrams, start, refl, (refl, same), full, type)
after_receive-Collected maxbuf limit start mem file bytes datagrams (waiting mem' start' file')
      (same, fits, up, counted, put) next =
    Collected-cons limit mem start start' file bytes file' datagrams _ (up, put)
      (subst
        (λ m.
          Collected limit m start' file' datagrams
            (receive_all maxbuf limit datagrams mem' start' file'))
        same (next mem' start' file' fits counted))

-- A sequence parameter set was counted, or the first datagram begins with one.
abbrev pub Starts : ℕ → List (List ℕ) → Type 0
Starts start [] = 0 ≤ start
Starts start (bytes ∷ datagrams) = Begun start bytes

pub Starts-counted : (start : ℕ) (datagrams : List (List ℕ)) → 0 < start → Starts start datagrams
Starts-counted start [] counted = omega arith
Starts-counted start (bytes ∷ datagrams) counted = inl counted

pub receive_all-Collected :
    (maxbuf limit start : ℕ) (rests : List (List ℕ)) (mem file : List ℕ)
    → All (λ rest. length (coded rest) < maxbuf) rests
    → maxbuf ≤ length mem
    → Starts start (map coded rests)
    → Collected limit mem start file
        (map coded rests)
        (receive_all maxbuf limit (map coded rests) mem start file)
unfolding receive_all
receive_all-Collected maxbuf limit start [] mem file short fits started = (refl, refl)
receive_all-Collected maxbuf limit start (rest ∷ rests) mem file short fits started =
    after_receive-Collected maxbuf limit start mem file (coded rest) (map coded rests)
      (receive maxbuf limit (coded rest) mem start file)
      (receive-Written maxbuf limit start rest mem file short.0 fits started)
      (λ mem' start' file' fits' started'.
        receive_all-Collected maxbuf limit start' rests mem' file' short.1 fits'
          (Starts-counted start' (map coded rests) started'))
