-- ===== src/Programs/Receiver.antt =====
-- The receive loops of server/udp/server.c and server/multicast/server.c: the units of each datagram go to
-- a file, from the first sequence parameter set (type 7) on, until a given number of these came.
-- `mem` is the buffer with what lies behind it.
pub mod Sets
pub mod Datagram
pub mod Collect
pub mod Kept
use test.Base.{
  ℕ, zero, suc, ◌+◌, ◌-◌, ◌*◌, Bool, true, false, ◌&&◌, ◌||◌, Option, none, some, List, [], ◌∷◌,
  ◌++◌, ◌==◌, ltb, if◌then◌else◌, length, take, drop, write_at, slice,
}
use test.Base.Int.{ℤ, pos, sub_ℕ}
use test.Nal.StartCode.{find_nal_start_code}
use test.Nal.Parse.{type_at}
use test.Programs.Splitter.{max_buf}

-- `start++` for a sequence parameter set at the offset
abbrev pub count_start : List ℕ → ℕ → ℕ → ℕ
count_start mem offset start = if type_at mem (offset + 4) == 7 then start + 1 else start

-- `start_code`, `reveive_len`, `receive_count`, `start` and the file
pub record Loop : Type 0 where
  pub start_code : ℕ
  pub reveive_len : ℕ
  pub receive_count : ℕ
  pub start : ℕ
  pub file : List ℕ

-- the body of the loop over the units, for the next start code `4 + k` bytes on
abbrev pub take_unit : List ℕ → ℕ → Loop → Loop
take_unit mem k l =
    let start' = count_start mem (l.start_code + (4 + k)) l.start in
    record {
      start_code = l.start_code + (4 + k);
      reveive_len = l.reveive_len + (4 + k);
      receive_count = l.receive_count + 1;
      start = start';
      file = if start' == 0 then l.file else l.file ++ slice l.start_code (4 + k) mem;
    }

-- what the loop does with what `find_nal_start_code` found; `again` is the next round
unfoldable pub at_unit : (Loop → Option Loop) → List ℕ → Loop → Option ℕ → Option Loop
at_unit again mem l none = some l
at_unit again mem l (some k) = again (take_unit mem k l)

-- the loop over the units, on fuel
unfoldable pub unit_loop : ℕ → List ℕ → ℕ → Loop → Option Loop
unfolding at_unit
unit_loop zero mem n l = none
unit_loop (suc fuel) mem n l =
    at_unit (unit_loop fuel mem n) mem l
      (find_nal_start_code (some (drop (l.start_code + 4) mem)) (sub_ℕ n l.reveive_len))

-- The server waits for the next datagram; or it closed the file; or it read through NULL; or the fuel
-- is spent.
pub data Server : Type 0 where
  waiting : List ℕ → ℕ → List ℕ → Server
  closed : List ℕ → Server
  read_null : Server
  spent : Server

-- what is done with the last unit of a datagram
abbrev pub last_unit : ℕ → List ℕ → ℕ → Loop → Server
last_unit maxbuf mem n l =
    let rest = slice l.reveive_len (n - l.reveive_len) mem in
    let type = type_at mem (l.reveive_len + 4) in
    if ltb 0 l.receive_count && (n == maxbuf)
    then waiting (write_at 0 (slice l.start_code (n - l.start_code) mem) mem) l.start l.file
    else if ltb l.start 2
    then waiting mem l.start (l.file ++ rest)
    else if (type == 7) || (type == 8)
    then waiting mem l.start l.file
    else waiting mem l.start (l.file ++ rest)

abbrev pub after_units : ℕ → List ℕ → ℕ → Option Loop → Server
after_units maxbuf mem n none = spent
after_units maxbuf mem n (some l) = last_unit maxbuf mem n l

-- The `n` bytes of a datagram in the buffer, by the first start code in the buffer; without one, the type
-- is read through NULL.
unfoldable pub on_start : ℕ → ℕ → List ℕ → ℕ → ℕ → List ℕ → Option ℕ → Server
unfolding unit_loop
on_start maxbuf limit mem n start file none = read_null
on_start maxbuf limit mem n start file (some s) =
    let start' = count_start mem s start in
    let first : Loop = record {
      start_code = s;
      reveive_len = 0;
      receive_count = 0;
      start = start';
      file = file;
    } in
    let go_on = after_units maxbuf mem n (unit_loop (n + 1) mem n first) in
    if (type_at mem (s + 4) == 7) && (start' == limit) then closed file else go_on

-- one datagram; nothing is done with an empty one
unfoldable pub receive : ℕ → ℕ → List ℕ → List ℕ → ℕ → List ℕ → Server
unfolding on_start
receive maxbuf limit datagram mem start file =
    let chunk = take maxbuf datagram in
    let filled = write_at 0 chunk mem in
    let used =
      on_start maxbuf limit filled (length chunk) start file
        (find_nal_start_code (some filled) (pos maxbuf)) in
    if length chunk == 0 then waiting mem start file else used

-- `while (1)` over the datagrams that come
unfoldable pub receive_all : ℕ → ℕ → List (List ℕ) → List ℕ → ℕ → List ℕ → Server
receive_all maxbuf limit [] mem start file = waiting mem start file
receive_all maxbuf limit (datagram ∷ datagrams) mem start file =
    elim (receive maxbuf limit datagram mem start file) [
      | waiting mem' start' file' ↦ receive_all maxbuf limit datagrams mem' start' file'
      | closed file' ↦ closed file'
      | read_null ↦ read_null
      | spent ↦ spent
    ]

-- server/udp/server.c ends at the 10th parameter set, server/multicast/server.c at the 15th.
unfoldable pub udp_server : List (List ℕ) → List ℕ → ℕ → List ℕ → Server
udp_server datagrams mem start file = receive_all max_buf 10 datagrams mem start file

unfoldable pub multicast_server : List (List ℕ) → List ℕ → ℕ → List ℕ → Server
multicast_server datagrams mem start file = receive_all max_buf 15 datagrams mem start file
