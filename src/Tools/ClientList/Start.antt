-- ===== src/Tools/ClientList/Start.antt =====
-- `main` of sample/send_h264file_rtp.c: its arguments, its two files, and the loop.
use test.Base.{ℕ, ◌%◌, ◌^◌, Bool, Option, none, some, List, ltb, if◌then◌else◌}
use test.Base.Int.{ℤ, minus_one}
use test.Rtp.Send.{Sender}
use test.Tools.ClientList.{Client, send_file_to_list}

-- The program ended with a status before its loop, or its loop ran.
pub data Started : Type 0 where
  exited : ℤ → Started
  ran : Option (Sender (List Client)) → Started

-- DEST_PORT, from what `atoi` makes of the third argument, as 32 bits
unfoldable pub dest_port : ℕ → ℕ → ℕ
dest_port argc argv3 = if ltb 3 argc then argv3 % 2 ^ 16 else 1234

-- The arguments, `errno` of an `fopen` that fails, the file if it opens, and whether the second one does;
-- `add_client` is the list with the one client that `add_client_list` makes for a port.
unfoldable pub send_main : ℕ → ℕ → ℤ → Option (List ℕ) → Bool → (ℕ → List Client) → Started
unfolding dest_port
send_main argc argv3 errno none fp_test add_client =
    if ltb argc 3 then exited minus_one else exited errno
send_main argc argv3 errno (some file) fp_test add_client =
    if ltb argc 3
    then exited minus_one
    else if fp_test
    then ran (
        send_file_to_list file
          (record { ts_current = 0; seq_num = 0; out = add_client (dest_port argc argv3) }))
    else exited errno
