-- ===== src/Tools/ClientList.antt =====
-- The list of clients of sample/send_h264file_rtp.c: every packet goes to every client.
pub mod Same
pub mod Start
pub mod Reach
pub mod Deliver
pub mod Failing
use test.Base.{
  ℕ, zero, suc, ◌+◌, ◌-◌, ◌*◌, ◌/◌, ◌%◌, ◌^◌, Option, none, some, List, [], ◌∷◌, ◌++◌, ◌==◌, ltb,
  leb, if◌then◌else◌, take, slice, length, true, false,
}
use test.Base.Int.{ℤ, pos, minus_one, is_neg}
use test.Rtp.Send.{
  Sender, rtp_payload_max_size, fu_packet, single_packet, bump_seq, carried_seq, fu_pack_num,
  last_fu_pack_size,
}
use test.Nal.Copy.{copy_nal_from_file}
use test.Tools.SendFile.{and_then, unless_overrun}

-- MAX_SEND_FAIL_N
abbrev pub max_send_fail_n : ℕ
max_send_fail_n = 29

-- A node of the list, with the world at its socket: `answer n` is what the system says to the `n`-th
-- `send` on it, nothing or an `errno`; `sent` is what went out, and `closes` counts the calls of `close`.
pub record Client : Type 0 where
  pub answer : ℕ → Option ℕ
  pub calls : ℕ
  pub sent : List (List ℕ)
  pub send_fail_n : ℕ
  pub closes : ℕ

-- `if (errno > 0) send_fail_n++`
abbrev pub count_fail : ℕ → Client → Client
count_fail errno c = record c {
  send_fail_n = if ltb 0 errno then c.send_fail_n + 1 else c.send_fail_n;
}

-- the close after too many failures; the node stays in the list
abbrev pub close_failing : Client → Client
close_failing c = record c {
  closes = if ltb max_send_fail_n c.send_fail_n then c.closes + 1 else c.closes;
}

-- what the result of a `send` leads to
unfoldable pub after_send : List ℕ → Option ℕ → Client → Client
after_send send_buf none c = record c { calls = c.calls + 1; sent = c.sent ++ (send_buf ∷ []) }
after_send send_buf (some errno) c =
    close_failing (count_fail errno (record c { calls = c.calls + 1 }))

-- the body of the loop for one client
unfoldable pub send_to : List ℕ → Client → Client
unfolding after_send
send_to send_buf c = after_send send_buf (c.answer c.calls) c

unfoldable pub send_data_to_client_list : List ℕ → List Client → List Client
unfolding send_to
send_data_to_client_list send_buf [] = []
send_data_to_client_list send_buf (c ∷ client_ip_list) =
    send_to send_buf c ∷ send_data_to_client_list send_buf client_ip_list

-- `h264nal2rtp_send` of the program, with the list of clients in the place of the socket: the first
-- `len_sendbuf` bytes of SENDBUFFER go to every client.
unfoldable pub send_buf_list : List ℕ → ℕ → Sender (List Client) → Sender (List Client)
send_buf_list sendbuffer len_sendbuf s = record s {
  seq_num = bump_seq s.seq_num;
  out = send_data_to_client_list (take len_sendbuf sendbuffer) s.out;
}

-- a NAL unit that fits one packet
unfoldable pub send_single_list : List ℕ → ℕ → Sender (List Client) → Sender (List Client)
unfolding send_buf_list
send_single_list nalu_buf nalu_len s =
    send_buf_list (single_packet (carried_seq s.seq_num) s.ts_current nalu_buf nalu_len)
      (12 + nalu_len) s

-- the first, a middle and the last fragment
unfoldable pub send_first_fu_list : List ℕ → Sender (List Client) → Sender (List Client)
unfolding send_buf_list
send_first_fu_list nalu_buf s =
    send_buf_list
      (fu_packet 0 1 0 (carried_seq s.seq_num) s.ts_current nalu_buf
        (slice 1 (rtp_payload_max_size - 1) nalu_buf))
      (12 + 2 + (rtp_payload_max_size - 1)) s

unfoldable pub send_middle_fu_list : List ℕ → ℕ → Sender (List Client) → Sender (List Client)
unfolding send_buf_list
send_middle_fu_list nalu_buf fu_seq s =
    send_buf_list
      (fu_packet 0 0 0 (carried_seq s.seq_num) s.ts_current nalu_buf
        (slice (rtp_payload_max_size * fu_seq) rtp_payload_max_size nalu_buf))
      (12 + 2 + rtp_payload_max_size) s

unfoldable pub send_last_fu_list : List ℕ → ℕ → ℕ → Sender (List Client) → Sender (List Client)
unfolding send_buf_list
send_last_fu_list nalu_buf fu_seq last_size s =
    send_buf_list
      (fu_packet 1 0 1 (carried_seq s.seq_num) s.ts_current nalu_buf
        (slice (rtp_payload_max_size * fu_seq) last_size nalu_buf))
      (12 + 2 + last_size) s

-- one round of the loop over the fragments
unfoldable pub send_fu_list : List ℕ → ℕ → ℕ → Sender (List Client) → Sender (List Client)
unfolding send_first_fu_list send_middle_fu_list send_last_fu_list
send_fu_list nalu_buf nalu_len fu_seq s =
    if fu_seq == 0
    then send_first_fu_list nalu_buf s
    else if ltb fu_seq (fu_pack_num nalu_len - 1)
    then send_middle_fu_list nalu_buf fu_seq s
    else send_last_fu_list nalu_buf fu_seq (last_fu_pack_size nalu_len) s

unfoldable pub send_fus_list : ℕ → List ℕ → ℕ → ℕ → Sender (List Client) → Sender (List Client)
unfolding send_fu_list
send_fus_list zero nalu_buf nalu_len fu_seq s = s
send_fus_list (suc rounds) nalu_buf nalu_len fu_seq s =
    send_fus_list rounds nalu_buf nalu_len (fu_seq + 1) (send_fu_list nalu_buf nalu_len fu_seq s)

-- the whole function; `none` is the trap of a division by a frame rate of 0
unfoldable pub h264nal2rtp_send_list :
    ℕ → List ℕ → ℕ → Sender (List Client) → Option (ℤ × Sender (List Client))
unfolding send_single_list send_fus_list
h264nal2rtp_send_list framerate nalu_buf nalu_len s₀ =
    let s : Sender (List Client) = record s₀ {
      ts_current = (s₀.ts_current + 90000 / framerate) % 2 ^ 32;
    } in
    if framerate == 0
    then none
    else if ltb nalu_len 1
    then some (minus_one, s)
    else if leb nalu_len rtp_payload_max_size
    then some (pos 0, send_single_list nalu_buf nalu_len s)
    else some (pos 0, send_fus_list (fu_pack_num nalu_len) nalu_buf nalu_len 0 s)

-- NAL_BUF_SIZE, the size of `nal_buf`
abbrev pub nal_buf_size : ℕ
nal_buf_size = 1500 * 50

-- the test of the loop of `main` and its body; `again` is the next round
unfoldable pub send_nal_list :
    (List ℕ → Sender (List Client) → Option (Sender (List Client)))
    → ℤ × List ℕ × List ℕ
    → Sender (List Client)
    → Option (Sender (List Client))
unfolding h264nal2rtp_send_list
send_nal_list again (ret, nal_buf, rest) s = elim (is_neg ret) [
  | true ↦ some s
  | false ↦ and_then (h264nal2rtp_send_list 25 nal_buf (length nal_buf) s) (again rest)
]

-- what a round does with the result of `copy_nal_from_file`, which writes to `nal_buf` whatever its size is
unfoldable pub after_copy_list :
    (List ℕ → Sender (List Client) → Option (Sender (List Client)))
    → ℤ × List ℕ × List ℕ
    → Sender (List Client)
    → Option (Sender (List Client))
unfolding send_nal_list
after_copy_list again (ret, nal_buf, rest) s =
    unless_overrun (ltb nal_buf_size (length nal_buf)) (send_nal_list again (ret, nal_buf, rest)) s

-- the loop, on fuel: `none` is the end of the fuel, or an overrun of `nal_buf`
unfoldable pub send_units_list : ℕ → List ℕ → Sender (List Client) → Option (Sender (List Client))
unfolding after_copy_list
send_units_list zero file s = none
send_units_list (suc fuel) file s =
    after_copy_list (send_units_list fuel) (copy_nal_from_file file) s

-- Each round but the last takes at least a byte of the file.
unfoldable pub send_file_to_list : List ℕ → Sender (List Client) → Option (Sender (List Client))
unfolding send_units_list
send_file_to_list file s = send_units_list (length file + 1) file s
