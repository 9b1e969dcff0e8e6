-- ===== src/Tools/TcpSender.antt =====
-- sample/test_tcp_send_nal.c: the same packetiser on a TCP connection.
pub mod Deliver
use test.Base.{ℕ, ◌+◌, ◌*◌, Option, List, [], ◌∷◌, ◌++◌, length, take}
use test.Base.Int.{ℤ}
use test.Net.Os.{Taken, took, refused}
use test.Rtp.Send.{Sender, h264nal2rtp_send}
use test.Tools.SendFile.{send_h264file}

-- The connection: `answer n len` is what the kernel says when the `n`-th `send` offers `len` bytes, and
-- `sent` is what each call put into the stream.
pub record Connection : Type 0 where
  pub answer : ℕ → ℕ → Taken
  pub calls : ℕ
  pub sent : List (List ℕ)

-- what one `send` does
unfoldable pub after_answer : List ℕ → Taken → Connection → Connection
after_answer send_buf (took n) c = record c {
  calls = c.calls + 1;
  sent = c.sent ++ (take n send_buf ∷ []);
}
after_answer send_buf (refused errno) c = record c { calls = c.calls + 1 }

-- One `send`: a failure is printed, and a part of the packet that the kernel did not take is not sent
-- again.
unfoldable pub send_data_to_client_list : List ℕ → Connection → Connection
unfolding after_answer
send_data_to_client_list send_buf c = after_answer send_buf (c.answer c.calls (length send_buf)) c

unfoldable pub h264naltortp_send_tcp :
    ℕ → List ℕ → ℕ → Sender Connection → Option (ℤ × Sender Connection)
h264naltortp_send_tcp framerate p_st_stream nalu_len s =
    h264nal2rtp_send send_data_to_client_list framerate p_st_stream nalu_len s

-- the size of the `nal_buf` of `main`
abbrev pub tcp_nal_buf_size : ℕ
tcp_nal_buf_size = 1500 * 100

-- the loop of `main`
unfoldable pub send_file_tcp : List ℕ → Sender Connection → Option (Sender Connection)
send_file_tcp file s = send_h264file send_data_to_client_list tcp_nal_buf_size file s
