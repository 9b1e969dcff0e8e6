-- ===== src/Tools/ClientList/Same.antt =====
-- `h264nal2rtp_send` of sample/send_h264file_rtp.c beside that of client/udp/client.c.
use test.Base.{
  ℕ, zero, suc, ◌≡◌, ◌+◌, ◌%◌, ◌/◌, ◌^◌, ◌∙◌, refl, ap, Option, List, length, fun_ext, Bool, true,
  false, ltb,
}
use test.Base.Int.{ℤ, pos, negsuc}
use test.Rtp.Send.{
  Sender, send_buf, send_single, send_first_fu, send_middle_fu, send_last_fu, send_fu, send_fus,
  h264nal2rtp_send, fu_pack_num,
}
use test.Nal.Copy.{copy_nal_from_file}
use test.Tools.SendFile.{and_then, unless_overrun, send_nal, after_copy, send_units, send_h264file}
use test.Tools.ClientList.{
  Client, send_data_to_client_list, send_buf_list, send_single_list, send_first_fu_list,
  send_middle_fu_list, send_last_fu_list, send_fu_list, send_fus_list, h264nal2rtp_send_list,
  send_nal_list, after_copy_list, nal_buf_size, send_units_list, send_file_to_list,
}

send_fu_list_lem :
    (nalu_buf : List ℕ) (nalu_len fu_seq : ℕ) (s : Sender (List Client))
    → send_fu_list nalu_buf nalu_len fu_seq s
      ≡ send_fu send_data_to_client_list nalu_buf nalu_len fu_seq s
unfolding send_fu_list send_first_fu_list send_middle_fu_list send_last_fu_list send_buf_list
    send_fu send_first_fu send_middle_fu send_last_fu send_buf
send_fu_list_lem nalu_buf nalu_len fu_seq s = refl

send_fus_list_lem :
    (rounds : ℕ) (nalu_buf : List ℕ) (nalu_len fu_seq : ℕ) (s : Sender (List Client))
    → send_fus_list rounds nalu_buf nalu_len fu_seq s
      ≡ send_fus send_data_to_client_list rounds nalu_buf nalu_len fu_seq s
unfolding send_fus_list send_fus
send_fus_list_lem zero nalu_buf nalu_len fu_seq s = refl
send_fus_list_lem (suc rounds) nalu_buf nalu_len fu_seq s =
    rw (send_fu_list_lem nalu_buf nalu_len fu_seq s)
      (send_fus_list_lem rounds nalu_buf nalu_len (fu_seq + 1) _)

-- The two programs make the same packets of a NAL unit, and return the same.
pub h264nal2rtp_send_list-same :
    (framerate : ℕ) (nalu_buf : List ℕ) (nalu_len : ℕ) (s : Sender (List Client))
    → h264nal2rtp_send_list framerate nalu_buf nalu_len s
      ≡ h264nal2rtp_send send_data_to_client_list framerate nalu_buf nalu_len s
unfolding h264nal2rtp_send_list h264nal2rtp_send send_single_list send_single send_buf_list send_buf
h264nal2rtp_send_list-same framerate nalu_buf nalu_len s =
    rw
      (send_fus_list_lem (fu_pack_num nalu_len) nalu_buf nalu_len 0
        (record s { ts_current = (s.ts_current + 90000 / framerate) % 2 ^ 32 }))
      refl

-- The rest of a round is the same when the next one is.
send_nal_list_lem :
    (again again' : List ℕ → Sender (List Client) → Option (Sender (List Client)))
    (copied : ℤ × List ℕ × List ℕ) (s : Sender (List Client))
    → ((file : List ℕ) (s' : Sender (List Client)) → again file s' ≡ again' file s')
    → send_nal_list again copied s ≡ send_nal send_data_to_client_list again' copied s
unfolding send_nal_list send_nal
send_nal_list_lem again again' (negsuc n, nal_buf, rest) s next = refl
send_nal_list_lem again again' (pos n, nal_buf, rest) s next =
    ap (λ r. and_then r (again rest)) (h264nal2rtp_send_list-same 25 nal_buf (length nal_buf) s)
    ∙ (ap
        (λ f. and_then (h264nal2rtp_send send_data_to_client_list 25 nal_buf (length nal_buf) s) f)
        (fun_ext (next rest)))

unless_overrun_lem :
    (overrun : Bool) (next next' : Sender (List Client) → Option (Sender (List Client)))
    (s : Sender (List Client))
    → next s ≡ next' s
    → unless_overrun overrun next s ≡ unless_overrun overrun next' s
unless_overrun_lem true next next' s e = refl
unless_overrun_lem false next next' s e = e

-- So is the round.
after_copy_list_lem :
    (again again' : List ℕ → Sender (List Client) → Option (Sender (List Client)))
    (copied : ℤ × List ℕ × List ℕ) (s : Sender (List Client))
    → ((file : List ℕ) (s' : Sender (List Client)) → again file s' ≡ again' file s')
    → after_copy_list again copied s
      ≡ after_copy send_data_to_client_list nal_buf_size again' copied s
unfolding after_copy_list after_copy
after_copy_list_lem again again' (ret, nal_buf, rest) s next =
    unless_overrun_lem (ltb nal_buf_size (length nal_buf)) _ _ s
      (send_nal_list_lem again again' (ret, nal_buf, rest) s next)

send_units_list_lem :
    (fuel : ℕ) (file : List ℕ) (s : Sender (List Client))
    → send_units_list fuel file s ≡ send_units send_data_to_client_list nal_buf_size fuel file s
unfolding send_units_list send_units
send_units_list_lem zero file s = refl
send_units_list_lem (suc fuel) file s =
    after_copy_list_lem (send_units_list fuel)
      (send_units send_data_to_client_list nal_buf_size fuel) (copy_nal_from_file file) s
      (send_units_list_lem fuel)

-- So the two programs send the same of a whole file.
pub send_file_to_list-same :
    (file : List ℕ) (s : Sender (List Client))
    → send_file_to_list file s ≡ send_h264file send_data_to_client_list nal_buf_size file s
unfolding send_file_to_list send_h264file
send_file_to_list-same file s = send_units_list_lem (length file + 1) file s
