-- ===== src/Tools/ClientList/Deliver.antt =====
-- A whole file that goes to a list of clients.
use test.Base.{ℕ, ◌+◌, ◌≡◌, refl, ap, ◌∙◌, none, some, List, [], ◌++◌, length, get_elem?, All}
use test.Rtp.Send.{Sender}
use test.Rtp.Fragments.{start_code}
use test.Rtp.RoundTrip.{deliver, Link}
use test.Nal.Escaped.{IsEscaped}
use test.Tools.SendFile.{send_h264file}
use test.Tools.Pipeline.{IsUnit, Fits, joined, stream, send_h264file-deliver}
use test.Tools.Related.{reached, send_units-Related}
use test.Tools.ClientList.{Client, nal_buf_size, send_data_to_client_list, send_file_to_list}
use test.Tools.ClientList.Same.{send_file_to_list-same}
use test.Tools.ClientList.Reach.{received, Reached, send_data_to_client_list-Reached}

-- Sending a whole H.264 file to a list of clients, whatever happens at the others: the loop ends, and a
-- client `c` of the list that has no packets yet and whose sends all succeed is sent packets that its
-- receiver turns into the stream of `nals`, byte for byte; for units and a further escaped unit `last`,
-- none of them longer than the 75000 bytes of `nal_buf`.
pub send_file_to_list-Reached :
    (nals : List (List ℕ)) (last : List ℕ) (clients : List Client) (i : ℕ) (c : Client)
    (ts_current seq_num : ℕ)
    → All IsUnit nals
    → All (Fits nal_buf_size) nals
    → IsEscaped last
    → Fits nal_buf_size last
    → get_elem? clients i ≡ some c
    → ((n : ℕ) → c.answer n ≡ none)
    → c.sent ≡ []
    → (s : Sender (List Client)) × (send_file_to_list
          (start_code ++ joined nals last)
          (record { ts_current = ts_current; seq_num = seq_num; out = clients })
        ≡ some s)
      × Reached i s.out (some (stream nals))
unfolding send_h264file
send_file_to_list-Reached nals last clients i c ts_current seq_num units fit end last_fits at_i
      no_failure new =
    let file = start_code ++ joined nals last in
    let link : Link = record { ts_current = ts_current; seq_num = seq_num; out = some [] } in
    let (t, ended, out) =
      send_h264file-deliver nal_buf_size nals last link units fit end last_fits refl in
    let (s, done, r) =
      reached (Reached i) _ _ t
        (send_units-Related (Reached i) send_data_to_client_list deliver
          (send_data_to_client_list-Reached i) nal_buf_size (length file + 1) file
          (record { ts_current = ts_current; seq_num = seq_num; out = clients }) link
          (refl, refl, (c, at_i, no_failure, ap (received (some [])) new)))
        ended in
    (s, send_file_to_list-same file _ ∙ done, rw (← out) r)
