-- ===== src/Tools/TcpSender/Deliver.antt =====
-- A whole file that goes over a TCP connection.
use test.Base.{
  ℕ, ◌+◌, ◌≡◌, refl, ap, ◌∙◌, sym, subst, Option, some, List, [], ◌∷◌, ◌++◌, length, All, take_all,
  arith,
}
use test.Net.Os.{took}
use test.Rtp.Send.{Sender}
use test.Rtp.Fragments.{start_code}
use test.Rtp.RoundTrip.{deliver, Link}
use test.Nal.Escaped.{IsEscaped}
use test.Tools.SendFile.{send_h264file}
use test.Tools.Pipeline.{IsUnit, Fits, joined, stream, send_h264file-deliver}
use test.Tools.Related.{reached, send_units-Related}
use test.Tools.ClientList.Reach.{received, received-append}
use test.Tools.TcpSender.{
  Connection, tcp_nal_buf_size, after_answer, send_data_to_client_list, send_file_tcp,
}

-- Every `send` takes all that it is offered.
abbrev pub TakesAll : Connection → Type 0
TakesAll c = (n len : ℕ) → c.answer n len ≡ took len

-- The receiver of the packets has this file.
abbrev pub InStep : Connection → Option (List ℕ) → Type 0
InStep c file = TakesAll c × (received (some []) c.sent ≡ file)

send_data_to_client_list-InStep :
    (packet : List ℕ) (c : Connection) (file : Option (List ℕ))
    → InStep c file
    → InStep (send_data_to_client_list packet c) (deliver packet file)
unfolding send_data_to_client_list after_answer
send_data_to_client_list-InStep packet c file (takes, so_far) =
    let after : Connection = record c { calls = c.calls + 1; sent = c.sent ++ (packet ∷ []) } in
    let sends : after_answer packet (c.answer c.calls (length packet)) c ≡ after =
      ap (λ t. after_answer packet t c) (takes c.calls (length packet))
      ∙ ap (λ (p : List ℕ). record c { calls = c.calls + 1; sent = c.sent ++ (p ∷ []) })
          (take_all (length packet) packet (omega arith)) in
    subst (λ (d : Connection). InStep d (deliver packet file)) (sym sends)
      (takes, received-append (some []) c.sent packet ∙ ap (deliver packet) so_far)

-- Sending a whole H.264 file over a new connection of which every `send` takes all that it is offered:
-- the loop ends, and the packets that went out, decoded one by one, are the stream of `nals`, byte for
-- byte; for units and a further escaped unit `last`, none of them longer than the 150000 bytes of
-- `nal_buf`.
pub send_file_tcp-InStep :
    (nals : List (List ℕ)) (last : List ℕ) (c : Connection) (ts_current seq_num : ℕ)
    → All IsUnit nals
    → All (Fits tcp_nal_buf_size) nals
    → IsEscaped last
    → Fits tcp_nal_buf_size last
    → TakesAll c
    → c.sent ≡ []
    → (s : Sender Connection) × (send_file_tcp
          (start_code ++ joined nals last)
          (record { ts_current = ts_current; seq_num = seq_num; out = c })
        ≡ some s)
      × (received (some []) s.out.sent ≡ some (stream nals))
unfolding send_file_tcp send_h264file
send_file_tcp-InStep nals last c ts_current seq_num units fit end last_fits takes new =
    let file = start_code ++ joined nals last in
    let link : Link = record { ts_current = ts_current; seq_num = seq_num; out = some [] } in
    let (t, ended, out) =
      send_h264file-deliver tcp_nal_buf_size nals last link units fit end last_fits refl in
    let (s, done, r) =
      reached InStep _ _ t
        (send_units-Related InStep send_data_to_client_list deliver send_data_to_client_list-InStep
          tcp_nal_buf_size (length file + 1) file
          (record { ts_current = ts_current; seq_num = seq_num; out = c }) link
          (refl, refl, (takes, ap (received (some [])) new)))
        ended in
    (s, done, r.1 ∙ out)
