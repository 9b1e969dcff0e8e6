-- ===== src/Tests/Clients.antt =====
-- Sending to a list of clients.
use test.Base.{ℕ, ◌≡◌, refl, none, some, List, [], ◌∷◌, ◌++◌, arith}
use test.Rtp.Send.{Sender}
use test.Rtp.Fragments.{start_code}
use test.Tools.Pipeline.{joined, stream}
use test.Tools.ClientList.{Client, send_data_to_client_list, send_file_to_list}
use test.Net.Os.{took}
use test.Tools.TcpSender.{Connection, send_file_tcp}
use test.Tools.TcpSender.Deliver.{send_file_tcp-InStep}
use test.Tools.ClientList.Reach.{received, Reached}
use test.Tools.ClientList.Deliver.{send_file_to_list-Reached}
use test.Tools.ClientList.Failing.{failing}

abbrev units : List (List ℕ)
units = (0x67 ∷ 0 ∷ 5 ∷ []) ∷ (0x65 ∷ 0 ∷ 0 ∷ 3 ∷ 1 ∷ []) ∷ []

abbrev good_client : Client
good_client = record { answer = λ n. none; calls = 0; sent = []; send_fail_n = 0; closes = 0 }

-- its socket is refused (ECONNREFUSED)
abbrev clients : List Client
clients = failing 110 0 ∷ good_client ∷ []

one_packet :
    send_data_to_client_list (7 ∷ []) clients
    ≡ failing 110 1 ∷ record good_client { calls = 1; sent = (7 ∷ []) ∷ [] } ∷ []
unfolding send_data_to_client_list
one_packet = refl

send_file_to_list-Reached_example :
    (s : Sender (List Client)) × (send_file_to_list
        (start_code ++ joined units (0x41 ∷ []))
        (record { ts_current = 0; seq_num = 0; out = clients })
      ≡ some s)
    × Reached 1 s.out (some (stream units))
send_file_to_list-Reached_example =
    send_file_to_list-Reached units (0x41 ∷ []) clients 1 good_client 0 0
      (
        ((refl, (refl, (refl, tt))), omega arith, omega arith),
        (((refl, (refl, (refl, (refl, (refl, tt))))), omega arith, omega arith), tt),
      )
      (omega arith, (omega arith, tt)) (refl, tt) (omega arith) refl (λ n. refl) refl

-- a connection on which every send takes all
abbrev connection : Connection
connection = record { answer = λ n len. took len; calls = 0; sent = [] }

send_file_tcp-InStep_example :
    (s : Sender Connection) × (send_file_tcp
        (start_code ++ joined units (0x41 ∷ []))
        (record { ts_current = 0; seq_num = 0; out = connection })
      ≡ some s)
    × (received (some []) s.out.sent ≡ some (stream units))
send_file_tcp-InStep_example =
    send_file_tcp-InStep units (0x41 ∷ []) connection 0 0
      (
        ((refl, (refl, (refl, tt))), omega arith, omega arith),
        (((refl, (refl, (refl, (refl, (refl, tt))))), omega arith, omega arith), tt),
      )
      (omega arith, (omega arith, tt)) (refl, tt) (omega arith) (λ n len. refl) refl
