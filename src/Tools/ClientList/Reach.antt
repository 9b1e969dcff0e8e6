-- ===== src/Tools/ClientList/Reach.antt =====
-- What a client of the list gets.
use test.Base.{
  ℕ, zero, suc, ◌+◌, ◌≡◌, refl, ap, ◌∙◌, Option, none, some, List, [], ◌∷◌, ◌++◌, get_elem?,
}
use test.Rtp.RoundTrip.{deliver}
use test.Tools.ClientList.{Client, after_send, send_to, send_data_to_client_list}

-- the file of a receiver that gets these packets
abbrev pub received : Option (List ℕ) → List (List ℕ) → Option (List ℕ)
received file [] = file
received file (packet ∷ packets) = received (deliver packet file) packets

pub received-append :
    (file : Option (List ℕ)) (packets : List (List ℕ)) (packet : List ℕ)
    → received file (packets ++ (packet ∷ [])) ≡ deliver packet (received file packets)
received-append file [] packet = refl
received-append file (p ∷ packets) packet = received-append (deliver p file) packets packet

-- The client `i` of the list gets every packet, and its receiver's file is `file`.
abbrev pub Reached : ℕ → List Client → Option (List ℕ) → Type 0
Reached i clients file =
    (c : Client) × (get_elem? clients i ≡ some c)
    × ((n : ℕ) → c.answer n ≡ none)
    × (received (some []) c.sent ≡ file)

send_data_to_client_list-at :
    (packet : List ℕ) (clients : List Client) (i : ℕ) (c : Client)
    → get_elem? clients i ≡ some c
    → get_elem? (send_data_to_client_list packet clients) i ≡ some (send_to packet c)
unfolding send_data_to_client_list
send_data_to_client_list-at packet [] i c e = absurd (cc e)
send_data_to_client_list-at packet (d ∷ clients) zero c e = ap (λ o. mapped o) e
  where
    mapped : Option Client → Option Client
    mapped none = none
    mapped (some x) = some (send_to packet x)
send_data_to_client_list-at packet (d ∷ clients) (suc i) c e =
    send_data_to_client_list-at packet clients i c e

-- a packet that the system takes
after_send-taken :
    (packet : List ℕ) (o : Option ℕ) (c : Client)
    → o ≡ none
    → (after_send packet o c ≡ record c { calls = c.calls + 1; sent = c.sent ++ (packet ∷ []) })
unfolding after_send
after_send-taken packet o c e = ap (λ t. after_send packet t c) e

-- One packet for the list keeps the client's receiver in step with a link that loses nothing.
pub send_data_to_client_list-Reached :
    (i : ℕ) (packet : List ℕ) (clients : List Client) (file : Option (List ℕ))
    → Reached i clients file
    → Reached i (send_data_to_client_list packet clients) (deliver packet file)
unfolding send_to
send_data_to_client_list-Reached i packet clients file (c, at_i, no_failure, so_far) = (
  record c { calls = c.calls + 1; sent = c.sent ++ (packet ∷ []) },
  send_data_to_client_list-at packet clients i c at_i
      ∙ ap some (after_send-taken packet (c.answer c.calls) c (no_failure c.calls)),
  no_failure,
  received-append (some []) c.sent packet ∙ ap (deliver packet) so_far,
)
