-- ===== src/Tests/Wires.antt =====
-- The theorems on messages at a message of two bytes.
use peer_connect.Prelude.{some, List, [], ◌∷◌, ◌++◌, ◌≡◌, refl, arith}
use peer_connect.Avails.Bytes.{Bytes, pack, pack_be}
use peer_connect.Avails.Wire.{frame, send_datagram, Arrival, ready, blocked, got, receive}
use peer_connect.Avails.Wire.Framing.{receive-frame}

abbrev framed : Bytes
framed = 0 ∷ 0 ∷ 0 ∷ 2 ∷ 65 ∷ 66 ∷ []

frame_65 : frame (65 ∷ 66 ∷ []) ≡ some framed
unfolding frame pack pack_be
frame_65 = refl

send_65 : send_datagram (65 ∷ 66 ∷ []) ≡ some framed
unfolding send_datagram frame pack pack_be
send_65 = refl

abbrev arrivals : List Arrival
arrivals =
    ready 0 ∷ blocked ∷ ready 1 ∷ ready 5 ∷ ready 0 ∷ blocked ∷ ready 0 ∷ ready 0 ∷ ready 0 ∷ []

receive-frame_example :
    (later : List Arrival) × (receive (framed ++ 9 ∷ []) arrivals
      ≡ got (65 ∷ 66 ∷ []) (9 ∷ []) later)
receive-frame_example =
    receive-frame (65 ∷ 66 ∷ []) (9 ∷ []) arrivals {f = framed} frame_65 (omega arith)
