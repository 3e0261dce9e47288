-- ===== src/Core/Dispatch/Datagrams.antt =====
-- From a transport to the event of the endpoint.
use peer_connect.Prelude.{
  ℕ, suc, ◌+◌, ◌*◌, ◌/◌, ◌%◌, ◌^◌, ◌<◌, true, Option, some, [], ◌∷◌, ◌++◌, ◌≡◌, refl, ap, inl, inr,
  arith, ltb, length, Option-cases, take_of_length-le,
}
use peer_connect.Avails.Bytes.{Bytes, pack, unpack-pack}
use peer_connect.Avails.Wire.{frame, load_datagram}
use peer_connect.Avails.Wire.Framing.{frame-parts, take-head, drop-head}
use peer_connect.Core.Dispatch.{
  sendto, plain, kademlia, trigger_of, WireData, event_of, unpack_datagram, datagram_received,
}

load-frame :
    (data_bytes : Bytes) {f : Bytes} → frame data_bytes ≡ some f → load_datagram f ≡ some data_bytes
unfolding load_datagram
load-frame data_bytes {f} h =
    let (size, packed, whole) = frame-parts data_bytes h in
    let (unpacked, four) = unpack-pack 4 (length data_bytes) packed in
    rw (whole, take-head size data_bytes four, unpacked, drop-head size data_bytes four)
      (ap some (take_of_length-le (length data_bytes) data_bytes (omega arith)))

sendto-parts :
    (trigger data_bytes : Bytes) {sent : Bytes}
    → sendto trigger data_bytes ≡ some sent
    → (f : Bytes) × (frame data_bytes ≡ some f) × (sent ≡ trigger ++ f)
unfolding sendto
sendto-parts trigger data_bytes h = elim (Option-cases (frame data_bytes)) [
  | inl e ↦ absurd (ground arith)
  | inr (f, e) ↦ (f, e, ground arith)
]

received-parts :
    (load_from : Bytes → Option WireData) (code addr : ℕ) (f payload : Bytes)
    → load_datagram f ≡ some payload
    → datagram_received load_from (code ∷ f) addr ≡ event_of (code ∷ []) addr (load_from payload)
unfolding datagram_received
received-parts load_from code addr f payload h = rw (h, unpack_datagram) refl

-- the size of a short message, read from its second byte on with the first byte of the message
load-shifted :
    (d : ℕ) (rest : Bytes) {size : Bytes}
    → length (d ∷ rest) < 2 ^ 24
    → pack 4 (length (d ∷ rest)) ≡ some size
    → (tail : Bytes) × (size ≡ 0 ∷ tail) × (load_datagram (tail ++ d ∷ rest) ≡ some rest)
unfolding pack load_datagram
load-shifted d rest {size} short h =
    let n : ℕ = suc (length rest) in
    let top : n / 256 / 256 / 256 % 256 ≡ 0 = omega arith in
    let whole : ltb n (256 ^ 4) ≡ true = ground arith in
    (
      n / 256 / 256 % 256 ∷ n / 256 % 256 ∷ n % 256 ∷ [],
      ground (arith, h, top, whole),
      ap some (
          take_of_length-le
            ((((0 * 256 + n / 256 / 256 % 256) * 256 + n / 256 % 256) * 256 + n % 256) * 256 + d)
            rest (omega arith)),
    )

-- A message that is not empty and shorter than 2 ^ 24 bytes is received as the event of the trigger
-- that it was sent with, with what the message is loaded as. Sent without a trigger, it is taken
-- for an event of the trigger of kademlia, and what is loaded is the message without its first
-- byte.
pub datagram_received_lem :
    (load_from : Bytes → Option WireData) (code addr d : ℕ) (rest : Bytes) {tagged untagged : Bytes}
    → length (d ∷ rest) < 2 ^ 24
    → sendto (code ∷ []) (d ∷ rest) ≡ some tagged
    → sendto (trigger_of plain) (d ∷ rest) ≡ some untagged
    → (datagram_received load_from tagged addr ≡ event_of (code ∷ []) addr (load_from (d ∷ rest)))
      × (datagram_received load_from untagged addr
          ≡ event_of (trigger_of kademlia) addr (load_from rest))
datagram_received_lem load_from code addr d rest short t u =
    let (f, framed, whole) = sendto-parts (code ∷ []) (d ∷ rest) t in
    let (g, framed', bare) = sendto-parts [] (d ∷ rest) u in
    let (size, packed, parts) = frame-parts (d ∷ rest) framed' in
    let (tail, zeroed, shifted) = load-shifted d rest short packed in
    (
      rw whole (received-parts load_from code addr f (d ∷ rest) (load-frame (d ∷ rest) framed)),
      rw (bare, parts, zeroed) (received-parts load_from 0 addr (tail ++ d ∷ rest) rest shifted),
    )
