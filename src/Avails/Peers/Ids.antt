-- ===== src/Avails/Peers/Ids.antt =====
-- A peer is found again by its printed id.
use peer_connect.Prelude.{
  ℕ, suc, ◌+◌, ◌*◌, ◌/◌, ◌%◌, ◌^◌, ◌≤◌, ◌<◌, none, some, [], ◌∷◌, ◌++◌, ◌≡◌, refl, sym, ◌∙◌, ◌↔◌,
  arith, lt→ltb, length, All,
}
use mathlib.Core.Path.{subst}
use native.Mathlib.Nat.{pow-suc}
use mathlib.Core.List.{append_assoc, append-nil}
use peer_connect.Avails.Bytes.{Bytes, pack, pack_be, unpack_be, unpack_from, unpack-pack}
use peer_connect.Avails.Peers.{RemotePeer, long_id, peer_id, convert_peer_id_to_byte_id}

abbrev pub AreBytes : Bytes → Type 0
AreBytes bs = All (λ b. b < 256) bs

pack_be-unpack :
    (j acc k : ℕ) (bs : Bytes)
    → AreBytes bs
    → k ≡ length bs + j
    → pack_be k (unpack_from acc bs) ≡ pack_be j acc ++ bs
unfolding pack_be unpack_from
pack_be-unpack j acc k [] h e =
    let same : k ≡ j = omega arith in rw same (sym (append-nil (pack_be j acc)))
pack_be-unpack j acc k (b ∷ bs) h e =
    let high : (acc * 256 + b) / 256 ≡ acc = omega arith in
    let low : (acc * 256 + b) % 256 ≡ b = omega arith in
    pack_be-unpack (suc j) (acc * 256 + b) k bs h.1 (omega arith)
    ∙ rw (high, low) (append_assoc (pack_be j acc) (b ∷ []) bs)

fits-step : (acc b t u : ℕ) → b < 256 → u < (acc * 256 + b + 1) * t → u < (acc + 1) * (t * 256)
fits-step acc b t u h e =
    let more : (acc * 256 + b + 1) * t ≤ (acc + 1) * 256 * t = grind arith in
    let same : (acc + 1) * 256 * t ≡ (acc + 1) * (t * 256) = grind arith in
    omega (arith, more, same, e)

unpack-lt : (acc : ℕ) (bs : Bytes) → AreBytes bs → unpack_from acc bs < (acc + 1) * 256 ^ length bs
unfolding unpack_from
unpack-lt acc [] h = omega arith
unpack-lt acc (b ∷ bs) h =
    rw (pow-suc 256 (length bs))
      (fits-step acc b (256 ^ length bs) _ h.0 (unpack-lt (acc * 256 + b) bs h.1))

pack_fits : (k n : ℕ) (bs : Bytes) → n < 256 ^ k → pack_be k n ≡ bs → pack k n ≡ some bs
unfolding pack
pack_fits k n bs h e = ground (arith, lt→ltb n (256 ^ k) h)

pack-none_iff : (k n : ℕ) → (pack k n ≡ none) ↔ (256 ^ k ≤ n)
unfolding pack
pack-none_iff k n = ground arith

convert-pack : (n : ℕ) → convert_peer_id_to_byte_id n ≡ pack 16 n
unfolding convert_peer_id_to_byte_id
convert-pack n = refl

module _ (p : RemotePeer) (h : AreBytes p.byte_id) (l : length p.byte_id ≡ 16) where
  fits : peer_id p < 256 ^ 16
  unfolding peer_id long_id
  fits = subst (λ k. unpack_from 0 p.byte_id < 256 ^ k) l (omega (arith, unpack-lt 0 p.byte_id h))

  packed : pack_be 16 (peer_id p) ≡ p.byte_id
  unfolding peer_id long_id pack_be
  packed = pack_be-unpack 0 0 16 p.byte_id h (omega (arith, l))

-- A peer whose id has 16 bytes is found again by its printed id. An id of 2 ^ 128 or more, as the
-- 20 bytes of a list can be, is refused by an OverflowError; any other number gives the 16 bytes
-- that print as it.
pub convert_peer_id_lem :
    (n : ℕ) (p : RemotePeer)
    → AreBytes p.byte_id
    → length p.byte_id ≡ 16
    → (convert_peer_id_to_byte_id (peer_id p) ≡ some p.byte_id)
      × ((convert_peer_id_to_byte_id n ≡ none) ↔ (256 ^ 16 ≤ n))
      × ((bs : Bytes)
          → convert_peer_id_to_byte_id n ≡ some bs
          → (unpack_be 16 bs ≡ some n) × (length bs ≡ 16))
convert_peer_id_lem n p h l =
    rw (convert-pack, convert-pack)
      (
        pack_fits 16 (peer_id p) p.byte_id (fits p h l) (packed p h l),
        pack-none_iff 16 n,
        λ bs e. unpack-pack 16 n e,
      )
