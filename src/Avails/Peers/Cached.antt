-- ===== src/Avails/Peers/Cached.antt =====
-- The cached bytes of a peer are never stale.
use peer_connect.Prelude.{
  ℕ, Option, none, some, List, [], ◌∷◌, map, ◌≡◌, refl, sym, ap, ◌∙◌, inl, inr, arith, ◌==◌,
  Bool-cases,
}
use peer_connect.Avails.Bytes.{Bytes}
use peer_connect.Avails.Peers.{RemotePeer, ByteCache, serialized, serialized_all}

module _ (hash : RemotePeer → ℕ) (dumps : RemotePeer → Bytes)
    (no_collision : (p q : RemotePeer) → hash p ≡ hash q → dumps p ≡ dumps q) where
  -- the cache holds the bytes of some state of the peer
  abbrev IsFresh : Option ByteCache → Type 0
  IsFresh none = Unit
  IsFresh (some c) = (q : RemotePeer) × (c.hashed ≡ hash q) × (c.bytes ≡ dumps q)

  serialized-IsFresh :
      (p : RemotePeer) (c : Option ByteCache)
      → IsFresh c
      → ((serialized hash dumps p c).0 ≡ dumps p) × IsFresh (serialized hash dumps p c).1
  unfolding serialized
  serialized-IsFresh p none h = (refl, (p, refl, refl))
  serialized-IsFresh p (some c) (q, hq, dq) = elim (Bool-cases (hash p == c.hashed)) [
    | inl e ↦ rw e (dq ∙ sym (no_collision p q (ground (arith, e, hq))), (q, hq, dq))
    | inr e ↦ rw e (refl, (p, refl, refl))
  ]

  serialized_all-IsFresh :
      (ps : List RemotePeer) (c : Option ByteCache)
      → IsFresh c
      → serialized_all hash dumps ps c ≡ map dumps ps
  unfolding serialized_all
  serialized_all-IsFresh [] c h = refl
  serialized_all-IsFresh (p ∷ ps) c h =
      let (same, fresh) = serialized-IsFresh p c h in
      rw same (ap (◌∷◌ (dumps p)) (serialized_all-IsFresh ps (serialized hash dumps p c).1 fresh))

  -- However the fields of a peer change between the calls, each call gives the bytes of the fields as
  -- they are, if no two different states of a peer have one hash.
  pub serialized_all_lem : (ps : List RemotePeer) → serialized_all hash dumps ps none ≡ map dumps ps
  serialized_all_lem ps = serialized_all-IsFresh ps none tt
