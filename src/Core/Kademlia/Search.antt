-- ===== src/Core/Kademlia/Search.antt =====
-- Who finds a peer by its id.
use peer_connect.Prelude.{
  ℕ, true, false, some, List, [], ◌∷◌, ◌≡◌, refl, ◌⊎◌, inl, inr, arith, ◌==◌, length, get,
  Bool-cases,
}
use peer_connect.Avails.Bytes.{Bytes}
use peer_connect.Avails.Peers.{RemotePeer, PeerDict, peer_id, convert_peer_id_to_byte_id, text_eq}
use peer_connect.Avails.Peers.Ids.{AreBytes, convert_peer_id_lem}
use peer_connect.Core.Kademlia.{
  returned, find_by_id, search_by, get_remote_peer, get_remote_peer_at_every_cost,
}

text_eq→eq : (s t : List ℕ) → text_eq s t ≡ true → s ≡ t
text_eq→eq [] [] h = refl
text_eq→eq [] (d ∷ t) h = cc
text_eq→eq (c ∷ s) [] h = cc
text_eq→eq (c ∷ s) (d ∷ t) h = elim (Bool-cases (c == d)) [
  | inl e ↦
      let head : c ≡ d = ground (arith, e) in rw (head, text_eq→eq s t (ground (arith, h, e))) refl
  | inr e ↦ absurd (ground (arith, h, e))
]

text_eq_refl : (s : List ℕ) → text_eq s s ≡ true
text_eq_refl [] = refl
text_eq_refl (c ∷ s) = ground (arith, text_eq_refl s)

-- the peer is among those that were found
abbrev pub Among : RemotePeer → List RemotePeer → Type 0
Among p [] = ⊥
Among p (q ∷ qs) = (q ≡ p) ⊎ Among p qs

later :
    (p q : RemotePeer) (qs : List RemotePeer)
    → Among p (q ∷ qs)
    → text_eq q.byte_id p.byte_id ≡ false
    → Among p qs
later p q qs (inl same) e =
    let equal : text_eq q.byte_id p.byte_id ≡ true = rw same (text_eq_refl p.byte_id) in
    absurd (ground (arith, e, equal))
later p q qs (inr h) e = h

find_by_id-found :
    (p : RemotePeer) (qs : List RemotePeer)
    → Among p qs
    → (q : RemotePeer) × (find_by_id p.byte_id qs ≡ some q) × (q.byte_id ≡ p.byte_id)
unfolding find_by_id
find_by_id-found p [] h = absurd h
find_by_id-found p (q ∷ qs) h = elim (Bool-cases (text_eq q.byte_id p.byte_id)) [
  | inl e ↦ (q, rw e refl, text_eq→eq q.byte_id p.byte_id e)
  | inr e ↦ rw e (find_by_id-found p qs (later p q qs h e))
]

get_remote_peer-eq :
    (crawl : Bytes → List RemotePeer) (k : ℕ)
    → get_remote_peer crawl k ≡ search_by crawl (convert_peer_id_to_byte_id k)
unfolding get_remote_peer
get_remote_peer-eq crawl k = refl

-- A peer whose id has 16 bytes and that the crawl finds is returned by the search for its printed id,
-- or another peer with this id. But the search "at every cost" finds only what the peer list has:
-- whatever the network knows, a peer that is not listed is None, since the list raises no KeyError.
pub get_remote_peer_lem :
    (crawl : Bytes → List RemotePeer) (p : RemotePeer) (k : ℕ) (d : PeerDict)
    → AreBytes p.byte_id
    → length p.byte_id ≡ 16
    → Among p (crawl p.byte_id)
    → ((q : RemotePeer) × (get_remote_peer crawl (peer_id p) ≡ returned (some q))
        × (q.byte_id ≡ p.byte_id))
      × (get_remote_peer_at_every_cost crawl k d ≡ returned (get k d))
unfolding get_remote_peer_at_every_cost
get_remote_peer_lem crawl p k d bytes sixteen found =
    let (q, is_q, same) = find_by_id-found p (crawl p.byte_id) found in
    (
      (
        q,
        rw (get_remote_peer-eq, (convert_peer_id_lem 0 p bytes sixteen).0, search_by, is_q) refl,
        same,
      ),
      refl,
    )
