-- ===== src/Otm/Inform/Laws.antt =====
-- What `inform_peers` and `update_states` of `PalmTreeProtocol` (src/transfers/otm/palm_tree.py) do to
-- an overlay, and what they tell the peers.
use peer_connect.Prelude.{
  true, false, not, ◌&&◌, ◌||◌, none, some, List, [], ◌∷◌, ◌≡◌, refl, ap, inl, inr, arith, ◌==◌,
  if◌then◌else◌, Dict, get, has, put, keys, member, Option-cases, Bool-cases, IsDistinct, All,
  has_of_get, not-has_of_get, remove_absent,
}
use peer_connect.Otm.Tree.{PeerId, Address}
use peer_connect.Otm.Hypercube.{Adjacency, adjacent, linked}
use peer_connect.Otm.Inform.{
  Response, Reply, confirmed, timed_out, Overlay, discard_peer, handle_replies, inform_peers,
  addresses_mapping, update_states,
}

-- An overlay as `create_hypercube` makes it: symmetric, without loops, no neighbour twice.
pub record IsOverlay (adj : Adjacency) : Type 0 where
  pub symm : (k x : PeerId) → linked k x adj ≡ true → linked x k adj ≡ true
  pub irrefl : (k : PeerId) → linked k k adj ≡ false
  pub distinct : (k : PeerId) → IsDistinct (adjacent k adj)

-- the id that a reply carries
abbrev pub id_of : Reply → PeerId
id_of (confirmed p response) = p
id_of (timed_out p) = p

abbrev pub ids_of : List Reply → List PeerId
ids_of [] = []
ids_of (r ∷ replies) = id_of r ∷ ids_of replies

adjacent_absent : (p : PeerId) (adj : Adjacency) → has p adj ≡ false → adjacent p adj ≡ []
adjacent_absent p adj h = elim (Option-cases (get p adj)) [
  | inl e ↦ rw e refl
  | inr (l, e) ↦ absurd (ground (arith, has_of_get p adj e, h))
]

discard_peer_absent :
    (p : PeerId) (adj : Adjacency) → has p adj ≡ false → discard_peer p adj ≡ some adj
unfolding discard_peer
discard_peer_absent p adj h = rw (adjacent_absent p adj h) (ap some (remove_absent p adj h))

-- the center, or a peer that is no key of the adjacency
abbrev IsStrange : PeerId → Adjacency → PeerId → Type 0
IsStrange center adj q = (q == center || not (has q adj)) ≡ true

All-keys-put :
    (P : PeerId → Type 0) (k : PeerId) (v : Response) (c : Dict Response)
    → P k
    → All P (keys c)
    → All P (keys (put k v c))
All-keys-put P k v [] h a = (h, tt)
All-keys-put P k v ((j, w) ∷ c) h a = elim (Bool-cases (j == k)) [
  | inl e ↦ rw e a
  | inr e ↦ rw e (a.0, All-keys-put P k v c h a.1)
]

handle_replies-kept :
    (center : PeerId) (replies : List Reply) (o : Overlay)
    → All (λ k. has k o.adjacency ≡ false) (ids_of replies)
    → All (IsStrange center o.adjacency) (keys o.confirmed_peers)
    → (o' : Overlay) × (handle_replies replies o ≡ some o')
      × (o'.adjacency ≡ o.adjacency)
      × All (IsStrange center o.adjacency) (keys o'.confirmed_peers)
unfolding handle_replies
handle_replies-kept center [] o h k = (o, refl, refl, k)
handle_replies-kept center (confirmed p response ∷ replies) o h k =
    handle_replies-kept center replies
      (record o { confirmed_peers = put p response o.confirmed_peers }) h.1
      (All-keys-put (IsStrange center o.adjacency) p response o.confirmed_peers
        (ground (arith, h.0)) k)
handle_replies-kept center (timed_out p ∷ replies) o h k =
    rw (discard_peer_absent p o.adjacency h.0) (handle_replies-kept center replies o h.1 k)

-- messages without any address, to all of some confirmed peers but the center
abbrev pub empty_states :
    PeerId → List PeerId → Dict Response → List (Address × List (PeerId × Address × Address))
empty_states center [] c = []
empty_states center (p ∷ ps) c =
    let rest = empty_states center ps c in
    if p == center
    then rest
    else elim (get p c) [ none ↦ rest | some response ↦ (response.passive_addr, []) ∷ rest ]

update_states-empty :
    (center : PeerId) (ps : List PeerId) (o : Overlay)
    → All (IsStrange center o.adjacency) ps
    → update_states center ps o ≡ empty_states center ps o.confirmed_peers
unfolding update_states addresses_mapping
update_states-empty center [] o h = refl
update_states-empty center (p ∷ ps) o h = elim (Bool-cases (p == center)) [
  | inl e ↦ rw e (update_states-empty center ps o h.1)
  | inr e ↦
      let absent : has p o.adjacency ≡ false = ground (arith, h.0, e) in
      elim (Option-cases (get p o.confirmed_peers)) [
        | inl f ↦ rw (e, f) (update_states-empty center ps o h.1)
        | inr (response, f) ↦
            rw (e, f, adjacent_absent p o.adjacency absent)
              (ap (◌∷◌ (response.passive_addr, [])) (update_states-empty center ps o h.1))
      ]
]

-- Where no id that a reply carries is a key of the adjacency, the invitation never fails, whatever
-- replies come and in whatever order, but a peer that does not answer stays in the overlay, which does
-- not change at all; and `update_states` then sends every confirmed peer but the center a message
-- without any address.
pub inform_peers_lem :
    (center : PeerId) (own : Response) (replies : List Reply) (adj : Adjacency)
    → All (λ k. has k adj ≡ false) (ids_of replies)
    → (o : Overlay) × (inform_peers center own replies adj ≡ some o)
      × (o.adjacency ≡ adj)
      × (update_states center (keys o.confirmed_peers) o
          ≡ empty_states center (keys o.confirmed_peers) o.confirmed_peers)
unfolding inform_peers
inform_peers_lem center own replies adj h =
    let (o, done, same, strange) =
      handle_replies-kept center replies
        (record { adjacency = adj; confirmed_peers = put center own [] }) h (ground arith, tt) in
    (o, done, same, update_states-empty center (keys o.confirmed_peers) o (rw same strange))

-- the peers whose addresses a message tells
abbrev pub told : List (PeerId × Address × Address) → List PeerId
told [] = []
told ((p, _, _) ∷ l) = p ∷ told l

-- A peer is told the addresses of exactly its confirmed neighbours.
pub addresses_mapping_lem :
    (q : PeerId) (ps : List PeerId) (c : Dict Response)
    → member q (told (addresses_mapping ps c)) ≡ (member q ps && has q c)
unfolding addresses_mapping
addresses_mapping_lem q [] c = refl
addresses_mapping_lem q (p ∷ ps) c = elim (Option-cases (get p c)) [
  | inl e ↦ ground (
    arith,
    e,
    addresses_mapping_lem q ps c,
    not-has_of_get p c e,
    λ (x : p ≡ q). ap (λ t. has t c) x,
  )
  | inr (response, e) ↦
      ground (
        arith,
        e,
        addresses_mapping_lem q ps c,
        has_of_get p c e,
        λ (x : p ≡ q). ap (λ t. has t c) x,
      )
]
