-- ===== src/Otm/Relay/LinkedSteps.antt =====
-- Every handler keeps the references of a relay consistent.
use peer_connect.Prelude.{
  ℕ, zero, suc, ◌≤◌, Bool, true, false, Option, none, some, List, ◌≡◌, refl, sym, ap, ◌∙◌, inl, inr,
  arith, leb, length, get, put, keys, member, add, diff, Bool-cases, get-put, member-add,
}
use peer_connect.Prelude.Int.{pos, ltb_ℤ}
use peer_connect.Otm.Tree.{Address, PeerId}
use peer_connect.Otm.Relay.{
  Relay, RelayState, value, done, Packet, Output, emit, passive_of, active_of,
}
use peer_connect.Otm.Relay.Links.{send_all}
use peer_connect.Otm.Relay.TreeCheck.{
  gossip_tree_reject, upgrade_attempt, tree_check_begin, tree_check_finish,
  forward_tree_check_packet, may_reject, tree_check_accept, sampled_peer_ids, window_end,
  forward_to, refresh_passive, max_retries,
}
use peer_connect.Otm.Relay.Frame.{
  send_all_frame, forward_to_frame, get-forward_to, refresh_passive_frame, get-refresh_passive,
}
use peer_connect.Otm.Relay.Linked.{IsLinked, Grows, Grows-of_same, IsLinked-of_same}

-- what a handler does to a linked relay
abbrev pub Keeps : Relay → Relay → Type 0
Keeps r r' = IsLinked r' × Grows r r'

module _ (r r' : Relay) (linked : IsLinked r) (links : r'.all_links ≡ r.all_links)
    (expected : r'.expected_parent_peers ≡ r.expected_parent_peers) where
  monotone :
      (p : PeerId)
      → member p r.expected_parent_peers ≡ true
      → member p r'.expected_parent_peers ≡ true
  monotone p h = rw expected h

  pub Keeps-of_same :
      (parent : r'.parent_link_fut ≡ r.parent_link_fut) (later : value r.state ≤ value r'.state)
      (active : (q i : ℕ) → get q r'.active_links ≡ some i → active_of r q ≡ some i)
      (passive : (q i : ℕ) → get q r'.passive_links ≡ some i → passive_of r q ≡ some i)
      → Keeps r r'
  Keeps-of_same parent later active passive = (
    IsLinked-of_same r r' linked links monotone parent later active passive,
    Grows-of_same r r' linked links monotone,
  )

pub Keeps-refl : (r : Relay) → IsLinked r → Keeps r r
Keeps-refl r h = (h, record { expected = λ p e. e; active = λ q i e. e })

pub Keeps-trans : (r s t : Relay) → Keeps r s → Grows s t → IsLinked t → Keeps r t
Keeps-trans r s t h g l = (
  l,
  record {
    expected = λ p e. g.expected p (h.1.expected p e);
    active = λ q i e. g.active q i (h.1.active q i e);
  },
)

pub send_all-Keeps :
    (is : List ℕ) (packet : Packet) (r : Relay) → IsLinked r → Keeps r (send_all is packet r)
send_all-Keeps is packet r h =
    let frame = send_all_frame is packet r in
    rw frame (Keeps-of_same r _ h refl refl refl (omega arith) h.active h.passive)

pub emit-Keeps : (o : Output) (r : Relay) → IsLinked r → Keeps r (emit o r)
emit-Keeps o r h = Keeps-of_same r (emit o r) h refl refl refl (omega arith) h.active h.passive

forward-active :
    (p : PeerId) (packet : Packet) (r : Relay)
    → IsLinked r
    → (q i : ℕ) → get q (forward_tree_check_packet p packet r).active_links ≡ some i
    → active_of r q ≡ some i
unfolding forward_tree_check_packet
forward-active p packet r h q i e =
    let r0 = record r { window_index = window_end r } in
    ground (arith, get-forward_to q (sampled_peer_ids p r) packet r0, h.active q i)

pub forward-Keeps :
    (p : PeerId) (packet : Packet) (r : Relay)
    → IsLinked r
    → Keeps r (forward_tree_check_packet p packet r)
unfolding forward_tree_check_packet
forward-Keeps p packet r h =
    let r0 = record r { window_index = window_end r } in
    let ps = sampled_peer_ids p r in
    let frame = forward_to_frame ps packet r0 in
    Keeps-of_same r (forward_to ps packet r0) h (ap (λ (t : Relay). t.all_links) frame)
      (ap (λ (t : Relay). t.expected_parent_peers) frame)
      (ap (λ (t : Relay). t.parent_link_fut) frame)
      (omega (arith, ap (λ (t : Relay). value t.state) frame)) (forward-active p packet r h)
      (λ q i e. h.passive q i (sym (ap (λ (t : Relay). get q t.passive_links) frame) ∙ e))

refresh-Keeps : (ps : List PeerId) (r : Relay) → IsLinked r → Keeps r (refresh_passive ps r)
refresh-Keeps ps r h =
    let frame = refresh_passive_frame ps r in
    Keeps-of_same r (refresh_passive ps r) h (ap (λ (t : Relay). t.all_links) frame)
      (ap (λ (t : Relay). t.expected_parent_peers) frame)
      (ap (λ (t : Relay). t.parent_link_fut) frame)
      (omega (arith, ap (λ (t : Relay). value t.state) frame))
      (λ q i e. h.active q i (sym (ap (λ (t : Relay). get q t.active_links) frame) ∙ e))
      (λ q i e. ground (arith, get-refresh_passive q ps r, h.passive q i))

state-Keeps : (r : Relay) → IsLinked r → Keeps r (record r { state = RelayState.tree_check_done })
state-Keeps r h =
    Keeps-of_same r (record r { state = RelayState.tree_check_done }) h refl refl refl
      (ground arith) h.active h.passive

pub finish-Keeps : (p : PeerId) (r : Relay) → IsLinked r → Keeps r (tree_check_finish p r)
unfolding tree_check_finish
finish-Keeps p r h =
    let f = forward_tree_check_packet p (Packet.tree_check r.this_peer) r in
    let k1 = forward-Keeps p (Packet.tree_check r.this_peer) r h in
    let ps = diff (keys f.all_links) (keys f.active_links) in
    let k2 = refresh-Keeps ps f k1.0 in
    let g = refresh_passive ps f in
    let k3 = state-Keeps g k2.0 in
    Keeps-trans r g (record g { state = RelayState.tree_check_done })
      (Keeps-trans r f g k1 k2.1 k2.0) k3.1 k3.0

pub attempt-Keeps :
    (p : PeerId) (i j n : ℕ) (r : Relay) → IsLinked r → Keeps r (upgrade_attempt p i j n r).0
unfolding upgrade_attempt
attempt-Keeps p i j zero r h = Keeps-refl r h
attempt-Keeps p i j (suc n) r h = elim (Bool-cases (done r.parent_link_fut)) [
  | inl e ↦ rw e (finish-Keeps p r h)
  | inr e ↦ rw e (
      emit-Keeps
        (Output.datagram (r.links i).connection (r.links i).right (Packet.upgrade_conn r.this_peer))
        r h)
]

-- the sender of an accepted check is expected, and its link is active
module _ (id : PeerId) (i j : ℕ) (r : Relay) (h : IsLinked r)
    (e : get id r.all_links ≡ some (i, j)) where
  abbrev expecting : Relay
  expecting = record r {
    expected_parent_peers = add id r.expected_parent_peers;
    active_links = put id j r.active_links;
  }

  expecting_mono :
      (p : PeerId)
      → member p r.expected_parent_peers ≡ true
      → member p (add id r.expected_parent_peers) ≡ true
  expecting_mono p m = ground (arith, member-add id p r.expected_parent_peers)

  expecting-active : (q k : ℕ) → get q (put id j r.active_links) ≡ some k → active_of r q ≡ some k
  expecting-active q k m = ground (
    arith,
    get-put id q j r.active_links,
    h.active q k,
    λ (x : id ≡ q). ap (λ y. get y r.all_links) x,
  )

  expect-Keeps : Keeps r expecting
  expect-Keeps = (
    IsLinked-of_same r expecting h refl expecting_mono refl (omega arith) expecting-active
        h.passive,
    Grows-of_same r expecting h refl expecting_mono,
  )

pub accept-Keeps :
    (id : PeerId) (o : Option (ℕ × ℕ)) (r : Relay)
    → IsLinked r
    → get id r.all_links ≡ o
    → Keeps r (tree_check_accept id o r).0
unfolding tree_check_accept
accept-Keeps id none r h e = Keeps-refl r h
accept-Keeps id (some (i, j)) r h e =
    let k = expect-Keeps id i j r h e in
    let k' = attempt-Keeps id i j max_retries (expecting id i j r h e) k.0 in
    Keeps-trans r (expecting id i j r h e)
      (upgrade_attempt id i j max_retries (expecting id i j r h e)).0 k k'.1 k'.0

pub begin-Keeps :
    (known : Bool) (id : PeerId) (addr : Address) (r : Relay)
    → IsLinked r
    → Keeps r (tree_check_begin known id addr r).0
unfolding tree_check_begin
begin-Keeps false id addr r h = Keeps-refl r h
begin-Keeps true id addr r h = elim (Bool-cases (may_reject id r)) [
  | inl e ↦
      rw e (emit-Keeps (Output.datagram r.transport addr (Packet.tree_reject r.this_peer)) r h)
  | inr e ↦ rw e (accept-Keeps id (get id r.all_links) r h refl)
]

pub reject-Keeps : (id : PeerId) (r : Relay) → IsLinked r → Keeps r (gossip_tree_reject id r)
unfolding gossip_tree_reject
reject-Keeps id r h = elim (Bool-cases (ltb_ℤ r.window_index (pos (length r.all_links)))) [
  | inl e ↦ elim (Bool-cases (leb r.session.fanout (length r.active_links))) [
    | inl f ↦ rw (e, f) (Keeps-refl r h)
    | inr f ↦ rw (e, f) (forward-Keeps id (Packet.tree_check r.this_peer) r h)
  ]
  | inr e ↦ rw e (Keeps-refl r h)
]
