-- ===== src/Otm/Relay/LinkedStreams.antt =====
-- The handlers of links and streams keep the references of a relay consistent.
use peer_connect.Prelude.{
  ℕ, ◌+◌, Option, none, some, List, ◌≡◌, refl, ap, arith, get, remove, get-put, get-remove,
}
use peer_connect.Otm.Tree.{TreeLink, Address, Sock, PeerId, clear}
use peer_connect.Otm.Relay.{
  Relay, Future, result, Packet, Output, emit, emit_close, write, passive_of, get_forward_links,
}
use peer_connect.Otm.Relay.Setup.{stop_session}
use peer_connect.Otm.Relay.Links.{
  gossip_downgrade_connection, gossip_tree_gather, gossip_print_every_onces_states, send_all,
  gather_under, passive_siblings, downgrade_link, become_passive,
}
use peer_connect.Otm.Relay.Streams.{
  gossip_upgrade_connection, Outcome, activate_link, add_stream_begin,
}
use peer_connect.Otm.Relay.Steps.{or_same}
use peer_connect.Otm.Relay.Linked.{IsLinked}
use peer_connect.Otm.Relay.LinkedSteps.{
  Keeps-of_same, Keeps, Keeps-refl, Keeps-trans, send_all-Keeps, emit-Keeps,
}

-- a change of the heap, and of what is sent
pub heap-Keeps :
    (links : ℕ → TreeLink) (out : List Output) (r : Relay)
    → IsLinked r
    → Keeps r (record r { links = links; out = out })
heap-Keeps links out r h =
    Keeps-of_same r (record r { links = links; out = out }) h refl refl refl (omega arith) h.active
      h.passive

-- a handler that changes nothing else
abbrev HeapOnly : Relay → Relay → Type 0
HeapOnly r r' = r' ≡ record r { links = r'.links; out = r'.out }

HeapOnly-Keeps : (r r' : Relay) → HeapOnly r r' → IsLinked r → Keeps r r'
HeapOnly-Keeps r r' e h = rw e (heap-Keeps r'.links r'.out r h)

stream-HeapOnly :
    (session_id : ℕ) (id : PeerId) (connection : Sock) (r : Relay)
    → HeapOnly r (add_stream_begin session_id id connection r).0
unfolding add_stream_begin
stream-HeapOnly session_id id connection r = ground arith

pub stream-Keeps :
    (session_id : ℕ) (id : PeerId) (connection : Sock) (r : Relay)
    → IsLinked r
    → Keeps r (add_stream_begin session_id id connection r).0
stream-Keeps session_id id connection r =
    HeapOnly-Keeps r (add_stream_begin session_id id connection r).0
      (stream-HeapOnly session_id id connection r)

upgrade-HeapOnly : (id : PeerId) (r : Relay) → HeapOnly r (gossip_upgrade_connection id r).0
unfolding gossip_upgrade_connection
upgrade-HeapOnly id r = ground arith

pub upgrade-Keeps :
    (id : PeerId) (r : Relay) → IsLinked r → Keeps r (gossip_upgrade_connection id r).0
upgrade-Keeps id r = HeapOnly-Keeps r (gossip_upgrade_connection id r).0 (upgrade-HeapOnly id r)

activate-HeapOnly : (i : ℕ) (o : Outcome) (r : Relay) → HeapOnly r (activate_link i o r).0
unfolding activate_link
activate-HeapOnly i o r = ground arith

pub activate-Keeps :
    (i : ℕ) (o : Outcome) (r : Relay) → IsLinked r → Keeps r (activate_link i o r).0
activate-Keeps i o r = HeapOnly-Keeps r (activate_link i o r).0 (activate-HeapOnly i o r)

stop-HeapOnly : (r : Relay) → HeapOnly r (stop_session r)
unfolding stop_session
stop-HeapOnly r = ground arith

pub stop-Keeps : (r : Relay) → IsLinked r → Keeps r (stop_session r)
stop-Keeps r = HeapOnly-Keeps r (stop_session r) (stop-HeapOnly r)

gather_under-Keeps :
    (f : Future) (level : ℕ) (addr : Address) (r : Relay)
    → IsLinked r
    → Keeps r (or_same r (gather_under f level addr r))
unfolding gather_under
gather_under-Keeps (result (some i)) level addr r h =
    let packet = Packet.tree_gather (level + 1) (some (r.links i).peer_id) addr in
    let replied = emit (Output.datagram r.transport addr packet) r in
    let k = emit-Keeps (Output.datagram r.transport addr packet) r h in
    let k' = send_all-Keeps (get_forward_links r) packet replied k.0 in
    Keeps-trans r replied (send_all (get_forward_links r) packet replied) k k'.1 k'.0
gather_under-Keeps _ level addr r h = Keeps-refl r h

pub gather-Keeps :
    (level : ℕ) (addr : Address) (r : Relay)
    → IsLinked r
    → Keeps r (or_same r (gossip_tree_gather level addr r))
unfolding gossip_tree_gather
gather-Keeps level addr r = gather_under-Keeps r.parent_link_fut level addr r

pub print-Keeps :
    (id : PeerId) (r : Relay) → IsLinked r → Keeps r (gossip_print_every_onces_states id r)
unfolding gossip_print_every_onces_states
print-Keeps id r h =
    send_all-Keeps (passive_siblings r (get_forward_links r)) (Packet.print_states id) r h

become-Keeps :
    (id : PeerId) (o : Option ℕ) (r : Relay)
    → IsLinked r
    → passive_of r id ≡ o
    → Keeps r (become_passive id o r)
unfolding become_passive
become-Keeps id none r h e = Keeps-refl r h
become-Keeps id (some j) r h e =
    Keeps-of_same r (become_passive id (some j) r) h refl refl refl (omega arith) h.active (λ q i m.
      ground (
        arith,
        e,
        get-put id q j r.passive_links,
        h.passive q i,
        λ (x : id ≡ q). ap (λ y. get y r.all_links) x,
      ))

-- the active link is gone, and its socket closed
remove-Keeps :
    (id : PeerId) (links : ℕ → TreeLink) (r : Relay)
    → IsLinked r
    → Keeps r (record r { active_links = remove id r.active_links; links = links })
remove-Keeps id links r h =
    Keeps-of_same r (record r { active_links = remove id r.active_links; links = links }) h refl
      refl refl (omega arith)
      (λ q i e. ground (arith, get-remove id q r.active_links, h.active q i)) h.passive

emit_close-Keeps : (closed : Option Sock) (r : Relay) → IsLinked r → Keeps r (emit_close closed r)
emit_close-Keeps none r h = Keeps-refl r h
emit_close-Keeps (some c) r h = emit-Keeps (Output.close c) r h

emit_close-all_links :
    (closed : Option Sock) (r : Relay) → (emit_close closed r).all_links ≡ r.all_links
emit_close-all_links none r = refl
emit_close-all_links (some c) r = refl

pub downgrade_link-Keeps :
    (id : PeerId) (o : Option ℕ) (r : Relay) → IsLinked r → Keeps r (downgrade_link id o r)
unfolding downgrade_link
downgrade_link-Keeps id none r h = Keeps-refl r h
downgrade_link-Keeps id (some i) r h =
    let (cleared, closed) = clear (r.links i) in
    let removed = record r {
      active_links = remove id r.active_links;
      links = write i cleared r.links;
    } in
    let gone = emit_close closed removed in
    let k = remove-Keeps id (write i cleared r.links) r h in
    let k1 = emit_close-Keeps closed removed k.0 in
    let k2 =
      become-Keeps id (passive_of r id) gone k1.0 (rw (emit_close-all_links closed removed)) in
    Keeps-trans r gone (become_passive id (passive_of r id) gone)
      (Keeps-trans r removed gone k k1.1 k1.0) k2.1 k2.0

pub downgrade-Keeps :
    (id : PeerId) (r : Relay) → IsLinked r → Keeps r (gossip_downgrade_connection id r)
unfolding gossip_downgrade_connection
downgrade-Keeps id r h = downgrade_link-Keeps id (get id r.active_links) r h
