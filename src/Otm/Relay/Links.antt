-- ===== src/Otm/Relay/Links.antt =====
-- `PalmTreeRelay`: the handlers that neither check the tree nor take a stream connection.
use peer_connect.Prelude.{ℕ, ◌+◌, Option, none, some, List, [], ◌∷◌, get, put, remove}
use peer_connect.Otm.Tree.{Address, PeerId, LinkStatus, clear}
use peer_connect.Otm.Relay.{
  Relay, Future, result, Packet, Output, emit, emit_close, write, passive_of, send_passive_message,
  get_forward_links,
}

-- the passive link of a downgraded peer takes its place
unfoldable pub become_passive : PeerId → Option ℕ → Relay → Relay
become_passive peer_id none r = r
become_passive peer_id (some j) r = record r {
  passive_links = put peer_id j r.passive_links;
  links = write j (record (r.links j) { status = LinkStatus.offline }) r.links;
}

unfoldable pub downgrade_link : PeerId → Option ℕ → Relay → Relay
unfolding clear become_passive
downgrade_link peer_id none r = r
downgrade_link peer_id (some i) r =
    let (cleared, closed) = clear (r.links i) in
    become_passive peer_id (passive_of r peer_id) (
      emit_close closed (record r {
        active_links = remove peer_id r.active_links;
        links = write i cleared r.links;
      }))

-- `gossip_downgrade_connection`. The lookup in `all_links` is a KeyError if the peer is not there;
-- by then the active link is gone.
unfoldable pub gossip_downgrade_connection : PeerId → Relay → Relay
unfolding downgrade_link
gossip_downgrade_connection peer_id r = downgrade_link peer_id (get peer_id r.active_links) r

-- the packet, sent by `send_passive_message` of each link
unfoldable pub send_all : List ℕ → Packet → Relay → Relay
send_all [] packet r = r
send_all (i ∷ rest) packet r = send_all rest packet (send_passive_message i packet r)

-- the reply, and the packet for the children, once the parent is known
unfoldable pub gather_under : Future → ℕ → Address → Relay → Option Relay
unfolding send_all get_forward_links
gather_under (result (some i)) level reply_addr r =
    let packet = Packet.tree_gather (level + 1) (some (r.links i).peer_id) reply_addr in
    some (
      send_all (get_forward_links r) packet
        (emit (Output.datagram r.transport reply_addr packet) r))
gather_under _ level reply_addr r = none

-- `gossip_tree_gather`, when the parent future is done. `none` is the AttributeError of the peer
-- whose parent is `None`, and the CancelledError of a cancelled future.
unfoldable pub gossip_tree_gather : ℕ → Address → Relay → Option Relay
unfolding gather_under
gossip_tree_gather level reply_addr r = gather_under r.parent_link_fut level reply_addr r

-- the passive links of the peers at the other end of some active links
unfoldable pub passive_siblings : Relay → List ℕ → List ℕ
passive_siblings r [] = []
passive_siblings r (i ∷ rest) =
    let others = passive_siblings r rest in
    elim (passive_of r (r.links i).peer_id) [ none ↦ others | some j ↦ j ∷ others ]

-- `gossip_print_every_onces_states`, without the printing
unfoldable pub gossip_print_every_onces_states : PeerId → Relay → Relay
unfolding send_all passive_siblings
gossip_print_every_onces_states id r =
    send_all (passive_siblings r (get_forward_links r)) (Packet.print_states id) r
