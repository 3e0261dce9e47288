-- ===== src/Otm/Relay/TreeCheck.antt =====
-- `PalmTreeRelay`: the tree check. `gossip_tree_check` waits for the parent inside
-- `_send_upgrade_packet`, so it is cut there: `tree_check_begin`, then `upgrade_attempt` for each
-- timeout, then `tree_check_finish`.
use peer_connect.Prelude.{
  ℕ, zero, suc, ◌+◌, Bool, true, false, not, ◌&&◌, ◌||◌, Option, none, some, List, [], ◌∷◌, ltb,
  leb, if◌then◌else◌, length, get, has, put, keys, values, add, diff,
}
use peer_connect.Prelude.Int.{ℤ, pos, ◌-ℤ◌, ◌+ℤ◌, ltb_ℤ}
use peer_connect.Otm.Tree.{Address, PeerId, Direction, is_online, is_outgoing}
use peer_connect.Otm.Relay.{
  Relay, RelayState, value, done, cancel, Packet, Output, emit, write, passive_of,
  send_passive_message, slice,
}

-- the test of `_may_be_make_rejection`
unfoldable pub may_reject : PeerId → Relay → Bool
may_reject id r =
    not (has id r.all_links)
    || (ltb r.session.fanout (length r.active_links)
        || (done r.parent_link_fut || leb (value RelayState.tree_check_done) (value r.state)))

unfoldable pub may_be_make_rejection : PeerId → Address → Relay → Relay × Bool
unfolding may_reject
may_be_make_rejection id addr r =
    if may_reject id r
    then (emit (Output.datagram r.transport addr (Packet.tree_reject r.this_peer)) r, true)
    else (r, false)

-- how many of the active links are online and outgoing
abbrev count_forward : Relay → List ℕ → ℕ
count_forward r [] = 0
count_forward r (i ∷ rest) =
    (if is_online (r.links i) && is_outgoing (r.links i) then 1 else 0) + count_forward r rest

unfoldable pub online_outgoing : Relay → ℕ
unfolding is_online is_outgoing
online_outgoing r = count_forward r (values r.active_links)

unfoldable pub window_end : Relay → ℤ
unfolding online_outgoing
window_end r =
    let reach = r.window_index +ℤ pos r.session.fanout in
    let limit = pos (length r.all_links) in
    (if ltb_ℤ reach limit then reach else limit) -ℤ pos (online_outgoing r)

unfoldable pub sampled_peer_ids : PeerId → Relay → List PeerId
unfolding slice window_end
sampled_peer_ids sender_id r =
    let peer_ids = slice r.window_index (window_end r +ℤ pos 1) (keys r.all_links) in
    diff (diff peer_ids (sender_id ∷ [])) (keys r.active_links)

-- a round of the loop of `forward_tree_check_packet`, with what `all_links` has of the peer
unfoldable pub forward_link : PeerId → Packet → Option (ℕ × ℕ) → Relay → Relay
forward_link p packet none r = r
forward_link p packet (some (i, j)) r =
    let sent = send_passive_message i packet r in
    record sent { active_links = put p j sent.active_links }

unfoldable pub forward_to : List PeerId → Packet → Relay → Relay
unfolding forward_link
forward_to [] packet r = r
forward_to (p ∷ rest) packet r =
    forward_to rest packet (forward_link p packet (get p r.all_links) r)

unfoldable pub forward_tree_check_packet : PeerId → Packet → Relay → Relay
unfolding sampled_peer_ids forward_to
forward_tree_check_packet sender_id packet r =
    forward_to (sampled_peer_ids sender_id r) packet (record r { window_index = window_end r })

unfoldable pub gossip_tree_reject : PeerId → Relay → Relay
unfolding forward_tree_check_packet
gossip_tree_reject id r =
    if not (ltb_ℤ r.window_index (pos (length r.all_links)))
    then r
    else if leb r.session.fanout (length r.active_links)
    then r
    else forward_tree_check_packet id (Packet.tree_check r.this_peer) r

-- `passive_links.update(...)`: the peers without an active link
unfoldable pub refresh_link : PeerId → Option ℕ → Relay → Relay
refresh_link p none r = r
refresh_link p (some i) r = record r { passive_links = put p i r.passive_links }

unfoldable pub refresh_passive : List PeerId → Relay → Relay
unfolding refresh_link
refresh_passive [] r = r
refresh_passive (p ∷ rest) r = refresh_passive rest (refresh_link p (passive_of r p) r)

unfoldable pub tree_check_finish : PeerId → Relay → Relay
unfolding forward_tree_check_packet refresh_passive
tree_check_finish sender_id r =
    let forwarded = forward_tree_check_packet sender_id (Packet.tree_check r.this_peer) r in
    let refreshed =
      refresh_passive (diff (keys forwarded.all_links) (keys forwarded.active_links)) forwarded in
    record refreshed { state = RelayState.tree_check_done }

-- Where a tree check stands after a part of it has run: waiting for the parent (the sender, its
-- passive and its active link, and how many timeouts are left after this one), completed, rejected,
-- or ended by an exception.
pub data Progress : Type 0 where
  waiting : PeerId → ℕ → ℕ → ℕ → Progress
  completed rejected raised : Progress

-- One round of the loop over `get_timeouts`, with so many timeouts left. A `break` skips the `else`
-- clause of the loop, which raises.
unfoldable pub upgrade_attempt : PeerId → ℕ → ℕ → ℕ → Relay → Relay × Progress
unfolding tree_check_finish
upgrade_attempt sender_id i j zero r = (r, raised)
upgrade_attempt sender_id i j (suc left) r =
    if done r.parent_link_fut
    then (tree_check_finish sender_id r, completed)
    else (send_passive_message i (Packet.upgrade_conn r.this_peer) r, waiting sender_id i j left)

-- `wait_for` timed out: it has cancelled the future that it waited on.
unfoldable pub upgrade_timeout : PeerId → ℕ → ℕ → ℕ → Relay → Relay × Progress
unfolding upgrade_attempt
upgrade_timeout sender_id i j left r =
    upgrade_attempt sender_id i j left (record r { parent_link_fut = cancel r.parent_link_fut })

-- `wait_for` returned: the parent has connected.
unfoldable pub upgrade_done : PeerId → ℕ → Relay → Relay × Progress
unfolding tree_check_finish
upgrade_done sender_id j r =
    let turned = record (r.links j) { direction = Direction.incoming } in
    (tree_check_finish sender_id (record r { links = write j turned r.links }), completed)

abbrev pub max_retries : ℕ
max_retries = 3

-- an accepted check, with the links to its sender, up to the wait for the parent
unfoldable pub tree_check_accept : PeerId → Option (ℕ × ℕ) → Relay → Relay × Progress
unfolding upgrade_attempt
tree_check_accept id none r = (r, raised)
tree_check_accept id (some (i, j)) r = upgrade_attempt id i j max_retries (record r {
  expected_parent_peers = add id r.expected_parent_peers;
  active_links = put id j r.active_links;
})

-- `gossip_tree_check` up to its first wait. `known` says whether the sender is in the peer list; if
-- it is not, the lookup gives `None` and the print of its name raises.
unfoldable pub tree_check_begin : Bool → PeerId → Address → Relay → Relay × Progress
unfolding may_be_make_rejection tree_check_accept
tree_check_begin false id addr r = (r, raised)
tree_check_begin true id addr r =
    let (answered, refused) = may_be_make_rejection id addr r in
    if refused
    then (answered, rejected)
    else tree_check_accept id (get id answered.all_links) answered
