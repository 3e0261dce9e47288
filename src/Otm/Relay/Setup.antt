-- ===== src/Otm/Relay/Setup.antt =====
-- `PalmTreeRelay`: the start and the end of a session, and `gossip_update_state`.
use peer_connect.Prelude.{
  ℕ, ◌+◌, min, Bool, none, some, List, [], ◌∷◌, ltb, leb, if◌then◌else◌, length, put,
}
use peer_connect.Otm.Tree.{Address, Sock, PeerId, LinkType, LinkStatus, new_link}
use peer_connect.Otm.Relay.{Relay, RelayState, value, Output, emit, write}

-- `session_init` up to its await: true if it goes on to create the endpoint
unfoldable pub session_init_begin : Relay → Bool
session_init_begin r = ltb (value r.state) (value RelayState.session_init)

-- `connection_made`, which asyncio calls while `session_init` waits
unfoldable pub connection_made : Sock → Relay → Relay
connection_made t r = record r { transport = some t }

-- the rest of `session_init`, when the endpoint is there
unfoldable pub session_init_end : Relay → Relay
session_init_end r = record r { state = RelayState.session_init }

-- One round of the loop of `gossip_update_state`: two new links to the peer.
unfoldable pub add_link_pair : PeerId × Address × Address → Relay → Relay
unfolding new_link
add_link_pair (peer_id, passive_addr, active_addr) r =
    let active_link =
      new_link r.next_id r.active_endpoint_addr active_addr peer_id none LinkType.active in
    let passive_link =
      new_link (r.next_id + 1) r.passive_endpoint_addr passive_addr peer_id r.transport
        LinkType.passive in
    record r {
      links =
          write (r.next_id + 1) (record passive_link { status = LinkStatus.online })
            (write r.next_id active_link r.links);
      next_id = r.next_id + 2;
      all_links = put peer_id (r.next_id + 1, r.next_id) r.all_links;
    }

unfoldable pub add_link_pairs : List (PeerId × Address × Address) → Relay → Relay
add_link_pairs [] r = r
add_link_pairs (entry ∷ rest) r = add_link_pairs rest (add_link_pair entry r)

abbrev set_fanout : ℕ → Relay → Relay
set_fanout n r = record r {
  session = record { session_id = r.session.session_id; fanout = n };
  state = RelayState.links_initialized;
}

unfoldable pub gossip_update_state : List (PeerId × Address × Address) → Relay → Relay
gossip_update_state addresses r =
    if leb (value RelayState.links_initialized) (value r.state)
    then r
    else let r' = add_link_pairs addresses r in
      set_fanout (min (length r'.all_links) r'.session.fanout) r'

-- `stop_session`; the task's cancellation is outside the relay
unfoldable pub stop_session : Relay → Relay
stop_session r = elim r.transport [ none ↦ r | some t ↦ emit (Output.close_transport t) r ]
