-- ===== src/Otm/Relay/Streams.antt =====
-- `PalmTreeRelay`: stream connections, made by this peer (`_activate_link`) and by another
-- (`gossip_add_stream_link`). Both are cut at their awaits.
use peer_connect.Prelude.{
  ℕ, Bool, true, false, ◌||◌, Option, none, some, ◌==◌, if◌then◌else◌, get, member,
}
use peer_connect.Otm.Tree.{Sock, PeerId, Direction, set_connection, is_online, is_lagging, clear}
use peer_connect.Otm.Relay.{Relay, done, set_result, Output, emit, emit_close, write}

unfoldable pub upgrade_link : Option ℕ → Relay → Relay × Option ℕ
unfolding is_online
upgrade_link none r = (r, none)
upgrade_link (some i) r =
    if is_online (r.links i) then (r, none) else (emit (Output.connect (r.links i).right) r, some i)

-- `gossip_upgrade_connection` up to the connection: the link to activate, if there is one to do
unfoldable pub gossip_upgrade_connection : PeerId → Relay → Relay × Option ℕ
unfolding upgrade_link
gossip_upgrade_connection id r = upgrade_link (get id r.active_links) r

-- What comes of the connection and of the wait for the answer.
pub data Outcome : Type 0 where
  refused : Outcome
  answered : Sock → Bool → Outcome

-- the rest of `_activate_link`: the answer is `GOSSIP_LINK_OK`, or another or none
unfoldable pub activate_link : ℕ → Outcome → Relay → Relay × Bool
unfolding set_connection
activate_link i refused r = (r, false)
activate_link i (answered s false) r = (r, false)
activate_link i (answered s true) r =
    let link = record (set_connection s (r.links i)) { direction = Direction.outgoing } in
    (record r { links = write i link r.links }, true)

-- the branches of `gossip_add_stream_link` for a peer with an active link
unfoldable pub stream_for_link : ℕ → PeerId → Sock → Relay → Relay × Option ℕ
unfolding is_online is_lagging set_connection clear
stream_for_link i id connection r =
    if is_online (r.links i) || is_lagging (r.links i)
    then (let (cleared, closed) = clear (r.links i) in
        (
          emit_close closed
              (record r { links = write i (set_connection connection cleared) r.links }),
          none,
        ))
    else if done r.parent_link_fut
    then (emit (Output.close connection) r, none)
    else if member id r.expected_parent_peers
    then ((
      emit (Output.link_ok connection)
          (record r { links = write i (set_connection connection (r.links i)) r.links }),
      some i,
    ))
    else (r, none)

unfoldable pub stream_for_peer : Option ℕ → PeerId → Sock → Relay → Relay × Option ℕ
unfolding stream_for_link
stream_for_peer none id connection r = (emit (Output.close connection) r, none)
stream_for_peer (some i) id connection r = stream_for_link i id connection r

-- `gossip_add_stream_link` up to the confirmation: the link that waits for it, if any. A wrong
-- session id is an AssertionError.
unfoldable pub add_stream_begin : ℕ → PeerId → Sock → Relay → Relay × Option ℕ
unfolding stream_for_peer
add_stream_begin session_id id connection r =
    if r.session.session_id == session_id
    then stream_for_peer (get id r.active_links) id connection r
    else (r, none)

-- the rest, when the confirmation is sent
unfoldable pub add_stream_end : ℕ → Relay → Relay
add_stream_end i r = record r { parent_link_fut = set_result (some i) r.parent_link_fut }

-- `FilesSender.start`: the sender is the root, and has no parent
unfoldable pub set_root : Relay → Relay
set_root r = record r { parent_link_fut = set_result none r.parent_link_fut }
