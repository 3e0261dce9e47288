-- ===== src/Core/Connector/Keys.antt =====
-- What a connection leaves in the cache.
use peer_connect.Prelude.{
  suc, ◌+◌, ◌≤◌, ◌<◌, Bool, true, false, Option, none, some, [], ◌∷◌, ◌++◌, ◌≡◌, ◌≢◌, refl, arith,
  ◌==◌, length, get, has, put, get-put, has-put, get_of_not-has, length-put,
}
use peer_connect.Otm.Tree.{PeerId, Sock}
use peer_connect.Avails.Cache.{Cache, add_peer_sock, is_connected}
use peer_connect.Core.Connector.{Peer, Connector, socket, get_connection, get_or_add}

add-room :
    (k : PeerId) (s : Sock) (c : Cache)
    → length c.socket_cache < c.max_limit
    → add_peer_sock k s c ≡ some (record c { socket_cache = put k s c.socket_cache })
unfolding add_peer_sock
add-room k s c h = ground arith

connected-none :
    (is_conn : Sock → Bool) (k : PeerId) (c : Cache)
    → has k c.socket_cache ≡ false
    → is_connected is_conn k c ≡ none
unfolding is_connected
connected-none is_conn k c h = rw (get_of_not-has k c.socket_cache h, is_connected) refl

connected-some :
    (is_conn : Sock → Bool) (k : PeerId) (s : Sock) (c : Cache)
    → get k c.socket_cache ≡ some s
    → is_conn s ≡ true
    → is_connected is_conn k c ≡ some s
unfolding is_connected
connected-some is_conn k s c h i = rw (h, is_connected) (rw i refl)

get_connection-eq :
    (is_conn : Sock → Bool) (o : Option Sock) (sends : Bool) (p : Peer) (c : Connector)
    → get_connection is_conn o sends p c
      ≡ get_or_add (is_connected is_conn p.peer_id c.connected_peers) o sends p c
unfolding get_connection
get_connection-eq is_conn o sends p c = refl

module _ (is_conn : Sock → Bool) (p : Peer) (s : Sock) (c : Connector)
    (apart : p.byte_id ≢ p.peer_id)
    (room : length c.connected_peers.socket_cache + 2 ≤ c.connected_peers.max_limit)
    (no_id : has p.byte_id c.connected_peers.socket_cache ≡ false)
    (no_peer_id : has p.peer_id c.connected_peers.socket_cache ≡ false) where
  abbrev pub both_keys : Connector
  both_keys = record c {
    connected_peers = record c.connected_peers {
      socket_cache = put p.peer_id s (put p.byte_id s c.connected_peers.socket_cache);
    };
    current_connected = some s;
    verified = c.verified ++ s ∷ [];
  }

  first_length :
      length (put p.byte_id s c.connected_peers.socket_cache)
      ≡ suc (length c.connected_peers.socket_cache)
  first_length = rw (length-put p.byte_id s c.connected_peers.socket_cache, no_id) (omega arith)

  second_length :
      length both_keys.connected_peers.socket_cache ≡ length c.connected_peers.socket_cache + 2
  second_length =
      let other : (p.byte_id == p.peer_id) ≡ false = ground (arith, apart) in
      rw
        (
          length-put p.peer_id s (put p.byte_id s c.connected_peers.socket_cache),
          has-put p.byte_id p.peer_id s c.connected_peers.socket_cache,
          other,
          no_peer_id,
        )
        (omega (arith, first_length))

  get_connection-new : get_connection is_conn (some s) true p c ≡ (socket s, both_keys)
  get_connection-new =
      rw
        (
          get_connection-eq,
          connected-none is_conn p.peer_id c.connected_peers no_peer_id,
          add-room p.byte_id s c.connected_peers (omega (arith, room)),
        )
        (rw
          (add-room p.peer_id s
            (record c.connected_peers {
              socket_cache = put p.byte_id s c.connected_peers.socket_cache;
            })
            (omega (arith, room, first_length)))
          refl)

  get_connection-again :
      (o : Option Sock) (sends : Bool)
      → is_conn s ≡ true
      → get_connection is_conn o sends p both_keys ≡ (socket s, both_keys)
  get_connection-again o sends i =
      rw
        (
          get_connection-eq,
          connected-some is_conn p.peer_id s both_keys.connected_peers
              (ground (
                arith,
                get-put p.peer_id p.peer_id s (put p.byte_id s c.connected_peers.socket_cache),
              ))
              i,
        )
        refl

  -- A new connection of a peer whose keys are not cached takes two places of a cache that has room for
  -- them, since `_add_connection` stores it under the bytes of the id and `get_connection` under the
  -- text. The next call gives the same socket, as long as it is connected, whatever a new connection
  -- would be, and changes nothing.
  pub get_connection_lem :
      (o : Option Sock) (sends : Bool)
      → is_conn s ≡ true
      → (get_connection is_conn (some s) true p c ≡ (socket s, both_keys))
        × (length both_keys.connected_peers.socket_cache
            ≡ length c.connected_peers.socket_cache + 2)
        × (get_connection is_conn o sends p both_keys ≡ (socket s, both_keys))
  get_connection_lem o sends i = (get_connection-new, second_length, get_connection-again o sends i)
