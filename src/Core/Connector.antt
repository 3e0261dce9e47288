-- ===== src/Core/Connector.antt =====
-- `Connector` (src/core/connector.py) over the cache of sockets. A peer has two keys: its `peer_id`, a
-- text, and its `id`, bytes; they are two numbers. `connect` gives a new socket, where `none` is the
-- OSError, and `sends` says whether the verification goes out.
pub mod Keys
use peer_connect.Prelude.{Bool, true, false, Option, none, some, List, [], ◌∷◌, ◌++◌}
use peer_connect.Otm.Tree.{PeerId, Sock}
use peer_connect.Avails.Cache.{Cache, add_peer_sock, is_connected}

pub record Peer : Type 0 where
  pub peer_id : PeerId
  pub byte_id : PeerId

pub record Connector : Type 0 where
  pub connected_peers : Cache
  pub current_connected : Option Sock
  pub verified : List Sock

-- how `get_connection` ends: a socket, or the error that leaves it
pub data Got : Type 0 where
  socket : Sock → Got
  os_error key_error : Got

abbrev pub use_cached : Sock → Connector → Got × Connector
use_cached s c = (socket s, record c { current_connected = some s })

-- the last write to the cache; `none` is the KeyError of an empty cache
abbrev pub note_connected : Sock → Option Cache → Connector → Got × Connector
note_connected s none c = (key_error, c)
note_connected s (some cache) c =
    (socket s, record c { connected_peers = cache; current_connected = some s })

-- `_verifier`, and what follows it
abbrev pub verify : Bool → Peer → Sock → Connector → Got × Connector
verify false p s c = (os_error, c)
verify true p s c =
    note_connected s (add_peer_sock p.peer_id s c.connected_peers)
      (record c { verified = c.verified ++ s ∷ [] })

abbrev pub note_new : Bool → Peer → Sock → Option Cache → Connector → Got × Connector
note_new sends p s none c = (key_error, c)
note_new sends p s (some cache) c = verify sends p s (record c { connected_peers = cache })

-- `_add_connection`
abbrev pub add_connection : Option Sock → Bool → Peer → Connector → Got × Connector
add_connection none sends p c = (os_error, c)
add_connection (some s) sends p c =
    note_new sends p s (add_peer_sock p.byte_id s c.connected_peers) c

abbrev pub get_or_add : Option Sock → Option Sock → Bool → Peer → Connector → Got × Connector
get_or_add (some s) connected sends p c = use_cached s c
get_or_add none connected sends p c = add_connection connected sends p c

unfoldable pub get_connection :
    (Sock → Bool) → Option Sock → Bool → Peer → Connector → Got × Connector
get_connection is_socket_connected connected sends p c =
    get_or_add (is_connected is_socket_connected p.peer_id c.connected_peers) connected sends p c
