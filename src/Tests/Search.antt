-- ===== src/Tests/Search.antt =====
-- The theorems on the search for peers, their lists and their connections.
use peer_connect.Prelude.{
  ℕ, ◌+◌, Bool, true, false, Option, none, some, List, [], ◌∷◌, ◌++◌, ◌==◌, ◌≡◌, ◌≢◌, refl, inl,
  arith, length, get, member,
}
use peer_connect.Otm.Tree.{Sock}
use peer_connect.Avails.Bytes.{Bytes}
use peer_connect.Avails.Wire.{frame}
use peer_connect.Avails.Peers.{RemotePeer, peer_id}
use peer_connect.Core.Lists.{node_list_ids}
use peer_connect.Core.Dispatch.{WireData}
use peer_connect.Core.Kademlia.{returned, get_remote_peer, get_remote_peer_at_every_cost}
use peer_connect.Core.Kademlia.Rpc.{
  Receiver, Arrival, answer, answer_all, find_list_of_peers, store_peers, value_list,
}
use peer_connect.Core.Kademlia.Search.{get_remote_peer_lem}
use peer_connect.Core.Kademlia.Stores.{IsKept, answer_all-IsKept, find_list_of_peers_lem}
use peer_connect.Core.Search.{World, Gossip, Event, searched, replied, handle_all}
use peer_connect.Core.Search.Routing.{replies_to, search_for_lem}
use peer_connect.Core.Acceptor.{handler, running, broken}
use peer_connect.Core.Acceptor.Messages.{
  Item, rounds_of, stream_of, messages_of, IsWhole, handler_lem,
}
use peer_connect.Core.Connector.{Peer, Connector, socket, get_connection}
use peer_connect.Core.Connector.Keys.{both_keys, get_connection_lem}
use peer_connect.Transfers.Rumor.{Chance}

abbrev found_peer : RemotePeer
found_peer = record {
  byte_id = 0 ∷ 0 ∷ 0 ∷ 0 ∷ 0 ∷ 0 ∷ 0 ∷ 0 ∷ 0 ∷ 0 ∷ 0 ∷ 0 ∷ 0 ∷ 0 ∷ 1 ∷ 2 ∷ [];
  username = 97 ∷ 98 ∷ [];
  ip = 1;
  conn_port = 40000;
  req_port = 40001;
  status = 1;
}

abbrev crawl : Bytes → List RemotePeer
crawl byte_id = found_peer ∷ []

get_remote_peer_lem_example :
    ((q : RemotePeer) × (get_remote_peer crawl (peer_id found_peer) ≡ returned (some q))
      × (q.byte_id ≡ found_peer.byte_id))
    × (get_remote_peer_at_every_cost crawl 258 [] ≡ returned (get 258 []))
get_remote_peer_lem_example =
    get_remote_peer_lem crawl found_peer 258 [] (ground arith) refl (inl refl)

abbrev neighbors : ℕ → List ℕ
neighbors key = 1 ∷ 2 ∷ []

abbrev receiver : Receiver
receiver = record { lists = []; values = []; welcomed = []; sent = [] }

receiver-IsKept : IsKept receiver
receiver-IsKept = record { official = tt; once = tt; to_welcomed = tt }

-- the table does not know the sender before
abbrev stores_itself : Arrival
stores_itself = record {
  is_new = true;
  sender = 6;
  rpc = store_peers 0 (6 ∷ []);
  before = neighbors;
  after = λ key. 6 ∷ neighbors key;
}

abbrev looks_up : Arrival
looks_up = record {
  is_new = true;
  sender = 8;
  rpc = find_list_of_peers 0;
  before = λ key. 6 ∷ neighbors key;
  after = λ key. 8 ∷ 6 ∷ neighbors key;
}

answer_all-IsKept_example : IsKept (answer_all 3 (stores_itself ∷ looks_up ∷ []) receiver)
answer_all-IsKept_example =
    answer_all-IsKept 3 (stores_itself ∷ looks_up ∷ []) receiver receiver-IsKept

first_id : member 0 node_list_ids ≡ true
first_id = refl

find_list_of_peers_lem_example :
    (vs : List ℕ) × ((answer 3 neighbors neighbors false 9
        (find_list_of_peers 0)
        (answer_all 3 (stores_itself ∷ looks_up ∷ []) receiver)).0
      ≡ value_list vs)
    × (member 6 vs ≡ true)
find_list_of_peers_lem_example =
    find_list_of_peers_lem 3 neighbors neighbors 0 6 9 false (6 ∷ []) stores_itself (looks_up ∷ [])
      receiver refl first_id refl

-- a payload of one byte is a peer
abbrev load_peer : Bytes → Option RemotePeer
load_peer (b ∷ []) = some (record found_peer { username = b ∷ [] })
load_peer _ = none

abbrev chance : Chance
chance = record { clock = 12; time = 12; drawn = 0; scale = 100; randint = λ i. i }

abbrev world : World
world = record {
  monger = record { message_list = []; dropped = []; sent = [] };
  message_state = [];
  replies = [];
}

abbrev gossip_of : ℕ → Bytes → Gossip
gossip_of m payload = record {
  meta = record { message_id = m; created_at = 11; body = [] };
  payload = payload;
  from_addr = 3;
}

-- a reply to the search, one to another search, an empty one, and one that is no peer
abbrev events : List Event
events =
    replied (1 ∷ []) chance (gossip_of 4 (97 ∷ []))
    ∷ searched (1 ∷ 2 ∷ []) chance 5
    ∷ replied (1 ∷ []) chance (gossip_of 5 (98 ∷ []))
    ∷ replied (2 ∷ []) chance (gossip_of 4 [])
    ∷ replied (3 ∷ []) chance (gossip_of 4 (97 ∷ 98 ∷ []))
    ∷ []

search_for_lem_example :
    get 4
      (handle_all load_peer found_peer (searched (1 ∷ []) chance 4 ∷ events) world).message_state
    ≡ some (replies_to load_peer found_peer 4 events)
search_for_lem_example =
    search_for_lem load_peer found_peer 4 (1 ∷ []) chance events world (ground arith)

abbrev load_header : Bytes → Option WireData
load_header (h ∷ bs) = some (record { header = h; msg_id = 0 })
load_header [] = none

abbrev in_time : WireData → Bool
in_time d = true

abbrev two_bytes : Item
two_bytes = record {
  raw = 7 ∷ 8 ∷ [];
  framed = 0 ∷ 0 ∷ 0 ∷ 2 ∷ 7 ∷ 8 ∷ [];
  loaded = record { header = 7; msg_id = 0 };
  round = record { finalizer = true; size_arrived = 4; data_arrived = 2 };
}

two-IsWhole : IsWhole load_header in_time two_bytes
unfolding frame
two-IsWhole = (refl, omega arith, refl, refl, refl, omega arith, omega arith)

-- the header of a closing message
abbrev closes : WireData → Bool
closes d = d.header == 9

abbrev close_message : Item
close_message = record {
  raw = 9 ∷ [];
  framed = 0 ∷ 0 ∷ 0 ∷ 1 ∷ 9 ∷ [];
  loaded = record { header = 9; msg_id = 0 };
  round = record { finalizer = true; size_arrived = 4; data_arrived = 1 };
}

close-IsWhole : IsWhole load_header in_time close_message
unfolding frame
close-IsWhole = (refl, omega arith, refl, refl, refl, omega arith, omega arith)

handler_lem_example :
    (handler load_header in_time closes
        (rounds_of (two_bytes ∷ two_bytes ∷ []))
        (stream_of (two_bytes ∷ two_bytes ∷ []) ++ two_bytes.framed)
      ≡ (messages_of (two_bytes ∷ two_bytes ∷ []), running))
    × (handler load_header in_time closes
          (rounds_of (two_bytes ∷ two_bytes ∷ []) ++ close_message.round ∷ two_bytes.round ∷ [])
          (stream_of (two_bytes ∷ two_bytes ∷ []) ++ (close_message.framed ++ two_bytes.framed))
        ≡ (messages_of (two_bytes ∷ two_bytes ∷ []) ++ close_message.loaded ∷ [], broken))
handler_lem_example =
    handler_lem load_header in_time closes (two_bytes ∷ two_bytes ∷ []) close_message
      two_bytes.round [] two_bytes.framed (two-IsWhole, (two-IsWhole, tt)) (refl, (refl, tt))
      close-IsWhole refl refl

abbrev to_peer : Peer
to_peer = record { peer_id = 258; byte_id = 1000 }

abbrev connector : Connector
connector = record {
  connected_peers = record { socket_cache = (1, 51) ∷ []; max_limit = 4 };
  current_connected = none;
  verified = [];
}

abbrev alive : Sock → Bool
alive s = true

apart_keys : to_peer.byte_id ≢ to_peer.peer_id
apart_keys = λ e. omega (arith, e)

get_connection_lem_example :
    (get_connection alive (some 61) true to_peer connector
      ≡ (socket 61, both_keys alive to_peer 61 connector apart_keys (omega arith) refl refl))
    × (length
          (both_keys alive to_peer 61 connector apart_keys
            (omega arith)
            refl
            refl).connected_peers.socket_cache
        ≡ 1 + 2)
    × (get_connection alive none false to_peer
          (both_keys alive to_peer 61 connector apart_keys (omega arith) refl refl)
        ≡ (socket 61, both_keys alive to_peer 61 connector apart_keys (omega arith) refl refl))
get_connection_lem_example =
    get_connection_lem alive to_peer 61 connector apart_keys (omega arith) refl refl none false refl
