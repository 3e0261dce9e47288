-- ===== src/Core/Kademlia.antt =====
-- The peers of the network: `PeerServer` and `KadProtocol` (src/core/_kademlia.py), and the search for a
-- peer (src/core/peers.py). The crawl over the network, the routing table and the call of a peer are the
-- kademlia package's; their results are arguments here. An id is a number below 2 ^ 160 and stands for
-- its bytes; a serialized peer is a number, too, and `load_peer` loads it.
pub mod Crawl
pub mod Rpc
pub mod Search
pub mod Stores
use Prim.Native.Nat.{bit_xor}
use peer_connect.Prelude.{
  ℕ, zero, suc, ◌+◌, Bool, true, false, ◌||◌, Option, none, some, List, [], ◌∷◌, ◌++◌, ltb, max,
  if◌then◌else◌, map,
}
use peer_connect.Avails.Bytes.{Bytes}
use peer_connect.Avails.Peers.{RemotePeer, PeerDict, get_peer, convert_peer_id_to_byte_id, text_eq}
use peer_connect.Core.Lists.{Storage, store_peers_in_list}

-- the loop of `PeerServer.get_remote_peer` over the peers that the crawl found
unfoldable pub find_by_id : Bytes → List RemotePeer → Option RemotePeer
find_by_id byte_id [] = none
find_by_id byte_id (p ∷ ps) =
    let rest = find_by_id byte_id ps in if text_eq p.byte_id byte_id then some p else rest

-- how a search for a peer ends; `failed` is an OverflowError
pub data Lookup : Type 0 where
  returned : Option RemotePeer → Lookup
  key_error failed : Lookup

abbrev pub search_by : (Bytes → List RemotePeer) → Option Bytes → Lookup
unfolding find_by_id
search_by crawl none = failed
search_by crawl (some byte_id) = returned (find_by_id byte_id (crawl byte_id))

-- `peers.get_remote_peer`
unfoldable pub get_remote_peer : (Bytes → List RemotePeer) → ℕ → Lookup
unfolding convert_peer_id_to_byte_id search_by
get_remote_peer crawl peer_id = search_by crawl (convert_peer_id_to_byte_id peer_id)

-- what `try: return get_peer(peer_id)` gives to the handler of a KeyError
abbrev pub on_key_error : Lookup → Lookup → Lookup
on_key_error key_error searched = searched
on_key_error (returned o) searched = returned o
on_key_error failed searched = failed

unfoldable pub get_remote_peer_at_every_cost : (Bytes → List RemotePeer) → ℕ → PeerDict → Lookup
unfolding get_peer get_remote_peer
get_remote_peer_at_every_cost crawl peer_id peer_list =
    on_key_error (returned (get_peer peer_id peer_list)) (get_remote_peer crawl peer_id)

-- `is_bootstrapped`, by the nodes of the buckets
abbrev any_node : List ℕ → Bool
any_node [] = false
any_node (n ∷ ns) = true

unfoldable pub is_bootstrapped : List (List ℕ) → Bool
is_bootstrapped [] = false
is_bootstrapped (bucket ∷ buckets) = any_node bucket || is_bootstrapped buckets

-- `max` of the distances to a key
unfoldable pub biggest_of : ℕ → List ℕ → ℕ
biggest_of key [] = 0
biggest_of key (n ∷ ns) = max (bit_xor n key) (biggest_of key ns)

unfoldable pub any_stored : List Bool → Bool
any_stored [] = false
any_stored (b ∷ bs) = b || any_stored bs

-- `store_nodes_in_list`, by the neighbours of the key, the peers that the crawl found, and what the
-- call of a peer returns; the peers that are called come with the result
pub record Stored : Type 0 where
  pub done : Bool
  pub storage : Storage
  pub asked : List ℕ

unfoldable pub store_nodes_in_list :
    ℕ → (ℕ → Bool) → ℕ → List ℕ → List ℕ → List ℕ → Storage → Stored
unfolding store_peers_in_list biggest_of any_stored
store_nodes_in_list own call list_key peer_objs [] relevant s = record {
  done = false;
  storage = s;
  asked = [];
}
store_nodes_in_list own call list_key peer_objs (n ∷ ns) [] s = record {
  done = false;
  storage = s;
  asked = [];
}
store_nodes_in_list own call list_key peer_objs (n ∷ ns) (m ∷ ms) s = record {
  done = any_stored (map call (m ∷ ms));
  storage =
      if ltb (bit_xor own list_key) (biggest_of list_key (m ∷ ms))
      then (store_peers_in_list list_key peer_objs s).1
      else s;
  asked = m ∷ ms;
}

-- What a round of `add_this_peer_to_lists` meets: whether the server is stopping, and what
-- `store_nodes_in_list` returns.
pub record Round : Type 0 where
  pub stopping : Bool
  pub stores : Bool

-- the active loop, by the timeouts left: how often it stores
unfoldable pub add_active : ℕ → List Round → ℕ
add_active zero rs = 0
add_active (suc n) [] = 0
add_active (suc n) (r ∷ rs) =
    let later = add_active n rs in if r.stopping then 0 else if r.stores then 1 else suc later

-- the passive loop, which goes on until the server stops
unfoldable pub add_passive : List Round → ℕ
add_passive [] = 0
add_passive (r ∷ rs) = let later = add_passive rs in if r.stopping then 0 else suc later

-- const.MAX_RETIRES, the number of the timeouts
abbrev pub max_retires : ℕ
max_retires = 7

-- `add_this_peer_to_lists`: the task that has entered it, and how often this call stores; a call that
-- is not the first one returns
unfoldable pub add_this_peer_to_lists : Option ℕ → ℕ → List Round → List Round → Option ℕ × ℕ
unfolding add_active add_passive
add_this_peer_to_lists (some task) current active passive = (some task, 0)
add_this_peer_to_lists none current active passive =
    (some current, add_active max_retires active + add_passive passive)

-- `get_list_of_nodes`: no neighbours, no values found, or all that the values list
abbrev pub flatten : List (List ℕ) → List ℕ
flatten [] = []
flatten (l ∷ ls) = l ++ flatten ls

unfoldable pub get_list_of_nodes :
    (ℕ → RemotePeer) → List ℕ → Option (List (List ℕ)) → Option (List RemotePeer)
get_list_of_nodes load_peer [] results = none
get_list_of_nodes load_peer (n ∷ ns) none = none
get_list_of_nodes load_peer (n ∷ ns) (some results) = some (map load_peer (flatten results))
