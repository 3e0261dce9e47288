-- ===== src/Core/Kademlia/Rpc.antt =====
-- The receiver of RPCs: `KadProtocol` with `RPCReceiver` (src/core/_kademlia.py).
use peer_connect.Prelude.{
  ℕ, Bool, true, Option, none, some, List, [], ◌∷◌, ◌++◌, if◌then◌else◌, Dict, get, put,
}
use Prim.Native.Nat.{bit_xor}
use peer_connect.Core.Lists.{Storage, store_peers_in_list, get_list_of_peers, sends_list}

-- What the receiver of an RPC keeps: the storage of the lists and that of single values, the peers in
-- the order in which they were welcomed as new, and the lists that were sent to them, peer by peer.
pub record Receiver : Type 0 where
  pub lists : Storage
  pub values : Dict ℕ
  pub welcomed : List ℕ
  pub sent : List (ℕ × ℕ × ℕ)

abbrev pub send_each : ℕ → ℕ → List ℕ → List (ℕ × ℕ × ℕ)
send_each new_peer list_key [] = []
send_each new_peer list_key (i ∷ is) = (new_peer, list_key, i) ∷ send_each new_peer list_key is

abbrev pub distances : ℕ → List ℕ → List ℕ
distances key [] = []
distances key (n ∷ ns) = bit_xor n key ∷ distances key ns

-- `_send_peer_lists`, by the neighbours of each list, nearest first
unfoldable pub send_peer_lists : ℕ → (ℕ → List ℕ) → ℕ → Storage → List (ℕ × ℕ × ℕ)
unfolding sends_list
send_peer_lists own neighbors new_peer [] = []
send_peer_lists own neighbors new_peer ((list_key, peers) ∷ s) =
    (if sends_list (distances list_key (neighbors list_key)) (bit_xor new_peer list_key)
        (bit_xor own list_key)
      then send_each new_peer list_key peers
      else [])
    ++ send_peer_lists own neighbors new_peer s

-- `_check_in` with `welcome_if_new`, by whether the routing table takes the sender for a new node
unfoldable pub check_in : ℕ → (ℕ → List ℕ) → Bool → ℕ → Receiver → Receiver
unfolding send_peer_lists
check_in own neighbors is_new sender r =
    if is_new
    then record r {
      welcomed = r.welcomed ++ sender ∷ [];
      sent = r.sent ++ send_peer_lists own neighbors sender r.lists;
    }
    else r

pub data Reply : Type 0 where
  stored : Bool → Reply
  nodes value_list : List ℕ → Reply
  value : ℕ → Reply

pub data Rpc : Type 0 where
  store_value : ℕ → ℕ → Rpc
  find_node find_value find_list_of_peers : ℕ → Rpc
  store_peers : ℕ → List ℕ → Rpc

abbrev pub or_nodes : Option ℕ → List ℕ → Reply
or_nodes none ns = nodes ns
or_nodes (some v) ns = value v

abbrev pub or_nodes_list : Option (List ℕ) → List ℕ → Reply
or_nodes_list none ns = nodes ns
or_nodes_list (some v) ns = value_list v

unfoldable pub serve : (ℕ → List ℕ) → Rpc → Receiver → Reply × Receiver
unfolding get_list_of_peers store_peers_in_list
serve neighbors (store_value key v) r = (stored true, record r { values = put key v r.values })
serve neighbors (find_node key) r = (nodes (neighbors key), r)
serve neighbors (find_value key) r = (or_nodes (get key r.values) (neighbors key), r)
serve neighbors (find_list_of_peers key) r =
    (or_nodes_list (get_list_of_peers key r.lists) (neighbors key), r)
serve neighbors (store_peers key peers) r = (
  stored (store_peers_in_list key peers r.lists).0,
  record r { lists = (store_peers_in_list key peers r.lists).1 },
)

-- the handlers of `RPCReceiver`, by the neighbours that the table finds when it welcomes the sender and
-- when it has taken up the sender and answers
unfoldable pub answer :
    ℕ → (ℕ → List ℕ) → (ℕ → List ℕ) → Bool → ℕ → Rpc → Receiver → Reply × Receiver
unfolding check_in serve
answer own before after is_new sender rpc r = serve after rpc (check_in own before is_new sender r)

-- a call as it arrives: whether its sender is new, who sends it, what it asks for, and the neighbours
-- that the table finds before and after it takes up the sender
pub record Arrival : Type 0 where
  pub is_new : Bool
  pub sender : ℕ
  pub rpc : Rpc
  pub before : ℕ → List ℕ
  pub after : ℕ → List ℕ

unfoldable pub answer_all : ℕ → List Arrival → Receiver → Receiver
unfolding answer
answer_all own [] r = r
answer_all own (a ∷ calls) r =
    answer_all own calls (answer own a.before a.after a.is_new a.sender a.rpc r).1
