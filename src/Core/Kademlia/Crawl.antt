-- ===== src/Core/Kademlia/Crawl.antt =====
-- The search for peers by name (src/core/peers.py, src/core/_kademlia.py) over the lists of the network,
-- and the answer of a peer that is asked. The peers that a crawl finds, and what they answer, are
-- arguments.
use peer_connect.Prelude.{
  ℕ, Bool, true, false, Option, none, some, List, [], ◌∷◌, ◌++◌, map, ◌≡◌, refl, filter, keys,
  values, IsDistinct,
}
use peer_connect.Avails.Peers.{Text, RemotePeer, PeerDict, is_relevant, search_each}
use peer_connect.Avails.Peers.Dicts.{search_each_lem}
use peer_connect.Core.Lists.{node_list_ids}
use peer_connect.Core.Kademlia.Rpc.{Receiver, check_in}

-- what a step of the search yields: a peer, or the list that another peer has answered
pub data Yielded : Type 0 where
  peer : RemotePeer → Yielded
  answered : List RemotePeer → Yielded

-- the second loop of `search_for_nodes`
unfoldable pub crawl_each : (ℕ → List ℕ) → (ℕ → List RemotePeer) → List ℕ → List Yielded
crawl_each responsible call [] = []
crawl_each responsible call (k ∷ ks) =
    map (λ p. answered (call p)) (responsible k) ++ crawl_each responsible call ks

-- `SearchCrawler.search_for_nodes`
unfoldable pub search_for_nodes :
    (ℕ → List ℕ) → (ℕ → List RemotePeer) → Text → List ℕ → (ℕ → PeerDict) → List Yielded
unfolding search_each crawl_each
search_for_nodes responsible call s ids at =
    map peer (search_each s ids at) ++ crawl_each responsible call node_list_ids

-- `_handle_found_values`: the values, and the call that stores them at the nearest peer without them
unfoldable pub handle_found_values : Option ℕ → ℕ → List ℕ → List ℕ × Option (ℕ × ℕ × List ℕ)
handle_found_values none list_key found = (found, none)
handle_found_values (some nearest) list_key found = (found, some (nearest, list_key, found))

-- `rpc_search_peers` and `rpc_ping`
unfoldable pub rpc_search_peers :
    ℕ → (ℕ → List ℕ) → Bool → ℕ → Text → PeerDict → Receiver → List RemotePeer × Receiver
unfolding check_in search_each
rpc_search_peers own neighbors is_new sender s peer_list r =
    (search_each s (keys peer_list) (λ n. peer_list), check_in own neighbors is_new sender r)

unfoldable pub rpc_ping : ℕ → (ℕ → List ℕ) → Bool → ℕ → ℕ → Receiver → ℕ × Receiver
unfolding check_in
rpc_ping own neighbors is_new sender serialized r =
    (serialized, check_in own neighbors is_new sender r)

-- A peer that is asked for a name answers with exactly the relevant peers of its dict, and keeps its
-- lists.
pub rpc_search_peers_lem :
    (own : ℕ) (neighbors : ℕ → List ℕ) (b : Bool) (sender : ℕ) (s : Text) (d : PeerDict)
    (r : Receiver)
    → IsDistinct (keys d)
    → ((rpc_search_peers own neighbors b sender s d r).0 ≡ filter (is_relevant s) (values d))
      × ((rpc_search_peers own neighbors b sender s d r).1.lists ≡ r.lists)
unfolding rpc_search_peers
rpc_search_peers_lem own neighbors false sender s d r u = ((search_each_lem s d (λ n. d) u).1, refl)
rpc_search_peers_lem own neighbors true sender s d r u = ((search_each_lem s d (λ n. d) u).1, refl)
