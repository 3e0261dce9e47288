-- ===== src/Core/Lists.antt =====
-- The lists of peers that the peers of the network keep: `Storage` and `PeerListGetter`
-- (src/core/peers.py), and the choice of a list by `PeerServer` (src/core/_kademlia.py). An id of a
-- list or of a peer is a number below 2 ^ 160, and the serialized peers stand as numbers.
pub mod Closest
use Prim.Native.Nat.{bit_xor}
use peer_connect.Prelude.{
  ℕ, zero, suc, ◌+◌, ◌-◌, ◌*◌, ◌/◌, ◌^◌, Bool, true, false, ◌&&◌, Option, none, some, List, [], ◌∷◌,
  ltb, leb, if◌then◌else◌, Dict, get, put, member, union,
}

-- `node_list_ids`: the multiples of a twentieth of the id space
abbrev pub multiples : ℕ → ℕ → ℕ → List ℕ
multiples zero i step = []
multiples (suc k) i step = (i * step) ∷ multiples k (i + 1) step

abbrev pub node_list_ids : List ℕ
node_list_ids = multiples 20 0 (2 ^ 160 / 20)

-- `peer_data_storage`, a `defaultdict(set)`
abbrev pub Storage : Type 0
Storage = Dict (List ℕ)

unfoldable pub get_list_of_peers : ℕ → Storage → Option (List ℕ)
get_list_of_peers list_key s = get list_key s

abbrev pub or_no_peers : Option (List ℕ) → List ℕ
or_no_peers none = []
or_no_peers (some peers) = peers

unfoldable pub store_peers_in_list : ℕ → List ℕ → Storage → Bool × Storage
store_peers_in_list list_key list_of_peers s =
    if member list_key node_list_ids
    then (true, put list_key (union (or_no_peers (get list_key s)) (union [] list_of_peers)) s)
    else (false, s)

-- the loop of `_get_closest_list_id`
unfoldable pub closest_from : ℕ → ℕ → ℕ → List ℕ → ℕ
closest_from long_id nearest prev [] = nearest
closest_from long_id nearest prev (i ∷ ids) =
    let current = bit_xor long_id i in
    let closer = closest_from long_id i current ids in
    let same = closest_from long_id nearest prev ids in if ltb current prev then closer else same

unfoldable pub get_closest_list_id : ℕ → List ℕ → ℕ
unfolding closest_from
get_closest_list_id long_id ids = closest_from long_id 0 (2 ^ 160) ids

-- `_send_peer_lists` for one list: whether its peers go to a new peer, by the distances of the
-- neighbours, nearest first, of the new peer and of this peer
abbrev last_of : ℕ → List ℕ → ℕ
last_of d [] = d
last_of d (e ∷ ds) = last_of e ds

unfoldable pub sends_list : List ℕ → ℕ → ℕ → Bool
sends_list [] new_distance this_distance = true
sends_list (first ∷ ds) new_distance this_distance =
    ltb new_distance (last_of first ds) && ltb this_distance first

-- `get_more_peers`: which list a call fetches, by the number of lists, and the new index
unfoldable pub more_peers : ℕ → ℕ → ℕ × ℕ
more_peers count previously_fetched_index =
    let i = if leb (count - 1) previously_fetched_index then 0 else previously_fetched_index in
    (i, i + 1)

-- the lists that so many calls fetch
unfoldable pub fetched : ℕ → ℕ → ℕ → List ℕ
unfolding more_peers
fetched zero count index = []
fetched (suc calls) count index =
    let (i, next) = more_peers count index in i ∷ fetched calls count next
