-- ===== src/Core/Discovery.antt =====
-- The discovery of the network (src/core/discover.py). A peer asks a multicast address for peers, and a
-- peer that is asked replies with the address that it takes requests at. An address is an ip and a
-- port. Whether the peer is bootstrapped changes by itself: `boot` tells it at each check.
pub mod Passive
use peer_connect.Prelude.{
  ℕ, zero, suc, ◌+◌, ◌-◌, ◌*◌, ◌/◌, ◌%◌, ◌^◌, ◌≤◌, ◌<◌, min, max, Bool, true, false, not, ◌&&◌,
  ◌||◌, Option, none, some, List, [], ◌∷◌, ◌++◌, map, ◌≡◌, ◌≢◌, refl, sym, ap, ◌∙◌, ◌⊎◌, inl, inr,
  ◌↔◌, arith, ltb, leb, ◌==◌, if◌then◌else◌, length, take, drop, get_elem?, set, filter, Dict, get,
  has, put, remove, keys, values, member, add, discard, union, diff, Option-cases, Bool-cases,
  IsDistinct, All, get-put, has-put, has_of_get, not-has_of_get, get_of_not-has, get_of_has,
  member-keys, get-remove, has-remove, member-filter, member-add, member-append, member-union,
  length-append, length-put, length-remove-le, length-remove-lt, put-IsDistinct, remove-IsDistinct,
  add-IsDistinct, filter-IsDistinct, append-IsDistinct, length-filter-le, length-take, length-drop,
  length-set, take-append-drop, take-append-length, drop-append-length, take_of_length-le,
  drop_of_length-le, drop-drop, drop-nil, put_absent, remove_absent, keys-put,
}

pub record Uri : Type 0 where
  pub ip : ℕ
  pub port : ℕ

-- the two packets, with the address that their bodies carry
pub data Packet : Type 0 where
  network_find : Uri → Packet
  network_find_reply : Uri → Packet

-- what the handlers do: packets that go to an address, and addresses to bootstrap from
pub data Deed : Type 0 where
  sends : Packet → Uri → Deed
  bootstraps : Uri → Deed

-- `DiscoveryReplyHandler`, by this peer's ip and the sender's address
unfoldable pub handle_reply : ℕ → Uri → Uri → List Deed
handle_reply this_ip from_addr connect_uri =
    if from_addr.ip == this_ip then [] else bootstraps connect_uri ∷ []

-- `DiscoveryRequestHandler`
unfoldable pub handle_request : ℕ → Uri → Uri → List Deed
handle_request this_ip req_uri reply_addr =
    if reply_addr.ip == this_ip then [] else sends (network_find_reply req_uri) reply_addr ∷ []

-- the handler that is registered for a packet
unfoldable pub handle_packet : Uri → Uri → Packet → List Deed
unfolding handle_reply handle_request
handle_packet this_uri from_addr (network_find reply_addr) =
    handle_request this_uri.ip this_uri reply_addr
handle_packet this_uri from_addr (network_find_reply connect_uri) =
    handle_reply this_uri.ip from_addr connect_uri

-- const.DISCOVER_RETRIES
abbrev pub discover_retries : ℕ
discover_retries = 2

-- the loop of `send_discovery_packet`: how many packets it sends, by the retries left
unfoldable pub send_packets : ℕ → (ℕ → Bool) → ℕ
send_packets zero boot = 0
send_packets (suc n) boot =
    let later = send_packets n (λ i. boot (suc i)) in if boot 0 then 1 else suc later

unfoldable pub send_discovery_packet : (ℕ → Bool) → ℕ
unfolding send_packets
send_discovery_packet boot = send_packets discover_retries boot

-- A round of the passive mode: whether the peer is in a network, whether the program stops, and what
-- the checks of the packets that are sent in it tell.
pub record Round : Type 0 where
  pub is_bootstrapped : Bool
  pub finalizing : Bool
  pub boot : ℕ → Bool

-- `enter_passive_mode`: how many packets it sends, and whether it has returned
unfoldable pub enter_passive_mode : List Round → ℕ × Bool
unfolding send_discovery_packet
enter_passive_mode [] = (0, false)
enter_passive_mode (r ∷ rs) =
    let (n, over) = enter_passive_mode rs in
    if r.is_bootstrapped
    then (n, over)
    else if r.finalizing
    then (0, true)
    else (send_discovery_packet r.boot + n, over)

-- `_try_asking_user`: the addresses that the packet goes to, and whether the page is told of a failure;
-- the look-up of a name gives some addresses and may then end by an OSError
unfoldable pub try_asking_user : Option (List Uri × Bool) → List Uri × Bool
try_asking_user none = ([], false)
try_asking_user (some (addrs, os_error)) = (addrs, os_error)

-- `send_discovery_requests`: the packets to the multicast address, those to the addresses of the name
-- that the user gave, and whether it has returned
unfoldable pub send_discovery_requests :
    (ℕ → Bool) → Bool → Option (List Uri × Bool) → List Round → ℕ × List Uri × Bool
unfolding send_discovery_packet enter_passive_mode try_asking_user
send_discovery_requests boot is_bootstrapped answer rounds = (
  send_discovery_packet boot + (enter_passive_mode rounds).0,
  (if is_bootstrapped then [] else (try_asking_user answer).0),
  (enter_passive_mode rounds).1,
)
