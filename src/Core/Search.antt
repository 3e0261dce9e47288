-- ===== src/Core/Search.antt =====
-- The gossip search: `GossipSearch` (src/core/peers.py) and the handlers of gossip messages
-- (src/core/gossip.py). A message comes with its text or payload, and a serialized peer is a payload
-- that `load_peer` loads. The iterator of a search is the queue of its replies.
pub mod Routing
use peer_connect.Prelude.{
  ℕ, ◌+◌, ◌-◌, Bool, Option, none, some, List, [], ◌∷◌, ◌++◌, ltb, if◌then◌else◌, Dict, get, has,
  put,
}
use peer_connect.Otm.Tree.{PeerId, Address}
use peer_connect.Avails.Bytes.{Bytes}
use peer_connect.Avails.Peers.{Text, RemotePeer, is_relevant}
use peer_connect.Transfers.Rumor.{
  created, message, GossipMessage, Monger, Chance, message_arrived, gossip_message,
}

-- A reply of a search as it is queued: None or an empty payload stays as it is.
pub data Found : Type 0 where
  nothing : Found
  peer : RemotePeer → Found

pub record World : Type 0 where
  pub monger : Monger
  pub message_state : Dict (List Found)
  pub replies : List (ℕ × Address)

pub record Gossip : Type 0 where
  pub meta : GossipMessage
  pub payload : Bytes
  pub from_addr : Address

-- `_prepare_search_message`: the keys that its body gets
unfoldable pub prepare_search_message : ℕ → ℕ → GossipMessage
prepare_search_message unique now = record {
  message_id = unique;
  created_at = now;
  body = message ∷ created ∷ [];
}

-- `_prepare_reply`
unfoldable pub prepare_reply : ℕ → ℕ → GossipMessage
prepare_reply reply_id now = record {
  message_id = reply_id;
  created_at = now;
  body = message ∷ created ∷ [];
}

-- `search_for`: the message is spread, and its iterator waits for replies
unfoldable pub search_for : List PeerId → Chance → ℕ → World → World
search_for peers c unique w = record w {
  monger = gossip_message c.randint peers c.clock (prepare_search_message unique c.time) w.monger;
  message_state = put unique [] w.message_state;
}

-- `request_arrived`: whether this peer replies
unfoldable pub request_arrived : RemotePeer → Text → Bool
unfolding is_relevant
request_arrived me search_string = is_relevant search_string me

unfoldable pub is_seen : GossipMessage → Monger → Bool
is_seen m g = has m.message_id g.message_list

-- `GlobalGossipMessageHandler`
unfoldable pub handle_message : List PeerId → Chance → Gossip → World → World
handle_message peers c e w = record w { monger = message_arrived peers c e.meta w.monger }

-- `GossipSearchReqHandler`
unfoldable pub handle_search_request : RemotePeer → List PeerId → Chance → Gossip → World → World
handle_search_request me peers c e w =
    let w' = if is_seen e.meta w.monger then w else handle_message peers c e w in
    if request_arrived me e.payload
    then record w' { replies = w'.replies ++ (e.meta.message_id, e.from_addr) ∷ [] }
    else w'

abbrev pub peer_of : Option RemotePeer → Option Found
peer_of none = none
peer_of (some p) = some (peer p)

-- what is queued of a payload; `none` is the error of one that is no serialized peer
abbrev pub found_of : (Bytes → Option RemotePeer) → Bytes → Option Found
found_of load_peer [] = some nothing
found_of load_peer (b ∷ bs) = peer_of (load_peer (b ∷ bs))

-- the iterator of the id, if there is one; a KeyError is caught
abbrev pub add_found : ℕ → Found → Option (List Found) → Dict (List Found) → Dict (List Found)
add_found k f none d = d
add_found k f (some queue) d = put k (queue ++ f ∷ []) d

-- an error of the payload leaves the handler when the message has been spread
abbrev pub add_loaded :
    ℕ → Option Found → Option (List Found) → Dict (List Found) → Dict (List Found)
add_loaded k none queue d = d
add_loaded k (some f) queue d = add_found k f queue d

-- `GossipSearchReplyHandler` with `reply_arrived`
unfoldable pub reply_arrived :
    (Bytes → Option RemotePeer) → List PeerId → Chance → Gossip → World → World
reply_arrived load_peer peers c e w = record w {
  monger = message_arrived peers c e.meta w.monger;
  message_state =
      add_loaded e.meta.message_id (found_of load_peer e.payload)
        (get e.meta.message_id w.message_state) w.message_state;
}

-- what a call of `__anext__` waits for on an empty queue: a reply after so long, or none at all
unfoldable pub anext : ℕ → ℕ → ℕ → Option (ℕ × Found) → List Found → Option Found × List Found
anext timeout start_time now arrives queue =
    if ltb timeout (now - start_time) then (none, queue) else elim queue [
      | f ∷ fs ↦ (some f, fs)
      | [] ↦ elim arrives [
        | none ↦ (none, [])
        | some (delay, f) ↦
            if ltb delay (timeout - (now - start_time)) then (some f, []) else (none, [])
      ]
    ]

pub data Event : Type 0 where
  searched : List PeerId → Chance → ℕ → Event
  messaged requested replied : List PeerId → Chance → Gossip → Event

unfoldable pub handle : (Bytes → Option RemotePeer) → RemotePeer → Event → World → World
handle load_peer me (searched peers c unique) w = search_for peers c unique w
handle load_peer me (messaged peers c e) w = handle_message peers c e w
handle load_peer me (requested peers c e) w = handle_search_request me peers c e w
handle load_peer me (replied peers c e) w = reply_arrived load_peer peers c e w

unfoldable pub handle_all : (Bytes → Option RemotePeer) → RemotePeer → List Event → World → World
unfolding handle
handle_all load_peer me [] w = w
handle_all load_peer me (e ∷ es) w = handle_all load_peer me es (handle load_peer me e w)
