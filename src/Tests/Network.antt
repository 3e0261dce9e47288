-- ===== src/Tests/Network.antt =====
-- The theorems on connections, dispatchers and the search for peers, at a few messages.
use peer_connect.Prelude.{
  ℕ, zero, suc, ◌+◌, ◌≤◌, false, Option, none, some, [], ◌∷◌, ◌≡◌, refl, arith, length, get_elem?,
  All,
}
use peer_connect.Avails.Bytes.{Bytes}
use peer_connect.Avails.Peers.{RemotePeer, PeerDict}
use peer_connect.Avails.Connect.{connect_to_peer, default_max_value, endless_timeouts}
use peer_connect.Avails.Connect.Retries.{backoff, tries, connect_to_peer_lem, endless_timeouts_lem}
use peer_connect.Core.Connectivity.{
  World, check_for_recent, remove_peer, run_ready, happen_all, signs, wakes, replied, timed_out,
  connected, refused,
}
use peer_connect.Core.Connectivity.Recent.{asked, IsQuiet, remove_peer_lem}
use peer_connect.Core.Dispatch.{
  WireData, RequestEvent, Replies, pending, register_reply, Ending, key_error, Dispatcher, requests,
  discover, call_all, sendto, plain, kademlia, trigger_of, datagram_received, event_of,
}
use peer_connect.Core.Dispatch.Datagrams.{datagram_received_lem}
use peer_connect.Core.Dispatch.Groups.{served, call_all_lem}
use peer_connect.Core.Dispatch.Replying.{first_reply, arrive_all, register_reply_lem}

abbrev known_peer : RemotePeer
known_peer = record {
  byte_id = 0 ∷ 0 ∷ 0 ∷ 0 ∷ 0 ∷ 0 ∷ 0 ∷ 0 ∷ 0 ∷ 0 ∷ 0 ∷ 0 ∷ 0 ∷ 0 ∷ 1 ∷ 2 ∷ [];
  username = 97 ∷ 98 ∷ 99 ∷ [];
  ip = 1;
  conn_port = 40000;
  req_port = 40001;
  status = 1;
}

abbrev peer_list : PeerDict
peer_list = (258, known_peer) ∷ []

-- the first try fails
abbrev second_try : ℕ → ℕ → Option ℕ
second_try zero timeout = none
second_try (suc n) timeout = some 61

connect_to_peer_lem_example :
    (connect_to_peer second_try 2000 2 ≡ tries second_try 0 (backoff 2 0 2000 default_max_value))
    × (length (connect_to_peer second_try 2000 2).1 ≤ 2)
connect_to_peer_lem_example = connect_to_peer_lem second_try 2000 2

endless_timeouts_lem_example :
    All (λ t. t ≡ 5000) (endless_timeouts (4999 + 3) 1 2 5000)
    × (3 ≤ length (endless_timeouts (4999 + 3) 1 2 5000))
endless_timeouts_lem_example = endless_timeouts_lem 3 4999 1 5000 (omega arith) (omega arith)

abbrev idle_world : World
idle_world = record {
  now = 10;
  last_checked = [];
  checks = [];
  tasks = 0;
  submitted = [];
  ready = [];
  waiting = [];
  pings = [];
  offline = [];
}

idle-IsQuiet : IsQuiet 5 idle_world
unfolding check_for_recent
idle-IsQuiet = record { idle = refl; unused = refl; new = refl }

remove_peer_lem_example :
    (run_ready (run_ready (run_ready (remove_peer 5 idle_world))) ≡ asked 5 idle_world)
    × ((happen_all (signs 0 replied ∷ wakes 0 ∷ []) (asked 5 idle_world)).offline ≡ [])
    × ((happen_all
          (signs 0 timed_out ∷ signs 0 connected ∷ wakes 0 ∷ [])
          (asked 5 idle_world)).offline
        ≡ [])
    × ((happen_all
          (signs 0 timed_out ∷ signs 0 refused ∷ wakes 0 ∷ [])
          (asked 5 idle_world)).offline
        ≡ 5 ∷ [])
remove_peer_lem_example = remove_peer_lem 5 idle_world idle-IsQuiet

-- a message of a header and an id
abbrev load_pair : Bytes → Option WireData
load_pair (h ∷ i ∷ []) = some (record { header = h; msg_id = i })
load_pair _ = none

tagged : sendto (2 ∷ []) (7 ∷ 8 ∷ []) ≡ some (2 ∷ 0 ∷ 0 ∷ 0 ∷ 2 ∷ 7 ∷ 8 ∷ [])
unfolding sendto
tagged = refl

bare : sendto (trigger_of plain) (7 ∷ 8 ∷ []) ≡ some (0 ∷ 0 ∷ 0 ∷ 2 ∷ 7 ∷ 8 ∷ [])
unfolding sendto
bare = refl

datagram_received_lem_example :
    (datagram_received load_pair (2 ∷ 0 ∷ 0 ∷ 0 ∷ 2 ∷ 7 ∷ 8 ∷ []) 3
      ≡ event_of (2 ∷ []) 3 (load_pair (7 ∷ 8 ∷ [])))
    × (datagram_received load_pair (0 ∷ 0 ∷ 0 ∷ 2 ∷ 7 ∷ 8 ∷ []) 3
        ≡ event_of (trigger_of kademlia) 3 (load_pair (8 ∷ [])))
datagram_received_lem_example =
    datagram_received_lem load_pair 2 3 7 (8 ∷ []) (omega arith) tagged bare

abbrev request : RequestEvent
request = record { root_code = 1 ∷ []; request = record { header = 7; msg_id = 4 }; from_addr = 3 }

abbrev no_replies : Replies
no_replies = record { reply_registry = []; futures = [] }

abbrev of_requests : Dispatcher
of_requests = record {
  kind = requests;
  registry = (1, 21) ∷ [];
  replies = no_replies;
  aborting = false;
  called = [];
}

abbrev of_discovery : Dispatcher
of_discovery = record of_requests { kind = discover }

-- every handler fails
abbrev fail : ℕ → RequestEvent → Ending
fail h e = key_error

call_all_lem_example :
    ((call_all fail (request ∷ request ∷ []) of_requests).aborting ≡ false)
    × ((call_all fail (request ∷ request ∷ []) of_requests).called
        ≡ served ((1, 21) ∷ []) (request ∷ request ∷ []))
    × ((call_all fail (request ∷ request ∷ request ∷ []) of_discovery).called ≡ [])
call_all_lem_example =
    call_all_lem fail request (request ∷ request ∷ []) of_requests of_discovery refl refl (λ e. cc)
      refl

abbrev one_waits : Replies
one_waits = record { reply_registry = (9, 0) ∷ []; futures = pending ∷ [] }

abbrev reply_of : ℕ → ℕ → WireData
reply_of header msg_id = record { header = header; msg_id = msg_id }

register_reply_lem_example :
    get_elem?
      (arrive_all
        (reply_of 1 9 ∷ reply_of 2 4 ∷ reply_of 3 4 ∷ [])
        (register_reply 4 one_waits).1).futures
      (register_reply 4 one_waits).0
    ≡ some (first_reply 4 (reply_of 1 9 ∷ reply_of 2 4 ∷ reply_of 3 4 ∷ []))
register_reply_lem_example =
    register_reply_lem 4 (reply_of 1 9 ∷ reply_of 2 4 ∷ reply_of 3 4 ∷ []) one_waits (ground arith)
