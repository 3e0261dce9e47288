-- ===== src/Core/Acceptor.antt =====
-- Accepted connections (src/core/acceptor.py): the handshake, and the messages of a basic connection.
-- `load_from` stands for `WireData.load_from`, where `none` is an InvalidPacket.
pub mod Messages
use peer_connect.Prelude.{
  ℕ, min, Bool, true, false, Option, none, some, List, [], ◌∷◌, ◌++◌, ◌==◌, if◌then◌else◌, take,
  drop,
}
use peer_connect.Otm.Tree.{Sock}
use peer_connect.Avails.Bytes.{Bytes, unpack_be}
use peer_connect.Avails.Peers.{RemotePeer, PeerDict}
use peer_connect.Core.Dispatch.{WireData}
use peer_connect.Core.Kademlia.{Lookup, returned, key_error, failed, get_remote_peer_at_every_cost}

-- what the read of the handshake gives
pub data Raw : Type 0 where
  bytes : Bytes → Raw
  timed_out os_error : Raw

-- the handshake, and whether the connection was closed
abbrev pub loaded : Option WireData → Option WireData × Bool
loaded none = (none, true)
loaded (some d) = (some d, false)

unfoldable pub perform_handshake : (Bytes → Option WireData) → Raw → Option WireData × Bool
perform_handshake load_from timed_out = (none, true)
perform_handshake load_from os_error = (none, true)
perform_handshake load_from (bytes []) = (none, false)
perform_handshake load_from (bytes (b ∷ bs)) = loaded (load_from (b ∷ bs))

pub record ConnectionEvent : Type 0 where
  pub connection : Sock
  pub peer : Option RemotePeer
  pub handshake : WireData

-- The sockets that the exit stack closes, those that are closed already, and the events that went to
-- the dispatcher.
pub record Acceptor : Type 0 where
  pub exit_stack : List Sock
  pub closed : List Sock
  pub events : List ConnectionEvent

abbrev pub accept_from : Sock → WireData → Lookup → Acceptor → Acceptor
accept_from conn d (returned peer) a = record a {
  exit_stack = a.exit_stack ++ conn ∷ [];
  events = a.events ++ record { connection = conn; peer = peer; handshake = d } ∷ [];
}
accept_from conn d key_error a = a
accept_from conn d failed a = a

-- `__accept_connection`; the peer id of a handshake is that of its sender
abbrev pub accept_by :
    (Bytes → List RemotePeer)
    → (WireData → ℕ)
    → PeerDict
    → Sock
    → Option WireData × Bool
    → Acceptor
    → Acceptor
accept_by crawl peer_id_of peer_list conn (none, true) a = record a {
  closed = a.closed ++ conn ∷ [];
}
accept_by crawl peer_id_of peer_list conn (none, false) a = a
accept_by crawl peer_id_of peer_list conn (some d, b) a =
    accept_from conn d (get_remote_peer_at_every_cost crawl (peer_id_of d) peer_list) a

unfoldable pub accept_connection :
    (Bytes → Option WireData)
    → (Bytes → List RemotePeer)
    → (WireData → ℕ)
    → PeerDict
    → Sock
    → Raw
    → Acceptor
    → Acceptor
unfolding perform_handshake
accept_connection load_from crawl peer_id_of peer_list conn raw a =
    accept_by crawl peer_id_of peer_list conn (perform_handshake load_from raw) a

-- One round of `process_once`: an error that leaves it, nothing to process, or a message that the
-- dispatcher has processed in time, each with what is left of the stream.
pub data Once : Type 0 where
  raised : Once
  skipped : Bytes → Once
  processed : WireData → Bytes → Once

abbrev pub dispatched : (WireData → Bool) → Option WireData → Bytes → Once
dispatched in_time none rest = raised
dispatched in_time (some d) rest = if in_time d then processed d rest else raised

abbrev pub process_sized :
    (Bytes → Option WireData) → (WireData → Bool) → ℕ → Option ℕ → Bytes → Once
process_sized load_from in_time l none stream = raised
process_sized load_from in_time l (some n) stream =
    if n == 0
    then skipped stream
    else dispatched in_time (load_from (take (min l n) stream)) (drop (min l n) stream)

-- the two reads take at most `k` and `l` bytes, which is what has arrived
unfoldable pub process_once : (Bytes → Option WireData) → (WireData → Bool) → ℕ → ℕ → Bytes → Once
unfolding unpack_be
process_once load_from in_time k l stream =
    process_sized load_from in_time l (unpack_be 4 (take (min k 4) stream)) (drop (min k 4) stream)

-- a round of the handler's loop: the flag, and what has arrived at the two reads
pub record Round : Type 0 where
  pub finalizer : Bool
  pub size_arrived : ℕ
  pub data_arrived : ℕ

-- how the handler ends; the `with` closes the connection in each case but the first
pub data Ending : Type 0 where
  running stopped broken : Ending

abbrev pub more : WireData → List WireData × Ending → List WireData × Ending
more d (ds, end) = (d ∷ ds, end)

-- the rounds on a socket that is closed: its read raises
abbrev pub when_closed : List Round → List WireData × Ending
when_closed [] = ([], running)
when_closed (r ∷ rs) = if r.finalizer then ([], broken) else ([], stopped)

-- `while finalizer(): await process_once(event)`, by the rounds; `closes` says for which messages the
-- dispatcher's handler is `ConnectionCloseHandler`, which closes the socket
unfoldable pub handler :
    (Bytes → Option WireData)
    → (WireData → Bool)
    → (WireData → Bool)
    → List Round
    → Bytes
    → List WireData × Ending
unfolding process_once
handler load_from in_time closes [] stream = ([], running)
handler load_from in_time closes (r ∷ rs) stream = elim r.finalizer [
  | false ↦ ([], stopped)
  | true ↦ elim (process_once load_from in_time r.size_arrived r.data_arrived stream) [
    | raised ↦ ([], broken)
    | skipped rest ↦ handler load_from in_time closes rs rest
    | processed d rest ↦ elim (closes d) [
      | true ↦ more d (when_closed rs)
      | false ↦ more d (handler load_from in_time closes rs rest)
    ]
  ]
]

-- `ConnectionCloseHandler`
unfoldable pub close_connection : Sock → Acceptor → Acceptor
close_connection conn a = record a { closed = a.closed ++ conn ∷ [] }
