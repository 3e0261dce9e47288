-- ===== src/Core/Dispatch.antt =====
-- What becomes of a datagram: the transports that tag it (src/transfers/transports.py), the endpoint
-- and the dispatchers that it reaches (src/core/requests.py, discover.py, gossip.py, acceptor.py), and
-- their bases (src/avails/mixins.py, bases.py). A header, a handler, an address and a message are
-- numbers. `load_from` stands for `WireData.load_from`, where `none` is an InvalidPacket; `run` says how
-- a handler ends. A task group is that of asyncio: a task that raises makes it abort, and an aborting
-- group starts no task.
pub mod Datagrams
pub mod Groups
pub mod Replying
use peer_connect.Prelude.{
  ℕ, Bool, true, false, Option, none, some, List, [], ◌∷◌, ◌++◌, length, take, drop, Dict, get, has,
  put, remove, set, get_elem?, suc, if◌then◌else◌,
}
use peer_connect.Avails.Bytes.{Bytes, unpack_from}
use peer_connect.Avails.Wire.{frame, load_datagram}

-- `RequestsTransport.sendto`: the bytes that go out; `none` is the struct.error of a long message
abbrev with_trigger : Bytes → Option Bytes → Option Bytes
with_trigger trigger none = none
with_trigger trigger (some framed) = some (trigger ++ framed)

unfoldable pub sendto : Bytes → Bytes → Option Bytes
unfolding frame
sendto trigger data_bytes = with_trigger trigger (frame data_bytes)

-- the class attribute `_trigger` of the transports; `sendto` reads no other
pub data Transport : Type 0 where
  plain kademlia discovery gossip : Transport

abbrev pub trigger_of : Transport → Bytes
trigger_of plain = []
trigger_of kademlia = 0 ∷ []
trigger_of discovery = 1 ∷ []
trigger_of gossip = 2 ∷ []

pub record WireData : Type 0 where
  pub header : ℕ
  pub msg_id : ℕ

pub record RequestEvent : Type 0 where
  pub root_code : Bytes
  pub request : WireData
  pub from_addr : ℕ

abbrev pub loaded : (Bytes → Option WireData) → Option Bytes → Option WireData
loaded load_from none = none
loaded load_from (some payload) = load_from payload

-- `unpack_datagram`, where a struct.error becomes an InvalidPacket, too
unfoldable pub unpack_datagram : (Bytes → Option WireData) → Bytes → Option WireData
unfolding load_datagram
unpack_datagram load_from payload = loaded load_from (load_datagram payload)

abbrev pub event_of : Bytes → ℕ → Option WireData → Option RequestEvent
event_of code addr none = none
event_of code addr (some d) = some (record { root_code = code; request = d; from_addr = addr })

-- `RequestsEndPoint.datagram_received`: the event that is dispatched, if the packet is valid
unfoldable pub datagram_received : (Bytes → Option WireData) → Bytes → ℕ → Option RequestEvent
unfolding unpack_datagram
datagram_received load_from actual_data addr =
    event_of (take 1 actual_data) addr (unpack_datagram load_from (drop 1 actual_data))

-- `ReplyRegistryMixIn`: the futures of the replies that are waited for
pub data Future : Type 0 where
  pending cancelled : Future
  result : WireData → Future

pub record Replies : Type 0 where
  pub reply_registry : Dict ℕ
  pub futures : List Future

unfoldable pub register_reply : ℕ → Replies → ℕ × Replies
register_reply reply_id r = (
  length r.futures,
  record {
    reply_registry = put reply_id (length r.futures) r.reply_registry;
    futures = r.futures ++ pending ∷ [];
  },
)

unfoldable pub is_registered : WireData → Replies → Bool
is_registered d r = has d.msg_id r.reply_registry

abbrev pub resolve : WireData → Option Future → ℕ → List Future → List Future
resolve d (some pending) n fs = set fs n (result d)
resolve d _ n fs = fs

abbrev pub arrived : WireData → Option ℕ → Replies → Replies
arrived d none r = r
arrived d (some n) r = record {
  reply_registry = remove d.msg_id r.reply_registry;
  futures = resolve d (get_elem? r.futures n) n r.futures;
}

unfoldable pub msg_arrived : WireData → Replies → Replies
msg_arrived d r = arrived d (get d.msg_id r.reply_registry) r

-- `id_factory` counts on over all registries
unfoldable pub id_factory : ℕ → ℕ × ℕ
id_factory next = (next, suc next)

-- how a coroutine ends
pub data Ending : Type 0 where
  returned key_error runtime_error other_error : Ending

pub data Kind : Type 0 where
  requests discover stream connections gossiping : Kind

-- A dispatcher, with the calls of handlers that it has made; a key is a header or a root code.
pub record Dispatcher : Type 0 where
  pub kind : Kind
  pub registry : Dict ℕ
  pub replies : Replies
  pub aborting : Bool
  pub called : List (ℕ × RequestEvent)

unfoldable pub register_handler : ℕ → ℕ → Dispatcher → Dispatcher
register_handler event_trigger handler d = record d {
  registry = put event_trigger handler d.registry;
}

-- the key that a dispatcher looks up
abbrev pub key_of : Kind → RequestEvent → ℕ
key_of requests e = unpack_from 0 e.root_code
key_of _ e = e.request.header

-- a message that came may be a reply
abbrev pub note_reply : Kind → RequestEvent → Replies → Replies
note_reply requests e r = msg_arrived e.request r
note_reply discover e r = msg_arrived e.request r
note_reply _ e r = r

-- an unknown key: `RequestsDispatcher` returns, the others raise a KeyError
abbrev pub on_missing : Kind → Ending
on_missing requests = returned
on_missing _ = key_error

-- what `submit` makes of the end of the handler
abbrev pub guarded : Kind → Ending → Ending
guarded requests end = returned
guarded discover runtime_error = returned
guarded _ end = end

abbrev pub dispatch_to :
    (ℕ → RequestEvent → Ending) → Option ℕ → RequestEvent → Dispatcher → Ending × Dispatcher
dispatch_to run none e d = (on_missing d.kind, d)
dispatch_to run (some h) e d =
    (guarded d.kind (run h e), record d { called = d.called ++ (h, e) ∷ [] })

-- `submit` of the dispatchers
unfoldable pub submit :
    (ℕ → RequestEvent → Ending) → RequestEvent → Dispatcher → Ending × Dispatcher
unfolding msg_arrived
submit run e d =
    dispatch_to run (get (key_of d.kind e) d.registry) e
      (record d { replies = note_reply d.kind e d.replies })

abbrev pub fails : Ending → Bool
fails returned = false
fails _ = true

abbrev pub ended : Ending × Dispatcher → Dispatcher
ended (end, d) = if fails end then record d { aborting = true } else d

-- `QueueMixIn.__call__`, with the task that it starts run to its end; a refused task is a
-- RuntimeError of the caller
unfoldable pub call : (ℕ → RequestEvent → Ending) → RequestEvent → Dispatcher → Ending × Dispatcher
unfolding submit
call run e d = if d.aborting then (runtime_error, d) else (returned, ended (submit run e d))

unfoldable pub call_all : (ℕ → RequestEvent → Ending) → List RequestEvent → Dispatcher → Dispatcher
unfolding call
call_all run [] d = d
call_all run (e ∷ es) d = call_all run es (call run e d).1
