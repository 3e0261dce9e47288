-- ===== src/Otm/Relay.antt =====
-- The state of `PalmTreeRelay` (src/transfers/otm/palm_tree.py), and the parts that its handlers
-- share. Links are mutable objects that `all_links`, `active_links`, `passive_links`, the parent
-- future and `_read_link` share, so a relay holds references (link ids) into a heap of links.
-- A handler returns the new relay; what it sends, closes or requests is appended to `out`. A
-- coroutine is cut at its awaits, and what may happen at an await stands in `Relay/Steps`.
pub mod Setup
pub mod Links
pub mod TreeCheck
pub mod Streams
pub mod Steps
pub mod Frame
pub mod Parent
pub mod Window
pub mod Forward
pub mod Check
pub mod Linked
pub mod LinkedSteps
pub mod LinkedStreams
pub mod LinkedUpdate
pub mod Invariant
use peer_connect.Prelude.{
  ℕ, suc, ◌+◌, ◌-◌, min, Bool, true, false, not, ◌&&◌, Option, none, some, List, [], ◌∷◌, ◌++◌,
  ◌==◌, if◌then◌else◌, length, take, drop, filter, Dict, get, values,
}
use peer_connect.Prelude.Int.{ℤ, pos, negsuc}
use peer_connect.Otm.Tree.{TreeLink, Address, Sock, PeerId, is_online, is_outgoing}

-- IntEnum
pub data RelayState : Type 0 where
  initial session_init links_initialized tree_check_done : RelayState

abbrev pub value : RelayState → ℕ
value RelayState.initial = 1
value RelayState.session_init = 2
value RelayState.links_initialized = 3
value RelayState.tree_check_done = 4

-- An `asyncio.Future[TreeLink]`. The sender of a session sets it to `None`.
pub data Future : Type 0 where
  pending : Future
  cancelled : Future
  result : Option ℕ → Future

-- `done()` holds of a cancelled future too
abbrev pub done : Future → Bool
done pending = false
done _ = true

-- `cancel()` changes a pending future only
abbrev pub cancel : Future → Future
cancel pending = cancelled
cancel cancelled = cancelled
cancel (result link) = result link

-- `set_result(link)` raises an InvalidStateError if the future is done
abbrev pub set_result : Option ℕ → Future → Future
set_result link pending = result link
set_result link cancelled = cancelled
set_result link (result old) = result old

-- The messages that relays exchange, with the fields that a handler reads.
pub data Packet : Type 0 where
  upgrade_conn : PeerId → Packet
  tree_check : PeerId → Packet
  tree_reject : PeerId → Packet
  tree_gather : ℕ → Option PeerId → Address → Packet
  print_states : PeerId → Packet

-- What a handler does to the world. `datagram` names the endpoint that it is sent from.
pub data Output : Type 0 where
  datagram : Option Sock → Address → Packet → Output
  close : Sock → Output
  link_ok : Sock → Output
  connect : Address → Output
  close_transport : Sock → Output

pub record Session : Type 0 where
  pub session_id : ℕ
  pub fanout : ℕ

pub record Relay : Type 0 where
  pub this_peer : PeerId
  pub session : Session
  pub transport : Option Sock
  pub passive_endpoint_addr : Address
  pub active_endpoint_addr : Address
  pub links : ℕ → TreeLink
  pub next_id : ℕ
  pub all_links : Dict (ℕ × ℕ)
  pub window_index : ℤ
  pub parent_link_fut : Future
  pub read_link : Option ℕ
  pub expected_parent_peers : List PeerId
  pub active_links : Dict ℕ
  pub passive_links : Dict ℕ
  pub state : RelayState
  pub out : List Output

-- `__init__`; `blank` is what stands in the cells that hold no link yet
unfoldable pub new_relay : PeerId → Session → Address → Address → TreeLink → Relay
new_relay this_peer session passive_addr active_addr blank = record {
  this_peer = this_peer;
  session = session;
  transport = none;
  passive_endpoint_addr = passive_addr;
  active_endpoint_addr = active_addr;
  links = λ _. blank;
  next_id = 0;
  all_links = [];
  window_index = pos 0;
  parent_link_fut = pending;
  read_link = none;
  expected_parent_peers = [];
  active_links = [];
  passive_links = [];
  state = RelayState.initial;
  out = [];
}

abbrev pub emit : Output → Relay → Relay
emit o r = record r { out = r.out ++ o ∷ [] }

abbrev pub emit_close : Option Sock → Relay → Relay
emit_close none r = r
emit_close (some s) r = emit (Output.close s) r

abbrev pub write : ℕ → TreeLink → (ℕ → TreeLink) → ℕ → TreeLink
write i link links j = if i == j then link else links j

-- `self.all_links[p][TreeLink.PASSIVE]` and its active sibling
abbrev pub passive_of : Relay → PeerId → Option ℕ
passive_of r p = elim (get p r.all_links) [ none ↦ none | some pair ↦ some pair.0 ]

abbrev pub active_of : Relay → PeerId → Option ℕ
active_of r p = elim (get p r.all_links) [ none ↦ none | some pair ↦ some pair.1 ]

-- `send_passive_message` of the link `i`
abbrev pub send_passive_message : ℕ → Packet → Relay → Relay
send_passive_message i packet r =
    emit (Output.datagram (r.links i).connection (r.links i).right packet) r

-- Python's `xs[a:b]`: a negative bound counts from the end, and both are cut to the list.
abbrev pub slice_bound : ℕ → ℤ → ℕ
slice_bound n (pos k) = min k n
slice_bound n (negsuc k) = n - suc k

unfoldable pub slice {ℓ} : {A : Type ℓ} → ℤ → ℤ → List A → List A
slice a b xs =
    let start = slice_bound (length xs) a in
    take (slice_bound (length xs) b - start) (drop start xs)

-- `_get_forward_links`, as references. Sets of links go by `TreeLink.__eq__`, which holds of one
-- object alone, since ids are unique.
abbrev is_forward : Relay → ℕ → Bool
is_forward r i = is_online (r.links i) && is_outgoing (r.links i)

abbrev is_read_link : Relay → ℕ → Bool
is_read_link r i = elim r.read_link [ none ↦ false | some j ↦ i == j ]

abbrev pub forwards : Relay → ℕ → Bool
forwards r i = not (is_read_link r i) && is_forward r i

unfoldable pub get_forward_links : Relay → List ℕ
unfolding is_online is_outgoing
get_forward_links r = filter (forwards r) (values r.active_links)
