-- ===== src/Avails/Cache.antt =====
-- `SocketCache` of src/avails/container.py: the sockets last used, in an `OrderedDict`, whose first
-- entry is the oldest. A socket is true as a Boolean. `closes` says whether `close` of a socket
-- succeeds or raises an OSError.
pub mod Bounded
pub mod Recent
use peer_connect.Prelude.{
  ℕ, Bool, false, not, Option, none, some, List, [], ◌∷◌, leb, if◌then◌else◌, length, Dict, get,
  put, remove, values,
}
use peer_connect.Otm.Tree.{PeerId, Sock}

pub record Cache : Type 0 where
  pub socket_cache : Dict Sock
  pub max_limit : ℕ

-- popitem(last=False); `none` is the KeyError of an empty dict
abbrev pub pop_first : Dict Sock → Option (Dict Sock)
pop_first [] = none
pop_first (e ∷ d) = some d

abbrev pub store : PeerId → Sock → ℕ → Option (Dict Sock) → Option Cache
store p s n none = none
store p s n (some d) = some (record { socket_cache = put p s d; max_limit = n })

unfoldable pub add_peer_sock : PeerId → Sock → Cache → Option Cache
add_peer_sock p s c = store p s c.max_limit (
    if leb c.max_limit (length c.socket_cache)
    then pop_first c.socket_cache
    else some c.socket_cache)

unfoldable pub get_socket : PeerId → Cache → Option Sock × Cache
get_socket p c = elim (get p c.socket_cache) [
  | none ↦ (none, record c { socket_cache = remove p c.socket_cache })
  | some s ↦ (some s, record c { socket_cache = put p s (remove p c.socket_cache) })
]

-- `is_connected` returns the socket or False
unfoldable pub is_connected : (Sock → Bool) → PeerId → Cache → Option Sock
is_connected is_socket_connected p c = elim (get p c.socket_cache) [
  | none ↦ none
  | some s ↦ if is_socket_connected s then some s else none
]

-- `remove_and_close`; the Boolean says whether a KeyError leaves it: after an OSError it deletes
-- the entry for the second time
unfoldable pub remove_and_close : (Sock → Bool) → PeerId → Cache → Bool × Cache
remove_and_close closes p c = elim (get p c.socket_cache) [
  | none ↦ (false, c)
  | some s ↦ (not (closes s), record c { socket_cache = remove p c.socket_cache })
]

-- `clear`, with the sockets that it closes; errors of `close` are swallowed
unfoldable pub clear_cache : Cache → List Sock × Cache
clear_cache c = (values c.socket_cache, record c { socket_cache = [] })

pub data Use : Type 0 where
  added : PeerId → Sock → Use
  got : PeerId → Use
  closed : (Sock → Bool) → PeerId → Use
  cleared : Use

abbrev pub or_cache : Cache → Option Cache → Cache
or_cache c none = c
or_cache c (some c') = c'

unfoldable pub use_cache : Use → Cache → Cache
unfolding add_peer_sock get_socket remove_and_close clear_cache
use_cache (added p s) c = or_cache c (add_peer_sock p s c)
use_cache (got p) c = (get_socket p c).1
use_cache (closed closes p) c = (remove_and_close closes p c).1
use_cache cleared c = (clear_cache c).1

unfoldable pub use_all : List Use → Cache → Cache
unfolding use_cache
use_all [] c = c
use_all (u ∷ us) c = use_all us (use_cache u c)
