-- ===== src/Avails/Cache/Bounded.antt =====
-- The bound of the socket cache, and what `remove_and_close` raises.
use peer_connect.Prelude.{
  ◌≤◌, Bool, true, false, none, some, List, [], ◌∷◌, ◌≡◌, refl, ap, inl, inr, ◌↔◌, arith, leb, ◌==◌,
  if◌then◌else◌, length, Dict, get, put, remove, keys, Option-cases, Bool-cases, IsDistinct,
  has_of_get, get-remove, length-put, length-remove-le, length-remove-lt, put-IsDistinct,
  remove-IsDistinct,
}
use peer_connect.Otm.Tree.{PeerId, Sock}
use peer_connect.Avails.Cache.{
  Cache, pop_first, store, add_peer_sock, get_socket, remove_and_close, clear_cache, Use, added,
  got, closed, cleared, use_cache, use_all,
}

-- at most `max_limit` sockets, at least one, each peer once
pub record IsBounded (c : Cache) : Type 0 where
  pub some_room : 1 ≤ c.max_limit
  pub bound : length c.socket_cache ≤ c.max_limit
  pub peers : IsDistinct (keys c.socket_cache)

-- An addition to a bounded cache raises no KeyError.
add_peer_sock-IsBounded :
    (p : PeerId) (s : Sock) (c : Cache)
    → IsBounded c
    → (c' : Cache) × (add_peer_sock p s c ≡ some c') × IsBounded c'
unfolding add_peer_sock
add_peer_sock-IsBounded p s c b = elim (Bool-cases (leb c.max_limit (length c.socket_cache))) [
  | inr room ↦ (
    record { socket_cache = put p s c.socket_cache; max_limit = c.max_limit },
    rw room refl,
    record {
      some_room = b.some_room;
      bound = ground (arith, room, length-put p s c.socket_cache, b.bound);
      peers = put-IsDistinct p s c.socket_cache b.peers;
    },
  )
  | inl full ↦
      rw full (after_pop c.socket_cache (ground (arith, full, b.some_room)) b.bound b.peers)
]
  where
    after_pop :
        (d : Dict Sock)
        → 1 ≤ length d
        → length d ≤ c.max_limit
        → IsDistinct (keys d)
        → (c' : Cache) × (store p s c.max_limit (pop_first d) ≡ some c') × IsBounded c'
    after_pop [] h1 h2 u = absurd (omega (arith, h1))
    after_pop (e ∷ d) h1 h2 u = (
      record { socket_cache = put p s d; max_limit = c.max_limit },
      refl,
      record {
        some_room = b.some_room;
        bound = ground (arith, length-put p s d, h2);
        peers = put-IsDistinct p s d u.1;
      },
    )

get_socket-IsBounded : (p : PeerId) (c : Cache) → IsBounded c → IsBounded (get_socket p c).1
unfolding get_socket
get_socket-IsBounded p c b = elim (Option-cases (get p c.socket_cache)) [
  | inl e ↦
      rw (get_socket, e)
        (record {
          some_room = b.some_room;
          bound = omega (arith, b.bound, length-remove-le p c.socket_cache);
          peers = remove-IsDistinct p c.socket_cache b.peers;
        })
  | inr (s, e) ↦
      rw (get_socket, e)
        (record {
          some_room = b.some_room;
          bound = ground (
            arith,
            b.bound,
            length-put p s (remove p c.socket_cache),
            length-remove-lt p c.socket_cache,
            has_of_get p c.socket_cache e,
          );
          peers =
              put-IsDistinct p s (remove p c.socket_cache)
                (remove-IsDistinct p c.socket_cache b.peers);
        })
]

remove_and_close-IsBounded :
    (closes : Sock → Bool) (p : PeerId) (c : Cache)
    → IsBounded c
    → IsBounded (remove_and_close closes p c).1
unfolding remove_and_close
remove_and_close-IsBounded closes p c b = elim (Option-cases (get p c.socket_cache)) [
  | inl e ↦ rw (remove_and_close, e) b
  | inr (s, e) ↦
      rw (remove_and_close, e)
        (record {
          some_room = b.some_room;
          bound = omega (arith, b.bound, length-remove-le p c.socket_cache);
          peers = remove-IsDistinct p c.socket_cache b.peers;
        })
]

use_cache-IsBounded : (u : Use) (c : Cache) → IsBounded c → IsBounded (use_cache u c)
unfolding use_cache clear_cache
use_cache-IsBounded (added p s) c b =
    let (c', done, bounded) = add_peer_sock-IsBounded p s c b in rw done bounded
use_cache-IsBounded (got p) c b = get_socket-IsBounded p c b
use_cache-IsBounded (closed closes p) c b = remove_and_close-IsBounded closes p c b
use_cache-IsBounded cleared c b = record {
  some_room = b.some_room;
  bound = omega arith;
  peers = tt;
}

-- However the cache is used, it holds at most `max_limit` sockets and one of each peer.
pub use_all-IsBounded : (us : List Use) (c : Cache) → IsBounded c → IsBounded (use_all us c)
unfolding use_all
use_all-IsBounded [] c b = b
use_all-IsBounded (u ∷ us) c b = use_all-IsBounded us (use_cache u c) (use_cache-IsBounded u c b)

-- A close that raises an OSError makes `remove_and_close` raise a KeyError, with the entry gone;
-- any other call of it raises nothing.
pub remove_and_close_lem :
    (closes : Sock → Bool) (p q : PeerId) (c : Cache)
    → (((remove_and_close closes p c).0 ≡ true)
        ↔ ((s : Sock) × (get p c.socket_cache ≡ some s) × (closes s ≡ false)))
      × (get q (remove_and_close closes p c).1.socket_cache
          ≡ (if p == q then none else get q c.socket_cache))
unfolding remove_and_close
remove_and_close_lem closes p q c = elim (Option-cases (get p c.socket_cache)) [
  | inl e ↦
      rw (remove_and_close, e)
        (
          ((λ h. absurd (ground (arith, h))), (λ (s, found, _). absurd (ground (arith, found, e)))),
          ground (arith, e, λ (x : p ≡ q). ap (λ t. get t c.socket_cache) x),
        )
  | inr (t, e) ↦
      rw (remove_and_close, e)
        (
          ((λ h. (t, refl, ground (arith, h))), (λ (s, found, bad). ground (arith, found, e, bad))),
          get-remove p q c.socket_cache,
        )
]
