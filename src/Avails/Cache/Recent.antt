-- ===== src/Avails/Cache/Recent.antt =====
-- Which sockets stay in the cache.
use peer_connect.Prelude.{
  ℕ, suc, ◌+◌, ◌≤◌, ◌<◌, false, some, List, [], ◌∷◌, ◌++◌, ◌≡◌, refl, ap, inl, inr, arith, leb,
  ◌==◌, if◌then◌else◌, length, Dict, get, has, put, remove, Option-cases, Bool-cases, has-put,
  has-remove, length-put, put_absent,
}
use peer_connect.Otm.Tree.{PeerId, Sock}
use peer_connect.Avails.Cache.{
  Cache, pop_first, add_peer_sock, get_socket, Use, added, use_cache, use_all,
}

-- the additions of some sockets
abbrev pub additions : Dict Sock → List Use
additions [] = []
additions ((p, s) ∷ d) = added p s ∷ additions d

-- where a socket stands: at most so many newer ones are behind it
pub record Recent (p : PeerId) (s : Sock) (k : ℕ) (d : Dict Sock) : Type 0 where
  pub older : Dict Sock
  pub newer : Dict Sock
  pub split : d ≡ older ++ (p, s) ∷ newer
  pub few : length newer ≤ k
  pub absent : has p older ≡ false

put-append :
    (q : PeerId) (t : Sock) (d e : Dict Sock)
    → put q t (d ++ e) ≡ (if has q d then put q t d ++ e else d ++ put q t e)
put-append q t [] e = refl
put-append q t ((j, w) ∷ d) e = ground (arith, put-append q t d e)

get-append :
    (q : PeerId) (d e : Dict Sock) → get q (d ++ e) ≡ (if has q d then get q d else get q e)
get-append q [] e = refl
get-append q ((j, w) ∷ d) e = ground (arith, get-append q d e)

-- A put of another peer adds one newer socket at most.
Recent-put :
    (p q : PeerId) (s t : Sock) (k : ℕ) (d : Dict Sock)
    → (q == p) ≡ false
    → Recent p s k d
    → Recent p s (suc k) (put q t d)
Recent-put p q s t k d ne r = elim (Bool-cases (has q r.older)) [
  | inl h ↦ record {
    older = put q t r.older;
    newer = r.newer;
    split = ground (arith, r.split, put-append q t r.older ((p, s) ∷ r.newer), h);
    few = omega (arith, r.few);
    absent = ground (arith, has-put q p t r.older, r.absent, ne);
  }
  | inr h ↦ record {
    older = r.older;
    newer = put q t r.newer;
    split = ground (arith, r.split, put-append q t r.older ((p, s) ∷ r.newer), h, ne);
    few = ground (arith, r.few, length-put q t r.newer);
    absent = r.absent;
  }
]

-- The oldest goes; that is another one while more sockets are there than newer ones and this one.
Recent-pop :
    (p : PeerId) (s : Sock) (k : ℕ) (d : Dict Sock)
    → suc k < length d
    → Recent p s k d
    → (d' : Dict Sock) × (pop_first d ≡ some d') × Recent p s k d'
Recent-pop p s k d room r = by_older r.older r.split r.absent
  where
    by_older :
        (older : Dict Sock)
        → d ≡ older ++ (p, s) ∷ r.newer
        → has p older ≡ false
        → (d' : Dict Sock) × (pop_first d ≡ some d') × Recent p s k d'
    by_older [] e h = absurd (omega (arith, room, r.few, ap length e))
    by_older (x ∷ older) e h = (
      older ++ (p, s) ∷ r.newer,
      rw e refl,
      record {
        older = older;
        newer = r.newer;
        split = refl;
        few = r.few;
        absent = ground (arith, h);
      },
    )

Recent-add :
    (p q : PeerId) (s t : Sock) (k : ℕ) (c : Cache)
    → (q == p) ≡ false
    → suc k < c.max_limit
    → Recent p s k c.socket_cache
    → (c' : Cache) × (add_peer_sock q t c ≡ some c')
      × (c'.max_limit ≡ c.max_limit)
      × Recent p s (suc k) c'.socket_cache
unfolding add_peer_sock
Recent-add p q s t k c ne room r = elim (Bool-cases (leb c.max_limit (length c.socket_cache))) [
  | inr e ↦ (
    record c { socket_cache = put q t c.socket_cache },
    rw e refl,
    refl,
    Recent-put p q s t k c.socket_cache ne r,
  )
  | inl e ↦
      let (d, popped, r') = Recent-pop p s k c.socket_cache (ground (arith, e, room)) r in
      (
        record c { socket_cache = put q t d },
        rw (e, popped) refl,
        refl,
        Recent-put p q s t k d ne r',
      )
]

get-Recent : (p : PeerId) (s : Sock) (k : ℕ) (d : Dict Sock) → Recent p s k d → get p d ≡ some s
get-Recent p s k d r = ground (arith, r.split, get-append p r.older ((p, s) ∷ r.newer), r.absent)

Recent-additions :
    (p : PeerId) (s : Sock) (k : ℕ) (d : Dict Sock) (c : Cache)
    → has p d ≡ false
    → k + length d < c.max_limit
    → Recent p s k c.socket_cache
    → get p (use_all (additions d) c).socket_cache ≡ some s
unfolding use_all use_cache
Recent-additions p s k [] c h room r = get-Recent p s k c.socket_cache r
Recent-additions p s k ((q, t) ∷ d) c h room r =
    let (c', done, same, r') = Recent-add p q s t k c (ground (arith, h)) (omega (arith, room)) r in
    rw (use_all, use_cache, done)
      (Recent-additions p s (suc k) d c' (ground (arith, h)) (rw same (omega (arith, room))) r')

-- A socket that was just got from the cache is still there after fewer than `max_limit` sockets of
-- other peers were added.
pub get_socket-additions :
    (p : PeerId) (s : Sock) (d : Dict Sock) (c : Cache)
    → (get_socket p c).0 ≡ some s
    → has p d ≡ false
    → length d < c.max_limit
    → get p (use_all (additions d) (get_socket p c).1).socket_cache ≡ some s
unfolding get_socket
get_socket-additions p s d c e h room = elim (Option-cases (get p c.socket_cache)) [
  | inl missing ↦ absurd (ground (arith, e, missing))
  | inr (t, there) ↦
      let same : t ≡ s = ground (arith, e, there) in
      let rest = remove p c.socket_cache in
      let gone : has p rest ≡ false = ground (arith, has-remove p p c.socket_cache) in
      rw (get_socket, there, same)
        (Recent-additions p s 0 d (record c { socket_cache = put p s rest }) h (omega (arith, room))
          (record {
            older = rest;
            newer = [];
            split = put_absent p s rest gone;
            few = omega arith;
            absent = gone;
          }))
]
