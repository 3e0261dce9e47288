-- ===== src/Otm/Hypercube.antt =====
-- `PalmTreeProtocol.create_hypercube` (src/transfers/otm/palm_tree.py): the overlay of a session.
mod Flip
pub mod Edges
pub mod Connected
pub mod Distinct
pub use Flip.{flip-flip, flip-ne, set_bit}
unfoldable pub use Flip.{flip}
use peer_connect.Prelude.{
  ℕ, zero, suc, ◌+◌, ◌-◌, ◌^◌, Bool, Option, none, some, List, [], ◌∷◌, ◌++◌, ltb, leb,
  if◌then◌else◌, length, get_elem?, Dict, get, put, member,
}
use peer_connect.Otm.Tree.{PeerId}

-- the adjacency list, a `defaultdict(list)`
abbrev pub Adjacency : Type 0
Adjacency = Dict (List PeerId)

abbrev pub or_empty : Option (List PeerId) → List PeerId
or_empty none = []
or_empty (some l) = l

abbrev pub adjacent : PeerId → Adjacency → List PeerId
adjacent k adj = or_empty (get k adj)

-- adj[k].append(x)
unfoldable pub append_to : PeerId → PeerId → Adjacency → Adjacency
append_to k x adj = put k (adjacent k adj ++ x ∷ []) adj

-- `dict(enumerate(peers))[i]`; every use has `i` in range
abbrev pub or_zero : Option PeerId → PeerId
or_zero none = 0
or_zero (some p) = p

unfoldable pub id_at : List PeerId → ℕ → PeerId
id_at ids i = or_zero (get_elem? ids i)

-- the least `d` from a start with `n ≤ 2 ^ d`, which is `ceil(log2(n))`; `n` rounds are enough
unfoldable pub log2_from : ℕ → ℕ → ℕ → ℕ
log2_from zero d n = d
log2_from (suc rounds) d n =
    let rest = log2_from rounds (d + 1) n in if leb n (2 ^ d) then d else rest

unfoldable pub dimensions : ℕ → ℕ
unfolding log2_from
dimensions n = log2_from n 0 n

unfoldable pub add_edge : List PeerId → ℕ → ℕ → Adjacency → Adjacency
unfolding append_to id_at flip
add_edge ids i j adj =
    if ltb (flip j i) (length ids) then append_to (id_at ids i) (id_at ids (flip j i)) adj else adj

-- for j in range(dimensions)
unfoldable pub add_edges : List PeerId → ℕ → ℕ → ℕ → Adjacency → Adjacency
unfolding add_edge
add_edges ids i zero j adj = adj
add_edges ids i (suc rounds) j adj = add_edges ids i rounds (j + 1) (add_edge ids i j adj)

-- for i in range(len(peers))
unfoldable pub add_peers : List PeerId → ℕ → ℕ → ℕ → Adjacency → Adjacency
unfolding add_edges
add_peers ids d zero i adj = adj
add_peers ids d (suc rounds) i adj = add_peers ids d rounds (i + 1) (add_edges ids i d 0 adj)

-- `ids` are the center peer's id and those of the others
unfoldable pub create_hypercube : List PeerId → Adjacency
unfolding add_peers dimensions
create_hypercube ids = add_peers ids (dimensions (length ids)) (length ids) 0 []

-- `x in adj[k]`
abbrev pub linked : PeerId → PeerId → Adjacency → Bool
linked k x adj = member x (adjacent k adj)
