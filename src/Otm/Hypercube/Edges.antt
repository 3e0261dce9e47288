-- ===== src/Otm/Hypercube/Edges.antt =====
-- The edges of the hypercube: two peers are adjacent exactly if their positions differ in one bit.
use mathlib.Core.Path.{subst₂}
use mathlib.Core.Bool.{false≢true}
use peer_connect.Prelude.{
  ℕ, zero, suc, ◌+◌, ◌≤◌, ◌<◌, true, ◌&&◌, ◌||◌, List, [], ◌∷◌, ◌++◌, ◌≡◌, ap, inl, inr, arith, ltb,
  ◌==◌, length, member, Bool-cases, get-put, member-append, ◌↔◌,
}
use peer_connect.Otm.Tree.{PeerId}
use peer_connect.Otm.Hypercube.{
  flip, Adjacency, adjacent, append_to, id_at, dimensions, add_edge, add_edges, add_peers,
  create_hypercube, linked,
}

pub linked-append_to :
    (k x a v : PeerId) (adj : Adjacency)
    → linked k x (append_to a v adj) ≡ ((a == k && v == x) || linked k x adj)
unfolding append_to
linked-append_to k x a v adj = ground (
  arith,
  get-put a k (adjacent a adj ++ v ∷ []) adj,
  member-append x (adjacent a adj) (v ∷ []),
  λ (e : a ≡ k). ap (λ t. member x (adjacent t adj)) e,
)

-- An edge between two ids: positions in range that differ in a bit below the dimension.
pub record Edge (ids : List PeerId) (d : ℕ) (k x : PeerId) : Type 0 where
  pub at : ℕ
  pub bit : ℕ
  pub at_lt : at < length ids
  pub bit_lt : bit < d
  pub other_lt : flip bit at < length ids
  pub at_id : id_at ids at ≡ k
  pub other_id : id_at ids (flip bit at) ≡ x

module _ (ids : List PeerId) (d : ℕ) where
  -- every adjacency is an edge
  abbrev Sound : Adjacency → Type 0
  Sound adj = (k x : PeerId) → linked k x adj ≡ true → Edge ids d k x

  add_edge-Sound :
      (i j : ℕ) (adj : Adjacency)
      → i < length ids
      → j < d
      → Sound adj
      → Sound (add_edge ids i j adj)
  unfolding add_edge
  add_edge-Sound i j adj hi hj s k x h = elim (Bool-cases (ltb (flip j i) (length ids))) [
    | inr off ↦ s k x (ground arith)
    | inl inside ↦ elim (Bool-cases (id_at ids i == k && id_at ids (flip j i) == x)) [
      | inl new ↦ record {
        at = i;
        bit = j;
        at_lt = hi;
        bit_lt = hj;
        other_lt = ground arith;
        at_id = ground arith;
        other_id = ground arith;
      }
      | inr old ↦
          s k x (ground (arith, linked-append_to k x (id_at ids i) (id_at ids (flip j i)) adj))
    ]
  ]

  add_edges-Sound :
      (i rounds j : ℕ) (adj : Adjacency)
      → i < length ids
      → j + rounds ≤ d
      → Sound adj
      → Sound (add_edges ids i rounds j adj)
  unfolding add_edges
  add_edges-Sound i zero j adj hi hj s = s
  add_edges-Sound i (suc rounds) j adj hi hj s =
      add_edges-Sound i rounds (j + 1) (add_edge ids i j adj) hi (omega arith)
        (add_edge-Sound i j adj hi (omega arith) s)

  add_peers-Sound :
      (rounds i : ℕ) (adj : Adjacency)
      → i + rounds ≤ length ids
      → Sound adj
      → Sound (add_peers ids d rounds i adj)
  unfolding add_peers
  add_peers-Sound zero i adj h s = s
  add_peers-Sound (suc rounds) i adj h s =
      add_peers-Sound rounds (i + 1) (add_edges ids i d 0 adj) (omega arith)
        (add_edges-Sound i d 0 adj (omega arith) (omega arith) s)

  module _ (k x : PeerId) where
    add_edge_mono :
        (i j : ℕ) (adj : Adjacency)
        → linked k x adj ≡ true
        → linked k x (add_edge ids i j adj) ≡ true
    unfolding add_edge
    add_edge_mono i j adj h =
        ground (arith, linked-append_to k x (id_at ids i) (id_at ids (flip j i)) adj)

    add_edges_mono :
        (i rounds j : ℕ) (adj : Adjacency)
        → linked k x adj ≡ true
        → linked k x (add_edges ids i rounds j adj) ≡ true
    unfolding add_edges
    add_edges_mono i zero j adj h = h
    add_edges_mono i (suc rounds) j adj h =
        add_edges_mono i rounds (j + 1) (add_edge ids i j adj) (add_edge_mono i j adj h)

    add_peers_mono :
        (rounds i : ℕ) (adj : Adjacency)
        → linked k x adj ≡ true
        → linked k x (add_peers ids d rounds i adj) ≡ true
    unfolding add_peers
    add_peers_mono zero i adj h = h
    add_peers_mono (suc rounds) i adj h =
        add_peers_mono rounds (i + 1) (add_edges ids i d 0 adj) (add_edges_mono i d 0 adj h)

  add_edge_complete :
      (i j : ℕ) (adj : Adjacency)
      → flip j i < length ids
      → linked (id_at ids i) (id_at ids (flip j i)) (add_edge ids i j adj) ≡ true
  unfolding add_edge
  add_edge_complete i j adj h = ground (
    arith,
    linked-append_to (id_at ids i) (id_at ids (flip j i)) (id_at ids i) (id_at ids (flip j i)) adj,
  )

  add_edges_complete :
      (i rounds j b : ℕ) (adj : Adjacency)
      → j ≤ b
      → b < j + rounds
      → flip b i < length ids
      → linked (id_at ids i) (id_at ids (flip b i)) (add_edges ids i rounds j adj) ≡ true
  unfolding add_edges
  add_edges_complete i zero j b adj h1 h2 h = absurd (omega arith)
  add_edges_complete i (suc rounds) j b adj h1 h2 h = elim (Bool-cases (j == b)) [
    | inl here ↦
        let e : j ≡ b = ground arith in
        add_edges_mono (id_at ids i) (id_at ids (flip b i)) i rounds (j + 1) (add_edge ids i j adj)
          (rw e (add_edge_complete i b adj h))
    | inr later ↦
        add_edges_complete i rounds (j + 1) b (add_edge ids i j adj) (ground arith) (omega arith) h
  ]

  add_peers_complete :
      (rounds i a b : ℕ) (adj : Adjacency)
      → i ≤ a
      → a < i + rounds
      → b < d
      → flip b a < length ids
      → linked (id_at ids a) (id_at ids (flip b a)) (add_peers ids d rounds i adj) ≡ true
  unfolding add_peers
  add_peers_complete zero i a b adj h1 h2 hb h = absurd (omega arith)
  add_peers_complete (suc rounds) i a b adj h1 h2 hb h = elim (Bool-cases (i == a)) [
    | inl here ↦
        let e : i ≡ a = ground arith in
        add_peers_mono (id_at ids a) (id_at ids (flip b a)) rounds (i + 1) (add_edges ids i d 0 adj)
          (rw e (add_edges_complete a d 0 b adj (omega arith) (omega arith) h))
    | inr later ↦
        add_peers_complete rounds (i + 1) a b (add_edges ids i d 0 adj) (ground arith) (omega arith)
          hb h
  ]

-- Whom the overlay makes neighbours: two ids whose positions are in range and differ in one bit.
pub linked_sound :
    (ids : List PeerId) (k x : PeerId)
    → linked k x (create_hypercube ids) ≡ true
    → Edge ids (dimensions (length ids)) k x
unfolding create_hypercube
linked_sound ids =
    add_peers-Sound ids (dimensions (length ids)) (length ids) 0 [] (omega arith)
      (λ k x h. absurd (false≢true h))

-- Any two ids whose positions are in range and differ in one bit below the dimension are neighbours.
pub linked_complete :
    (ids : List PeerId) (k x : PeerId)
    → Edge ids (dimensions (length ids)) k x
    → linked k x (create_hypercube ids) ≡ true
unfolding create_hypercube
linked_complete ids k x e =
    subst₂ (λ a b. linked a b (create_hypercube ids) ≡ true) e.at_id e.other_id
      (add_peers_complete ids (dimensions (length ids)) (length ids) 0 e.at e.bit [] (omega arith)
        (omega (arith, e.at_lt)) e.bit_lt e.other_lt)

-- Two peers of the overlay are neighbours exactly if their positions are in range and differ in one
-- bit below the dimension.
pub linked_iff :
    (ids : List PeerId) (k x : PeerId)
    → (linked k x (create_hypercube ids) ≡ true) ↔ Edge ids (dimensions (length ids)) k x
linked_iff ids k x = (linked_sound ids k x, linked_complete ids k x)
