-- ===== src/Otm/Hypercube/Connected.antt =====
-- The overlay is symmetric, has no loop, and reaches every peer from the center.
use native.Mathlib.Nat.{pow-suc, add-zero, zero-add}
use peer_connect.Prelude.{
  ℕ, zero, suc, ◌+◌, ◌^◌, ◌≤◌, ◌<◌, true, false, List, [], ◌∷◌, ◌≡◌, refl, sym, ap, ◌∙◌, inl, inr,
  arith, leb, length, member, Bool-cases, IsDistinct,
}
use mathlib.Core.Bool.{false≢true}
use peer_connect.Otm.Tree.{PeerId}
use peer_connect.Otm.Hypercube.{
  flip, flip-flip, flip-ne, set_bit, Adjacency, id_at, log2_from, dimensions, create_hypercube,
  linked,
}
use peer_connect.Otm.Hypercube.Edges.{Edge, linked_sound, linked_complete}

Edge-symm : (ids : List PeerId) (d : ℕ) (k x : PeerId) → Edge ids d k x → Edge ids d x k
Edge-symm ids d k x e = record {
  at = flip e.bit e.at;
  bit = e.bit;
  at_lt = e.other_lt;
  bit_lt = e.bit_lt;
  other_lt = rw (flip-flip e.bit e.at) e.at_lt;
  at_id = e.other_id;
  other_id = rw (flip-flip e.bit e.at) e.at_id;
}

-- Two peers of a hypercube know each other or neither knows the other.
pub linked_symm :
    (ids : List PeerId) (k x : PeerId)
    → linked k x (create_hypercube ids) ≡ linked x k (create_hypercube ids)
linked_symm ids k x = elim (Bool-cases (linked k x (create_hypercube ids))) [
  | inl h ↦
      h
      ∙ sym (
          linked_complete ids x k
            (Edge-symm ids (dimensions (length ids)) k x (linked_sound ids k x h)))
  | inr h ↦ elim (Bool-cases (linked x k (create_hypercube ids))) [
    | inl g ↦ absurd (
        false≢true (
          sym h
          ∙ linked_complete ids k x
              (Edge-symm ids (dimensions (length ids)) x k (linked_sound ids x k g))))
    | inr g ↦ h ∙ sym g
  ]
]

member-id_at : (ids : List PeerId) (i : ℕ) → i < length ids → member (id_at ids i) ids ≡ true
unfolding id_at
member-id_at [] i h = absurd (omega arith)
member-id_at (p ∷ ids) zero h = ground arith
member-id_at (p ∷ ids) (suc i) h = ground (arith, member-id_at ids i)

pub id_at_injective :
    (ids : List PeerId) (i j : ℕ)
    → IsDistinct ids
    → i < length ids
    → j < length ids
    → id_at ids i ≡ id_at ids j
    → i ≡ j
unfolding id_at
id_at_injective [] i j u hi hj e = absurd (omega arith)
id_at_injective (p ∷ ids) zero zero u hi hj e = refl
id_at_injective (p ∷ ids) zero (suc j) u hi hj e =
    absurd (ground (arith, member-id_at ids j (omega arith)))
id_at_injective (p ∷ ids) (suc i) zero u hi hj e =
    absurd (ground (arith, member-id_at ids i (omega arith)))
id_at_injective (p ∷ ids) (suc i) (suc j) u hi hj e =
    ap suc (id_at_injective ids i j u.1 (omega arith) (omega arith) e)

-- With distinct ids no peer is its own neighbour.
pub linked_irrefl :
    (ids : List PeerId) (k : PeerId) → IsDistinct ids → linked k k (create_hypercube ids) ≡ false
linked_irrefl ids k u = elim (Bool-cases (linked k k (create_hypercube ids))) [
  | inr h ↦ h
  | inl h ↦
      let e = linked_sound ids k k h in
      absurd (
        flip-ne e.bit e.at (
          id_at_injective ids (flip e.bit e.at) e.at u e.other_lt e.at_lt
            (e.other_id ∙ sym e.at_id)))
]

-- a chain of neighbours
pub data Reach (adj : Adjacency) (k : PeerId) : PeerId → Type 0 where
  here : Reach adj k k
  next : {x y : PeerId} → Reach adj k x → linked x y adj ≡ true → Reach adj k y

le-pow : (n : ℕ) → n ≤ 2 ^ n
le-pow zero = omega arith
le-pow (suc n) = omega (arith, le-pow n, pow-suc 2 n, pow_pos n)
  where
    pow_pos : (m : ℕ) → 0 < 2 ^ m
    pow_pos zero = omega arith
    pow_pos (suc m) = omega (arith, pow_pos m, pow-suc 2 m)

log2_from_enough : (rounds d n : ℕ) → n ≤ 2 ^ (d + rounds) → n ≤ 2 ^ log2_from rounds d n
unfolding log2_from
log2_from_enough zero d n h = rw add-zero at h
log2_from_enough (suc rounds) d n h = elim (Bool-cases (leb n (2 ^ d))) [
  | inl fits ↦ rw fits (ground arith)
  | inr more ↦
      let same : d + suc rounds ≡ d + 1 + rounds = omega arith in
      rw more (log2_from_enough rounds (d + 1) n (rw same at h))
]

-- There are enough dimensions to number the peers.
dimensions_enough : (n : ℕ) → n ≤ 2 ^ dimensions n
unfolding dimensions
dimensions_enough n = log2_from_enough n 0 n (rw zero-add (le-pow n))

Reach-position :
    (ids : List PeerId) (fuel i : ℕ)
    → i < fuel
    → i < length ids
    → Reach (create_hypercube ids) (id_at ids 0) (id_at ids i)
Reach-position ids zero i h1 h2 = absurd (omega arith)
Reach-position ids (suc fuel) zero h1 h2 = here
Reach-position ids (suc fuel) (suc i) h1 h2 =
    let d = dimensions (length ids) in
    let (j, small, lower) =
      set_bit d (suc i) (omega arith) (omega (arith, dimensions_enough (length ids))) in
    let before = flip j (suc i) in
    next (Reach-position ids fuel before (omega (arith, lower)) (omega (arith, lower))) (
      linked_complete ids (id_at ids before) (id_at ids (suc i)) (record {
        at = before;
        bit = j;
        at_lt = omega (arith, lower);
        bit_lt = small;
        other_lt = rw (flip-flip j (suc i)) h2;
        at_id = refl;
        other_id = ap (id_at ids) (flip-flip j (suc i));
      }))

-- Every peer of the session can be reached from the center over edges of the hypercube, so a tree
-- that spans the session exists.
pub hypercube_connected :
    (ids : List PeerId) (i : ℕ)
    → i < length ids
    → Reach (create_hypercube ids) (id_at ids 0) (id_at ids i)
hypercube_connected ids i h = Reach-position ids (suc i) i (omega arith) h
