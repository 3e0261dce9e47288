-- ===== src/Otm/Hypercube/Distinct.antt =====
-- No peer is twice among the neighbours of another, so the hypercube is an overlay.
use mathlib.Core.Path.{subst}
use peer_connect.Prelude.{
  ℕ, zero, suc, ◌+◌, ◌*◌, ◌/◌, ◌%◌, ◌≤◌, ◌<◌, true, false, ◌&&◌, List, [], ◌∷◌, ◌++◌, ◌≡◌, refl,
  sym, ap, ◌∙◌, ◌⊎◌, inl, inr, arith, ltb, ◌==◌, length, Bool-cases, IsDistinct, get-put,
  append-IsDistinct,
}
use peer_connect.Otm.Tree.{PeerId}
use peer_connect.Otm.Hypercube.{
  flip, Adjacency, adjacent, append_to, id_at, dimensions, add_edge, add_edges, add_peers,
  create_hypercube, linked,
}
use peer_connect.Otm.Hypercube.Edges.{linked-append_to}
use peer_connect.Otm.Hypercube.Connected.{id_at_injective, linked_symm, linked_irrefl}
use peer_connect.Otm.Inform.Laws.{IsOverlay}

flip_injective : (a b i : ℕ) → flip a i ≡ flip b i → a ≡ b
unfolding flip
flip_injective zero zero i e = refl
flip_injective zero (suc b) i e =
    let kept : (2 * flip b (i / 2) + i % 2) % 2 ≡ i % 2 = omega arith in
    absurd (ground (arith, e, kept))
flip_injective (suc a) zero i e =
    let kept : (2 * flip a (i / 2) + i % 2) % 2 ≡ i % 2 = omega arith in
    absurd (ground (arith, e, kept))
flip_injective (suc a) (suc b) i e = ap suc (flip_injective a b (i / 2) (omega (arith, e)))

module _ (ids : List PeerId) (u : IsDistinct ids) where
  -- an edge that was added before the bit `j` of the position `i`
  record Before (i j : ℕ) (k x : PeerId) : Type 0 where
    at : ℕ
    bit : ℕ
    earlier : (at < i) ⊎ ((at ≡ i) × (bit < j))
    at_lt : at < length ids
    other_lt : flip bit at < length ids
    at_id : id_at ids at ≡ k
    other_id : id_at ids (flip bit at) ≡ x

  record Fine (i j : ℕ) (adj : Adjacency) : Type 0 where
    distinct : (k : PeerId) → IsDistinct (adjacent k adj)
    before : (k x : PeerId) → linked k x adj ≡ true → Before i j k x

  Before-later :
      (i j i' j' : ℕ) (k x : PeerId)
      → (i < i') ⊎ ((i ≡ i') × (j ≤ j'))
      → Before i j k x
      → Before i' j' k x
  Before-later i j i' j' k x h b = record {
    at = b.at;
    bit = b.bit;
    earlier = omega (arith, h, b.earlier);
    at_lt = b.at_lt;
    other_lt = b.other_lt;
    at_id = b.at_id;
    other_id = b.other_id;
  }

  -- the new neighbour is none yet
  new_neighbour :
      (i j : ℕ) (adj : Adjacency)
      → Fine i j adj
      → i < length ids
      → flip j i < length ids
      → linked (id_at ids i) (id_at ids (flip j i)) adj ≡ false
  new_neighbour i j adj f hi hj =
      elim (Bool-cases (linked (id_at ids i) (id_at ids (flip j i)) adj)) [
        | inr e ↦ e
        | inl e ↦
            let b = f.before (id_at ids i) (id_at ids (flip j i)) e in
            let here : b.at ≡ i = id_at_injective ids b.at i u b.at_lt hi b.at_id in
            let there : flip b.bit b.at ≡ flip j i =
              id_at_injective ids (flip b.bit b.at) (flip j i) u b.other_lt hj b.other_id in
            let same : b.bit ≡ j = flip_injective b.bit j i (ap (flip b.bit) (sym here) ∙ there) in
            absurd (omega (arith, b.earlier, here, same))
      ]

  add_edge-Fine :
      (i j : ℕ) (adj : Adjacency)
      → i < length ids
      → Fine i j adj
      → Fine i (j + 1) (add_edge ids i j adj)
  unfolding add_edge append_to
  add_edge-Fine i j adj hi f = elim (Bool-cases (ltb (flip j i) (length ids))) [
    | inr off ↦ rw off (record {
      distinct = f.distinct;
      before = λ k x h. Before-later i j i (j + 1) k x (inr (refl, omega arith)) (f.before k x h);
    })
    | inl inside ↦
        let a = id_at ids i in
        let v = id_at ids (flip j i) in
        let in_range : flip j i < length ids = ground (arith, inside) in
        rw inside (record {
          distinct = λ k. ground (
            arith,
            f.distinct k,
            f.distinct a,
            get-put a k (adjacent a adj ++ v ∷ []) adj,
            append-IsDistinct (adjacent a adj) v (f.distinct a)
                (new_neighbour i j adj f hi in_range),
          );
          before = λ k x h. elim (Bool-cases (a == k && v == x)) [
            | inl new ↦ record {
              at = i;
              bit = j;
              earlier = inr (refl, omega arith);
              at_lt = hi;
              other_lt = in_range;
              at_id = ground (arith, new);
              other_id = ground (arith, new);
            }
            | inr old ↦
                Before-later i j i (j + 1) k x (inr (refl, omega arith))
                  (f.before k x (ground (arith, h, old, linked-append_to k x a v adj)))
          ];
        })
  ]

  add_edges-Fine :
      (i rounds j : ℕ) (adj : Adjacency)
      → i < length ids
      → Fine i j adj
      → Fine i (j + rounds) (add_edges ids i rounds j adj)
  unfolding add_edges
  add_edges-Fine i zero j adj hi f = subst (λ n. Fine i n adj) (omega arith) f
  add_edges-Fine i (suc rounds) j adj hi f =
      subst (λ n. Fine i n (add_edges ids i rounds (j + 1) (add_edge ids i j adj))) (omega arith)
        (add_edges-Fine i rounds (j + 1) (add_edge ids i j adj) hi (add_edge-Fine i j adj hi f))

  next_row : (i j : ℕ) (adj : Adjacency) → Fine i j adj → Fine (i + 1) 0 adj
  next_row i j adj f = record {
    distinct = f.distinct;
    before = λ k x h. Before-later i j (i + 1) 0 k x (inl (omega arith)) (f.before k x h);
  }

  add_peers-IsDistinct :
      (d rounds i : ℕ) (adj : Adjacency)
      → i + rounds ≤ length ids
      → Fine i 0 adj
      → (k : PeerId) → IsDistinct (adjacent k (add_peers ids d rounds i adj))
  unfolding add_peers
  add_peers-IsDistinct d zero i adj h f k = f.distinct k
  add_peers-IsDistinct d (suc rounds) i adj h f k =
      add_peers-IsDistinct d rounds (i + 1) (add_edges ids i d 0 adj) (omega (arith, h))
        (next_row i (0 + d) (add_edges ids i d 0 adj)
          (add_edges-Fine i d 0 adj (omega (arith, h)) f))
        k

  hypercube-IsDistinct : (k : PeerId) → IsDistinct (adjacent k (create_hypercube ids))
  unfolding create_hypercube
  hypercube-IsDistinct k =
      add_peers-IsDistinct (dimensions (length ids)) (length ids) 0 [] (omega arith)
        (record { distinct = λ q. tt; before = λ q x h. absurd (ground (arith, h)) }) k

  -- With distinct ids the hypercube is an overlay: symmetric, without loops and without a neighbour
  -- twice.
  pub hypercube-IsOverlay : IsOverlay (create_hypercube ids)
  hypercube-IsOverlay = record {
    symm = λ k x h. sym (linked_symm ids k x) ∙ h;
    irrefl = λ k. linked_irrefl ids k u;
    distinct = hypercube-IsDistinct;
  }
