-- ===== src/Core/Kademlia/Stores.antt =====
-- What the receiver of the RPCs keeps, and what it answers.
use peer_connect.Prelude.{
  ℕ, Bool, true, false, none, List, [], ◌∷◌, ◌++◌, ◌≡◌, refl, sym, ap, ◌∙◌, inl, inr, arith, ◌==◌,
  if◌then◌else◌, get, put, keys, member, union, Option-cases, Bool-cases, IsDistinct, All,
  member-append, put-IsDistinct,
}
use peer_connect.Core.Lists.{
  Storage, store_peers_in_list, get_list_of_peers, node_list_ids, or_no_peers,
}
use peer_connect.Core.Lists.Closest.{store_peers_in_list_lem}
use peer_connect.Core.Kademlia.Rpc.{
  Receiver, value_list, Rpc, Arrival, store_value, find_node, find_value, find_list_of_peers,
  store_peers, check_in, serve, answer, answer_all, send_each, send_peer_lists,
}

abbrev ToPeers : List ℕ → List (ℕ × ℕ × ℕ) → Type 0
ToPeers known [] = Unit
ToPeers known ((p, k, i) ∷ sent) = (member p known ≡ true) × ToPeers known sent

-- the lists are those of the network, each once, and lists were sent to welcomed peers only
pub record IsKept (r : Receiver) : Type 0 where
  pub official : All (λ k. member k node_list_ids ≡ true) (keys r.lists)
  pub once : IsDistinct (keys r.lists)
  pub to_welcomed : ToPeers r.welcomed r.sent

All-keys-put :
    (P : ℕ → Type 0) (k : ℕ) (v : List ℕ) (s : Storage)
    → P k
    → All P (keys s)
    → All P (keys (put k v s))
All-keys-put P k v [] h a = (h, tt)
All-keys-put P k v ((j, w) ∷ s) h a = elim (Bool-cases (j == k)) [
  | inl e ↦ rw e a
  | inr e ↦ rw e (a.0, All-keys-put P k v s h a.1)
]

store-IsKept :
    (k : ℕ) (ps : List ℕ) (s : Storage)
    → All (λ k. member k node_list_ids ≡ true) (keys s)
    → IsDistinct (keys s)
    → All (λ k. member k node_list_ids ≡ true) (keys (store_peers_in_list k ps s).1)
      × IsDistinct (keys (store_peers_in_list k ps s).1)
unfolding store_peers_in_list
store-IsKept k ps s a u = elim (Bool-cases (member k node_list_ids)) [
  | inl e ↦ rw e (
    All-keys-put (λ j. member j node_list_ids ≡ true) k
        (union (or_no_peers (get k s)) (union [] ps)) s e a,
    put-IsDistinct k (union (or_no_peers (get k s)) (union [] ps)) s u,
  )
  | inr e ↦ rw e (a, u)
]

ToPeers-append :
    (known : List ℕ) (s t : List (ℕ × ℕ × ℕ))
    → ToPeers known s
    → ToPeers known t
    → ToPeers known (s ++ t)
ToPeers-append known [] t a b = b
ToPeers-append known ((p, k, i) ∷ s) t a b = (a.0, ToPeers-append known s t a.1 b)

ToPeers-more :
    (known : List ℕ) (q : ℕ) (s : List (ℕ × ℕ × ℕ)) → ToPeers known s → ToPeers (known ++ q ∷ []) s
ToPeers-more known q [] a = tt
ToPeers-more known q ((p, k, i) ∷ s) a =
    (ground (arith, member-append p known (q ∷ []), a.0), ToPeers-more known q s a.1)

ToPeers-each :
    (known : List ℕ) (p k : ℕ) (is : List ℕ)
    → member p known ≡ true
    → ToPeers known (send_each p k is)
ToPeers-each known p k [] h = tt
ToPeers-each known p k (i ∷ is) h = (h, ToPeers-each known p k is h)

ToPeers-if :
    (b : Bool) (known : List ℕ) (s : List (ℕ × ℕ × ℕ))
    → ToPeers known s
    → ToPeers known (if b then s else [])
ToPeers-if true known s h = h
ToPeers-if false known s h = tt

ToPeers-lists :
    (own : ℕ) (neighbors : ℕ → List ℕ) (known : List ℕ) (p : ℕ) (s : Storage)
    → member p known ≡ true
    → ToPeers known (send_peer_lists own neighbors p s)
unfolding send_peer_lists
ToPeers-lists own neighbors known p [] h = tt
ToPeers-lists own neighbors known p ((k, is) ∷ s) h =
    ToPeers-append known _ (send_peer_lists own neighbors p s)
      (ToPeers-if _ known (send_each p k is) (ToPeers-each known p k is h))
      (ToPeers-lists own neighbors known p s h)

module _ (own : ℕ) where
  check_in-IsKept :
      (neighbors : ℕ → List ℕ) (b : Bool) (p : ℕ) (r : Receiver)
      → IsKept r
      → IsKept (check_in own neighbors b p r)
  unfolding check_in
  check_in-IsKept neighbors false p r h = h
  check_in-IsKept neighbors true p r h = record {
    official = h.official;
    once = h.once;
    to_welcomed =
        ToPeers-append (r.welcomed ++ p ∷ []) r.sent (send_peer_lists own neighbors p r.lists)
          (ToPeers-more r.welcomed p r.sent h.to_welcomed)
          (ToPeers-lists own neighbors (r.welcomed ++ p ∷ []) p r.lists
            (ground (arith, member-append p r.welcomed (p ∷ []))));
  }

  serve-IsKept :
      (neighbors : ℕ → List ℕ) (rpc : Rpc) (r : Receiver)
      → IsKept r
      → IsKept (serve neighbors rpc r).1
  unfolding serve
  serve-IsKept neighbors (store_value k v) r h = record {
    official = h.official;
    once = h.once;
    to_welcomed = h.to_welcomed;
  }
  serve-IsKept neighbors (find_node k) r h = h
  serve-IsKept neighbors (find_value k) r h = h
  serve-IsKept neighbors (find_list_of_peers k) r h = h
  serve-IsKept neighbors (store_peers k ps) r h =
      let (official, once) = store-IsKept k ps r.lists h.official h.once in
      record { official = official; once = once; to_welcomed = h.to_welcomed }

  answer-IsKept :
      (m n : ℕ → List ℕ) (b : Bool) (p : ℕ) (rpc : Rpc) (r : Receiver)
      → IsKept r
      → IsKept (answer own m n b p rpc r).1
  unfolding answer
  answer-IsKept m n b p rpc r h =
      serve-IsKept n rpc (check_in own m b p r) (check_in-IsKept m b p r h)

  -- Whatever calls arrive and from whom, these stay true: the lists are those of the network, each
  -- once, and lists were sent only to peers that were welcomed as new.
  pub answer_all-IsKept :
      (calls : List Arrival) (r : Receiver) → IsKept r → IsKept (answer_all own calls r)
  unfolding answer_all
  answer_all-IsKept [] r h = h
  answer_all-IsKept (a ∷ calls) r h =
      answer_all-IsKept calls (answer own a.before a.after a.is_new a.sender a.rpc r).1
        (answer-IsKept a.before a.after a.is_new a.sender a.rpc r h)

  -- the peer is in the list
  abbrev Lists : ℕ → ℕ → Storage → Type 0
  Lists k x s = member x (or_no_peers (get_list_of_peers k s)) ≡ true

  check_in-lists :
      (m : ℕ → List ℕ) (b : Bool) (p : ℕ) (r : Receiver) → (check_in own m b p r).lists ≡ r.lists
  unfolding check_in
  check_in-lists m false p r = refl
  check_in-lists m true p r = refl

  serve-Lists :
      (n : ℕ → List ℕ) (k x : ℕ) (rpc : Rpc) (r : Receiver)
      → Lists k x r.lists
      → Lists k x (serve n rpc r).1.lists
  unfolding serve
  serve-Lists n k x (store_value j v) r h = h
  serve-Lists n k x (find_node j) r h = h
  serve-Lists n k x (find_value j) r h = h
  serve-Lists n k x (find_list_of_peers j) r h = h
  serve-Lists n k x (store_peers j ps) r h =
      rw ((store_peers_in_list_lem j k x ps r.lists).1, h) refl

  answer-Lists :
      (m n : ℕ → List ℕ) (k x : ℕ) (b : Bool) (p : ℕ) (rpc : Rpc) (r : Receiver)
      → Lists k x r.lists
      → Lists k x (answer own m n b p rpc r).1.lists
  unfolding answer
  answer-Lists m n k x b p rpc r h =
      serve-Lists n k x rpc (check_in own m b p r) (rw (check_in-lists m b p r) h)

  answer_all-Lists :
      (k x : ℕ) (calls : List Arrival) (r : Receiver)
      → Lists k x r.lists
      → Lists k x (answer_all own calls r).lists
  unfolding answer_all
  answer_all-Lists k x [] r h = h
  answer_all-Lists k x (a ∷ calls) r h =
      answer_all-Lists k x calls (answer own a.before a.after a.is_new a.sender a.rpc r).1
        (answer-Lists a.before a.after k x a.is_new a.sender a.rpc r h)

  find-Lists :
      (m n : ℕ → List ℕ) (k x : ℕ) (b : Bool) (p : ℕ) (r : Receiver)
      → Lists k x r.lists
      → (vs : List ℕ) × ((answer own m n b p (find_list_of_peers k) r).0 ≡ value_list vs)
        × (member x vs ≡ true)
  unfolding answer
  find-Lists m n k x b p r h = elim (Option-cases (get_list_of_peers k r.lists)) [
    | inl e ↦
        let bad : member x (or_no_peers none) ≡ true =
          ap (λ o. member x (or_no_peers o)) (sym e) ∙ h in
        cc
    | inr (vs, e) ↦
        (vs, rw (check_in-lists m b p r, e) refl, ap (λ o. member x (or_no_peers o)) (sym e) ∙ h)
  ]

  stored_now :
      (m n : ℕ → List ℕ) (k x : ℕ) (b : Bool) (p : ℕ) (ps : List ℕ) (r : Receiver)
      → member k node_list_ids ≡ true
      → member x ps ≡ true
      → Lists k x (answer own m n b p (store_peers k ps) r).1.lists
  unfolding answer
  stored_now m n k x b p ps r official there =
      rw ((store_peers_in_list_lem k k x ps (check_in own m b p r).lists).1)
        (ground (arith, official, there))

  -- What a peer has stored in a list of the network is in what any peer finds there later, whatever
  -- calls come between: the lists only grow.
  pub find_list_of_peers_lem :
      (m n : ℕ → List ℕ) (k x q : ℕ) (c : Bool) (ps : List ℕ) (a : Arrival) (calls : List Arrival)
      (r : Receiver)
      → a.rpc ≡ store_peers k ps
      → member k node_list_ids ≡ true
      → member x ps ≡ true
      → (vs : List ℕ) × ((answer own m n c q
            (find_list_of_peers k)
            (answer_all own (a ∷ calls) r)).0
          ≡ value_list vs)
        × (member x vs ≡ true)
  unfolding answer_all
  find_list_of_peers_lem m n k x q c ps a calls r stores official there =
      find-Lists m n k x c q
        (answer_all own calls (answer own a.before a.after a.is_new a.sender a.rpc r).1)
        (answer_all-Lists k x calls (answer own a.before a.after a.is_new a.sender a.rpc r).1
          (rw stores (stored_now a.before a.after k x a.is_new a.sender ps r official there)))
