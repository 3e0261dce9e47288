-- ===== src/Avails/Peers/Dicts.antt =====
-- What a peer dict and a search in it give.
use peer_connect.Prelude.{
  ℕ, suc, true, false, Option, none, some, List, [], ◌∷◌, ◌≡◌, refl, ap, inl, inr, arith, ◌==◌,
  filter, get, keys, values, member, Bool-cases, IsDistinct, All,
}
use peer_connect.Avails.Peers.{Text, RemotePeer, PeerDict, is_relevant, search_each, relevant_of}

-- the entries of a part of the dict are found in it
abbrev Holds : PeerDict → PeerDict → Type 0
Holds d [] = Unit
Holds d ((k, p) ∷ e) = (get k d ≡ some p) × Holds d e

not_same : (j k : ℕ) (s : List ℕ) → member k s ≡ true → member j s ≡ false → (j == k) ≡ false
not_same j k s h g = elim (Bool-cases (j == k)) [
  | inl e ↦
      let same : j ≡ k = ground (arith, e) in
      absurd (ground (arith, h, ap (λ x. member x s) same, g))
  | inr e ↦ e
]

Holds-cons :
    (j : ℕ) (q : RemotePeer) (d e : PeerDict)
    → member j (keys e) ≡ false
    → Holds d e
    → Holds ((j, q) ∷ d) e
Holds-cons j q d [] h g = tt
Holds-cons j q d ((k, p) ∷ e) h g = ground (arith, Holds-cons j q d e)

Holds-self : (d : PeerDict) → IsDistinct (keys d) → Holds d d
Holds-self [] u = tt
Holds-self ((j, q) ∷ d) u = (ground arith, Holds-cons j q d d u.0 (Holds-self d u.1))

search-Holds :
    (s : Text) (d e : PeerDict)
    → Holds d e
    → search_each s (keys e) (λ n. d) ≡ filter (is_relevant s) (values e)
unfolding search_each is_relevant
search-Holds s d [] h = refl
search-Holds s d ((k, p) ∷ e) h = rw (h.0, search-Holds s d e h.1) refl

All-weaken {ℓ κ μ} :
    {A : Type ℓ} {P : A → Type κ} {Q : A → Type μ} (xs : List A)
    → ((x : A) → P x → Q x)
    → All P xs
    → All Q xs
All-weaken [] f h = tt
All-weaken (x ∷ xs) f h = (f x h.0, All-weaken xs f h.1)

-- the peer is relevant, and stood in the dict at a step
abbrev pub Found : Text → (ℕ → PeerDict) → RemotePeer → Type 0
Found s at p = (n : ℕ) × (k : ℕ) × (get k (at n) ≡ some p) × (is_relevant s p ≡ true)

relevant-Found :
    (s : Text) (k : ℕ) (o : Option RemotePeer) (at : ℕ → PeerDict) (rest : List RemotePeer)
    → get k (at 0) ≡ o
    → All (λ p. Found s at p) rest
    → All (λ p. Found s at p) (relevant_of s o rest)
relevant-Found s k none at rest e h = h
relevant-Found s k (some p) at rest e h = elim (Bool-cases (is_relevant s p)) [
  | inl r ↦ rw r ((0, k, e, r), h)
  | inr r ↦ rw r h
]

search-Found :
    (s : Text) (ks : List ℕ) (at : ℕ → PeerDict) → All (λ p. Found s at p) (search_each s ks at)
unfolding search_each
search-Found s [] at = tt
search-Found s (k ∷ ks) at =
    relevant-Found s k (get k (at 0)) at (search_each s ks (λ n. at (suc n))) refl (
      All-weaken (search_each s ks (λ n. at (suc n))) (λ p f. (suc f.0, f.1, f.2, f.3))
        (search-Found s ks (λ n. at (suc n))))

-- However the dict changes during a search, every peer that it yields is relevant and stood in the
-- dict at a step. A search of a dict that stays as it is yields exactly its relevant peers, in its
-- order.
pub search_each_lem :
    (s : Text) (d : PeerDict) (at : ℕ → PeerDict)
    → IsDistinct (keys d)
    → All (λ p. Found s at p) (search_each s (keys d) at)
      × (search_each s (keys d) (λ n. d) ≡ filter (is_relevant s) (values d))
search_each_lem s d at u = (search-Found s (keys d) at, search-Holds s d d (Holds-self d u))
