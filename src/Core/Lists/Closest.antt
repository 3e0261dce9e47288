-- ===== src/Core/Lists/Closest.antt =====
-- Which list of peers is chosen, which are fetched, and what a list holds.
use Prim.Native.Nat.{bit_xor}
use peer_connect.Prelude.{
  ℕ, zero, suc, ◌+◌, ◌-◌, ◌^◌, ◌≤◌, ◌<◌, true, ◌&&◌, ◌||◌, List, [], ◌∷◌, ◌≡◌, refl, sym, ap, ◌∙◌,
  ◌⊎◌, inl, inr, arith, ltb, leb, ◌==◌, if◌then◌else◌, get, member, union, Bool-cases, All, get-put,
  member-union,
}
use peer_connect.Core.Lists.{
  node_list_ids, Storage, get_list_of_peers, or_no_peers, store_peers_in_list, closest_from,
  get_closest_list_id, more_peers, fetched,
}

closest_from_least :
    (long_id nearest prev : ℕ) (ids : List ℕ)
    → ((bit_xor long_id nearest ≡ prev)
        → bit_xor long_id (closest_from long_id nearest prev ids) ≤ prev)
      × ((k : ℕ)
          → member k ids ≡ true
          → bit_xor long_id k < prev
          → bit_xor long_id (closest_from long_id nearest prev ids) ≤ bit_xor long_id k)
unfolding closest_from
closest_from_least long_id nearest prev [] =
    ((λ e. omega (arith, e)), (λ k m h. absurd (ground (arith, m))))
closest_from_least long_id nearest prev (i ∷ ids) =
    let current = bit_xor long_id i in
    let closer = closest_from_least long_id i current ids in
    let same = closest_from_least long_id nearest prev ids in
    elim (Bool-cases (ltb current prev)) [
      | inl e ↦
          let first = closer.0 refl in
          rw e (
            (λ x. ground (arith, e, first)),
            (λ k m h.
                ground (arith, e, m, first, closer.1 k, λ (x : i ≡ k). ap (bit_xor long_id) x)),
          )
      | inr e ↦ rw e (
        same.0,
        (λ k m h. ground (arith, e, m, h, same.1 k, λ (x : i ≡ k). ap (bit_xor long_id) x)),
      )
    ]

member-closest_from :
    (long_id nearest prev : ℕ) (ids : List ℕ)
    → (closest_from long_id nearest prev ids ≡ nearest)
      ⊎ (member (closest_from long_id nearest prev ids) ids ≡ true)
unfolding closest_from
member-closest_from long_id nearest prev [] = inl refl
member-closest_from long_id nearest prev (i ∷ ids) = ground (
  arith,
  member-closest_from long_id i (bit_xor long_id i) ids,
  member-closest_from long_id nearest prev ids,
  λ (x : closest_from long_id i (bit_xor long_id i) ids ≡ i). sym x,
)

-- The list that a peer enters itself in is the closest one by the xor metric, if all lists are
-- within 160 bits of the peer; and it is one of the lists, if 0 is one, as it is.
pub get_closest_list_id_lem :
    (long_id k : ℕ) (ids : List ℕ)
    → member 0 ids ≡ true
    → member k ids ≡ true
    → bit_xor long_id k < 2 ^ 160
    → (member (get_closest_list_id long_id ids) ids ≡ true)
      × (bit_xor long_id (get_closest_list_id long_id ids) ≤ bit_xor long_id k)
unfolding get_closest_list_id
get_closest_list_id_lem long_id k ids zero_in m h = (
  elim (member-closest_from long_id 0 (2 ^ 160) ids) [
    | inl e ↦ ap (λ x. member x ids) e ∙ zero_in
    | inr e ↦ e
  ],
  (closest_from_least long_id 0 (2 ^ 160) ids).1 k m h,
)

-- Of two or more lists the last one is never fetched, whatever the index at the start and however
-- many the calls: the index starts anew before it.
pub fetched_never_last :
    (calls count index : ℕ) → 2 ≤ count → All (λ i. i < count - 1) (fetched calls count index)
unfolding fetched more_peers
fetched_never_last zero count index h = tt
fetched_never_last (suc calls) count index h = (
  ground (arith, h),
  fetched_never_last calls count ((if leb (count - 1) index then 0 else index) + 1) h,
)

-- What is stored in a list is found there, with what was there before; another list stays, and an
-- id of no list is refused.
pub store_peers_in_list_lem :
    (list_key other x : ℕ) (peers : List ℕ) (s : Storage)
    → ((store_peers_in_list list_key peers s).0 ≡ member list_key node_list_ids)
      × (member x (or_no_peers (get_list_of_peers other (store_peers_in_list list_key peers s).1))
          ≡ (member x (or_no_peers (get_list_of_peers other s))
              || (list_key == other && (member list_key node_list_ids && member x peers))))
unfolding store_peers_in_list get_list_of_peers
store_peers_in_list_lem list_key other x peers s =
    elim (Bool-cases (member list_key node_list_ids)) [
      | inr e ↦ rw e (refl, ground arith)
      | inl e ↦ rw e (
        refl,
        ground (
          arith,
          get-put list_key other (union (or_no_peers (get list_key s)) (union [] peers)) s,
          member-union x (or_no_peers (get list_key s)) (union [] peers),
          member-union x [] peers,
          λ (q : list_key ≡ other). ap (λ t. get t s) q,
        ),
      )
    ]
