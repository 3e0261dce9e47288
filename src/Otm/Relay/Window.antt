-- ===== src/Otm/Relay/Window.antt =====
-- The window over `all_links` from which `forward_tree_check_packet` takes the peers to ask.
use peer_connect.Prelude.{
  ℕ, zero, suc, ◌+◌, ◌-◌, ◌≤◌, min, Bool, true, false, not, List, [], ◌∷◌, ◌≡◌, ◌≢◌, refl, sym, ap,
  arith, if◌then◌else◌, length, take, drop, filter, Dict, has, keys, member, diff, All, member-keys,
  member-filter, length-filter-le, length-take,
}
use mathlib.Core.Path.{subst}
use native.Mathlib.Nat.{zero-min, min-zero, suc-min-suc}
use peer_connect.Prelude.Int.{ℤ, pos, ◌-ℤ◌, ◌+ℤ◌, ltb_ℤ}
use peer_connect.Otm.Tree.{PeerId}
use peer_connect.Otm.Relay.{Relay, slice, slice_bound}
use peer_connect.Otm.Relay.TreeCheck.{sampled_peer_ids, window_end, online_outgoing}

member-take : (x : ℕ) (n : ℕ) (s : List ℕ) → member x (take n s) ≡ true → member x s ≡ true
member-take x zero s h = cc
member-take x (suc n) [] h = h
member-take x (suc n) (y ∷ s) h = ground (arith, member-take x n s)

member-drop : (x : ℕ) (n : ℕ) (s : List ℕ) → member x (drop n s) ≡ true → member x s ≡ true
member-drop x zero s h = h
member-drop x (suc n) [] h = h
member-drop x (suc n) (y ∷ s) h = ground (arith, member-drop x n s)

member-slice : (x : ℕ) (a b : ℤ) (s : List ℕ) → member x (slice a b s) ≡ true → member x s ≡ true
unfolding slice
member-slice x a b s h = member-drop x (slice_bound (length s) a) s (
    member-take x (slice_bound (length s) b - slice_bound (length s) a)
      (drop (slice_bound (length s) a) s) h)

-- A sampled peer has links, is not the sender and has no active link yet.
pub sampled_sound :
    (p sender : PeerId) (r : Relay)
    → member p (sampled_peer_ids sender r) ≡ true
    → (has p r.all_links ≡ true) × (p ≢ sender) × (has p r.active_links ≡ false)
unfolding sampled_peer_ids
sampled_sound p sender r h =
    let within = slice r.window_index (window_end r +ℤ pos 1) (keys r.all_links) in
    ground (
      arith,
      member-filter (λ y. not (member y (keys r.active_links))) p (diff within (sender ∷ [])),
      member-filter (λ y. not (member y (sender ∷ []))) p within,
      member-slice p r.window_index (window_end r +ℤ pos 1) (keys r.all_links),
      member-keys p r.all_links,
      member-keys p r.active_links,
    )

-- the window's width, from its two bounds
window_width :
    (n i fanout k : ℕ)
    → k ≤ n
    → k ≤ fanout + 1
    → slice_bound n (
          (if ltb_ℤ (pos i +ℤ pos fanout) (pos n) then pos i +ℤ pos fanout else pos n)
          -ℤ pos k
          +ℤ pos 1)
        - slice_bound n (pos i)
        + k
      ≤ fanout + 1
unfolding ◌+ℤ◌ ◌-ℤ◌
window_width n i fanout k h1 h2 = ground arith

length-slice-le :
    (a b : ℤ) (s : List ℕ)
    → length (slice a b s) ≤ slice_bound (length s) b - slice_bound (length s) a
unfolding slice
length-slice-le a b s = omega (
  arith,
  length-take {0} (slice_bound (length s) b - slice_bound (length s) a)
      (drop (slice_bound (length s) a) s),
)

length-keys : (d : Dict (ℕ × ℕ)) → length (keys d) ≡ length d
length-keys [] = refl
length-keys (e ∷ d) = ap suc (length-keys d)

length-slice-window :
    (r : Relay) (i : ℕ)
    → r.window_index ≡ pos i
    → online_outgoing r ≤ length r.all_links
    → online_outgoing r ≤ r.session.fanout + 1
    → length (slice r.window_index (window_end r +ℤ pos 1) (keys r.all_links)) + online_outgoing r
      ≤ r.session.fanout + 1
unfolding window_end
length-slice-window r i e h1 h2 = rw e (
    omega (
      arith,
      length-slice-le (pos i)
          ((if ltb_ℤ (pos i +ℤ pos r.session.fanout) (pos (length r.all_links))
              then pos i +ℤ pos r.session.fanout
              else pos (length r.all_links))
            -ℤ pos (online_outgoing r)
            +ℤ pos 1)
          (keys r.all_links),
      subst
          (λ (n : ℕ).
            slice_bound n (
                (if ltb_ℤ (pos i +ℤ pos r.session.fanout) (pos (length r.all_links))
                  then pos i +ℤ pos r.session.fanout
                  else pos (length r.all_links))
                -ℤ pos (online_outgoing r)
                +ℤ pos 1)
              - slice_bound n (pos i)
              + online_outgoing r
            ≤ r.session.fanout + 1)
          (sym (length-keys r.all_links))
          (window_width (length r.all_links) i r.session.fanout (online_outgoing r) h1 h2),
    ))

-- With a window index that is not negative, and with no more online outgoing active links than links in
-- all and than the fanout and one, a call asks at most one peer more than the fanout, less the
-- links that already forward.
pub length-sampled-le :
    (sender : PeerId) (r : Relay) (i : ℕ)
    → r.window_index ≡ pos i
    → online_outgoing r ≤ length r.all_links
    → online_outgoing r ≤ r.session.fanout + 1
    → length (sampled_peer_ids sender r) + online_outgoing r ≤ r.session.fanout + 1
unfolding sampled_peer_ids
length-sampled-le sender r i e h1 h2 =
    let within = slice r.window_index (window_end r +ℤ pos 1) (keys r.all_links) in
    omega (
      arith,
      length-slice-window r i e h1 h2,
      length-filter-le {0} (λ y. not (member y (sender ∷ []))) within,
      length-filter-le {0} (λ y. not (member y (keys r.active_links))) (diff within (sender ∷ [])),
    )

filter-All : (p : ℕ → Bool) (s : List ℕ) → All (λ x. p x ≡ true) s → filter p s ≡ s
filter-All p [] h = refl
filter-All p (x ∷ s) h = ground (arith, filter-All p s h.1)

All-not-member :
    (x : ℕ) (s : List ℕ) → member x s ≡ false → All (λ y. not (member y (x ∷ [])) ≡ true) s
All-not-member x [] h = tt
All-not-member x (y ∷ s) h = ground (arith, All-not-member x s)

All-true : (s : List ℕ) → All (λ y. not (member y []) ≡ true) s
All-true [] = tt
All-true (y ∷ s) = (refl, All-true s)

take-min : (k : ℕ) (s : List ℕ) → take (min k (length s)) s ≡ take k s
take-min zero s = rw zero-min
take-min (suc k) [] = rw min-zero
take-min (suc k) (x ∷ s) = rw (suc-min-suc, take-min k s)

root_bound :
    (n fanout : ℕ)
    → slice_bound n (
          (if ltb_ℤ (pos 0 +ℤ pos fanout) (pos n) then pos 0 +ℤ pos fanout else pos n)
          -ℤ pos 0
          +ℤ pos 1)
        - slice_bound n (pos 0)
      ≡ min (fanout + 1) n
unfolding ◌+ℤ◌ ◌-ℤ◌
root_bound n fanout = ground arith

root_start : (n : ℕ) → slice_bound n (pos 0) ≡ 0
root_start n = omega arith

slice-root :
    (r : Relay)
    → r.window_index ≡ pos 0
    → r.active_links ≡ []
    → slice r.window_index (window_end r +ℤ pos 1) (keys r.all_links)
      ≡ take (r.session.fanout + 1) (keys r.all_links)
unfolding window_end slice
slice-root r e1 e2 =
    let ks = keys r.all_links in
    rw (e1, e2, ← length-keys r.all_links, root_bound (length ks) r.session.fanout, root_start)
      (take-min (r.session.fanout + 1) ks)

-- The root of a session asks the first peers of `all_links`, one more than the fanout if there are
-- so many.
pub sampled-root :
    (root : PeerId) (r : Relay)
    → r.window_index ≡ pos 0
    → r.active_links ≡ []
    → has root r.all_links ≡ false
    → sampled_peer_ids root r ≡ take (r.session.fanout + 1) (keys r.all_links)
unfolding sampled_peer_ids
sampled-root root r e1 e2 h =
    let asked = take (r.session.fanout + 1) (keys r.all_links) in
    let absent : member root asked ≡ false = ground (
      arith,
      member-take root (r.session.fanout + 1) (keys r.all_links),
      member-keys root r.all_links,
    ) in
    rw (
      slice-root r e1 e2,
      e2,
      filter-All _ asked (All-not-member root asked absent),
      filter-All _ asked (All-true asked),
    )
