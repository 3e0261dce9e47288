-- ===== src/Avails/Books/Laws.antt =====
-- What the book keeper of transfers keeps apart, finds, and loses.
use peer_connect.Prelude.{
  ℕ, true, false, not, ◌&&◌, ◌||◌, none, some, List, [], ◌∷◌, ◌≡◌, refl, ap, ◌⊎◌, inl, inr, arith,
  ◌==◌, if◌then◌else◌, has, put, keys, member, add, discard, Bool-cases, IsDistinct, get-put,
  has-put, member-keys, member-filter, member-add, put-IsDistinct,
}
use peer_connect.Otm.Tree.{PeerId}
use peer_connect.Avails.Books.{
  Sets, at, update, touch, merge, Books, add_to_current, add_to_completed, add_to_continued,
  add_to_scheduled, swap, get_transfer, check_running, stop_all_files, all_of, Op, to_current,
  to_completed, to_continued, swapped, found, to_scheduled, checked, stopped, apply, apply_all,
}

at-put : (p q : PeerId) (s : List ℕ) (d : Sets) → at q (put p s d) ≡ (if p == q then s else at q d)
at-put p q s d = ground (arith, get-put p q s d)

at-touch : (p q : PeerId) (d : Sets) → at q (touch p d) ≡ at q d
at-touch p q d = ground (arith, at-put p q (at p d) d, λ (e : p ≡ q). ap (λ t. at t d) e)

-- Every peer that the second dict has gets its set from there.
at-merge :
    (q : PeerId) (d e : Sets)
    → IsDistinct (keys e)
    → at q (merge d e) ≡ (if has q e then at q e else at q d)
at-merge q d [] u = refl
at-merge q d ((p, s) ∷ e) u = ground (
  arith,
  at-merge q (put p s d) e u.1,
  at-put p q s d,
  member-keys p e,
  u.0,
  λ (x : p ≡ q). ap (λ t. has t e) x,
)

-- a running transfer is not a paused one, and the running ones are a dict of peers
pub record IsKept (b : Books) : Type 0 where
  pub apart :
      (q : PeerId) (x : ℕ) → member x (at q b.current) ≡ true → member x (at q b.continued) ≡ false
  pub peers : IsDistinct (keys b.current)

member-discard : (h x : ℕ) (s : List ℕ) → member x (discard h s) ≡ (not (x == h) && member x s)
member-discard h x s = member-filter (λ y. not (y == h)) x s

module _ (p : PeerId) (h : ℕ) (b : Books) (kept : IsKept b) where
  add_to_current-IsKept : IsKept (add_to_current p h b)
  unfolding add_to_current
  add_to_current-IsKept = record {
    apart = λ q x m. ground (
      arith,
      m,
      at-put p q (add h (at p b.current)) b.current,
      at-put p q (discard h (at p b.continued)) b.continued,
      member-add h x (at p b.current),
      member-discard h x (at p b.continued),
      kept.apart q x,
      kept.apart p x,
    );
    peers = put-IsDistinct p (add h (at p b.current)) b.current kept.peers;
  }

  add_to_completed-IsKept : IsKept (add_to_completed p h b)
  unfolding add_to_completed
  add_to_completed-IsKept = record {
    apart = λ q x m. ground (
      arith,
      m,
      at-put p q (discard h (at p b.current)) b.current,
      at-put p q (discard h (at p b.continued)) b.continued,
      member-discard h x (at p b.current),
      member-discard h x (at p b.continued),
      kept.apart q x,
      kept.apart p x,
    );
    peers = put-IsDistinct p (discard h (at p b.current)) b.current kept.peers;
  }

  add_to_continued-IsKept : IsKept (add_to_continued p h b)
  unfolding add_to_continued
  add_to_continued-IsKept = record {
    apart = λ q x m. ground (
      arith,
      m,
      at-put p q (discard h (at p b.current)) b.current,
      at-put p q (add h (at p b.continued)) b.continued,
      member-discard h x (at p b.current),
      member-add h x (at p b.continued),
      kept.apart q x,
      kept.apart p x,
    );
    peers = put-IsDistinct p (discard h (at p b.current)) b.current kept.peers;
  }

  swap-IsKept : IsKept (swap p h b).1
  unfolding swap
  swap-IsKept = elim (Bool-cases (member h (at p b.continued))) [
    | inl e ↦ rw e (record {
      apart = λ q x m. ground (
        arith,
        m,
        at-put p q (discard h (at p b.continued)) b.continued,
        member-discard h x (at p b.continued),
        kept.apart q x,
        kept.apart p x,
      );
      peers = kept.peers;
    })
    | inr e ↦ rw e (record {
      apart = λ q x m. ground (arith, m, at-touch p q b.continued, kept.apart q x);
      peers = kept.peers;
    })
  ]

-- The three searches add empty sets only.
get_transfer_same :
    (p q : PeerId) (h : ℕ) (b : Books)
    → (at q (get_transfer p h b).1.current ≡ at q b.current)
      × (at q (get_transfer p h b).1.continued ≡ at q b.continued)
      × (at q (get_transfer p h b).1.completed ≡ at q b.completed)
      × ((get_transfer p h b).1.current ≡ touch p b.current)
unfolding get_transfer
get_transfer_same p q h b =
    ground (arith, at-touch p q b.current, at-touch p q b.continued, at-touch p q b.completed)

touched-IsKept :
    (b b' : Books) (p : PeerId)
    → IsKept b
    → ((q : PeerId) → at q b'.continued ≡ at q b.continued)
    → b'.current ≡ touch p b.current
    → IsKept b'
touched-IsKept b b' p kept same e = record {
  apart = λ q x m. rw (same q) (kept.apart q x (ground (arith, m, e, at-touch p q b.current)));
  peers = rw e (put-IsDistinct p (at p b.current) b.current kept.peers);
}

List-cases : (xs : List ℕ) → (xs ≡ []) ⊎ ((x : ℕ) × (ys : List ℕ) × (xs ≡ x ∷ ys))
List-cases [] = inl refl
List-cases (x ∷ xs) = inr (x, xs, refl)

pub apply-IsKept : (op : Op) (b : Books) → IsKept b → IsKept (apply op b)
unfolding apply add_to_scheduled check_running stop_all_files
apply-IsKept (to_current p h) b k = add_to_current-IsKept p h b k
apply-IsKept (to_completed p h) b k = add_to_completed-IsKept p h b k
apply-IsKept (to_continued p h) b k = add_to_continued-IsKept p h b k
apply-IsKept (swapped p h) b k = swap-IsKept p h b k
apply-IsKept (found p h) b k =
    touched-IsKept b (get_transfer p h b).1 p k (λ q. (get_transfer_same p q h b).1)
      (get_transfer_same p p h b).3
apply-IsKept (to_scheduled key h) b k = record { apart = k.apart; peers = k.peers }
apply-IsKept (checked p) b k =
    touched-IsKept b (record b { current = touch p b.current }) p k (λ q. refl) refl
apply-IsKept stopped b k = elim (List-cases (all_of b.current)) [
  | inl e ↦ rw (e, apply) (record { apart = λ q x m. absurd (ground arith); peers = tt })
  | inr (h, running, e) ↦ rw (e, apply) k
]

-- Whatever is done to the books and in whatever order, no transfer of a peer counts both as running
-- and as paused.
pub apply_all-IsKept : (ops : List Op) (b : Books) → IsKept b → IsKept (apply_all ops b)
unfolding apply_all
apply_all-IsKept [] b k = k
apply_all-IsKept (op ∷ ops) b k = apply_all-IsKept ops (apply op b) (apply-IsKept op b k)

-- A lookup finds a transfer exactly if it is running, completed or paused, and changes no set.
pub get_transfer_lem :
    (p q : PeerId) (h : ℕ) (b : Books)
    → ((get_transfer p h b).0 ≡ (
        if member h (at p b.current) || member h (at p b.completed) || member h (at p b.continued)
        then some h
        else none))
      × (at q (get_transfer p h b).1.current ≡ at q b.current)
      × (at q (get_transfer p h b).1.continued ≡ at q b.continued)
      × (at q (get_transfer p h b).1.completed ≡ at q b.completed)
unfolding get_transfer
get_transfer_lem p q h b =
    ground (arith, at-touch p q b.current, at-touch p q b.continued, at-touch p q b.completed)

-- no transfer of any peer runs after one is paused that was the only one, or where none ran before
all_of-discard :
    (p : PeerId) (h : ℕ) (d : Sets) → all_of d ≡ [] → all_of (update p (discard h) d) ≡ []
all_of-discard p h [] e = refl
all_of-discard p h ((q, []) ∷ d) e = elim (Bool-cases (q == p)) [
  | inl same ↦ ground (arith, same, e)
  | inr other ↦ ground (arith, other, e, all_of-discard p h d e)
]
all_of-discard p h ((q, x ∷ s) ∷ d) e = cc

stop_all_files-idle :
    (b : Books)
    → all_of b.current ≡ []
    → stop_all_files b ≡ (true, record b { continued = merge b.continued b.current; current = [] })
unfolding stop_all_files
stop_all_files-idle b e = rw e refl

paused_found :
    (p : PeerId) (h : ℕ) (b : Books)
    → member h (at p b.completed) ≡ false
    → (get_transfer p h (add_to_continued p h b)).0 ≡ some h
unfolding get_transfer add_to_continued
paused_found p h b e = ground (
  arith,
  e,
  at-put p p (discard h (at p b.current)) b.current,
  at-put p p (add h (at p b.continued)) b.continued,
  member-add h h (at p b.continued),
  member-discard h h (at p b.current),
)

paused_lost :
    (p : PeerId) (h : ℕ) (b : Books)
    → IsKept b
    → member h (at p b.completed) ≡ false
    → all_of b.current ≡ []
    → (get_transfer p h (stop_all_files (add_to_continued p h b)).1).0 ≡ none
unfolding get_transfer add_to_continued
paused_lost p h b k e idle =
    let running = discard h (at p b.current) in
    rw (stop_all_files-idle (add_to_continued p h b) (all_of-discard p h b.current idle)) (
      ground (
        arith,
        e,
        at-merge p (update p (add h) b.continued) (put p running b.current)
            (put-IsDistinct p running b.current k.peers),
        has-put p p running b.current,
        at-put p p running b.current,
        member-discard h h (at p b.current),
      ))

-- Stopping all transfers raises and stops none as soon as a transfer runs. Where none runs, it loses a
-- transfer that was paused before, unless that is completed.
pub stop_all_files_lem :
    (p : PeerId) (h x : ℕ) (xs : List ℕ) (b b' : Books)
    → all_of b'.current ≡ x ∷ xs
    → IsKept b
    → all_of b.current ≡ []
    → member h (at p b.completed) ≡ false
    → (stop_all_files b' ≡ (false, b'))
      × ((stop_all_files (add_to_continued p h b)).0 ≡ true)
      × ((get_transfer p h (add_to_continued p h b)).0 ≡ some h)
      × ((get_transfer p h (stop_all_files (add_to_continued p h b)).1).0 ≡ none)
unfolding stop_all_files add_to_continued
stop_all_files_lem p h x xs b b' runs k idle e = (
  rw runs refl,
  ap (λ v. v.0) (stop_all_files-idle (add_to_continued p h b) (all_of-discard p h b.current idle)),
  paused_found p h b e,
  paused_lost p h b k e idle,
)
