-- ===== src/Transfers/Rumor/Sample.antt =====
-- The reservoir sampling of the peers that hear a rumor.
use peer_connect.Prelude.{
  ℕ, zero, suc, ◌+◌, ◌%◌, min, true, false, not, List, [], ◌∷◌, ◌++◌, ◌≡◌, refl, ap, ◌⊎◌, inr,
  arith, ltb, if◌then◌else◌, length, set, member, diff, Bool-cases, IsDistinct, member-filter,
  member-append, length-append, filter-IsDistinct, append-IsDistinct, length-set,
}
use peer_connect.Otm.Tree.{PeerId}
use peer_connect.Transfers.Rumor.{RumorMessageItem, reservoir_from, reservoir_of}

member-set :
    (x p : PeerId) (j : ℕ) (s : List PeerId)
    → member x (set s j p) ≡ true
    → (p ≡ x) ⊎ (member x s ≡ true)
member-set x p j [] h = absurd (ground (arith, h))
member-set x p zero (y ∷ s) h = ground (arith, h)
member-set x p (suc j) (y ∷ s) h = ground (arith, h, member-set x p j s)

set-IsDistinct :
    (p : PeerId) (j : ℕ) (s : List PeerId)
    → IsDistinct s
    → member p s ≡ false
    → IsDistinct (set s j p)
set-IsDistinct p j [] u h = tt
set-IsDistinct p zero (y ∷ s) u h = (ground (arith, h), u.1)
set-IsDistinct p (suc j) (y ∷ s) u h = (
  ground (arith, h, u.0, Bool-cases (member y (set s j p)), member-set y p j s),
  set-IsDistinct p j s u.1 (ground (arith, h)),
)

-- the next reservoir
abbrev next : ℕ → ℕ → ℕ → PeerId → List PeerId → List PeerId
next i size j p reservoir =
    if ltb i size then reservoir ++ p ∷ [] else if ltb j size then set reservoir j p else reservoir

next-IsDistinct :
    (i size j : ℕ) (p : PeerId) (r : List PeerId)
    → IsDistinct r
    → member p r ≡ false
    → length r ≡ min i size
    → IsDistinct (next i size j p r) × (length (next i size j p r) ≡ min (i + 1) size)
next-IsDistinct i size j p r u h e = ground (
  arith,
  append-IsDistinct r p u h,
  set-IsDistinct p j r u h,
  length-set r j p,
  length-append r (p ∷ []),
  e,
)

member-next :
    (i size j : ℕ) (p x : PeerId) (r : List PeerId)
    → member x (next i size j p r) ≡ true
    → (p ≡ x) ⊎ (member x r ≡ true)
member-next i size j p x r h = ground (arith, h, member-append x r (p ∷ []), member-set x p j r)

-- every peer of the reservoir is one of those before and those that come
pub member-reservoir_from :
    (i size : ℕ) (randint : ℕ → ℕ) (ps r : List PeerId) (x : PeerId)
    → member x (reservoir_from i size randint ps r) ≡ true
    → (member x ps ≡ true) ⊎ (member x r ≡ true)
unfolding reservoir_from
member-reservoir_from i size randint [] r x h = inr h
member-reservoir_from i size randint (p ∷ ps) r x h =
    let r' = next i size (randint i % (i + 1)) p r in
    ground (
      arith,
      member-reservoir_from (i + 1) size randint ps r' x h,
      member-next i size (randint i % (i + 1)) p x r,
    )

reservoir_from-IsDistinct :
    (i size : ℕ) (randint : ℕ → ℕ) (ps r : List PeerId)
    → IsDistinct ps
    → IsDistinct r
    → ((x : PeerId) → member x ps ≡ true → member x r ≡ false)
    → length r ≡ min i size
    → IsDistinct (reservoir_from i size randint ps r)
      × (length (reservoir_from i size randint ps r) ≡ min (i + length ps) size)
unfolding reservoir_from
reservoir_from-IsDistinct i size randint [] r us u apart e = (u, omega (arith, e))
reservoir_from-IsDistinct i size randint (p ∷ ps) r us u apart e =
    let j = randint i % (i + 1) in
    let absent : member p r ≡ false = apart p (ground arith) in
    let (u', e') = next-IsDistinct i size j p r u absent e in
    let (done, count) =
      reservoir_from-IsDistinct (i + 1) size randint ps (next i size j p r) us.1 u'
        (λ x m. ground (
          arith,
          m,
          us.0,
          apart x,
          Bool-cases (member x (next i size j p r)),
          member-next i size j p x r,
          λ (q : p ≡ x). ap (λ t. member t ps) q,
        ))
        e' in
    (done, omega (arith, count))

-- Whatever the random numbers, a sample has as many peers as wanted or as there are, none twice,
-- and each of them is a known peer that was not told yet.
pub reservoir_of_lem :
    (size : ℕ) (randint : ℕ → ℕ) (peers : List PeerId) (item : RumorMessageItem)
    → IsDistinct peers
    → IsDistinct (reservoir_of size randint peers item)
      × (length (reservoir_of size randint peers item)
          ≡ min (length (diff peers item.peer_list)) size)
      × ((x : PeerId)
          → member x (reservoir_of size randint peers item) ≡ true
          → (member x peers ≡ true) × (member x item.peer_list ≡ false))
unfolding reservoir_of
reservoir_of_lem size randint peers item u =
    let new = diff peers item.peer_list in
    let (distinct, count) =
      reservoir_from-IsDistinct 0 size randint new []
        (filter-IsDistinct (λ y. not (member y item.peer_list)) peers u) tt (λ x m. refl)
        (omega arith) in
    (
      distinct,
      omega (arith, count),
      λ x m. ground (
        arith,
        member-reservoir_from 0 size randint new [] x m,
        member-filter (λ y. not (member y item.peer_list)) x peers,
      ),
    )
