-- ===== src/Prelude/MapLaws.antt =====
-- The laws of dicts and sets.
use peer_connect.Prelude.Tests.{◌==◌, if◌then◌else◌, Bool-cases}
use peer_connect.Prelude.Lists.{length, filter}
use peer_connect.Prelude.Maps.{Dict, get, has, put, remove, keys, member, add, union, IsDistinct}
use Prim.Native.Nat.{ℕ, ◌+◌, ◌≤◌, ◌<◌}
use mathlib.Core.Bool.{Bool, true, false, ◌||◌, ◌&&◌, not}
use mathlib.Core.List.{List, [], ◌∷◌, ◌++◌}
use mathlib.Core.Logic.{inl, inr}
use mathlib.Core.Option.{none, some}
use mathlib.Core.Path.{◌≡◌, refl, ap}
use native.Mathlib.Omega.{arith}

module _ {ℓ} {V : Type ℓ} where
  pub get-put :
      (k j : ℕ) (v : V) (d : Dict V) → get j (put k v d) ≡ (if k == j then some v else get j d)
  get-put k j v [] = refl
  get-put k j v ((i, w) ∷ d) = ground (arith, get-put k j v d)

  pub has-put : (k j : ℕ) (v : V) (d : Dict V) → has j (put k v d) ≡ ((k == j) || has j d)
  has-put k j v [] = refl
  has-put k j v ((i, w) ∷ d) = ground (arith, has-put k j v d)

  pub has_of_get : (k : ℕ) (d : Dict V) {v : V} → get k d ≡ some v → has k d ≡ true
  has_of_get k [] h = cc
  has_of_get k ((j, w) ∷ d) {v} h = ground (arith, has_of_get k d {v = v})

  pub get_of_not-has : (k : ℕ) (d : Dict V) → has k d ≡ false → get k d ≡ none
  get_of_not-has k [] h = refl
  get_of_not-has k ((j, w) ∷ d) h = ground (arith, get_of_not-has k d)

  pub not-has_of_get : (k : ℕ) (d : Dict V) → get k d ≡ none → has k d ≡ false
  not-has_of_get k [] h = refl
  not-has_of_get k ((j, w) ∷ d) h = ground (arith, not-has_of_get k d)

  pub get_of_has : (k : ℕ) (d : Dict V) → has k d ≡ true → (v : V) × (get k d ≡ some v)
  get_of_has k [] h = cc
  get_of_has k ((j, w) ∷ d) h = elim (Bool-cases (j == k)) [
    | inl here ↦ (w, rw here)
    | inr other ↦ rw other (get_of_has k d (ground arith))
  ]

  pub member-keys : (k : ℕ) (d : Dict V) → member k (keys d) ≡ has k d
  member-keys k [] = refl
  member-keys k ((j, w) ∷ d) = ap (λ b. (j == k) || b) (member-keys k d)

  pub get-remove : (k j : ℕ) (d : Dict V) → get j (remove k d) ≡ (if k == j then none else get j d)
  get-remove k j [] = ground arith
  get-remove k j ((i, w) ∷ d) = ground (arith, get-remove k j d)

  pub has-remove : (k j : ℕ) (d : Dict V) → has j (remove k d) ≡ (not (k == j) && has j d)
  has-remove k j [] = ground arith
  has-remove k j ((i, w) ∷ d) = ground (arith, has-remove k j d)

  pub length-remove-le : (k : ℕ) (d : Dict V) → length (remove k d) ≤ length d
  length-remove-le k [] = omega arith
  length-remove-le k ((j, w) ∷ d) = ground (arith, length-remove-le k d)

  pub length-remove-lt : (k : ℕ) (d : Dict V) → has k d ≡ true → length (remove k d) < length d
  length-remove-lt k [] h = cc
  length-remove-lt k ((j, w) ∷ d) h = ground (arith, length-remove-lt k d, length-remove-le k d)

  pub remove_absent : (k : ℕ) (d : Dict V) → has k d ≡ false → remove k d ≡ d
  remove_absent k [] h = refl
  remove_absent k ((j, w) ∷ d) h = ground (arith, remove_absent k d)

  pub length-put :
      (k : ℕ) (v : V) (d : Dict V)
      → length (put k v d) ≡ (if has k d then length d else length d + 1)
  length-put k v [] = omega arith
  length-put k v ((j, w) ∷ d) = ground (arith, length-put k v d)

  -- A new key goes to the end.
  pub put_absent : (k : ℕ) (v : V) (d : Dict V) → has k d ≡ false → put k v d ≡ d ++ (k, v) ∷ []
  put_absent k v [] h = refl
  put_absent k v ((j, w) ∷ d) h = ground (arith, put_absent k v d)

  pub keys-put :
      (k j : ℕ) (v : V) (d : Dict V) → member j (keys (put k v d)) ≡ ((k == j) || member j (keys d))
  keys-put k j v [] = refl
  keys-put k j v ((i, w) ∷ d) = ground (arith, keys-put k j v d)

  pub put-IsDistinct :
      (k : ℕ) (v : V) (d : Dict V) → IsDistinct (keys d) → IsDistinct (keys (put k v d))
  put-IsDistinct k v [] u = (refl, tt)
  put-IsDistinct k v ((i, w) ∷ d) u = ground (arith, put-IsDistinct k v d u.1, keys-put k i v d)

  pub member-keys-remove :
      (k j : ℕ) (d : Dict V) → member j (keys (remove k d)) ≡ true → member j (keys d) ≡ true
  member-keys-remove k j [] h = h
  member-keys-remove k j ((i, w) ∷ d) h = ground (arith, member-keys-remove k j d)

  pub remove-IsDistinct :
      (k : ℕ) (d : Dict V) → IsDistinct (keys d) → IsDistinct (keys (remove k d))
  remove-IsDistinct k [] u = tt
  remove-IsDistinct k ((i, w) ∷ d) u =
      ground (arith, remove-IsDistinct k d u.1, member-keys-remove k i d)

pub member-append : (x : ℕ) (s t : List ℕ) → member x (s ++ t) ≡ (member x s || member x t)
member-append x [] t = refl
member-append x (y ∷ s) t = ground (arith, member-append x s t)

pub member-filter :
    (p : ℕ → Bool) (x : ℕ) (s : List ℕ) → member x (filter p s) ≡ (p x && member x s)
member-filter p x [] = ground arith
member-filter p x (y ∷ s) = ground (arith, member-filter p x s, λ (e : y ≡ x). ap p e)

pub member-add : (x y : ℕ) (s : List ℕ) → member y (add x s) ≡ ((x == y) || member y s)
member-add x y s = ground (arith, member-append y s (x ∷ []))

pub member-union : (x : ℕ) (s t : List ℕ) → member x (union s t) ≡ (member x s || member x t)
member-union x s [] = ground arith
member-union x s (y ∷ t) = ground (arith, member-union x (add y s) t, member-add y x s)

pub filter-IsDistinct : (p : ℕ → Bool) (s : List ℕ) → IsDistinct s → IsDistinct (filter p s)
filter-IsDistinct p [] u = tt
filter-IsDistinct p (x ∷ s) u = ground (arith, filter-IsDistinct p s u.1, member-filter p x s)

pub append-IsDistinct :
    (s : List ℕ) (x : ℕ) → IsDistinct s → member x s ≡ false → IsDistinct (s ++ x ∷ [])
append-IsDistinct [] x u h = (refl, tt)
append-IsDistinct (y ∷ s) x u h =
    ground (arith, append-IsDistinct s x u.1, member-append y s (x ∷ []))

pub add-IsDistinct : (x : ℕ) (s : List ℕ) → IsDistinct s → IsDistinct (add x s)
add-IsDistinct x s u = ground (arith, append-IsDistinct s x u)
