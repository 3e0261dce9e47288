-- ===== src/Prelude/Maps.antt =====
-- Python's `dict` and `set` where the program uses them, keyed by numbers (peer ids, message ids
-- and link ids). A dict keeps its insertion order: a write to a present key keeps the key's place.
-- A set is iterated in an order that Python leaves open; here it is the order of insertion.
use peer_connect.Prelude.Tests.{◌==◌, if◌then◌else◌}
use peer_connect.Prelude.Lists.{filter}
use Prim.Native.Nat.{ℕ}
use mathlib.Core.Bool.{Bool, false, not, ◌||◌}
use mathlib.Core.List.{List, [], ◌∷◌, ◌++◌}
use mathlib.Core.Option.{Option, none, some}
use mathlib.Core.Path.{◌≡◌}

abbrev pub Dict {ℓ} : Type ℓ → Type ℓ
Dict V = List (ℕ × V)

module _ {ℓ} {V : Type ℓ} where
  -- d.get(k)
  abbrev pub get : ℕ → Dict V → Option V
  get k [] = none
  get k ((j, v) ∷ d) = if j == k then some v else get k d

  -- k in d
  abbrev pub has : ℕ → Dict V → Bool
  has k [] = false
  has k ((j, v) ∷ d) = (j == k) || has k d

  -- d[k] = v
  abbrev pub put : ℕ → V → Dict V → Dict V
  put k v [] = (k, v) ∷ []
  put k v ((j, w) ∷ d) = let rest = put k v d in if j == k then (j, v) ∷ d else (j, w) ∷ rest

  -- d.pop(k, None), del d[k]; a dict has the key once at most
  abbrev pub remove : ℕ → Dict V → Dict V
  remove k [] = []
  remove k ((j, w) ∷ d) = let rest = remove k d in if j == k then rest else (j, w) ∷ rest

  abbrev pub keys : Dict V → List ℕ
  keys [] = []
  keys ((k, v) ∷ d) = k ∷ keys d

  abbrev pub values : Dict V → List V
  values [] = []
  values ((k, v) ∷ d) = v ∷ values d

-- x in s
abbrev pub member : ℕ → List ℕ → Bool
member x [] = false
member x (y ∷ s) = (y == x) || member x s

-- s.add(x)
abbrev pub add : ℕ → List ℕ → List ℕ
add x s = if member x s then s else s ++ x ∷ []

-- s.discard(x)
abbrev pub discard : ℕ → List ℕ → List ℕ
discard x s = filter (λ y. not (y == x)) s

-- s - t
abbrev pub diff : List ℕ → List ℕ → List ℕ
diff s t = filter (λ y. not (member y t)) s

-- s | t
abbrev pub union : List ℕ → List ℕ → List ℕ
union s [] = s
union s (y ∷ t) = union (add y s) t

-- No key twice: what makes a list of pairs a dict, and a list a set.
abbrev pub IsDistinct : List ℕ → Type 0
IsDistinct [] = Unit
IsDistinct (x ∷ xs) = (member x xs ≡ false) × IsDistinct xs
