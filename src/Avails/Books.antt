-- ===== src/Avails/Books.antt =====
-- `TransfersBookKeeper` of src/avails/container.py. A handle of a transfer stands as its id, which
-- `get_new_id` makes unique. The first three containers are a `defaultdict`: reading a missing peer
-- adds the peer with an empty set. The weak references of `completed` count as alive.
pub mod Laws
use peer_connect.Prelude.{
  ℕ, ◌+◌, Bool, true, false, Option, none, some, List, [], ◌∷◌, ◌++◌, if◌then◌else◌, Dict, get, put,
  member, add, discard,
}
use peer_connect.Otm.Tree.{PeerId}

abbrev pub Sets : Type 0
Sets = Dict (List ℕ)

abbrev pub or_nil : Option (List ℕ) → List ℕ
or_nil none = []
or_nil (some s) = s

-- d[p]
abbrev pub at : PeerId → Sets → List ℕ
at p d = or_nil (get p d)

-- a method of the set d[p]; with the identity, the reading of d[p]
abbrev pub update : PeerId → (List ℕ → List ℕ) → Sets → Sets
update p f d = put p (f (at p d)) d

abbrev pub touch : PeerId → Sets → Sets
touch p d = put p (at p d) d

-- d.update(e)
abbrev pub merge : Sets → Sets → Sets
merge d [] = d
merge d ((p, s) ∷ e) = merge (put p s d) e

pub record Books : Type 0 where
  pub continued : Sets
  pub scheduled : Dict ℕ
  pub completed : Sets
  pub current : Sets

unfoldable pub add_to_current : PeerId → ℕ → Books → Books
add_to_current p h b = record b {
  current = update p (add h) b.current;
  continued = update p (discard h) b.continued;
}

unfoldable pub add_to_completed : PeerId → ℕ → Books → Books
add_to_completed p h b = record b {
  current = update p (discard h) b.current;
  continued = update p (discard h) b.continued;
  completed = update p (add h) b.completed;
}

unfoldable pub add_to_scheduled : ℕ → ℕ → Books → Books
add_to_scheduled key h b = record b { scheduled = put key h b.scheduled }

unfoldable pub add_to_continued : PeerId → ℕ → Books → Books
add_to_continued p h b = record b {
  current = update p (discard h) b.current;
  continued = update p (add h) b.continued;
}

-- `swap`; false if it raises the KeyError of an absent handle
unfoldable pub swap : PeerId → ℕ → Books → Bool × Books
swap p h b =
    if member h (at p b.continued)
    then ((
      true,
      record b {
        continued = update p (discard h) b.continued;
        completed = update p (add h) b.completed;
      },
    ))
    else (false, record b { continued = touch p b.continued })

unfoldable pub get_scheduled : ℕ → Books → Option ℕ
get_scheduled key b = get key b.scheduled

-- the last of the three searches
abbrev get_continued_file : PeerId → ℕ → Books → Option ℕ × Books
get_continued_file p h b = (
  (if member h (at p b.continued) then some h else none),
  record b { continued = touch p b.continued },
)

abbrev get_completed_transfer : PeerId → ℕ → Books → Option ℕ × Books
get_completed_transfer p h b =
    let touched = record b { completed = touch p b.completed } in
    if member h (at p b.completed) then (some h, touched) else get_continued_file p h touched

-- `get_transfer`: each search that ends in a StopIteration is followed by the next
unfoldable pub get_transfer : PeerId → ℕ → Books → Option ℕ × Books
get_transfer p h b =
    let touched = record b { current = touch p b.current } in
    if member h (at p b.current) then (some h, touched) else get_completed_transfer p h touched

abbrev first : List ℕ → Option ℕ
first [] = none
first (h ∷ s) = some h

unfoldable pub check_running : PeerId → Books → Option ℕ × Books
check_running p b = (first (at p b.current), record b { current = touch p b.current })

abbrev pub all_of : Sets → List ℕ
all_of [] = []
all_of ((p, s) ∷ d) = s ++ all_of d

-- `stop_all_files`; false if it raises: it calls `break_loop` of a running transfer, a method that no
-- handle has
abbrev stop_when : List ℕ → Books → Bool × Books
stop_when [] b = (true, record b { continued = merge b.continued b.current; current = [] })
stop_when (h ∷ running) b = (false, b)

unfoldable pub stop_all_files : Books → Bool × Books
stop_all_files b = stop_when (all_of b.current) b

pub data Op : Type 0 where
  to_current to_completed to_continued swapped found : PeerId → ℕ → Op
  to_scheduled : ℕ → ℕ → Op
  checked : PeerId → Op
  stopped : Op

unfoldable pub apply : Op → Books → Books
unfolding add_to_current add_to_completed add_to_continued add_to_scheduled swap get_transfer
    check_running stop_all_files
apply (to_current p h) b = add_to_current p h b
apply (to_completed p h) b = add_to_completed p h b
apply (to_continued p h) b = add_to_continued p h b
apply (swapped p h) b = (swap p h b).1
apply (found p h) b = (get_transfer p h b).1
apply (to_scheduled key h) b = add_to_scheduled key h b
apply (checked p) b = (check_running p b).1
apply stopped b = (stop_all_files b).1

unfoldable pub apply_all : List Op → Books → Books
unfolding apply
apply_all [] b = b
apply_all (op ∷ ops) b = apply_all ops (apply op b)
