-- ===== src/Files/Names.antt =====
-- `validatename` (src/transfers/files/_fileobject.py): a name that no file of a directory has. A
-- name is a list of character codes, and the directory the list of its names.
pub mod Unique
use peer_connect.Prelude.{
  ℕ, zero, suc, ◌+◌, ◌/◌, ◌%◌, Bool, true, false, ◌&&◌, ◌||◌, List, [], ◌∷◌, ◌++◌, ltb, ◌==◌,
  if◌then◌else◌, length,
}

abbrev pub Name : Type 0
Name = List ℕ

unfoldable pub same_name : Name → Name → Bool
same_name [] [] = true
same_name [] (d ∷ ds) = false
same_name (c ∷ cs) [] = false
same_name (c ∷ cs) (d ∷ ds) = (c == d) && same_name cs ds

unfoldable pub exists : Name → List Name → Bool
unfolding same_name
exists x [] = false
exists x (y ∷ names) = same_name x y || exists x names

-- the decimal digits of a number; more rounds than the number are enough
unfoldable pub digits : ℕ → ℕ → Name
digits zero n = []
digits (suc rounds) n =
    let rest = digits rounds (n / 10) in
    if ltb n 10 then (48 + n) ∷ [] else rest ++ (48 + n % 10) ∷ []

-- f"{base} ({counter}){ext}"
unfoldable pub numbered : Name → Name → ℕ → Name
unfolding digits
numbered base ext counter = base ++ 32 ∷ 40 ∷ (digits (suc counter) counter ++ 41 ∷ ext)

-- `while (root_path / new_file_name).exists()`, with so many rounds
unfoldable pub search_name : ℕ → Name → Name → ℕ → Name → List Name → Name
unfolding exists numbered
search_name zero base ext counter new_file_name names = new_file_name
search_name (suc rounds) base ext counter new_file_name names =
    let rest = search_name rounds base ext (counter + 1) (numbered base ext counter) names in
    if exists new_file_name names then rest else new_file_name

-- `base` and `ext` are the stem and the suffix of the path, which are together its name.
unfoldable pub validatename : Name → Name → List Name → Name
unfolding search_name
validatename base ext names = search_name (suc (length names)) base ext 1 (base ++ ext) names
