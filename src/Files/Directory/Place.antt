-- ===== src/Files/Directory/Place.antt =====
-- A directory as it is put into a tree at once, without a connection.
use peer_connect.Prelude.{
  ℕ, ◌≤◌, Option, none, some, List, [], ◌∷◌, ◌++◌, ◌≡◌, refl, arith, ◌==◌, if◌then◌else◌, length,
  All,
}
use peer_connect.Avails.Bytes.{Bytes}
use peer_connect.Files.Session.{bind}
use peer_connect.Files.Directory.{
  RelPath, Parts, full_path, Entry, directory, file, Tree, on_disk, has_parent, mkdir, placed_at,
  touch_path,
}

-- a file that is put at its place at once
abbrev pub put_new : RelPath → Bytes → Option Bytes → Tree → Option Tree
put_new p c none t = some (record t { files = t.files ++ (p, c) ∷ [] })
put_new p c (some d) t = none

abbrev pub place_file : Parts → Bytes → Tree → Option Tree
place_file p c t =
    if length c == 0
    then touch_path p t
    else if has_parent p.parent t
    then put_new (placed_at p t) c (on_disk (placed_at p t) t) t
    else none

-- the entries put into a tree one after the other, without a connection
abbrev pub place_all : List Entry → Tree → Option Tree
place_all [] t = some t
place_all (directory p ∷ entries) t = bind (mkdir (full_path p) t) (place_all entries)
place_all (file p c ∷ entries) t = bind (place_file p c t) (place_all entries)

-- one code for each file
abbrev pub acks_of : List Entry → List ℕ
acks_of [] = []
acks_of (directory p ∷ entries) = acks_of entries
acks_of (file p c ∷ entries) = 1 ∷ acks_of entries

-- every file has arrivals enough
abbrev pub AreReady : List Entry → List (List ℕ) → Type 0
AreReady [] schedule = Unit
AreReady (e ∷ entries) [] = ⊥
AreReady (directory p ∷ entries) (sizes ∷ schedule) = AreReady entries schedule
AreReady (file p c ∷ entries) (sizes ∷ schedule) =
    All (λ k. 1 ≤ k) sizes × (length c ≤ length sizes) × AreReady entries schedule

pub put_new-absent :
    (p : RelPath) (c : Bytes) (o : Option Bytes) (t : Tree) {t' : Tree}
    → put_new p c o t ≡ some t'
    → (o ≡ none) × (t' ≡ record t { files = t.files ++ (p, c) ∷ [] })
put_new-absent p c none t h = (refl, ground (arith, h))
put_new-absent p c (some d) t h = absurd (ground (arith, h))
