-- ===== src/Files/Directory.antt =====
-- The transfer of a directory (src/transfers/files/directory.py): `send_files` of `DirSender` and
-- `recv_files` of `DirReceiver`, on a connection that is not stopped. The bytes of a parent path with a
-- name are msgpack, a third-party package: `dumps` and `loads` are parameters. A path is the list of
-- its names below the directory, and a name has no backslash. `none` is a transfer that ends by an exception.
pub mod Place
pub mod Placed
pub mod Whole
use peer_connect.Prelude.{
  ℕ, zero, suc, ◌+◌, Bool, true, false, ◌&&◌, ◌||◌, Option, none, some, List, [], ◌∷◌, ◌++◌, ltb,
  ◌==◌, if◌then◌else◌, length, take, drop,
}
use peer_connect.Avails.Bytes.{Bytes, pack}
use peer_connect.Avails.Wire.{frame, recv_int}
use peer_connect.Files.Names.{Name, same_name, validatename}
use peer_connect.Files.Chunks.{send_actual_file, Received, recv_file_contents}
use peer_connect.Files.Chunks.Transfer.{concat}
use peer_connect.Files.Session.{bind}

abbrev pub RelPath : Type 0
RelPath = List Name

-- a parent and a name, cut into stem and suffix
pub record Parts : Type 0 where
  pub parent : RelPath
  pub stem : Name
  pub suffix : Name

abbrev pub full_path : Parts → RelPath
full_path p = p.parent ++ (p.stem ++ p.suffix) ∷ []

-- what `rglob` lists
pub data Entry : Type 0 where
  directory : Parts → Entry
  file : Parts → Bytes → Entry

-- what stands in the directory of the receiver
pub record Tree : Type 0 where
  pub dirs : List RelPath
  pub files : List (RelPath × Bytes)

abbrev pub same_path : RelPath → RelPath → Bool
unfolding same_name
same_path [] [] = true
same_path [] (y ∷ ys) = false
same_path (x ∷ xs) [] = false
same_path (x ∷ xs) (y ∷ ys) = same_name x y && same_path xs ys

abbrev pub among : RelPath → List RelPath → Bool
among p [] = false
among p (q ∷ qs) = same_path p q || among p qs

abbrev pub lookup_file : RelPath → List (RelPath × Bytes) → Option Bytes
lookup_file p [] = none
lookup_file p ((q, c) ∷ files) = if same_path p q then some c else lookup_file p files

-- what stands at a path; a directory cannot be opened as a file
abbrev pub on_disk : RelPath → Tree → Option Bytes
on_disk p t = if among p t.dirs then some [] else lookup_file p t.files

abbrev pub has_parent : RelPath → Tree → Bool
has_parent [] t = true
has_parent (n ∷ p) t = among (n ∷ p) t.dirs

abbrev pub paths : List (RelPath × Bytes) → List RelPath
paths [] = []
paths ((p, c) ∷ files) = p ∷ paths files

abbrev pub names_at_root : List RelPath → List Name
names_at_root [] = []
names_at_root ([] ∷ ps) = names_at_root ps
names_at_root ((n ∷ []) ∷ ps) = n ∷ names_at_root ps
names_at_root ((n ∷ m ∷ p) ∷ ps) = names_at_root ps

abbrev pub root_names : Tree → List Name
root_names t = names_at_root (t.dirs ++ paths t.files)

-- `mkdir(parents=True)`; a path that is there, or a file on the way, is an error
abbrev pub add_dir : RelPath → List RelPath → List RelPath
add_dir p ds = if among p ds then ds else ds ++ p ∷ []

abbrev pub make_parents : RelPath → RelPath → List RelPath → List RelPath
make_parents at [] ds = ds
make_parents at (n ∷ []) ds = ds
make_parents at (n ∷ m ∷ p) ds = make_parents (at ++ n ∷ []) (m ∷ p) (add_dir (at ++ n ∷ []) ds)

abbrev pub passes_file : RelPath → RelPath → List RelPath → Bool
passes_file at [] fs = false
passes_file at (n ∷ p) fs = among (at ++ n ∷ []) fs || passes_file (at ++ n ∷ []) p fs

unfoldable pub mkdir : RelPath → Tree → Option Tree
mkdir p t =
    if among p t.dirs || passes_file [] p (paths t.files)
    then none
    else some (record t { dirs = make_parents [] p t.dirs ++ p ∷ [] })

-- the path that a file gets: the name is validated in the directory of the transfer, not in its parent
unfoldable pub placed_at : Parts → Tree → RelPath
unfolding validatename
placed_at p t = p.parent ++ validatename p.stem p.suffix (root_names t) ∷ []

-- `path.touch(exist_ok=True)`
abbrev pub touched : RelPath → Option Bytes → Tree → Tree
touched p none t = record t { files = t.files ++ (p, []) ∷ [] }
touched p (some c) t = t

unfoldable pub touch_path : Parts → Tree → Option Tree
touch_path p t =
    if has_parent p.parent t then some (touched (full_path p) (on_disk (full_path p) t) t) else none

-- what `send_one_file` sends; no part of an empty file is sent
unfoldable pub contents_of : Bytes → Option Bytes
unfolding send_actual_file
contents_of c =
    if length c == 0
    then some []
    else bind (send_actual_file 0 c (record { size = length c; seeked = 0 }))
        (λ (chunks, _). some (concat chunks))

module _ (dumps : Parts → Bytes) (loads : Bytes → Option Parts) (is_windows : Bool) where
  -- `__send_code_parts`; only on Windows the parent is text that msgpack dumps, elsewhere it stays a
  -- Path, which is an UnsupportedTypeException
  unfoldable pub send_code_parts : ℕ → Parts → Option Bytes
  unfolding frame
  send_code_parts code p =
      if is_windows then bind (frame (dumps p)) (λ packet. some (code ∷ packet)) else none

  -- `_send_file_item`, then the contents
  unfoldable pub send_dir_file : Parts → Bytes → Option Bytes
  unfolding send_code_parts contents_of pack
  send_dir_file p c = bind (send_code_parts 1 p) (λ head.
      bind (pack 8 (length c))
        (λ size. bind (contents_of c) (λ contents. some (head ++ (size ++ contents)))))

  abbrev then_send : Bytes → Bytes × Bool → Option (Bytes × Bool)
  then_send bytes (later, done) = some (bytes ++ later, done)

  -- `send_files`, by the bytes that the receiver sends back: what is sent, and whether it was sent to
  -- the end; after a file the sender waits for the code of a file, and any other is an AssertionError
  unfoldable pub send_tree : List ℕ → List Entry → Option (Bytes × Bool)
  unfolding send_code_parts send_dir_file
  send_tree acks [] = some (0 ∷ [], true)
  send_tree acks (directory p ∷ entries) =
      let rest = send_tree acks entries in
      bind (send_code_parts 2 p) (λ head. bind rest (then_send head))
  send_tree [] (file p c ∷ entries) = bind (send_dir_file p c) (λ bytes. some (bytes, false))
  send_tree (a ∷ acks) (file p c ∷ entries) =
      let rest = send_tree acks entries in
      bind (send_dir_file p c) (λ bytes. if a == 1 then bind rest (then_send bytes) else none)

module _ (dumps : Parts → Bytes) (loads : Bytes → Option Parts) where
  -- `_recv_parts`
  unfoldable pub recv_parts : Bytes → Option (Parts × Bytes)
  unfolding recv_int
  recv_parts stream =
      bind (recv_int 4 stream)
        (λ (n, after). bind (loads (take n after)) (λ p. some (p, drop n after)))

  abbrev pub written : RelPath → Tree → Received → Option (Tree × Bytes)
  written p t r =
      if ltb r.file.seeked r.file.size
      then none
      else some (record t { files = t.files ++ (p, r.disk) ∷ [] }, r.stream)

  abbrev pub with_stream : Bytes → Tree → Option (Tree × Bytes)
  with_stream stream t = some (t, stream)

  -- `_recv_file_once` with the `_recv_file_item` of a directory
  unfoldable pub recv_sized : List ℕ → Tree → Parts → ℕ → Bytes → Option (Tree × Bytes)
  unfolding touch_path placed_at recv_file_contents
  recv_sized sizes t p size stream =
      if size == 0
      then bind (touch_path p t) (with_stream stream)
      else if has_parent p.parent t
      then bind
          (recv_file_contents sizes 0 (on_disk (placed_at p t) t) stream
            (record { size = size; seeked = 0 }))
          (written (placed_at p t) t)
      else none

  unfoldable pub recv_dir_file : List ℕ → Tree → Bytes → Option (Tree × Bytes)
  unfolding recv_parts recv_int recv_sized
  recv_dir_file sizes t stream =
      bind (recv_parts stream)
        (λ (p, after). bind (recv_int 8 after) (λ (size, later). recv_sized sizes t p size later))

  unfoldable pub recv_dir : Tree → Bytes → Option (Tree × Bytes)
  unfolding recv_parts mkdir
  recv_dir t stream =
      bind (recv_parts stream) (λ (p, later). bind (mkdir (full_path p) t) (with_stream later))

  abbrev pub acked : Tree × List ℕ → Option (Tree × List ℕ)
  acked (t, acks) = some (t, 1 ∷ acks)

  -- `recv_files`: the tree at the end, and the codes that are sent back; each round has its arrivals
  unfoldable pub recv_tree : List (List ℕ) → Tree → Bytes → Option (Tree × List ℕ)
  unfolding recv_dir_file recv_dir
  recv_tree schedule t [] = some (t, [])
  recv_tree schedule t (zero ∷ stream) = some (t, [])
  recv_tree [] t (suc code ∷ stream) = none
  recv_tree (sizes ∷ schedule) t (suc zero ∷ stream) =
      bind (recv_dir_file sizes t stream) (λ (t', later). bind (recv_tree schedule t' later) acked)
  recv_tree (sizes ∷ schedule) t (suc (suc zero) ∷ stream) =
      bind (recv_dir t stream) (λ (t', later). recv_tree schedule t' later)
  recv_tree (sizes ∷ schedule) t (suc (suc (suc code)) ∷ stream) = recv_tree schedule t stream
