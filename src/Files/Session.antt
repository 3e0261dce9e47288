-- ===== src/Files/Session.antt =====
-- A session of files between two peers: `send_files` of `Sender` (src/transfers/files/sender.py) and
-- `recv_files` of `Receiver` (receiver.py), on a connection that is not stopped. The bytes of a
-- `FileItem` are msgpack, a third-party package: `dumps` and `loads` are parameters. A read of a flag
-- or of a header gets all its bytes; those of the contents arrive as the sizes say, a list for each
-- file. `none` is a transfer that ends by an exception.
pub mod Whole
use peer_connect.Prelude.{
  ℕ, zero, suc, ◌+◌, Option, none, some, List, [], ◌∷◌, ◌++◌, ltb, ◌==◌, if◌then◌else◌, take, drop,
}
use peer_connect.Avails.Bytes.{Bytes}
use peer_connect.Avails.Wire.{frame, recv_int}
use peer_connect.Files.Names.{Name, same_name, validatename}
use peer_connect.Files.Chunks.Transfer.{concat}
use peer_connect.Files.Chunks.{FileItem, send_actual_file, Received, recv_file_contents}

-- a `FileItem` with its name, cut into stem and suffix
pub record Item : Type 0 where
  pub stem : Name
  pub suffix : Name
  pub file : FileItem

-- a file of the sender: its item and what is on the disk
pub record Source : Type 0 where
  pub item : Item
  pub content : Bytes

-- a directory of the receiver
abbrev pub Folder : Type 0
Folder = List (Name × Bytes)

abbrev pub names : Folder → List Name
names [] = []
names ((n, _) ∷ folder) = n ∷ names folder

abbrev pub lookup : Name → Folder → Option Bytes
lookup x [] = none
lookup x ((n, b) ∷ folder) = if same_name x n then some b else lookup x folder

abbrev pub bind : {A B : Type 0} → Option A → (A → Option B) → Option B
bind none f = none
bind (some a) f = f a

-- the chunks of a file
unfoldable pub send_contents : Source → Option Bytes
unfolding send_actual_file
send_contents s =
    bind (send_actual_file 0 s.content s.item.file) (λ (chunks, _). some (concat chunks))

module _ (dumps : Item → Bytes) (loads : Bytes → Option Item) where
  -- `_send_file_item`: the flag, the length and the item
  unfoldable pub send_file_item : Item → Option Bytes
  unfolding frame
  send_file_item item = bind (frame (dumps item)) (λ packet. some (1 ∷ packet))

  -- `send_files`: all files, then the flag of the end
  unfoldable pub send_files : List Source → Option Bytes
  unfolding send_file_item send_contents
  send_files [] = some (0 ∷ [])
  send_files (s ∷ sources) =
      let rest = send_files sources in
      bind (send_file_item s.item) (λ head.
        bind (send_contents s)
          (λ contents. bind rest (λ later. some (head ++ (contents ++ later)))))

  -- a file whose content has not come whole is a TransferIncomplete
  abbrev pub stored : Name → Folder → Received → Option (Folder × Bytes)
  stored name folder r =
      if ltb r.file.seeked r.file.size then none else some (folder ++ (name, r.disk) ∷ [], r.stream)

  -- `_receive_single_file`: the file gets a free name first
  unfoldable pub receive_single_file : List ℕ → Folder → Bytes → Item → Option (Folder × Bytes)
  unfolding recv_file_contents validatename
  receive_single_file sizes folder stream item =
      let name = validatename item.stem item.suffix (names folder) in
      bind (recv_file_contents sizes 0 (lookup name folder) stream item.file) (stored name folder)

  -- `path.touch(exist_ok=True)`
  abbrev pub touch_file : Name → Folder → Option Bytes → Folder
  touch_file name folder none = folder ++ (name, []) ∷ []
  touch_file name folder (some b) = folder

  -- the branches of `_recv_file_once` for an item
  unfoldable pub recv_item : List ℕ → Folder → Bytes → Item → Option (Folder × Bytes)
  unfolding receive_single_file
  recv_item sizes folder stream item =
      let name = item.stem ++ item.suffix in
      if item.file.size == 0
      then some (touch_file name folder (lookup name folder), stream)
      else receive_single_file sizes folder stream item

  -- `_recv_file_item`, then the file
  unfoldable pub recv_file_once : List ℕ → Folder → Bytes → Option (Folder × Bytes)
  unfolding recv_int recv_item
  recv_file_once sizes folder stream = bind (recv_int 4 stream) (λ (n, after).
      bind (loads (take n after)) (λ item. recv_item sizes folder (drop n after) item))

  -- `recv_files`: no flag or the flag of the end completes the transfer
  unfoldable pub recv_files : List (List ℕ) → Folder → Bytes → Option Folder
  unfolding recv_file_once
  recv_files schedule folder [] = some folder
  recv_files schedule folder (zero ∷ stream) = some folder
  recv_files [] folder (suc flag ∷ stream) = none
  recv_files (sizes ∷ schedule) folder (suc flag ∷ stream) =
      bind (recv_file_once sizes folder stream)
        (λ (folder', later). recv_files schedule folder' later)
