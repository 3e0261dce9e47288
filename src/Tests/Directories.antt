-- ===== src/Tests/Directories.antt =====
-- The theorems on directories, at a few files.
use peer_connect.Prelude.{ℕ, zero, suc, Option, none, some, List, [], ◌∷◌, ◌++◌, length, take, drop}
use peer_connect.Avails.Bytes.{Bytes}
use peer_connect.Files.Directory.{RelPath, Parts, Entry, directory, file, Tree}

-- parts as bytes, each name after its length
abbrev flat : RelPath → Bytes
flat [] = []
flat (n ∷ ns) = length n ∷ (n ++ flat ns)

abbrev unflat : ℕ → Bytes → RelPath
unflat zero s = []
unflat (suc rounds) [] = []
unflat (suc rounds) (k ∷ s) = take k s ∷ unflat rounds (drop k s)

abbrev dumps_parts : Parts → Bytes
dumps_parts p = length p.stem ∷ length p.suffix ∷ (p.stem ++ (p.suffix ++ flat p.parent))

abbrev loads_parts : Bytes → Option Parts
loads_parts [] = none
loads_parts (k ∷ []) = none
loads_parts (k ∷ l ∷ s) = some (record {
  parent = unflat (length s) (drop l (drop k s));
  stem = take k s;
  suffix = take l (drop k s);
})

abbrev parts_of : RelPath → ℕ → Parts
parts_of parent c = record { parent = parent; stem = c ∷ []; suffix = [] }

-- a directory, a file, and an empty file in the directory
abbrev entries : List Entry
entries =
    directory (parts_of [] 115)
    ∷ file (parts_of [] 97) (1 ∷ 2 ∷ [])
    ∷ file (parts_of ((115 ∷ []) ∷ []) 98) []
    ∷ []

abbrev no_files : Tree
no_files = record { dirs = []; files = [] }

abbrev all_files : Tree
all_files = record {
  dirs = ((115 ∷ []) ∷ []) ∷ [];
  files = ((97 ∷ []) ∷ [], 1 ∷ 2 ∷ []) ∷ ((115 ∷ []) ∷ (98 ∷ []) ∷ [], []) ∷ [];
}

abbrev sent_stream : Bytes
sent_stream =
    2 ∷ 0 ∷ 0 ∷ 0 ∷ 3 ∷ 1 ∷ 0 ∷ 115 ∷ 1 ∷ 0 ∷ 0 ∷ 0 ∷ 3 ∷ 1 ∷ 0 ∷ 97 ∷ 0 ∷ 0 ∷ 0 ∷ 0 ∷ 0 ∷ 0 ∷ 0 ∷ 2
    ∷ 1 ∷ 2 ∷ 1 ∷ 0 ∷ 0 ∷ 0 ∷ 5 ∷ 1 ∷ 0 ∷ 98 ∷ 1 ∷ 115 ∷ 0 ∷ 0 ∷ 0 ∷ 0 ∷ 0 ∷ 0 ∷ 0 ∷ 0 ∷ 0 ∷ []
