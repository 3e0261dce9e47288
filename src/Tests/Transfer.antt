-- ===== src/Tests/Transfer.antt =====
-- The theorems on files and rumors at a file of five bytes, a directory of two files, a session of
-- two files and a rumor.
use peer_connect.Prelude.{
  ℕ, min, true, false, none, some, List, [], ◌∷◌, ◌++◌, ◌≡◌, refl, arith, length, drop, member,
  diff, IsDistinct, Option, take, take-append-length, drop-append-length,
}
use peer_connect.Otm.Tree.{PeerId}
use peer_connect.Avails.Bytes.{Bytes, pack}
use peer_connect.Avails.Wire.{frame}
use peer_connect.Files.Chunks.{
  FileItem, calculate_chunk_size, send_actual_file, Received, recv_file_contents,
}
use peer_connect.Files.Chunks.Transfer.{concat, IsAt}
use peer_connect.Files.Chunks.Roundtrip.{
  before, recv_file_contents-IsAt, recv_file_contents-send_actual_file,
}
use peer_connect.Files.Names.{exists, validatename}
use peer_connect.Files.Names.Unique.{validatename_lem}
use peer_connect.Files.Session.{Item, Source, send_files, send_file_item, send_contents, recv_files}
use peer_connect.Files.Session.Whole.{all_stored, recv_files-send_files}
use peer_connect.Otm.Receiver.{OpenFile, load_files_metadata, bisect_left, write_chunk}
use peer_connect.Otm.Receiver.Stream.{Holds, total}
use peer_connect.Otm.Receiver.Session.{write_chunk-bisect_left}
use peer_connect.Transfers.Rumor.{
  Field, GossipMessage, RumorMessageItem, Monger, Chance, arrived, cleaned, reservoir_of, happen,
}
use peer_connect.Transfers.Rumor.Sample.{reservoir_of_lem}
use peer_connect.Transfers.Rumor.Once.{IsOnce, happen-IsOnce}

abbrev content : Bytes
content = 1 ∷ 2 ∷ 3 ∷ 4 ∷ 5 ∷ []

-- a transfer that was interrupted after a byte
abbrev file : FileItem
file = record { size = 5; seeked = 1 }

recv_file_contents-IsAt_example :
    (r : Received) × (recv_file_contents
        (1 ∷ 2 ∷ 0 ∷ [])
        2
        (before content file)
        (drop 1 content ++ 9 ∷ [])
        file
      ≡ some r)
    × IsAt content (9 ∷ []) r
recv_file_contents-IsAt_example =
    recv_file_contents-IsAt (1 ∷ 2 ∷ 0 ∷ []) 2 content (drop 1 content ++ 9 ∷ []) (9 ∷ []) file refl
      (omega arith) refl

recv_file_contents-send_actual_file_example :
    (sent : List Bytes × FileItem) × (send_actual_file 2 content file ≡ some sent)
    × (sent.1.seeked ≡ 5)
    × ((r : Received) × (recv_file_contents
            (1 ∷ 2 ∷ 1 ∷ 1 ∷ [])
            3
            (before content file)
            (concat sent.0 ++ 9 ∷ [])
            file
          ≡ some r)
        × (r.disk ≡ content)
        × (r.stream ≡ 9 ∷ [])
        × (r.file.seeked ≡ 5)
        × (r.file.size ≡ 5))
recv_file_contents-send_actual_file_example =
    recv_file_contents-send_actual_file (1 ∷ 2 ∷ 1 ∷ 1 ∷ []) 2 3 content (9 ∷ []) file refl
      (omega arith) (omega arith) (ground arith) (omega arith)

-- "a.b" is there
validatename_lem_example :
    (exists
        (validatename (97 ∷ []) (46 ∷ 98 ∷ []) ((97 ∷ 46 ∷ 98 ∷ []) ∷ []))
        ((97 ∷ 46 ∷ 98 ∷ []) ∷ [])
      ≡ false)
    × (exists (97 ∷ 46 ∷ 98 ∷ []) ((97 ∷ 46 ∷ 98 ∷ []) ∷ []) ≡ false
        → validatename (97 ∷ []) (46 ∷ 98 ∷ []) ((97 ∷ 46 ∷ 98 ∷ []) ∷ []) ≡ 97 ∷ 46 ∷ 98 ∷ [])
validatename_lem_example = validatename_lem (97 ∷ []) (46 ∷ 98 ∷ []) ((97 ∷ 46 ∷ 98 ∷ []) ∷ [])

abbrev fresh : ℕ → OpenFile
fresh n = record { size = n; seeked = 0; content = [] }

-- the first file is whole, the second has not begun
abbrev half : List OpenFile
half = record { size = 1; seeked = 1; content = 1 ∷ [] } ∷ fresh 4 ∷ []

half_sums : load_files_metadata half ≡ some (1 ∷ 5 ∷ [])
unfolding load_files_metadata
half_sums = refl

write_chunk-bisect_left_example :
    (j : ℕ) × (fs' : List OpenFile) × (write_chunk (bisect_left (1 ∷ 5 ∷ []) 1) (2 ∷ 3 ∷ []) half
      ≡ some (j, fs'))
    × Holds (1 ∷ 2 ∷ 3 ∷ []) fs'
    × (load_files_metadata fs' ≡ some (1 ∷ 5 ∷ []))
    × (total fs' ≡ total half)
write_chunk-bisect_left_example =
    write_chunk-bisect_left 1 (1 ∷ 5 ∷ []) (1 ∷ []) (2 ∷ 3 ∷ []) half half_sums (omega arith)
      (omega arith) (refl, refl, (refl, refl, tt))

abbrev rumor : GossipMessage
rumor = record { message_id = 4; created_at = 10; body = Field.id ∷ Field.created ∷ Field.ttl ∷ [] }

abbrev item : RumorMessageItem
item = record { time_in = 11; creation_time = 10; peer_list = 2 ∷ [] }

abbrev monger : Monger
monger = record { message_list = (4, item) ∷ []; dropped = []; sent = (4, 2) ∷ [] }

abbrev chance : Chance
chance = record { clock = 12; time = 12; drawn = 0; scale = 100; randint = λ i. i }

monger-IsOnce : IsOnce monger
monger-IsOnce = record {
  once = λ m. ground arith;
  noted = λ m other e p t. ground (arith, e, t);
  known = λ m absent kept. ground (arith, absent);
}

reservoir_of_lem_example :
    IsDistinct (reservoir_of 1 (λ i. i) (1 ∷ 2 ∷ 3 ∷ []) item)
    × (length (reservoir_of 1 (λ i. i) (1 ∷ 2 ∷ 3 ∷ []) item)
        ≡ min (length (diff (1 ∷ 2 ∷ 3 ∷ []) item.peer_list)) 1)
    × ((x : PeerId)
        → member x (reservoir_of 1 (λ i. i) (1 ∷ 2 ∷ 3 ∷ []) item) ≡ true
        → (member x (1 ∷ 2 ∷ 3 ∷ []) ≡ true) × (member x item.peer_list ≡ false))
reservoir_of_lem_example = reservoir_of_lem 1 (λ i. i) (1 ∷ 2 ∷ 3 ∷ []) item (ground arith)

happen-IsOnce_example :
    IsOnce (happen (arrived (1 ∷ 2 ∷ 3 ∷ []) chance rumor ∷ cleaned 20 ∷ []) monger)
happen-IsOnce_example =
    happen-IsOnce (arrived (1 ∷ 2 ∷ 3 ∷ []) chance rumor ∷ cleaned 20 ∷ []) monger (ground arith)
      monger-IsOnce

abbrev item_of : ℕ → Item
item_of n = record { stem = n ∷ []; suffix = []; file = record { size = 2; seeked = 0 } }

-- an item as bytes
abbrev dumps : Item → Bytes
dumps i = i.file.size ∷ i.file.seeked ∷ length i.stem ∷ (i.stem ++ i.suffix)

abbrev loads : Bytes → Option Item
loads (size ∷ seeked ∷ n ∷ name) = some (record {
  stem = take n name;
  suffix = drop n name;
  file = record { size = size; seeked = seeked };
})
loads _ = none

loads-dumps : (i : Item) → loads (dumps i) ≡ some i
loads-dumps i = rw (take-append-length i.stem i.suffix, drop-append-length i.stem i.suffix) refl

abbrev source : ℕ → Source
source n = record { item = item_of n; content = 8 ∷ 9 ∷ [] }

abbrev sent_bytes : Bytes
sent_bytes =
    1 ∷ 0 ∷ 0 ∷ 0 ∷ 4 ∷ 2 ∷ 0 ∷ 1 ∷ 97 ∷ 8 ∷ 9 ∷ 1 ∷ 0 ∷ 0 ∷ 0 ∷ 4 ∷ 2 ∷ 0 ∷ 1 ∷ 97 ∷ 8 ∷ 9 ∷ 0 ∷ []

sends_bytes : send_files dumps loads (source 97 ∷ source 97 ∷ []) ≡ some sent_bytes
unfolding send_files send_file_item send_contents frame pack send_actual_file calculate_chunk_size
sends_bytes = refl

recv_files-send_files_example :
    recv_files dumps loads ((1 ∷ 1 ∷ []) ∷ (2 ∷ 1 ∷ []) ∷ []) [] sent_bytes
    ≡ some (all_stored [] (source 97 ∷ source 97 ∷ []))
recv_files-send_files_example =
    recv_files-send_files dumps loads loads-dumps (source 97 ∷ source 97 ∷ [])
      ((1 ∷ 1 ∷ []) ∷ (2 ∷ 1 ∷ []) ∷ []) []
      (
        (refl, refl, omega arith, ground arith, omega arith),
        ((refl, refl, omega arith, ground arith, omega arith), tt),
      )
      sends_bytes
