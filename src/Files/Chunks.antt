-- ===== src/Files/Chunks.antt =====
-- `send_actual_file` (src/transfers/files/sender.py), `recv_file_contents` (receiver.py) and
-- `calculate_chunk_size` (_fileobject.py). A file's content is a list of bytes.
pub mod Transfer
pub mod Size
pub mod Roundtrip
use peer_connect.Prelude.{
  ℕ, zero, suc, ◌+◌, ◌-◌, ◌*◌, ◌/◌, ◌%◌, ◌^◌, min, Option, none, some, List, [], ◌∷◌, ◌++◌, ltb,
  leb, ◌==◌, if◌then◌else◌, length, take, drop,
}
use peer_connect.Avails.Bytes.{Bytes}

-- The state of a `FileItem` that a transfer reads and writes.
pub record FileItem : Type 0 where
  pub size : ℕ
  pub seeked : ℕ

-- `calculate_chunk_size` at its default sizes. The source divides in floating point, whose values
-- here are the exact quotient; the size is that quotient, cut to a multiple of 1024.
abbrev pub min_size : ℕ
min_size = 64 * 1024

abbrev pub max_size : ℕ
max_size = 2 ^ 20 * 2

abbrev pub min_file_size : ℕ
min_file_size = 2 ^ 10

abbrev pub max_file_size : ℕ
max_file_size = 2 ^ 30 * 10

unfoldable pub calculate_chunk_size : ℕ → ℕ
calculate_chunk_size file_size =
    if leb file_size min_file_size
    then min_size
    else if leb max_file_size file_size
    then max_size
    else (let buffer_size =
          min_size
          + (max_size - min_size) * (file_size - min_file_size) / (max_file_size - min_file_size) in
        buffer_size - buffer_size % 1024)

-- f_mapped[offset: offset + chunk_size]
abbrev pub slice_of : ℕ → ℕ → Bytes → Bytes
slice_of offset chunk_size content = take chunk_size (drop offset content)

-- for offset in range(seek, file.size, chunk_size): the chunks that are sent, and the file at the
-- end. As many rounds as there are bytes left are enough, since a chunk has a byte at least.
unfoldable pub send_chunks : ℕ → ℕ → ℕ → Bytes → FileItem → List Bytes × FileItem
send_chunks zero offset chunk_size content file = ([], file)
send_chunks (suc rounds) offset chunk_size content file =
    let chunk = slice_of offset chunk_size content in
    let (chunks, sent) =
      send_chunks rounds (offset + chunk_size) chunk_size content
        (record file { seeked = file.seeked + length chunk }) in
    if ltb offset file.size then (chunk ∷ chunks, sent) else ([], file)

-- `chunk_len or calculate_chunk_size(file.size)`
abbrev pub chunk_size_of : ℕ → FileItem → ℕ
chunk_size_of zero file = calculate_chunk_size file.size
chunk_size_of (suc n) file = suc n

-- the chunks that are sent, and the file at the end; an empty file cannot be mapped into memory,
-- and `none` is that ValueError
unfoldable pub send_actual_file : ℕ → Bytes → FileItem → Option (List Bytes × FileItem)
unfolding send_chunks
send_actual_file chunk_len content file =
    if length content == 0
    then none
    else some (
        send_chunks (file.size - file.seeked) file.seeked (chunk_size_of chunk_len file) content
          file)

-- a write of a file at its position
abbrev pub write_at : ℕ → Bytes → Bytes → Bytes
write_at at received disk = take at disk ++ (received ++ drop (at + length received) disk)

-- What is on disk, what is left of the stream, and the file.
pub record Received : Type 0 where
  pub disk : Bytes
  pub stream : Bytes
  pub file : FileItem

-- The loop of `recv_file_contents`. Each call of `recv_function` hands over some of the bytes that
-- it was asked for, as the list of sizes says; a zero or the end of the list is a closed connection.
unfoldable pub recv_loop : List ℕ → ℕ → ℕ → Received → Received
recv_loop [] chunk_size remaining r = r
recv_loop (k ∷ sizes) chunk_size remaining r =
    let asked = min chunk_size remaining in
    let received = take (min k asked) r.stream in
    let rest = recv_loop sizes chunk_size (remaining - length received) (record {
      disk = write_at r.file.seeked received r.disk;
      stream = drop (min k asked) r.stream;
      file = record r.file { seeked = r.file.seeked + length received };
    }) in
    if ltb 0 remaining then (if length received == 0 then r else rest) else r

-- `_setup_transfer`: a fresh transfer creates the file and fails if it is there, a resumed one
-- fails if it is not. `none` is that FileExistsError or FileNotFoundError.
unfoldable pub recv_file_contents : List ℕ → ℕ → Option Bytes → Bytes → FileItem → Option Received
unfolding recv_loop
recv_file_contents sizes chunk_len (some disk) stream file =
    if file.seeked == 0
    then none
    else some (
        recv_loop sizes (chunk_size_of chunk_len file) (file.size - file.seeked)
          (record { disk = disk; stream = stream; file = file }))
recv_file_contents sizes chunk_len none stream file =
    if file.seeked == 0
    then some (
        recv_loop sizes (chunk_size_of chunk_len file) (file.size - file.seeked)
          (record { disk = []; stream = stream; file = file }))
    else none
