-- ===== src/Otm/Receiver.antt =====
-- `FilesReceiver` (src/transfers/otm/receiver.py): the chunks of a session are one stream of bytes,
-- which is cut into the files. These are `_load_files_metadata`, the index that
-- `_align_corresponding_chunk` finds for a position of the stream, and `_write_chunk` for the bytes of a
-- chunk. The loop that calls them, `data_receiver`, is left out: it enters `_open_files` by a plain with,
-- which is a TypeError of an asynchronous context manager.
pub mod Stream
pub mod Session
use peer_connect.Prelude.{
  ℕ, zero, suc, ◌+◌, ◌-◌, ◌^◌, min, Bool, true, ◌&&◌, Option, none, some, List, [], ◌∷◌, ◌++◌, ltb,
  if◌then◌else◌, length, take, drop,
}
use peer_connect.Avails.Bytes.{Bytes}

-- a `FileItem` with its open file
pub record OpenFile : Type 0 where
  pub size : ℕ
  pub seeked : ℕ
  pub content : Bytes

-- the running sums of `_load_files_metadata`, from a sum
abbrev pub sums_from : ℕ → List OpenFile → List ℕ
sums_from s [] = []
sums_from s (f ∷ fs) = (s + f.size) ∷ sums_from (s + f.size) fs

abbrev pub fits_uint : List ℕ → Bool
fits_uint [] = true
fits_uint (s ∷ sums) = ltb s (2 ^ 32) && fits_uint sums

-- `_load_files_metadata`; `none` is the IndexError of an empty list, or the OverflowError of a sum
-- that does not fit an `array('I')`
unfoldable pub load_files_metadata : List OpenFile → Option (List ℕ)
load_files_metadata [] = none
load_files_metadata (f ∷ fs) =
    let sums = sums_from 0 (f ∷ fs) in if fits_uint sums then some sums else none

-- bisect_left of a sorted array: how many entries are below
unfoldable pub bisect_left : List ℕ → ℕ → ℕ
bisect_left [] x = 0
bisect_left (s ∷ sums) x = let rest = bisect_left sums x in if ltb s x then suc rest else 0

-- `writer(chunk)` and the new `seeked`
abbrev pub write_to : OpenFile → Bytes → OpenFile
write_to f chunk = record f { seeked = f.seeked + length chunk; content = f.content ++ chunk }

abbrev pub after_file : OpenFile → Option (ℕ × List OpenFile) → Option (ℕ × List OpenFile)
after_file f none = none
after_file f (some (i, fs)) = some (suc i, f ∷ fs)

-- the rest of a chunk goes to the next file, or the transfer ends
abbrev pub next_file :
    OpenFile → List OpenFile → Option (ℕ × List OpenFile) → Option (ℕ × List OpenFile)
next_file f [] rest = some (1, f ∷ [])
next_file f (g ∷ fs) rest = after_file f rest

-- `_write_chunk` at the current file index: the new index and the files, or the IndexError of an
-- index that is past the files
unfoldable pub write_chunk : ℕ → Bytes → List OpenFile → Option (ℕ × List OpenFile)
write_chunk i chunk [] = none
write_chunk (suc i) chunk (f ∷ fs) = after_file f (write_chunk i chunk fs)
write_chunk zero chunk (f ∷ fs) =
    let n = min (f.size - f.seeked) (length chunk) in
    let written = write_to f (take n chunk) in
    let rest = write_chunk zero (drop n chunk) fs in
    if ltb 0 (length chunk - n) then next_file written fs rest else some (0, written ∷ fs)
