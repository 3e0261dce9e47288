-- ===== src/Files/Chunks/Transfer.antt =====
-- What is sent of a file and what is received of it, however it is cut.
use mathlib.Core.List.{append-nil}
use native.Mathlib.Nat.{zero-add, suc-add}
use peer_connect.Prelude.{
  ℕ, zero, suc, ◌+◌, ◌-◌, ◌≤◌, min, false, some, List, [], ◌∷◌, ◌++◌, ◌≡◌, refl, sym, ap, ◌∙◌, inl,
  inr, arith, ltb, ◌==◌, length, take, drop, Bool-cases, All, length-take, length-drop,
  take-append-drop, take_of_length-le, drop_of_length-le, drop-drop,
}
use peer_connect.Avails.Bytes.{Bytes}
use peer_connect.Files.Chunks.Size.{calculate_chunk_size_bounds}
use peer_connect.Files.Chunks.{
  FileItem, calculate_chunk_size, slice_of, send_chunks, chunk_size_of, send_actual_file, write_at,
  Received, recv_loop,
}

abbrev pub concat : List Bytes → Bytes
concat [] = []
concat (c ∷ cs) = c ++ concat cs

next_chunk :
    (offset n : ℕ) (content : Bytes)
    → slice_of offset n content ++ drop (offset + n) content ≡ drop offset content
next_chunk offset n content =
    rw (← drop-drop n offset content) (take-append-drop n (drop offset content))

length-slice_of :
    (offset n : ℕ) (content : Bytes)
    → length (slice_of offset n content) ≡ min n (length content - offset)
length-slice_of offset n content =
    omega (arith, length-take n (drop offset content), length-drop offset content)

send_chunks_all :
    (rounds offset n : ℕ) (content : Bytes) (file : FileItem)
    → file.size ≡ length content
    → file.seeked ≡ min offset (length content)
    → length content - offset ≤ rounds
    → (concat (send_chunks rounds offset (suc n) content file).0 ≡ drop offset content)
      × ((send_chunks rounds offset (suc n) content file).1.seeked ≡ length content)
unfolding send_chunks
send_chunks_all zero offset n content file e s h =
    (sym (drop_of_length-le offset content (omega (arith, h))), omega (arith, s, h))
send_chunks_all (suc rounds) offset n content file e s h =
    let chunk = slice_of offset (suc n) content in
    let next = record file { seeked = file.seeked + length chunk } in
    let ih =
      send_chunks_all rounds (offset + suc n) n content next e
        (omega (arith, s, length-slice_of offset (suc n) content)) (omega (arith, h)) in
    elim (Bool-cases (ltb offset file.size)) [
      | inl more ↦ rw more (rw ih.0 (next_chunk offset (suc n) content), ih.1)
      | inr over ↦
          let past : length content ≤ offset = ground (arith, over, e) in
          rw over (sym (drop_of_length-le offset content past), omega (arith, s, past))
    ]

pub chunk_size_pos :
    (chunk_len : ℕ) (file : FileItem) → (n : ℕ) × (chunk_size_of chunk_len file ≡ suc n)
chunk_size_pos (suc n) file = (n, refl)
chunk_size_pos zero file =
    let lower = calculate_chunk_size_bounds file.size in
    (calculate_chunk_size file.size - 1, omega (arith, lower.0))

-- Whatever the size of a chunk, a file that is not empty is sent: the chunks are together the rest of
-- the file from where it stood, and afterwards the file stands at its end.
pub send_actual_file_lem :
    (chunk_len : ℕ) (content : Bytes) (file : FileItem)
    → file.size ≡ length content
    → file.seeked ≤ file.size
    → 1 ≤ file.size
    → (sent : List Bytes × FileItem) × (send_actual_file chunk_len content file ≡ some sent)
      × (concat sent.0 ≡ drop file.seeked content)
      × (sent.1.seeked ≡ file.size)
unfolding send_actual_file
send_actual_file_lem chunk_len content file e h nonempty =
    let (n, size) = chunk_size_pos chunk_len file in
    let all =
      send_chunks_all (file.size - file.seeked) file.seeked n content file e (omega (arith, e, h))
        (omega (arith, e)) in
    let mapped : (length content == 0) ≡ false = ground (arith, e, nonempty) in
    (
      send_chunks (file.size - file.seeked) file.seeked (suc n) content file,
      rw (mapped, size) refl,
      all.0,
      all.1 ∙ sym e,
    )

-- at a resumable point: the disk holds the content as far as the file is read
abbrev pub IsPrefix : Bytes → Bytes → FileItem → Type 0
IsPrefix content disk file =
    (disk ≡ take file.seeked content)
    × (file.seeked ≤ length content)
    × (file.size ≡ length content)

take-append-le : (n : ℕ) (xs ys : Bytes) → n ≤ length xs → take n (xs ++ ys) ≡ take n xs
take-append-le zero xs ys h = refl
take-append-le (suc n) [] ys h = absurd (omega (arith, h))
take-append-le (suc n) (x ∷ xs) ys h = ap (◌∷◌ x) (take-append-le n xs ys (omega (arith, h)))

drop-append-le : (n : ℕ) (xs ys : Bytes) → n ≤ length xs → drop n (xs ++ ys) ≡ drop n xs ++ ys
drop-append-le zero xs ys h = refl
drop-append-le (suc n) [] ys h = absurd (omega (arith, h))
drop-append-le (suc n) (x ∷ xs) ys h = drop-append-le n xs ys (omega (arith, h))

take-take-drop : (s m : ℕ) (xs : Bytes) → take s xs ++ take m (drop s xs) ≡ take (s + m) xs
take-take-drop zero m xs = rw zero-add refl
take-take-drop (suc s) zero [] = rw suc-add refl
take-take-drop (suc s) (suc m) [] = rw suc-add refl
take-take-drop (suc s) m (x ∷ xs) = rw suc-add (ap (◌∷◌ x) (take-take-drop s m xs))

-- The disk holds the content as far as the file is read, and the stream holds the rest first.
pub record IsAt (content rest : Bytes) (r : Received) : Type 0 where
  pub on_disk : IsPrefix content r.disk r.file
  pub to_come : r.stream ≡ drop r.file.seeked content ++ rest

-- a round of the loop that is handed `m` bytes
abbrev take_in : ℕ → Received → Received
take_in m r =
    let received = take m r.stream in
    record {
      disk = write_at r.file.seeked received r.disk;
      stream = drop m r.stream;
      file = record r.file { seeked = r.file.seeked + length received };
    }

take_in-IsAt :
    (content rest : Bytes) (m : ℕ) (r : Received)
    → IsAt content rest r
    → m ≤ length content - r.file.seeked
    → IsAt content rest (take_in m r) × (length (take m r.stream) ≡ m)
take_in-IsAt content rest m r at h =
    let s = r.file.seeked in
    let (disk, inside, size) = at.on_disk in
    let left : m ≤ length (drop s content) = omega (arith, h, length-drop s content) in
    let received : take m r.stream ≡ take m (drop s content) =
      ap (take m) at.to_come ∙ take-append-le m (drop s content) rest left in
    let count : length (take m r.stream) ≡ m =
      ap length received ∙ omega (arith, length-take m (drop s content), left) in
    let disk_len : length r.disk ≡ s =
      ap length disk ∙ omega (arith, length-take s content, inside) in
    let kept : take s r.disk ≡ take s content =
      take_of_length-le s r.disk (omega (arith, disk_len)) ∙ disk in
    let past : drop (s + length (take m r.stream)) r.disk ≡ [] =
      drop_of_length-le (s + length (take m r.stream)) r.disk (omega (arith, disk_len)) in
    (
      record {
        on_disk = (
          rw (past, append-nil, kept, count, received) (take-take-drop s m content),
          omega (arith, count, inside, h),
          size,
        );
        to_come =
            ap (drop m) at.to_come
            ∙ rw (count, ← drop-drop m s content) (drop-append-le m (drop s content) rest left);
      },
      count,
    )

pub recv_loop-IsAt :
    (sizes : List ℕ) (chunk_size remaining : ℕ) (content rest : Bytes) (r : Received)
    → IsAt content rest r
    → remaining ≡ length content - r.file.seeked
    → IsAt content rest (recv_loop sizes chunk_size remaining r)
unfolding recv_loop
recv_loop-IsAt [] chunk_size remaining content rest r at e = at
recv_loop-IsAt (k ∷ sizes) chunk_size remaining content rest r at e =
    let m = min k (min chunk_size remaining) in
    let (at', count) = take_in-IsAt content rest m r at (omega (arith, e)) in
    let ih =
      recv_loop-IsAt sizes chunk_size (remaining - length (take m r.stream)) content rest
        (take_in m r) at' (omega (arith, e)) in
    elim (Bool-cases (ltb 0 remaining)) [
      | inr done ↦ rw done at
      | inl more ↦ elim (Bool-cases (length (take m r.stream) == 0)) [
        | inl closed ↦ rw (more, closed) at
        | inr nonempty ↦ rw (more, nonempty) ih
      ]
    ]

pub recv_loop-All :
    (sizes : List ℕ) (chunk_size remaining : ℕ) (content rest : Bytes) (r : Received)
    → IsAt content rest r
    → remaining ≡ length content - r.file.seeked
    → 1 ≤ chunk_size
    → All (λ k. 1 ≤ k) sizes
    → remaining ≤ length sizes
    → (recv_loop sizes chunk_size remaining r).file.seeked ≡ length content
unfolding recv_loop
recv_loop-All [] chunk_size remaining content rest r at e c all h =
    omega (arith, e, h, at.on_disk.1)
recv_loop-All (k ∷ sizes) chunk_size remaining content rest r at e c all h =
    let m = min k (min chunk_size remaining) in
    let (at', count) = take_in-IsAt content rest m r at (omega (arith, e)) in
    elim (Bool-cases (ltb 0 remaining)) [
      | inr done ↦ rw done (ground (arith, done, e, at.on_disk.1))
      | inl more ↦
          let some_left : 1 ≤ remaining = ground (arith, more) in
          let some_in : 1 ≤ m = omega (arith, some_left, c, all.0) in
          let nonempty : (length (take m r.stream) == 0) ≡ false = ground (arith, count, some_in) in
          rw (more, nonempty)
            (recv_loop-All sizes chunk_size (remaining - length (take m r.stream)) content rest
              (take_in m r) at' (omega (arith, e)) c all.1 (omega (arith, count, some_in, h)))
    ]
