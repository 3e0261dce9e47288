-- ===== src/Files/Chunks/Roundtrip.antt =====
-- From the sender's disk to the receiver's: a transfer that is whole, and one that breaks off; each
-- starts where both sides stand.
use peer_connect.Prelude.{
  ℕ, ◌-◌, ◌≤◌, Option, none, some, List, ◌++◌, ◌≡◌, refl, sym, ap, ◌∙◌, inl, inr, arith, ◌==◌,
  if◌then◌else◌, length, take, drop, Bool-cases, All, take_of_length-le, drop_of_length-le,
}
use peer_connect.Avails.Bytes.{Bytes}
use peer_connect.Files.Chunks.{
  FileItem, chunk_size_of, send_actual_file, Received, recv_loop, recv_file_contents,
}
use peer_connect.Files.Chunks.Transfer.{
  concat, send_actual_file_lem, chunk_size_pos, IsAt, recv_loop-IsAt, recv_loop-All,
}

-- what stands on the receiver's disk before a transfer: no file at the start of one, and what was
-- received before a resumed one
abbrev pub before : Bytes → FileItem → Option Bytes
before content file = if file.seeked == 0 then none else some (take file.seeked content)

abbrev start : Bytes → Bytes → FileItem → Received
start content stream file = record { disk = take file.seeked content; stream = stream; file = file }

starts :
    (sizes : List ℕ) (chunk_len : ℕ) (content stream : Bytes) (file : FileItem)
    → recv_file_contents sizes chunk_len (before content file) stream file
      ≡ some (
          recv_loop sizes
            (chunk_size_of chunk_len file)
            (file.size - file.seeked)
            (start content stream file))
unfolding recv_file_contents
starts sizes chunk_len content stream file = elim (Bool-cases (file.seeked == 0)) [
  | inr later ↦ rw (later, later) refl
  | inl fresh ↦
      let zero_seek : file.seeked ≡ 0 = ground (arith, fresh) in rw (fresh, zero_seek) refl
]

start-IsAt :
    (content stream rest : Bytes) (file : FileItem)
    → file.size ≡ length content
    → file.seeked ≤ file.size
    → stream ≡ drop file.seeked content ++ rest
    → IsAt content rest (start content stream file)
start-IsAt content stream rest file e h s = record {
  on_disk = (refl, omega (arith, e, h), e);
  to_come = s;
}

-- However the connection hands over the bytes and whenever it breaks off, what is on the receiver's
-- disk is the content as far as the file counts as read, and the rest is still to come.
pub recv_file_contents-IsAt :
    (sizes : List ℕ) (chunk_len : ℕ) (content stream rest : Bytes) (file : FileItem)
    → file.size ≡ length content
    → file.seeked ≤ file.size
    → stream ≡ drop file.seeked content ++ rest
    → (r : Received) × (recv_file_contents sizes chunk_len (before content file) stream file
        ≡ some r)
      × IsAt content rest r
recv_file_contents-IsAt sizes chunk_len content stream rest file e h s = (
  recv_loop sizes (chunk_size_of chunk_len file) (file.size - file.seeked)
      (start content stream file),
  starts sizes chunk_len content stream file,
  recv_loop-IsAt sizes (chunk_size_of chunk_len file) (file.size - file.seeked) content rest
      (start content stream file) (start-IsAt content stream rest file e h s) (omega (arith, e)),
)

-- The contents of a file that stands at the same byte on both sides, when they have been sent.
pub recv_file_contents-sent :
    (sizes : List ℕ) (recv_len : ℕ) (content stream rest : Bytes) (file : FileItem)
    → file.size ≡ length content
    → file.seeked ≤ file.size
    → stream ≡ drop file.seeked content ++ rest
    → All (λ k. 1 ≤ k) sizes
    → file.size - file.seeked ≤ length sizes
    → (r : Received) × (recv_file_contents sizes recv_len (before content file) stream file
        ≡ some r)
      × (r.disk ≡ content)
      × (r.stream ≡ rest)
      × (r.file.seeked ≡ file.size)
      × (r.file.size ≡ file.size)
recv_file_contents-sent sizes recv_len content stream rest file e h sent all enough =
    let at0 = start-IsAt content stream rest file e h sent in
    let r =
      recv_loop sizes (chunk_size_of recv_len file) (file.size - file.seeked)
        (start content stream file) in
    let at : IsAt content rest r =
      recv_loop-IsAt sizes (chunk_size_of recv_len file) (file.size - file.seeked) content rest
        (start content stream file) at0 (omega (arith, e)) in
    let (n, size) = chunk_size_pos recv_len file in
    let whole : r.file.seeked ≡ length content =
      recv_loop-All sizes (chunk_size_of recv_len file) (file.size - file.seeked) content rest
        (start content stream file) at0 (omega (arith, e)) (omega (arith, size)) all enough in
    (
      r,
      starts sizes recv_len content stream file,
      at.on_disk.0 ∙ take_of_length-le r.file.seeked content (omega (arith, whole)),
      at.to_come
          ∙ ap (λ c. c ++ rest) (drop_of_length-le r.file.seeked content (omega (arith, whole))),
      whole ∙ sym e,
      at.on_disk.2 ∙ sym e,
    )

-- A file that is not empty is sent without an error from where both sides stand, the sender's file
-- then stands at its end, and it arrives whole and leaves the rest of the stream, whatever the chunks
-- of the sender and of the receiver and however the bytes arrive, if there are as many arrivals as
-- bytes to come and none is empty.
pub recv_file_contents-send_actual_file :
    (sizes : List ℕ) (send_len recv_len : ℕ) (content rest : Bytes) (file : FileItem)
    → file.size ≡ length content
    → file.seeked ≤ file.size
    → 1 ≤ file.size
    → All (λ k. 1 ≤ k) sizes
    → file.size - file.seeked ≤ length sizes
    → (sent : List Bytes × FileItem) × (send_actual_file send_len content file ≡ some sent)
      × (sent.1.seeked ≡ file.size)
      × ((r : Received) × (recv_file_contents sizes recv_len
              (before content file)
              (concat sent.0 ++ rest)
              file
            ≡ some r)
          × (r.disk ≡ content)
          × (r.stream ≡ rest)
          × (r.file.seeked ≡ file.size)
          × (r.file.size ≡ file.size))
recv_file_contents-send_actual_file sizes send_len recv_len content rest file e h nonempty all
      enough =
    let (sent, done, all_sent, at_end) = send_actual_file_lem send_len content file e h nonempty in
    (
      sent,
      done,
      at_end,
      recv_file_contents-sent sizes recv_len content (concat sent.0 ++ rest) rest file e h
          (ap (λ c. c ++ rest) all_sent) all enough,
    )
