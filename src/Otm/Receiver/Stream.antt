-- ===== src/Otm/Receiver/Stream.antt =====
-- The files of a session hold the stream of its chunks, each its part.
use mathlib.Core.List.{append-nil}
use peer_connect.Prelude.{
  ℕ, zero, suc, ◌+◌, ◌-◌, ◌≤◌, ◌<◌, min, Option, some, List, [], ◌∷◌, ◌++◌, ◌≡◌, refl, sym, ap, ◌∙◌,
  ◌⊎◌, inl, inr, arith, ltb, leb, length, take, drop, Bool-cases, length-append, length-take,
  take_of_length-le, drop_of_length-le,
}
use peer_connect.Avails.Bytes.{Bytes}
use peer_connect.Otm.Receiver.{OpenFile, write_to, next_file, write_chunk}

-- The files hold a stream: the first its first bytes, as many as it has room for, and so on.
abbrev pub Holds : Bytes → List OpenFile → Type 0
Holds b [] = Unit
Holds b (f ∷ fs) =
    (f.content ≡ take f.size b) × (f.seeked ≡ length f.content) × Holds (drop f.size b) fs

-- the first so many files are full
abbrev pub Full : ℕ → Bytes → List OpenFile → Type 0
Full zero b fs = Unit
Full (suc i) b [] = ⊥
Full (suc i) b (f ∷ fs) = (f.size ≤ length b) × Full i (drop f.size b) fs

abbrev pub total : List OpenFile → ℕ
total [] = 0
total (f ∷ fs) = f.size + total fs

take-append : (n : ℕ) (xs ys : Bytes) → take n (xs ++ ys) ≡ take n xs ++ take (n - length xs) ys
take-append zero xs ys =
    let none_left : 0 ≡ 0 - length xs = omega arith in ap (λ k. take k ys) none_left
take-append (suc n) [] ys = let all : suc n ≡ suc n - 0 = omega arith in ap (λ k. take k ys) all
take-append (suc n) (x ∷ xs) ys =
    ap (◌∷◌ x) (take-append n xs ys ∙ ap (λ k. take n xs ++ take k ys) (omega arith))

drop-append : (n : ℕ) (xs ys : Bytes) → drop n (xs ++ ys) ≡ drop n xs ++ drop (n - length xs) ys
drop-append zero xs ys =
    let none_left : 0 ≡ 0 - length xs = omega arith in ap (λ k. xs ++ drop k ys) none_left
drop-append (suc n) [] ys = let all : suc n ≡ suc n - 0 = omega arith in ap (λ k. drop k ys) all
drop-append (suc n) (x ∷ xs) ys =
    drop-append n xs ys ∙ ap (λ k. drop n xs ++ drop k ys) (omega arith)

take-min-length : (n : ℕ) (xs : Bytes) → take (min n (length xs)) xs ≡ take n xs
take-min-length n xs = elim (Bool-cases (leb n (length xs))) [
  | inl le ↦ ap (λ k. take k xs) (ground (arith, le))
  | inr gt ↦
      let short : length xs ≤ n = ground (arith, gt) in
      take_of_length-le (min n (length xs)) xs (omega (arith, short))
      ∙ sym (take_of_length-le n xs short)
]

-- how much room a file has that holds a stream
room_of :
    (f : OpenFile) (b : Bytes)
    → f.content ≡ take f.size b
    → f.seeked ≡ length f.content
    → f.size - f.seeked ≡ f.size - length b
room_of f b c s = omega (arith, s, ap length c, length-take f.size b)

-- what a write to a file that holds a stream comes to
write_to-Holds :
    (f : OpenFile) (b chunk : Bytes)
    → f.content ≡ take f.size b
    → f.seeked ≡ length f.content
    → (write_to f (take (min (f.size - f.seeked) (length chunk)) chunk)).content
      ≡ take f.size (b ++ chunk)
write_to-Holds f b chunk c s =
    ap (λ t. f.content ++ t) (take-min-length (f.size - f.seeked) chunk)
    ∙ rw (room_of f b c s, c) (sym (take-append f.size b chunk))

-- a write that leaves files that hold a stream, full up to the new index
abbrev pub Outcome : Bytes → Option (ℕ × List OpenFile) → Type 0
Outcome b o = (j : ℕ) × (fs' : List OpenFile) × (o ≡ some (j, fs')) × Holds b fs' × Full j b fs'

next_file-Holds :
    (b rest_b : Bytes) (written : OpenFile) (gs : List OpenFile) (rest : Option (ℕ × List OpenFile))
    → written.content ≡ take written.size b
    → written.seeked ≡ length written.content
    → written.size ≤ length b
    → drop written.size b ≡ rest_b
    → (gs ≡ []) ⊎ Outcome rest_b rest
    → Outcome b (next_file written gs rest)
next_file-Holds b rest_b written [] rest c s full e o =
    (1, written ∷ [], refl, (c, s, tt), (full, tt))
next_file-Holds b rest_b written (g ∷ gs) rest c s full e (inl none_left) =
    absurd (ground (arith, none_left))
next_file-Holds b rest_b written (g ∷ gs) rest c s full e (inr (j, fs', done, holds, fulls)) =
    (suc j, written ∷ fs', rw done refl, (c, s, rw e holds), (full, rw e fulls))

-- the write to the current file, with what the rest of the chunk comes to
current-Holds :
    (b chunk : Bytes) (f : OpenFile) (fs : List OpenFile)
    → Holds b (f ∷ fs)
    → (fs ≡ [])
      ⊎ Outcome
          (drop f.size b ++ drop (min (f.size - f.seeked) (length chunk)) chunk)
          (write_chunk 0 (drop (min (f.size - f.seeked) (length chunk)) chunk) fs)
    → Outcome (b ++ chunk) (write_chunk 0 chunk (f ∷ fs))
unfolding write_chunk
current-Holds b chunk f fs h o =
    let n = min (f.size - f.seeked) (length chunk) in
    let written = write_to f (take n chunk) in
    let content = write_to-Holds f b chunk h.0 h.1 in
    let seeked : written.seeked ≡ length written.content =
      omega (arith, h.1, length-append f.content (take n chunk)) in
    let gap = room_of f b h.0 h.1 in
    elim (Bool-cases (ltb 0 (length chunk - n))) [
      | inr all ↦
          let over : drop (f.size - length b) chunk ≡ [] =
            drop_of_length-le (f.size - length b) chunk (ground (arith, all, gap)) in
          (
            0,
            written ∷ fs,
            rw all refl,
            (content, seeked, rw (drop-append f.size b chunk, over, append-nil) h.2),
            tt,
          )
      | inl more ↦
          let used : n ≡ f.size - length b = ground (arith, more, gap) in
          rw more (
            next_file-Holds (b ++ chunk) (drop f.size b ++ drop n chunk) written fs
              (write_chunk 0 (drop n chunk) fs) content seeked
              (ground (arith, more, used, length-append b chunk))
              (rw used (drop-append f.size b chunk)) o)
    ]

write_chunk_zero :
    (b chunk : Bytes) (f : OpenFile) (fs : List OpenFile)
    → Holds b (f ∷ fs)
    → Outcome (b ++ chunk) (write_chunk 0 chunk (f ∷ fs))
write_chunk_zero b chunk f [] h = current-Holds b chunk f [] h (inl refl)
write_chunk_zero b chunk f (g ∷ fs) h = current-Holds b chunk f (g ∷ fs) h (
    inr (
      write_chunk_zero (drop f.size b) (drop (min (f.size - f.seeked) (length chunk)) chunk) g fs
        h.2))

-- at any index before which the files are full
pub write_chunk-Holds :
    (i : ℕ) (b chunk : Bytes) (fs : List OpenFile)
    → i < length fs
    → Holds b fs
    → Full i b fs
    → Outcome (b ++ chunk) (write_chunk i chunk fs)
unfolding write_chunk
write_chunk-Holds i b chunk [] lt h full = absurd (omega (arith, lt))
write_chunk-Holds zero b chunk (f ∷ fs) lt h full = write_chunk_zero b chunk f fs h
write_chunk-Holds (suc i) b chunk (f ∷ fs) lt h full =
    let (j, fs', done, holds, fulls) =
      write_chunk-Holds i (drop f.size b) chunk fs (omega (arith, lt)) h.2 full.1 in
    let no_room : f.size - length b ≡ 0 = omega (arith, full.0) in
    let none_over : drop (f.size - length b) chunk ≡ chunk = ap (λ k. drop k chunk) no_room in
    let rest : drop f.size (b ++ chunk) ≡ drop f.size b ++ chunk =
      drop-append f.size b chunk ∙ ap (λ t. drop f.size b ++ t) none_over in
    let none_in : take (f.size - length b) chunk ≡ [] = ap (λ k. take k chunk) no_room in
    (
      suc j,
      f ∷ fs',
      rw done refl,
      (
        sym (
            take-append f.size b chunk
            ∙ ap (λ t. take f.size b ++ t) none_in
            ∙ append-nil (take f.size b)
            ∙ sym h.0),
        h.1,
        rw rest holds,
      ),
      (ground (arith, full.0, length-append b chunk), rw rest fulls),
    )
