-- ===== src/Otm/Receiver/Session.antt =====
-- Chunks that are written where the running sums of the sizes say.
use peer_connect.Prelude.{
  ℕ, zero, suc, ◌+◌, ◌-◌, ◌^◌, ◌≤◌, ◌<◌, min, false, none, some, List, [], ◌∷◌, ◌++◌, ◌≡◌, refl, ap,
  ◌∙◌, inl, inr, arith, ltb, length, drop, Option-cases, Bool-cases, if◌then◌else◌, length-drop,
}
use peer_connect.Avails.Bytes.{Bytes}
use peer_connect.Otm.Receiver.{
  OpenFile, sums_from, load_files_metadata, fits_uint, bisect_left, write_chunk,
}
use peer_connect.Otm.Receiver.Stream.{Holds, Full, total, write_chunk-Holds}

-- Writing changes no size.
write_chunk_sizes :
    (i s j : ℕ) (chunk : Bytes) (fs fs' : List OpenFile)
    → write_chunk i chunk fs ≡ some (j, fs')
    → (sums_from s fs' ≡ sums_from s fs) × (total fs' ≡ total fs) × (length fs' ≡ length fs)
unfolding write_chunk
write_chunk_sizes i s j chunk [] fs' e = absurd (ground (arith, e))
write_chunk_sizes zero s j chunk (f ∷ []) fs' e = ground (arith, e)
write_chunk_sizes zero s j chunk (f ∷ g ∷ fs) fs' e =
    let n = min (f.size - f.seeked) (length chunk) in
    elim (Option-cases (write_chunk 0 (drop n chunk) (g ∷ fs))) [
      | inl none_left ↦ ground (arith, e, none_left)
      | inr ((k, gs), done) ↦
          ground
            (arith, e, done, write_chunk_sizes 0 (s + f.size) k (drop n chunk) (g ∷ fs) gs done)
    ]
write_chunk_sizes (suc i) s j chunk (f ∷ fs) fs' e = elim (Option-cases (write_chunk i chunk fs)) [
  | inl none_left ↦ absurd (ground (arith, e, none_left))
  | inr ((k, gs), done) ↦
      ground (arith, e, done, write_chunk_sizes i (s + f.size) k chunk fs gs done)
]

-- The index that the sums give for a position within the stream: the files before are full.
bisect_left-Full :
    (fs : List OpenFile) (s x : ℕ) (b : Bytes)
    → x ≤ s + length b
    → Full (bisect_left (sums_from s fs) x) b fs
unfolding bisect_left
bisect_left-Full [] s x b h = tt
bisect_left-Full (f ∷ fs) s x b h = elim (Bool-cases (ltb (s + f.size) x)) [
  | inr here ↦ rw here tt
  | inl past ↦
      let over : s + f.size < x = ground (arith, past) in
      rw past (
        omega (arith, over, h),
        bisect_left-Full fs (s + f.size) x (drop f.size b)
            (omega (arith, over, h, length-drop f.size b)),
      )
]

bisect_left-lt :
    (fs : List OpenFile) (s x : ℕ)
    → x ≤ s + total fs
    → 1 ≤ length fs
    → bisect_left (sums_from s fs) x < length fs
unfolding bisect_left
bisect_left-lt [] s x h one = absurd (omega (arith, one))
bisect_left-lt (f ∷ []) s x h one = ground (arith, h)
bisect_left-lt (f ∷ g ∷ fs) s x h one = ground (arith, h, bisect_left-lt (g ∷ fs) (s + f.size) x)

-- Where files hold the first bytes of a stream and a position of the stream is among these bytes or just
-- behind them, `_align_corresponding_chunk` finds for it an index at which `_write_chunk` writes a chunk
-- without an error; then the files hold the stream with the chunk, every file its own bytes, however the
-- chunk falls over the files. The sums and the sizes stay, so the next chunk can follow.
pub write_chunk-bisect_left :
    (x : ℕ) (sums : List ℕ) (b chunk : Bytes) (fs : List OpenFile)
    → load_files_metadata fs ≡ some sums
    → x ≤ length b
    → length b ≤ total fs
    → Holds b fs
    → (j : ℕ) × (fs' : List OpenFile) × (write_chunk (bisect_left sums x) chunk fs ≡ some (j, fs'))
      × Holds (b ++ chunk) fs'
      × (load_files_metadata fs' ≡ some sums)
      × (total fs' ≡ total fs)
unfolding load_files_metadata
write_chunk-bisect_left x sums b chunk [] loaded at room h = absurd (ground (arith, loaded))
write_chunk-bisect_left x sums b chunk (f ∷ fs) loaded at room h =
    let e : sums ≡ sums_from 0 (f ∷ fs) = ground (arith, loaded) in
    let i = bisect_left (sums_from 0 (f ∷ fs)) x in
    let (j, fs', done, holds, full) =
      write_chunk-Holds i b chunk (f ∷ fs)
        (bisect_left-lt (f ∷ fs) 0 x (omega (arith, at, room)) (omega arith)) h
        (bisect_left-Full (f ∷ fs) 0 x b (omega (arith, at))) in
    let (same, all, count) = write_chunk_sizes i 0 j chunk (f ∷ fs) fs' done in
    (j, fs', rw (e, done) refl, holds, reloaded fs' same count ∙ loaded, all)
  where
    reloaded :
        (gs : List OpenFile)
        → sums_from 0 gs ≡ sums_from 0 (f ∷ fs)
        → length gs ≡ length (f ∷ fs)
        → load_files_metadata gs ≡ load_files_metadata (f ∷ fs)
    reloaded [] s c = absurd (omega (arith, c))
    reloaded (g ∷ gs) s c = ap (λ l. if fits_uint l then some l else none) s

-- A session whose files have 4 GiB or more in sum cannot be received: its sums do not fit.
pub load_files_metadata_overflow :
    (fs : List OpenFile) → 2 ^ 32 ≤ total fs → load_files_metadata fs ≡ none
unfolding load_files_metadata
load_files_metadata_overflow [] h = refl
load_files_metadata_overflow (f ∷ fs) h =
    rw (overflows 0 (f ∷ fs) (omega (arith, h)) (omega arith)) refl
  where
    overflows :
        (s : ℕ) (gs : List OpenFile)
        → 2 ^ 32 ≤ s + total gs
        → s < 2 ^ 32
        → fits_uint (sums_from s gs) ≡ false
    overflows s [] h small = absurd (omega (arith, h, small))
    overflows s (g ∷ gs) h small = elim (Bool-cases (ltb (s + g.size) (2 ^ 32))) [
      | inr big ↦ rw big refl
      | inl still ↦ rw still (overflows (s + g.size) gs (omega (arith, h)) (ground (arith, still)))
    ]
