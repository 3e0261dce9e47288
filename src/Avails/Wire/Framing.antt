-- ===== src/Avails/Wire/Framing.antt =====
-- What is framed at one end is what is read at the other, however the bytes arrive.
use mathlib.Core.Path.{subst}
use mathlib.Core.List.{append_assoc, append-nil}
use peer_connect.Prelude.{
  ℕ, zero, suc, ◌+◌, ◌-◌, ◌≤◌, ◌<◌, min, false, some, List, [], ◌∷◌, ◌++◌, ◌≡◌, refl, ap, inl, inr,
  ◌↔◌, arith, ltb, ◌==◌, length, take, drop, Option-cases, Bool-cases, length-append, length-take,
  length-drop, take-append-drop, take-append-length, drop-append-length,
}
use peer_connect.Avails.Bytes.{Bytes, pack, unpack-pack}
use peer_connect.Avails.Wire.{
  frame, max_datagram_send_size, send_datagram, load_datagram, Arrival, blocked, ready, Read,
  waiting, closed, got, read_exact, read_sized, read_body, receive, receive_async,
}

pub frame-parts :
    (data_bytes : Bytes) {f : Bytes}
    → frame data_bytes ≡ some f
    → (size : Bytes) × (pack 4 (length data_bytes) ≡ some size) × (f ≡ size ++ data_bytes)
unfolding frame
frame-parts data_bytes h = elim (Option-cases (pack 4 (length data_bytes))) [
  | inl e ↦ absurd (ground arith)
  | inr (size, e) ↦ (size, e, ground arith)
]

pub take-head : (size rest : Bytes) → length size ≡ 4 → take 4 (size ++ rest) ≡ size
take-head size rest e = subst (λ n. take n (size ++ rest) ≡ size) e (take-append-length size rest)

pub drop-head : (size rest : Bytes) → length size ≡ 4 → drop 4 (size ++ rest) ≡ rest
drop-head size rest e = subst (λ n. drop n (size ++ rest) ≡ rest) e (drop-append-length size rest)

-- A datagram that can be sent is loaded as the message that it was made of, also where bytes follow.
pub load-send_datagram :
    (data_bytes rest : Bytes) {f : Bytes}
    → send_datagram data_bytes ≡ some f
    → (load_datagram (f ++ rest) ≡ some data_bytes) × (length f ≤ max_datagram_send_size + 4)
unfolding send_datagram load_datagram
load-send_datagram data_bytes rest {f} h =
    let framed : frame data_bytes ≡ some f = ground arith in
    let (size, packed, whole) = frame-parts data_bytes framed in
    let (unpacked, four) = unpack-pack 4 (length data_bytes) packed in
    (
      rw (
        whole,
        append_assoc,
        take-head size (data_bytes ++ rest) four,
        unpacked,
        drop-head size (data_bytes ++ rest) four,
        take-append-length data_bytes rest,
      ),
      rw whole (ground (arith, length-append size data_bytes)),
    )

-- how often the schedule hands over bytes
abbrev pub count_ready : List Arrival → ℕ
count_ready [] = 0
count_ready (blocked ∷ l) = count_ready l
count_ready (ready k ∷ l) = suc (count_ready l)

-- What a read of `n` more bytes gives: the bytes and the rest, or it still waits, and then the
-- schedule had too few arrivals.
abbrev Reads : ℕ → Bytes → Bytes → ℕ → Read → Type 0
Reads m bytes rest arrivals waiting = arrivals < m
Reads m bytes rest arrivals closed = ⊥
Reads m bytes rest arrivals (got b s later) =
    (b ≡ bytes) × (s ≡ rest) × (arrivals ≤ count_ready later + m)

Reads-step :
    (m c a : ℕ) (bytes rest : Bytes) (r : Read)
    → 1 ≤ c
    → c ≤ m
    → Reads (m - c) bytes rest a r
    → Reads m bytes rest (suc a) r
Reads-step m c a bytes rest waiting h1 h2 h = omega arith
Reads-step m c a bytes rest closed h1 h2 h = h
Reads-step m c a bytes rest (got b s later) h1 h2 h = (h.0, h.1, omega (arith, h.2))

take_within : (c : ℕ) (xs ys : Bytes) → c ≤ length xs → take c (xs ++ ys) ≡ take c xs
take_within zero xs ys h = refl
take_within (suc c) [] ys h = absurd (omega arith)
take_within (suc c) (x ∷ xs) ys h = ap (◌∷◌ x) (take_within c xs ys (omega arith))

drop_within : (c : ℕ) (xs ys : Bytes) → c ≤ length xs → drop c (xs ++ ys) ≡ drop c xs ++ ys
drop_within zero xs ys h = refl
drop_within (suc c) [] ys h = absurd (omega arith)
drop_within (suc c) (x ∷ xs) ys h = drop_within c xs ys (omega arith)

length-eq-zero : (xs : Bytes) → length xs ≡ 0 → xs ≡ []
length-eq-zero [] h = refl
length-eq-zero (x ∷ xs) h = absurd (omega arith)

full_read :
    (n m : ℕ) (buf wanted rest : Bytes) (l : List Arrival)
    → length buf + m ≡ n
    → length wanted ≡ m
    → ltb (length buf) n ≡ false
    → Reads m (buf ++ wanted) rest (count_ready l) (got buf (wanted ++ rest) l)
full_read n m buf wanted rest l e f h =
    let none_left : wanted ≡ [] = length-eq-zero wanted (ground arith) in
    rw (none_left, append-nil) (refl, refl, omega arith)

-- however the bytes arrive, `m` wanted bytes at the head of the stream are read whole
read_exact-Reads :
    (l : List Arrival) (n m : ℕ) (buf wanted rest : Bytes)
    → length buf + m ≡ n
    → length wanted ≡ m
    → Reads m (buf ++ wanted) rest (count_ready l) (read_exact n buf (wanted ++ rest) l)
unfolding read_exact
read_exact-Reads [] n m buf wanted rest e f = elim (Bool-cases (ltb (length buf) n)) [
  | inl h ↦ rw h (ground arith)
  | inr h ↦ rw h (full_read n m buf wanted rest [] e f h)
]
read_exact-Reads (blocked ∷ l) n m buf wanted rest e f = elim (Bool-cases (ltb (length buf) n)) [
  | inl h ↦ rw h (read_exact-Reads l n m buf wanted rest e f)
  | inr h ↦ rw h (full_read n m buf wanted rest (blocked ∷ l) e f h)
]
read_exact-Reads (ready k ∷ l) n m buf wanted rest e f = elim (Bool-cases (ltb (length buf) n)) [
  | inl h ↦
      let more : length buf < n = ground arith in
      let c = min (suc k) (n - length buf) in
      let within : c ≤ length wanted = omega arith in
      let some_there : (length (wanted ++ rest) == 0) ≡ false =
        ground (arith, length-append wanted rest) in
      let later =
        read_exact-Reads l n (m - c) (buf ++ take c wanted) (drop c wanted) rest
          (omega (arith, length-append {0} buf (take c wanted), length-take {0} c wanted))
          (omega (arith, length-drop {0} c wanted)) in
      rw (h, some_there, take_within c wanted rest within, drop_within c wanted rest within)
        (Reads-step m c (count_ready l) (buf ++ wanted) rest
          (read_exact n (buf ++ take c wanted) (drop c wanted ++ rest) l) (omega arith)
          (omega arith) (rw (append_assoc, take-append-drop) at later))
  | inr h ↦ rw h (full_read n m buf wanted rest (ready k ∷ l) e f h)
]

Reads-more :
    (m c a : ℕ) (bytes rest : Bytes) (r : Read)
    → a ≤ c + 4
    → Reads m bytes rest c r
    → Reads (4 + m) bytes rest a r
Reads-more m c a bytes rest waiting h1 h = omega arith
Reads-more m c a bytes rest closed h1 h = h
Reads-more m c a bytes rest (got b s later) h1 h = (h.0, h.1, omega (arith, h.2))

total :
    (m a : ℕ) (bytes rest : Bytes) (r : Read)
    → m ≤ a
    → Reads m bytes rest a r
    → (later : List Arrival) × (r ≡ got bytes rest later)
total m a bytes rest waiting enough h = absurd (omega arith)
total m a bytes rest closed enough h = absurd h
total m a bytes rest (got b s later) enough (e1, e2, e3) = (later, rw (e1, e2))

Reads-body :
    (data_bytes rest : Bytes) (size : Bytes) (a : ℕ) (r : Read)
    → pack 4 (length data_bytes) ≡ some size
    → Reads 4 size (data_bytes ++ rest) a r
    → Reads (4 + length data_bytes) data_bytes rest a (read_body r)
unfolding read_body read_sized
Reads-body data_bytes rest size a waiting p h = omega arith
Reads-body data_bytes rest size a closed p h = h
Reads-body data_bytes rest size a (got b s later) p (e1, e2, e3) =
    let n = length data_bytes in
    rw (e1, e2, (unpack-pack 4 n p).0)
      (Reads-more n (count_ready later) a data_bytes rest
        (read_exact n [] (data_bytes ++ rest) later) e3
        (read_exact-Reads later n n [] data_bytes rest (omega arith) refl))

-- A framed message at the head of a stream is received whole, with the rest of the stream left,
-- however the bytes arrive; only a schedule with fewer arrivals than bytes may leave the receiver
-- waiting, and the connection is never taken for closed.
pub receive-frame :
    (data_bytes rest : Bytes) (l : List Arrival) {f : Bytes}
    → frame data_bytes ≡ some f
    → 4 + length data_bytes ≤ count_ready l
    → (later : List Arrival) × (receive (f ++ rest) l ≡ got data_bytes rest later)
unfolding receive
receive-frame data_bytes rest l h enough =
    let (size, packed, whole) = frame-parts data_bytes h in
    let head =
      read_exact-Reads l 4 4 [] size (data_bytes ++ rest) (omega arith)
        (unpack-pack 4 (length data_bytes) packed).1 in
    let both =
      Reads-body data_bytes rest size (count_ready l)
        (read_exact 4 [] (size ++ (data_bytes ++ rest)) l) packed head in
    rw (whole, append_assoc)
      (total (4 + length data_bytes) (count_ready l) data_bytes rest
        (read_body (read_exact 4 [] (size ++ (data_bytes ++ rest)) l)) enough both)

take_all_iff :
    (k : ℕ) (xs rest : Bytes) → take (min k (length xs)) (xs ++ rest) ≡ xs → length xs ≤ k
take_all_iff k xs rest h = omega (
  arith,
  ap length h,
  length-take {0} (min k (length xs)) (xs ++ rest),
  length-append {0} xs rest,
)

unwrap : {xs ys : Bytes} → some xs ≡ some ys → xs ≡ ys
unwrap e = cc

-- The asynchronous receiver makes a single call for the data, so it returns the message that was
-- framed exactly if the call hands over all of it, and a part of it otherwise.
pub receive_async-frame :
    (data_bytes rest : Bytes) (k l : ℕ) {f : Bytes}
    → frame data_bytes ≡ some f
    → 4 ≤ k
    → (receive_async k l (f ++ rest) ≡ some data_bytes) ↔ (length data_bytes ≤ l)
unfolding receive_async
receive_async-frame data_bytes rest k l h enough =
    let (size, packed, whole) = frame-parts data_bytes h in
    let (unpacked, four) = unpack-pack 4 (length data_bytes) packed in
    let whole_head : min k 4 ≡ 4 = omega arith in
    rw
      (
        whole,
        append_assoc,
        whole_head,
        take-head size (data_bytes ++ rest) four,
        unpacked,
        drop-head size (data_bytes ++ rest) four,
      )
      (
        (λ e. take_all_iff l data_bytes rest (unwrap e)),
        (λ fits.
            let all_of_it : min l (length data_bytes) ≡ length data_bytes = omega (arith, fits) in
            rw (all_of_it, take-append-length data_bytes rest)),
      )
