-- ===== src/Otm/FilesRelay/Lagging.antt =====
-- A link that lags gets no chunk any more; when the reader returns; what is sent of a file.
use mathlib.Core.List.{append-nil, append_assoc}
use peer_connect.Prelude.{
  ℕ, zero, suc, ◌+◌, ◌-◌, ◌*◌, ◌≤◌, ◌<◌, Bool, true, false, not, ◌&&◌, ◌||◌, if◌then◌else◌, ◌⊎◌,
  none, some, List, [], ◌∷◌, ◌++◌, ◌≡◌, refl, sym, ap, ◌∙◌, inl, inr, arith, ◌==◌, ltb, leb, length,
  take, drop, filter, values, member, Bool-cases, member-filter, length-take,
}
use peer_connect.Otm.Tree.{is_lagging, is_online, is_outgoing}
use peer_connect.Otm.Relay.{Relay, forwards, get_forward_links}
use peer_connect.Avails.Bytes.{Bytes}
use peer_connect.Otm.FilesRelay.{
  Sending, delivered, timed_out, broken, Forwarding, forward_on, forward_each, forward_chunk,
  awaiting, start_reader, last_chunk, send_file,
}

abbrev pub delivers : Sending → Bool
delivers delivered = true
delivers timed_out = false
delivers broken = false

abbrev pub breaks : Sending → Bool
breaks delivered = false
breaks timed_out = false
breaks broken = true

-- the links before the first one that breaks
abbrev pub reached : (ℕ → Sending) → List ℕ → List ℕ
reached sends [] = []
reached sends (i ∷ is) = let rest = reached sends is in if breaks (sends i) then [] else i ∷ rest

abbrev pub any_breaks : (ℕ → Sending) → List ℕ → Bool
any_breaks sends [] = false
any_breaks sends (i ∷ is) = breaks (sends i) || any_breaks sends is

join :
    (b : Bool) (i : ℕ) (xs ys : List ℕ)
    → (xs ++ (if b then i ∷ [] else [])) ++ ys ≡ xs ++ (if b then i ∷ ys else ys)
join true i xs ys = append_assoc xs (i ∷ []) ys
join false i xs ys = ap (λ v. v ++ ys) (append-nil xs)

Sending-cases : (s : Sending) → (s ≡ delivered) ⊎ ((s ≡ timed_out) ⊎ (s ≡ broken))
Sending-cases delivered = inl refl
Sending-cases timed_out = inr (inl refl)
Sending-cases broken = inr (inr refl)

module _ (sends : ℕ → Sending) where
  -- only links lag whose send times out
  abbrev LagsOnly : List ℕ → Forwarding → Type 0
  LagsOnly is f =
      (i : ℕ) → member i is ≡ true → is_lagging (f.relay.links i) ≡ true → sends i ≡ timed_out

  -- What the loop leaves of the relay: only links change, and a link is online afterwards if it was
  -- and did not time out.
  record Changes (is : List ℕ) (r r' : Relay) : Type 0 where
    active : r'.active_links ≡ r.active_links
    read : r'.read_link ≡ r.read_link
    stays :
        (j : ℕ)
        → is_online (r'.links j)
          ≡ (is_online (r.links j) && not (member j is && not (delivers (sends j))))
    outgoing : (j : ℕ) → is_outgoing (r'.links j) ≡ is_outgoing (r.links j)

  none-Changes : (r : Relay) → Changes [] r r
  none-Changes r = record {
    active = refl;
    read = refl;
    stays = λ j. ground arith;
    outgoing = λ j. refl;
  }

  Changes-cons :
      (i : ℕ) (is : List ℕ) (r s u : Relay)
      → Changes (i ∷ []) r s
      → Changes is s u
      → Changes (i ∷ is) r u
  Changes-cons i is r s u now then' = record {
    active = then'.active ∙ now.active;
    read = then'.read ∙ now.read;
    stays = λ j. then'.stays j ∙ ground (arith, now.stays j);
    outgoing = λ j. then'.outgoing j ∙ now.outgoing j;
  }

  -- what a round does, by how the send ends
  record Round (i : ℕ) (is : List ℕ) (f : Forwarding) : Type 0 where
    goes_on : (forward_on sends i f).raised ≡ false
    lags : LagsOnly is (forward_on sends i f)
    more :
        (forward_on sends i f).receivers
        ≡ f.receivers ++ (if delivers (sends i) then i ∷ [] else [])
    changes : Changes (i ∷ []) f.relay (forward_on sends i f).relay

  round_delivered :
      (i : ℕ) (is : List ℕ) (f : Forwarding)
      → LagsOnly (i ∷ is) f
      → f.raised ≡ false
      → sends i ≡ delivered
      → Round i is f
  unfolding forward_on
  round_delivered i is f h up s = elim (Bool-cases (is_lagging (f.relay.links i))) [
    | inl l ↦
        let bad : sends i ≡ timed_out = h i (ground arith) l in
        absurd (ground (arith, ap delivers bad, ap delivers s))
    | inr l ↦ record {
      goes_on = rw (l, s, forward_on) up;
      lags = rw (l, s, forward_on) (λ k m. h k (ground (arith, m)));
      more = rw (l, s, forward_on) refl;
      changes =
          rw (l, s, forward_on)
            (record {
              active = refl;
              read = refl;
              stays = λ j. ground (arith, s, λ (e : i ≡ j). ap (λ k. delivers (sends k)) e);
              outgoing = λ j. refl;
            });
    }
  ]

  round_timed_out :
      (i : ℕ) (is : List ℕ) (f : Forwarding)
      → LagsOnly (i ∷ is) f
      → f.raised ≡ false
      → sends i ≡ timed_out
      → Round i is f
  unfolding forward_on is_online is_outgoing is_lagging
  round_timed_out i is f h up s = elim (Bool-cases (is_lagging (f.relay.links i))) [
    | inl l ↦ record {
      goes_on = rw (l, forward_on) up;
      lags = rw (l, forward_on) (λ k m. h k (ground (arith, m)));
      more = rw (l, s, forward_on) (sym (append-nil f.receivers));
      changes =
          rw (l, forward_on)
            (record {
              active = refl;
              read = refl;
              stays = λ j. ground (
                arith,
                s,
                l,
                λ (e : i ≡ j). ap (λ k. delivers (sends k)) e,
                λ (e : i ≡ j). ap f.relay.links e,
              );
              outgoing = λ j. refl;
            });
    }
    | inr l ↦ record {
      goes_on = rw (l, s, forward_on) up;
      lags =
          rw (l, s, forward_on)
            (λ k m e. elim (Bool-cases (i == k)) [
              | inl same ↦ let at : i ≡ k = ground (arith, same) in ap sends (sym at) ∙ s
              | inr other ↦ h k (ground (arith, m)) (ground (arith, e, other))
            ]);
      more = rw (l, s, forward_on) (sym (append-nil f.receivers));
      changes =
          rw (l, s, forward_on)
            (record {
              active = refl;
              read = refl;
              stays = λ j. ground (
                arith,
                s,
                λ (e : i ≡ j). ap (λ k. delivers (sends k)) e,
                λ (e : i ≡ j). ap f.relay.links e,
              );
              outgoing = λ j. ground (arith, λ (e : i ≡ j). ap f.relay.links e);
            });
    }
  ]

  -- the whole loop
  record Loop (is : List ℕ) (f : Forwarding) : Type 0 where
    got :
        (forward_each sends is f).receivers
        ≡ f.receivers ++ filter (λ i. delivers (sends i)) (reached sends is)
    error : (forward_each sends is f).raised ≡ any_breaks sends is
    after : Changes (reached sends is) f.relay (forward_each sends is f).relay

  Loop-next :
      (i : ℕ) (is : List ℕ) (f : Forwarding)
      → breaks (sends i) ≡ false
      → Round i is f
      → Loop is (forward_on sends i f)
      → Loop (i ∷ is) f
  unfolding forward_each
  Loop-next i is f b r l = record {
    got =
        rw (r.goes_on, forward_each, b)
          (l.got
            ∙ (ap (λ v. v ++ filter (λ j. delivers (sends j)) (reached sends is)) r.more
                ∙ join (delivers (sends i)) i f.receivers
                    (filter (λ j. delivers (sends j)) (reached sends is))));
    error = rw (r.goes_on, forward_each, b) l.error;
    after =
        rw (r.goes_on, forward_each, b)
          (Changes-cons i (reached sends is) f.relay (forward_on sends i f).relay
            (forward_each sends is (forward_on sends i f)).relay r.changes l.after);
  }

  Loop-broken :
      (i : ℕ) (is : List ℕ) (f : Forwarding)
      → LagsOnly (i ∷ is) f
      → sends i ≡ broken
      → Loop (i ∷ is) f
  unfolding forward_each forward_on
  Loop-broken i is f h s = elim (Bool-cases (is_lagging (f.relay.links i))) [
    | inl l ↦
        let bad : sends i ≡ timed_out = h i (ground arith) l in
        absurd (ground (arith, ap breaks bad, ap breaks s))
    | inr l ↦ record {
      got = rw (l, s, forward_on, forward_each) (sym (append-nil f.receivers));
      error = rw (l, s, forward_on, forward_each) refl;
      after = rw (l, s, forward_on, forward_each) (none-Changes f.relay);
    }
  ]

  forward_each-Loop : (is : List ℕ) (f : Forwarding) → LagsOnly is f → f.raised ≡ false → Loop is f
  unfolding forward_each
  forward_each-Loop [] f h up = record {
    got = sym (append-nil f.receivers);
    error = up;
    after = none-Changes f.relay;
  }
  forward_each-Loop (i ∷ is) f h up = elim (Sending-cases (sends i)) [
    | inl s ↦
        let r = round_delivered i is f h up s in
        Loop-next i is f (ap breaks s) r
          (forward_each-Loop is (forward_on sends i f) r.lags r.goes_on)
    | inr (inl s) ↦
        let r = round_timed_out i is f h up s in
        Loop-next i is f (ap breaks s) r
          (forward_each-Loop is (forward_on sends i f) r.lags r.goes_on)
    | inr (inr s) ↦ Loop-broken i is f h s
  ]

filter-filter :
    (p q d : ℕ → Bool) (xs : List ℕ)
    → ((i : ℕ) → member i xs ≡ true → q i ≡ (p i && d i))
    → filter q xs ≡ filter d (filter p xs)
filter-filter p q d [] h = refl
filter-filter p q d (x ∷ xs) h =
    ground (arith, h x (ground arith), filter-filter p q d xs (λ i m. h i (ground (arith, m))))

forwarding :
    (i : ℕ) (r : Relay) → member i (get_forward_links r) ≡ true → is_lagging (r.links i) ≡ false
unfolding get_forward_links is_online is_lagging
forwarding i r m = ground (arith, m, member-filter (forwards r) i (values r.active_links))

-- a link that got the chunk or was not tried
abbrev pub keeps : (ℕ → Sending) → List ℕ → ℕ → Bool
keeps sends tried i = not (member i tried && not (delivers (sends i)))

forwards_after :
    (sends : ℕ → Sending) (is : List ℕ) (i : ℕ) (r r' : Relay)
    → Changes sends is r r'
    → forwards r' i ≡ (forwards r i && keeps sends is i)
unfolding is_online is_outgoing
forwards_after sends is i r r' c = ground (arith, c.read, c.stays i, c.outgoing i)

forward_links_after :
    (sends : ℕ → Sending) (is : List ℕ) (r r' : Relay)
    → Changes sends is r r'
    → get_forward_links r' ≡ filter (keeps sends is) (get_forward_links r)
unfolding get_forward_links
forward_links_after sends is r r' c =
    ap (λ l. filter (forwards r') (values l)) c.active
    ∙ filter-filter (forwards r) (forwards r') (keeps sends is) (values r.active_links)
        (λ i m. forwards_after sends is i r r' c)

-- In whatever order the set of the forwarding links is listed, a chunk reaches exactly those that
-- deliver it in time, up to the first one whose send breaks: that error leaves the loop, and the links
-- behind it get no chunk. A link that timed out does not forward any more; the others do, also one that
-- broke or was not reached.
pub forward_chunk_lem :
    (sends : ℕ → Sending) (order : List ℕ → List ℕ) (r : Relay)
    → ((xs : List ℕ) (i : ℕ) → member i (order xs) ≡ member i xs)
    → ((forward_chunk sends order r).receivers
        ≡ filter (λ i. delivers (sends i)) (reached sends (order (get_forward_links r))))
      × ((forward_chunk sends order r).raised ≡ any_breaks sends (order (get_forward_links r)))
      × (get_forward_links (forward_chunk sends order r).relay
          ≡ filter
              (keeps sends (reached sends (order (get_forward_links r))))
              (get_forward_links r))
unfolding forward_chunk
forward_chunk_lem sends order r lists =
    let links = order (get_forward_links r) in
    let loop =
      forward_each-Loop sends links (record { relay = r; receivers = []; raised = false })
        (λ i m l.
          absurd (ground (arith, l, forwarding i r (sym (lists (get_forward_links r) i) ∙ m))))
        refl in
    (
      loop.got,
      loop.error,
      forward_links_after sends (reached sends links) r
          (forward_each sends links (record { relay = r; receivers = []; raised = false })).relay
          loop.after,
    )

abbrev pub repeat : ℕ → ℕ → List ℕ
repeat zero n = []
repeat (suc k) n = n ∷ repeat k n

start_reader_from :
    (c total n k : ℕ) → 1 ≤ n → (c + k) * n ≤ total → start_reader c total (repeat k n) ≡ awaiting
unfolding start_reader
start_reader_from c total n zero h le = refl
start_reader_from c total n (suc k) h le =
    let below : (c + 1) * n ≤ (c + suc k) * n = grind arith in
    let step : (c + 1) * n ≡ c * n + n = grind arith in
    let same : (c + 1 + k) * n ≡ (c + suc k) * n = ap (λ x. x * n) (omega arith) in
    let more : leb total (c * n) ≡ false = ground (arith, below, step, le, h) in
    rw more (start_reader_from (c + 1) total n k h (omega (arith, same, le)))

-- When chunks of one size have come that are all bytes of the session, the reader has not returned:
-- it waits for one more chunk.
pub start_reader_waits :
    (total n k : ℕ) → 1 ≤ n → k * n ≡ total → start_reader 0 total (repeat k n) ≡ awaiting
start_reader_waits total n k h e =
    let same : (0 + k) * n ≡ k * n = ap (λ x. x * n) (omega arith) in
    start_reader_from 0 total n k h (omega (arith, e, same))

last_chunk_short :
    (rounds offset size n : ℕ) (c content : Bytes)
    → length c ≤ n
    → (b : Bytes) × (last_chunk rounds offset size n (some c) content ≡ some b) × (length b ≤ n)
unfolding last_chunk
last_chunk_short zero offset size n c content h = (c, refl, h)
last_chunk_short (suc rounds) offset size n c content h = elim (Bool-cases (ltb offset size)) [
  | inr e ↦ rw e (c, refl, h)
  | inl e ↦ rw e (
      last_chunk_short rounds (offset + n) size n (take n (drop offset content)) content
        (omega (arith, length-take n (drop offset content))))
]

-- Of a file at most one chunk is sent, however long the file is.
pub send_file_short :
    (seeked size n : ℕ) (content : Bytes)
    → seeked < size
    → (b : Bytes) × (send_file seeked size n content ≡ some b) × (length b ≤ n)
unfolding send_file last_chunk
send_file_short seeked size n content h = first_chunk (size - seeked) (omega (arith, h))
  where
    first_chunk :
        (rounds : ℕ)
        → 1 ≤ rounds
        → (b : Bytes) × (last_chunk rounds seeked size n none content ≡ some b) × (length b ≤ n)
    first_chunk zero one = absurd (omega (arith, one))
    first_chunk (suc rounds) one =
        let more : ltb seeked size ≡ true = ground (arith, h) in
        rw more (
          last_chunk_short rounds (seeked + n) size n (take n (drop seeked content)) content
            (omega (arith, length-take n (drop seeked content))))
