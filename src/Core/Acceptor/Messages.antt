-- ===== src/Core/Acceptor/Messages.antt =====
-- Which messages of a basic connection are processed.
use peer_connect.Prelude.{
  ℕ, ◌≤◌, ◌<◌, min, Bool, true, false, Option, some, List, [], ◌∷◌, ◌++◌, ◌≡◌, refl, sym, ap, ◌∙◌,
  arith, ◌==◌, length, All, take-append-length, drop-append-length,
}
use mathlib.Core.List.{append_assoc, append-nil}
use peer_connect.Avails.Bytes.{Bytes, unpack-pack}
use peer_connect.Avails.Wire.{frame}
use peer_connect.Avails.Wire.Framing.{frame-parts, take-head, drop-head}
use peer_connect.Core.Dispatch.{WireData}
use peer_connect.Core.Acceptor.{
  processed, process_once, Round, Ending, running, broken, more, handler,
}

-- a message that is sent: its bytes, framed, what they are loaded as, and the round that reads it
pub record Item : Type 0 where
  pub raw : Bytes
  pub framed : Bytes
  pub loaded : WireData
  pub round : Round

abbrev pub rounds_of : List Item → List Round
rounds_of [] = []
rounds_of (m ∷ ms) = m.round ∷ rounds_of ms

abbrev pub stream_of : List Item → Bytes
stream_of [] = []
stream_of (m ∷ ms) = m.framed ++ stream_of ms

abbrev pub messages_of : List Item → List WireData
messages_of [] = []
messages_of (m ∷ ms) = m.loaded ∷ messages_of ms

module _ (load_from : Bytes → Option WireData) (in_time : WireData → Bool) where
  process_once-frame :
      (raw f rest : Bytes) (d : WireData) (k l : ℕ)
      → frame raw ≡ some f
      → 0 < length raw
      → 4 ≤ k
      → length raw ≤ l
      → load_from raw ≡ some d
      → in_time d ≡ true
      → process_once load_from in_time k l (f ++ rest) ≡ processed d rest
  unfolding process_once
  process_once-frame raw f rest d k l framed some_bytes hk hl loads quick =
      let (size, packed, whole) = frame-parts raw framed in
      let (unpacked, four) = unpack-pack 4 (length raw) packed in
      let all_size : min k 4 ≡ 4 = omega arith in
      let all_data : min l (length raw) ≡ length raw = omega arith in
      let some_size : (length raw == 0) ≡ false = ground arith in
      rw
        (
          whole,
          append_assoc,
          all_size,
          take-head size (raw ++ rest) four,
          unpacked,
          drop-head size (raw ++ rest) four,
        )
        (rw (some_size, all_data, take-append-length raw rest, drop-append-length raw rest, loads)
          (rw quick refl))

  -- the message is not empty, is loaded and processed in time, and has arrived as a whole by its round,
  -- where the flag is set
  abbrev pub IsWhole : Item → Type 0
  IsWhole m =
      (frame m.raw ≡ some m.framed)
      × (0 < length m.raw)
      × (load_from m.raw ≡ some m.loaded)
      × (in_time m.loaded ≡ true)
      × (m.round.finalizer ≡ true)
      × (4 ≤ m.round.size_arrived)
      × (length m.raw ≤ m.round.data_arrived)

  module _ (closes : WireData → Bool) where
    handler-more :
        (r : Round) (rs : List Round) (stream rest : Bytes) (d : WireData)
        → r.finalizer ≡ true
        → process_once load_from in_time r.size_arrived r.data_arrived stream ≡ processed d rest
        → closes d ≡ false
        → handler load_from in_time closes (r ∷ rs) stream
          ≡ more d (handler load_from in_time closes rs rest)
    unfolding handler
    handler-more r rs stream rest d h p c = rw (h, handler) (rw (p, c) refl)

    handler-closed :
        (r s : Round) (rs : List Round) (stream rest : Bytes) (d : WireData)
        → r.finalizer ≡ true
        → process_once load_from in_time r.size_arrived r.data_arrived stream ≡ processed d rest
        → closes d ≡ true
        → s.finalizer ≡ true
        → handler load_from in_time closes (r ∷ s ∷ rs) stream ≡ (d ∷ [], broken)
    unfolding handler
    handler-closed r s rs stream rest d h p c goes_on = rw (h, handler) (rw (p, c, goes_on) refl)

    handler-nil : (late : Bytes) → handler load_from in_time closes [] late ≡ ([], running)
    unfolding handler
    handler-nil late = refl

    -- messages before some other rounds
    abbrev after_all : List WireData → List WireData × Ending → List WireData × Ending
    after_all [] result = result
    after_all (d ∷ ds) result = more d (after_all ds result)

    after_all-eq : (ds es : List WireData) (end : Ending) → after_all ds (es, end) ≡ (ds ++ es, end)
    after_all-eq [] es end = refl
    after_all-eq (d ∷ ds) es end = ap (more d) (after_all-eq ds es end)

    handler-All :
        (ms : List Item) (rs : List Round) (late : Bytes)
        → All IsWhole ms
        → All (λ m. closes m.loaded ≡ false) ms
        → handler load_from in_time closes (rounds_of ms ++ rs) (stream_of ms ++ late)
          ≡ after_all (messages_of ms) (handler load_from in_time closes rs late)
    handler-All [] rs late h c = refl
    handler-All (m ∷ ms) rs late (h, hs) (c, cs) =
        handler-more m.round (rounds_of ms ++ rs) (stream_of (m ∷ ms) ++ late)
          (stream_of ms ++ late) m.loaded h.4
          (rw (append_assoc m.framed (stream_of ms) late) (
            process_once-frame m.raw m.framed (stream_of ms ++ late) m.loaded m.round.size_arrived
              m.round.data_arrived h.0 h.1 h.5 h.6 h.2 h.3))
          c
        ∙ ap (more m.loaded) (handler-All ms rs late hs cs)

    -- The loop of a basic connection processes all messages in order and goes on, whatever comes
    -- later, if none of them closes the connection, its flag is set at each round, and each message is
    -- not empty, can be loaded, is processed in time and has arrived as a whole when it is read. A
    -- message behind them that closes the connection is processed too, and it is the last one: at the
    -- next round where the flag is set the loop ends by an error, whatever has been sent.
    pub handler_lem :
        (ms : List Item) (m : Item) (r : Round) (rs : List Round) (late : Bytes)
        → All IsWhole ms
        → All (λ n. closes n.loaded ≡ false) ms
        → IsWhole m
        → closes m.loaded ≡ true
        → r.finalizer ≡ true
        → (handler load_from in_time closes (rounds_of ms) (stream_of ms ++ late)
            ≡ (messages_of ms, running))
          × (handler load_from in_time closes
                (rounds_of ms ++ m.round ∷ r ∷ rs)
                (stream_of ms ++ (m.framed ++ late))
              ≡ (messages_of ms ++ m.loaded ∷ [], broken))
    handler_lem ms m r rs late h c whole closing goes_on =
        let last =
          process_once-frame m.raw m.framed late m.loaded m.round.size_arrived m.round.data_arrived
            whole.0 whole.1 whole.5 whole.6 whole.2 whole.3 in
        (
          rw (sym (append-nil (rounds_of ms))) (handler-All ms [] late h c)
              ∙ (ap (after_all (messages_of ms)) (handler-nil late)
                  ∙ (after_all-eq (messages_of ms) [] running
                      ∙ ap (λ ds. (ds, running)) (append-nil (messages_of ms)))),
          handler-All ms (m.round ∷ r ∷ rs) (m.framed ++ late) h c
              ∙ (ap (after_all (messages_of ms)) (
                    handler-closed m.round r rs (m.framed ++ late) late m.loaded whole.4 last
                      closing goes_on)
                  ∙ after_all-eq (messages_of ms) (m.loaded ∷ []) broken),
        )
