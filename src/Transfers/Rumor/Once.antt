-- ===== src/Transfers/Rumor/Once.antt =====
-- A rumor is told to a peer once.
use mathlib.Core.List.{append-nil}
use peer_connect.Prelude.{
  ℕ, true, false, not, ◌||◌, some, List, [], ◌∷◌, ◌++◌, ◌≡◌, refl, sym, ap, ◌∙◌, inl, inr, arith,
  ◌==◌, if◌then◌else◌, Dict, get, has, member, union, Option-cases, Bool-cases, IsDistinct, get-put,
  has-put, get-remove, has-remove, member-add, member-append, member-union,
}
use peer_connect.Otm.Tree.{PeerId}
use peer_connect.Transfers.Rumor.{
  RumorMessageItem, Monger, GossipMessage, Field, has_field, dict_keys, fields_check, is_old_enough,
  drop_if_old, disseminate_each, disseminate, push, reservoir_of, alpha, send_to, forward_item,
  gossip_forward, gossip_message, should_rumor, Chance, message_arrived, Happening, arrived,
  cleaned, happen,
}
use peer_connect.Transfers.Rumor.Sample.{reservoir_of_lem}

-- the peers that a message was sent to, in order
abbrev pub told_of : ℕ → List (ℕ × PeerId) → List PeerId
told_of m [] = []
told_of m ((k, p) ∷ out) = let rest = told_of m out in if k == m then p ∷ rest else rest

told_of-append :
    (m : ℕ) (out more : List (ℕ × PeerId))
    → told_of m (out ++ more) ≡ told_of m out ++ told_of m more
told_of-append m [] more = refl
told_of-append m ((k, p) ∷ out) more = ground (arith, told_of-append m out more)

told_of-send_to :
    (m k : ℕ) (ps : List PeerId) → told_of m (send_to k ps) ≡ (if k == m then ps else [])
told_of-send_to m k [] = ground arith
told_of-send_to m k (p ∷ ps) = ground (arith, told_of-send_to m k ps)

-- What holds of a monger: no message was sent to a peer twice; a listed message has noted whom it
-- was sent to; and a message that was sent is listed or dropped.
pub record IsOnce (g : Monger) : Type 0 where
  pub once : (m : ℕ) → IsDistinct (told_of m g.sent)
  pub noted :
      (m : ℕ) (item : RumorMessageItem)
      → get m g.message_list ≡ some item
      → (p : PeerId) → member p (told_of m g.sent) ≡ true
      → member p item.peer_list ≡ true
  pub known :
      (m : ℕ) → has m g.message_list ≡ false → member m g.dropped ≡ false → told_of m g.sent ≡ []

append_apart-IsDistinct :
    (s t : List ℕ)
    → IsDistinct s
    → IsDistinct t
    → ((x : ℕ) → member x t ≡ true → member x s ≡ false)
    → IsDistinct (s ++ t)
append_apart-IsDistinct [] t us ut apart = ut
append_apart-IsDistinct (y ∷ s) t us ut apart = (
  ground (arith, member-append y s t, us.0, apart y, Bool-cases (member y t)),
  append_apart-IsDistinct s t us.1 ut (λ x m. ground (arith, apart x m)),
)

-- forwarding a listed message
module _ (randint : ℕ → ℕ) (peers : List PeerId) (m : ℕ) (item : RumorMessageItem) (g : Monger)
    (distinct : IsDistinct peers) (listed : get m g.message_list ≡ some item) (h : IsOnce g) where
  abbrev sampled : List PeerId
  sampled = reservoir_of alpha randint peers item

  told_after :
      (k : ℕ)
      → told_of k (g.sent ++ send_to m sampled)
        ≡ told_of k g.sent ++ (if m == k then sampled else [])
  told_after k =
      told_of-append k g.sent (send_to m sampled)
      ∙ ap (λ t. told_of k g.sent ++ t) (told_of-send_to k m sampled)

  fresh : (x : PeerId) → member x sampled ≡ true → member x (told_of m g.sent) ≡ false
  fresh x s = ground (
    arith,
    (reservoir_of_lem alpha randint peers item distinct).2 x s,
    h.noted m item listed x,
    Bool-cases (member x (told_of m g.sent)),
  )

  once_after : (k : ℕ) → IsDistinct (told_of k (g.sent ++ send_to m sampled))
  once_after k = rw (told_after k) (elim (Bool-cases (m == k)) [
    | inr other ↦ rw (other, append-nil) (h.once k)
    | inl here ↦
        let same : m ≡ k = ground (arith, here) in
        rw here (
          append_apart-IsDistinct (told_of k g.sent) sampled (h.once k)
            (reservoir_of_lem alpha randint peers item distinct).0
            (λ x s. ap (λ t. member x (told_of t g.sent)) (sym same) ∙ fresh x s))
  ])

  forward_item-IsOnce : IsOnce (forward_item randint peers m (some item) g)
  unfolding forward_item
  forward_item-IsOnce = record {
    once = once_after;
    noted = λ k other e p t. elim (Bool-cases (m == k)) [
      | inr ne ↦
          h.noted k other
            (ground (
              arith,
              e,
              ne,
              get-put m k (record item { peer_list = union item.peer_list sampled }) g.message_list,
            ))
            p (ground (arith, t, ne, told_after k, member-append p (told_of k g.sent) []))
      | inl eq ↦
          let same : m ≡ k = ground (arith, eq) in
          ground (
            arith,
            e,
            t,
            eq,
            get-put m k (record item { peer_list = union item.peer_list sampled }) g.message_list,
            told_after k,
            member-append p (told_of k g.sent) sampled,
            member-union p item.peer_list sampled,
            h.noted m item listed p,
            ap (λ u. member p (told_of u g.sent)) same,
          )
    ];
    known = λ k absent kept. ground (
      arith,
      absent,
      kept,
      has-put m k (record item { peer_list = union item.peer_list sampled }) g.message_list,
      told_after k,
      h.known k,
    );
  }

pub gossip_forward-IsOnce :
    (randint : ℕ → ℕ) (peers : List PeerId) (m : ℕ) (g : Monger)
    → IsDistinct peers
    → IsOnce g
    → IsOnce (gossip_forward randint peers m g)
unfolding gossip_forward forward_item
gossip_forward-IsOnce randint peers m g u h = elim (Option-cases (get m g.message_list)) [
  | inl e ↦ rw e h
  | inr (item, e) ↦ rw e (forward_item-IsOnce randint peers m item g u e h)
]

pub push-IsOnce :
    (now : ℕ) (m : GossipMessage) (g : Monger)
    → has m.message_id g.message_list ≡ false
    → member m.message_id g.dropped ≡ false
    → IsOnce g
    → IsOnce (push now m g)
unfolding push
push-IsOnce now m g new kept h =
    let item : RumorMessageItem = record {
      time_in = now;
      creation_time = m.created_at;
      peer_list = [];
    } in
    record {
      once = h.once;
      noted = λ k other e p t. elim (Bool-cases (m.message_id == k)) [
        | inr ne ↦
            h.noted k other (ground (arith, e, ne, get-put m.message_id k item g.message_list)) p t
        | inl eq ↦
            let same : m.message_id ≡ k = ground (arith, eq) in
            absurd (
              ground (
                arith,
                sym t
                    ∙ ap (member p)
                        (ap (λ u. told_of u g.sent) (sym same) ∙ h.known m.message_id new kept),
              ))
      ];
      known = λ k absent gone.
          ground (arith, absent, gone, has-put m.message_id k item g.message_list, h.known k);
    }

drop_if_old-IsOnce :
    (now m : ℕ) (item : RumorMessageItem) (g : Monger)
    → IsOnce g
    → IsOnce (drop_if_old now m item g)
unfolding drop_if_old
drop_if_old-IsOnce now m item g h = elim (Bool-cases (is_old_enough now item.time_in)) [
  | inr young ↦ rw young h
  | inl old ↦ rw old (record {
    once = h.once;
    noted = λ k other e p t. h.noted k other (ground (arith, e, get-remove m k g.message_list)) p t;
    known = λ k absent kept.
        h.known k
          (ground (arith, absent, kept, has-remove m k g.message_list, member-add m k g.dropped))
          (ground (arith, kept, member-add m k g.dropped));
  })
]

pub disseminate_each-IsOnce :
    (now : ℕ) (items : Dict RumorMessageItem) (g : Monger)
    → IsOnce g
    → IsOnce (disseminate_each now items g)
unfolding disseminate_each
disseminate_each-IsOnce now [] g h = h
disseminate_each-IsOnce now ((m, item) ∷ items) g h =
    disseminate_each-IsOnce now items (drop_if_old now m item g) (drop_if_old-IsOnce now m item g h)

pub message_arrived-IsOnce :
    (peers : List PeerId) (c : Chance) (m : GossipMessage) (g : Monger)
    → IsDistinct peers
    → IsOnce g
    → IsOnce (message_arrived peers c m g)
unfolding message_arrived gossip_message should_rumor
message_arrived-IsOnce peers c m g u h =
    elim (Bool-cases (not (fields_check m) || not (should_rumor c.time c.drawn c.scale m g))) [
      | inl ignored ↦ rw ignored h
      | inr taken ↦ elim (Bool-cases (has m.message_id g.message_list)) [
        | inl seen ↦ rw (taken, seen) (gossip_forward-IsOnce c.randint peers m.message_id g u h)
        | inr new ↦
            rw (taken, new)
              (gossip_forward-IsOnce c.randint peers m.message_id (push c.clock m g) u
                (push-IsOnce c.clock m g new (ground (arith, taken)) h))
      ]
    ]

-- every set of peers that a message meets is a set
abbrev pub AreSets : List Happening → Type 0
AreSets [] = Unit
AreSets (arrived peers c m ∷ hs) = IsDistinct peers × AreSets hs
AreSets (cleaned now ∷ hs) = AreSets hs

-- Whatever messages arrive, whenever old ones are dropped and whatever the random numbers, a
-- message is never sent to a peer twice.
pub happen-IsOnce :
    (hs : List Happening) (g : Monger) → AreSets hs → IsOnce g → IsOnce (happen hs g)
unfolding happen disseminate
happen-IsOnce [] g s h = h
happen-IsOnce (arrived peers c m ∷ hs) g s h =
    happen-IsOnce hs (message_arrived peers c m g) s.1 (message_arrived-IsOnce peers c m g s.0 h)
happen-IsOnce (cleaned now ∷ hs) g s h =
    happen-IsOnce hs (disseminate now g) s (disseminate_each-IsOnce now g.message_list g h)

-- A message without a field `id` in its body is ignored, whatever else it has: the dict that the
-- check reads holds the id under another key.
pub message_arrived_ignored :
    (peers : List PeerId) (c : Chance) (m : GossipMessage) (g : Monger)
    → has_field Field.id m.body ≡ false
    → message_arrived peers c m g ≡ g
unfolding message_arrived fields_check dict_keys
message_arrived_ignored peers c m g h = ground (arith, h)
