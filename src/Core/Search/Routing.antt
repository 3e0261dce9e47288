-- ===== src/Core/Search/Routing.antt =====
-- Which search a reply reaches.
use peer_connect.Prelude.{
  ℕ, Bool, true, false, Option, none, some, List, [], ◌∷◌, ◌++◌, ◌≡◌, ◌≢◌, refl, sym, ap, ◌∙◌, inl,
  inr, arith, ◌==◌, if◌then◌else◌, Dict, get, Bool-cases, get-put,
}
use mathlib.Core.List.{append_assoc, append-nil}
use peer_connect.Avails.Bytes.{Bytes}
use peer_connect.Avails.Peers.{RemotePeer}
use peer_connect.Otm.Tree.{PeerId}
use peer_connect.Transfers.Rumor.{Chance}
use peer_connect.Core.Search.{
  Found, World, Gossip, Event, searched, messaged, requested, replied, found_of, add_found,
  add_loaded, handle, handle_all, search_for, handle_message, handle_search_request, reply_arrived,
  is_seen, request_arrived,
}

module _ (load_peer : Bytes → Option RemotePeer) (me : RemotePeer) (k : ℕ) where
  -- nothing of a payload that is no peer
  abbrev pub loaded_of : Option Found → List Found
  loaded_of none = []
  loaded_of (some f) = f ∷ []

  -- the replies to a search among the events
  abbrev pub replies_to : List Event → List Found
  replies_to [] = []
  replies_to (replied peers c e ∷ es) =
      let rest = replies_to es in
      if e.meta.message_id == k then loaded_of (found_of load_peer e.payload) ++ rest else rest
  replies_to (searched peers c unique ∷ es) = replies_to es
  replies_to (messaged peers c e ∷ es) = replies_to es
  replies_to (requested peers c e ∷ es) = replies_to es

  -- no other search has the id
  abbrev pub IsAlone : List Event → Type 0
  IsAlone [] = Unit
  IsAlone (searched peers c unique ∷ es) = (unique ≢ k) × IsAlone es
  IsAlone (replied peers c e ∷ es) = IsAlone es
  IsAlone (messaged peers c e ∷ es) = IsAlone es
  IsAlone (requested peers c e ∷ es) = IsAlone es

  request-state :
      (peers : List PeerId) (c : Chance) (e : Gossip) (w : World)
      → (handle_search_request me peers c e w).message_state ≡ w.message_state
  unfolding handle_search_request handle_message
  request-state peers c e w = elim (Bool-cases (is_seen e.meta w.monger)) [
    | inl seen ↦ elim (Bool-cases (request_arrived me e.payload)) [
      | inl asked ↦ rw (seen, asked) refl
      | inr other ↦ rw (seen, other) refl
    ]
    | inr new ↦ elim (Bool-cases (request_arrived me e.payload)) [
      | inl asked ↦ rw (new, asked) refl
      | inr other ↦ rw (new, other) refl
    ]
  ]

  add-other :
      (j : ℕ) (f : Found) (o : Option (List Found)) (d : Dict (List Found))
      → (j == k) ≡ false
      → get k (add_found j f o d) ≡ get k d
  add-other j f none d h = refl
  add-other j f (some queue) d h = rw (get-put j k (queue ++ f ∷ []) d, h) refl

  search-state :
      (peers : List PeerId) (c : Chance) (unique : ℕ) (w : World)
      → unique ≢ k
      → get k (search_for peers c unique w).message_state ≡ get k w.message_state
  unfolding search_for
  search-state peers c unique w h =
      let other : (unique == k) ≡ false = ground arith in
      rw (get-put unique k [] w.message_state, other) refl

  searched-state :
      (peers : List PeerId) (c : Chance) (w : World)
      → get k (search_for peers c k w).message_state ≡ some []
  unfolding search_for
  searched-state peers c w = ground (arith, get-put k k [] w.message_state)

  message-state :
      (peers : List PeerId) (c : Chance) (e : Gossip) (w : World)
      → get k (handle_message peers c e w).message_state ≡ get k w.message_state
  unfolding handle_message
  message-state peers c e w = refl

  joined :
      (b : Bool) (xs fs : List Found) → (if b then xs else []) ++ fs ≡ (if b then xs ++ fs else fs)
  joined true xs fs = refl
  joined false xs fs = refl

  add-loaded_other :
      (j : ℕ) (f : Option Found) (o : Option (List Found)) (d : Dict (List Found))
      → (j == k) ≡ false
      → get k (add_loaded j f o d) ≡ get k d
  add-loaded_other j none o d h = refl
  add-loaded_other j (some f) o d h = add-other j f o d h

  add-loaded :
      (j : ℕ) (f : Option Found) (queue : List Found) (d : Dict (List Found))
      → (j == k) ≡ true
      → get k d ≡ some queue
      → get k (add_loaded j f (some queue) d) ≡ some (queue ++ loaded_of f)
  add-loaded j none queue d here h = h ∙ ap some (sym (append-nil queue))
  add-loaded j (some f) queue d here h = ground (arith, here, get-put j k (queue ++ f ∷ []) d)

  reply-state :
      (peers : List PeerId) (c : Chance) (e : Gossip) (w : World) (queue : List Found)
      → get k w.message_state ≡ some queue
      → get k (reply_arrived load_peer peers c e w).message_state
        ≡ some (
            queue
            ++ (if e.meta.message_id == k then loaded_of (found_of load_peer e.payload) else []))
  unfolding reply_arrived
  reply-state peers c e w queue h = elim (Bool-cases (e.meta.message_id == k)) [
    | inl here ↦
        let same : e.meta.message_id ≡ k = ground (arith, here) in
        rw (here, ap (λ j. get j w.message_state) same ∙ h)
          (add-loaded e.meta.message_id (found_of load_peer e.payload) queue w.message_state here h)
    | inr there ↦ rw there (
        add-loaded_other e.meta.message_id (found_of load_peer e.payload)
          (get e.meta.message_id w.message_state) w.message_state there
        ∙ (h ∙ ap some (sym (append-nil queue))))
  ]

  handle_all-queue :
      (es : List Event) (w : World) (queue : List Found)
      → IsAlone es
      → get k w.message_state ≡ some queue
      → get k (handle_all load_peer me es w).message_state ≡ some (queue ++ replies_to es)
  unfolding handle_all handle
  handle_all-queue [] w queue a h = h ∙ ap some (sym (append-nil queue))
  handle_all-queue (searched peers c unique ∷ es) w queue a h =
      handle_all-queue es (search_for peers c unique w) queue a.1
        (search-state peers c unique w a.0 ∙ h)
  handle_all-queue (messaged peers c e ∷ es) w queue a h =
      handle_all-queue es (handle_message peers c e w) queue a (message-state peers c e w ∙ h)
  handle_all-queue (requested peers c e ∷ es) w queue a h =
      handle_all-queue es (handle_search_request me peers c e w) queue a
        (ap (get k) (request-state peers c e w) ∙ h)
  handle_all-queue (replied peers c e ∷ es) w queue a h =
      handle_all-queue es (reply_arrived load_peer peers c e w)
        (queue ++ (if e.meta.message_id == k then loaded_of (found_of load_peer e.payload) else []))
        a (reply-state peers c e w queue h)
      ∙ ap some (
          append_assoc queue _ (replies_to es)
          ∙ ap (◌++◌ queue) (
              joined (e.meta.message_id == k) (loaded_of (found_of load_peer e.payload))
                (replies_to es)))

  -- The iterator of a search gets exactly the replies that carry the id of the search and can be
  -- loaded, each loaded, in the order of their arrival, whatever other searches, of other ids, and whatever requests,
  -- replies and messages come between.
  pub search_for_lem :
      (peers : List PeerId) (c : Chance) (es : List Event) (w : World)
      → IsAlone es
      → get k (handle_all load_peer me (searched peers c k ∷ es) w).message_state
        ≡ some (replies_to es)
  unfolding handle_all handle
  search_for_lem peers c es w a =
      handle_all-queue es (search_for peers c k w) [] a (searched-state peers c w)
