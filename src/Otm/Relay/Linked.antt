-- ===== src/Otm/Relay/Linked.antt =====
-- The references of a relay are consistent: every active link is the active half of its pair in
-- `all_links`, every passive link the passive half, and the parent is the active link of a peer that
-- was expected. Preservation by each handler.
use peer_connect.Prelude.{ℕ, ◌≤◌, ◌<◌, true, some, [], ◌≡◌, sym, ◌∙◌, arith, get, member}
use peer_connect.Otm.Tree.{PeerId}
use peer_connect.Otm.Relay.{Relay, RelayState, value, result, passive_of, active_of}

pub record IsLinked (r : Relay) : Type 0 where
  pub ready : value RelayState.session_init ≤ value r.state
  pub idle : value r.state < value RelayState.links_initialized → r.all_links ≡ []
  pub active : (q i : ℕ) → get q r.active_links ≡ some i → active_of r q ≡ some i
  pub passive : (q i : ℕ) → get q r.passive_links ≡ some i → passive_of r q ≡ some i
  pub parent :
      (i : ℕ)
      → r.parent_link_fut ≡ result (some i)
      → (p : PeerId) × (member p r.expected_parent_peers ≡ true) × (active_of r p ≡ some i)

-- Links that a coroutine holds stay what they are.
pub record Grows (r r' : Relay) : Type 0 where
  pub expected :
      (p : PeerId)
      → member p r.expected_parent_peers ≡ true
      → member p r'.expected_parent_peers ≡ true
  pub active : (q i : ℕ) → active_of r q ≡ some i → active_of r' q ≡ some i

-- a handler that leaves `all_links` and the parent future as they are
module _ (r r' : Relay) (linked : IsLinked r) (links : r'.all_links ≡ r.all_links)
    (expected : (p : PeerId)
      → member p r.expected_parent_peers ≡ true
      → member p r'.expected_parent_peers ≡ true) where
  same_active : (q i : ℕ) → active_of r q ≡ some i → active_of r' q ≡ some i
  same_active q i h = rw links h

  pub Grows-of_same : Grows r r'
  Grows-of_same = record { expected = expected; active = same_active }

  parent_of_same :
      (i : ℕ)
      → r.parent_link_fut ≡ result (some i)
      → (p : PeerId) × (member p r'.expected_parent_peers ≡ true) × (active_of r' p ≡ some i)
  parent_of_same i h =
      let (p, known, found) = linked.parent i h in (p, expected p known, same_active p i found)

  pub IsLinked-of_same :
      (parent : r'.parent_link_fut ≡ r.parent_link_fut) (later : value r.state ≤ value r'.state)
      (active : (q i : ℕ) → get q r'.active_links ≡ some i → active_of r q ≡ some i)
      (passive : (q i : ℕ) → get q r'.passive_links ≡ some i → passive_of r q ≡ some i)
      → IsLinked r'
  IsLinked-of_same parent later active passive = record {
    ready = omega (arith, linked.ready);
    idle = λ early. links ∙ linked.idle (omega (arith, early, later));
    active = λ q i h. same_active q i (active q i h);
    passive = λ q i h. rw links (passive q i h);
    parent = λ i h. parent_of_same i (sym parent ∙ h);
  }
