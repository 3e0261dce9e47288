-- ===== src/Otm/Relay/LinkedUpdate.antt =====
-- The update of the state, and the end of a tree check by its parent, keep the references of a relay
-- consistent.
use peer_connect.Prelude.{
  ℕ, ◌<◌, min, some, List, ◌≡◌, sym, ap, ◌∙◌, inl, inr, arith, leb, length, get, member, Bool-cases,
}
use peer_connect.Otm.Tree.{Address, PeerId, Direction}
use peer_connect.Otm.Relay.{Relay, RelayState, value, write, passive_of, active_of}
use peer_connect.Otm.Relay.Setup.{gossip_update_state, add_link_pairs}
use peer_connect.Otm.Relay.TreeCheck.{upgrade_done, tree_check_finish}
use peer_connect.Otm.Relay.Frame.{add_link_pairs_frame}
use peer_connect.Otm.Relay.Linked.{IsLinked}
use peer_connect.Otm.Relay.LinkedStreams.{heap-Keeps}
use peer_connect.Otm.Relay.LinkedSteps.{Keeps, Keeps-refl, Keeps-trans, finish-Keeps}

-- the links of the session, while nothing refers to any
module _ (addresses : List (PeerId × Address × Address)) (r : Relay) (h : IsLinked r)
    (early : value r.state < value RelayState.links_initialized) where
  abbrev updated : Relay
  updated =
      let r' = add_link_pairs addresses r in
      record r' {
        session = record {
          session_id = r'.session.session_id;
          fanout = min (length r'.all_links) r'.session.fanout;
        };
        state = RelayState.links_initialized;
      }

  no_active : (q i : ℕ) → active_of r q ≡ some i → ⊥
  no_active q i e = ground (arith, h.idle early)

  no_passive : (q i : ℕ) → passive_of r q ≡ some i → ⊥
  no_passive q i e = ground (arith, h.idle early)

  updated-Keeps : Keeps r updated
  updated-Keeps =
      let same = add_link_pairs_frame addresses r in
      (
        record {
          ready = omega arith;
          idle = λ e. absurd (omega (arith, e));
          active =
              λ q i e. absurd (no_active q i (h.active q i (ap (get q) (sym same.active) ∙ e)));
          passive =
              λ q i e. absurd (no_passive q i (h.passive q i (ap (get q) (sym same.passive) ∙ e)));
          parent = λ i e.
              let (p, _, found) = h.parent i (sym same.parent ∙ e) in absurd (no_active p i found);
        },
        record {
          expected = λ p e. ap (member p) same.expected ∙ e;
          active = λ q i e. absurd (no_active q i e);
        },
      )

pub update-Keeps :
    (addresses : List (PeerId × Address × Address)) (r : Relay)
    → IsLinked r
    → Keeps r (gossip_update_state addresses r)
unfolding gossip_update_state
update-Keeps addresses r h =
    elim (Bool-cases (leb (value RelayState.links_initialized) (value r.state))) [
      | inl e ↦ rw e (Keeps-refl r h)
      | inr e ↦ rw e (updated-Keeps addresses r h (ground arith))
    ]

pub upgrade_done-Keeps :
    (p : PeerId) (j : ℕ) (r : Relay) → IsLinked r → Keeps r (upgrade_done p j r).0
unfolding upgrade_done
upgrade_done-Keeps p j r h =
    let turned = write j (record (r.links j) { direction = Direction.incoming }) r.links in
    let r' = record r { links = turned } in
    let k = heap-Keeps turned r.out r h in
    let k' = finish-Keeps p r' k.0 in Keeps-trans r r' (tree_check_finish p r') k k'.1 k'.0
