-- ===== src/Otm/Relay/Check.antt =====
-- `gossip_tree_check`: whom it accepts, and what the wait for the parent comes to.
use peer_connect.Prelude.{
  ℕ, zero, suc, ◌≤◌, ◌<◌, Bool, true, false, Option, none, some, List, [], ◌∷◌, ◌++◌, ◌≡◌, refl, ap,
  ◌∙◌, ◌⊎◌, inl, inr, arith, length, get, has, put, keys, add, diff, Bool-cases, get-put,
}
use peer_connect.Otm.Tree.{TreeLink, Address, Sock, PeerId, LinkStatus}
use peer_connect.Otm.Relay.{
  Relay, RelayState, value, pending, cancelled, done, cancel, Packet, Output, Session, emit,
}
use peer_connect.Otm.Relay.TreeCheck.{
  Progress, waiting, completed, rejected, upgrade_attempt, upgrade_timeout, tree_check_begin,
  tree_check_finish, forward_tree_check_packet, may_reject, tree_check_accept, sampled_peer_ids,
  window_end, max_retries,
}
use peer_connect.Otm.Relay.Streams.{add_stream_begin}
use peer_connect.Otm.Relay.Frame.{forward_to_frame, refresh_passive_frame}
use peer_connect.Otm.Relay.Steps.{Task, Event, run}
use peer_connect.Otm.Relay.Forward.{forward_lem}
use peer_connect.Otm.Relay.Window.{sampled_sound}
use peer_connect.Otm.Relay.Parent.{finish-parent, run-parent}

-- when a tree check of a known peer is accepted
pub record IsAccepted (id : PeerId) (r : Relay) : Type 0 where
  pub linked : has id r.all_links ≡ true
  pub room : length r.active_links ≤ r.session.fanout
  pub orphan : r.parent_link_fut ≡ pending
  pub unchecked : value r.state < value RelayState.tree_check_done

-- An accepted tree check asks the sender for a stream connection over its passive link, makes the
-- sender's active link active, notes that it is expected as a parent, and waits with two of the
-- three timeouts left.
pub tree_check_accepted :
    (id : PeerId) (addr : Address) (r : Relay) (i j : ℕ)
    → IsAccepted id r
    → get id r.all_links ≡ some (i, j)
    → tree_check_begin true id addr r ≡ (
      record r {
        expected_parent_peers = add id r.expected_parent_peers;
        active_links = put id j r.active_links;
        out =
            r.out
            ++ Output.datagram
                (r.links i).connection
                (r.links i).right
                (Packet.upgrade_conn r.this_peer)
              ∷ [];
      },
      waiting id i j 2,
    )
unfolding tree_check_begin
tree_check_accepted id addr r i j h e = ground arith

-- A tree check of a known peer whose links are not there, or that comes when there are more active
-- links than the fanout, a parent or a tree check that is done, is answered by one rejection, and
-- changes nothing else.
pub tree_check_rejected :
    (id : PeerId) (addr : Address) (r : Relay)
    → (has id r.all_links ≡ false)
      ⊎ (r.session.fanout < length r.active_links)
      ⊎ (done r.parent_link_fut ≡ true)
      ⊎ (value RelayState.tree_check_done ≤ value r.state)
    → tree_check_begin true id addr r
      ≡ (emit (Output.datagram r.transport addr (Packet.tree_reject r.this_peer)) r, rejected)
unfolding tree_check_begin
tree_check_rejected id addr r h = ground arith

pub finish-state :
    (p : PeerId) (r : Relay) → (tree_check_finish p r).state ≡ RelayState.tree_check_done
unfolding tree_check_finish
finish-state p r = refl

-- A check that waits leaves the parent future pending, and has two timeouts left.
attempt-waiting :
    (id p : PeerId) (i j i' j' n left : ℕ) (r r1 : Relay)
    → upgrade_attempt id i j n r ≡ (r1, waiting p i' j' left)
    → (suc left ≡ n) × (r1.parent_link_fut ≡ pending)
unfolding upgrade_attempt
attempt-waiting id p i j i' j' zero left r r1 h = cc (ap (λ (x : Relay × Progress). x.1) h)
attempt-waiting id p i j i' j' (suc n) left r r1 h = ground arith

accept-waiting :
    (id p : PeerId) (o : Option (ℕ × ℕ)) (i j left : ℕ) (r r1 : Relay)
    → tree_check_accept id o r ≡ (r1, waiting p i j left)
    → (left ≡ 2) × (r1.parent_link_fut ≡ pending)
unfolding tree_check_accept
accept-waiting id p none i j left r r1 h = cc (ap (λ (x : Relay × Progress). x.1) h)
accept-waiting id p (some (i', j')) i j left r r1 h =
    let w =
      attempt-waiting id p i' j' i j max_retries left
        (record r {
          expected_parent_peers = add id r.expected_parent_peers;
          active_links = put id j' r.active_links;
        })
        r1 h in
    (omega arith, w.1)

begin-waiting :
    (known : Bool) (id p : PeerId) (addr : Address) (i j left : ℕ) (r r1 : Relay)
    → tree_check_begin known id addr r ≡ (r1, waiting p i j left)
    → (left ≡ 2) × (r1.parent_link_fut ≡ pending)
unfolding tree_check_begin
begin-waiting false id p addr i j left r r1 h = cc (ap (λ (x : Relay × Progress). x.1) h)
begin-waiting true id p addr i j left r r1 h = elim (Bool-cases (may_reject id r)) [
  | inl no_room ↦ absurd (ground arith)
  | inr fine ↦ accept-waiting id p (get id r.all_links) i j left r r1 (ground arith)
]

timeout_completes :
    (p : PeerId) (i j : ℕ) (r : Relay)
    → r.parent_link_fut ≡ pending
    → ((upgrade_timeout p i j 2 r).1 ≡ completed)
      × ((upgrade_timeout p i j 2 r).0.state ≡ RelayState.tree_check_done)
      × ((upgrade_timeout p i j 2 r).0.parent_link_fut ≡ cancelled)
unfolding upgrade_timeout
timeout_completes p i j r h =
    let r' = record r { parent_link_fut = cancel r.parent_link_fut } in
    ground (arith, finish-state p r', finish-parent p r')

-- If the sender of an accepted check has not connected when the first wait times out, the check
-- does not fail: the wait has cancelled the parent future, so the loop ends by its `break`, and the
-- check completes without a parent, for good: whatever happens afterwards, the future stays
-- cancelled.
pub tree_check_unparented :
    (id : PeerId) (addr : Address) (r r1 : Relay) (i j left : ℕ) (events : List Event)
    (ts : List Task)
    → tree_check_begin true id addr r ≡ (r1, waiting id i j left)
    → ((upgrade_timeout id i j left r1).1 ≡ completed)
      × ((upgrade_timeout id i j left r1).0.state ≡ RelayState.tree_check_done)
      × ((run events (record {
        relay = (upgrade_timeout id i j left r1).0;
        tasks = ts;
      })).relay.parent_link_fut
          ≡ cancelled)
tree_check_unparented id addr r r1 i j left events ts h =
    let w = begin-waiting true id id addr i j left r r1 h in
    let t = timeout_completes id i j r1 w.1 in
    rw w.0 (
      t.0,
      t.1,
      run-parent events (record { relay = (upgrade_timeout id i j 2 r1).0; tasks = ts }) (rw t.2)
          ∙ t.2,
    )

finish-links : (p : PeerId) (r : Relay) → (tree_check_finish p r).links ≡ r.links
unfolding tree_check_finish forward_tree_check_packet
finish-links p r =
    let packet = Packet.tree_check r.this_peer in
    let f = forward_tree_check_packet p packet r in
    ap (λ (t : Relay). t.links)
      (refresh_passive_frame (diff (keys f.all_links) (keys f.active_links)) f)
    ∙ ap (λ (t : Relay). t.links)
        (forward_to_frame (sampled_peer_ids p r) packet (record r { window_index = window_end r }))

finish-session : (p : PeerId) (r : Relay) → (tree_check_finish p r).session ≡ r.session
unfolding tree_check_finish forward_tree_check_packet
finish-session p r =
    let packet = Packet.tree_check r.this_peer in
    let f = forward_tree_check_packet p packet r in
    ap (λ (t : Relay). t.session)
      (refresh_passive_frame (diff (keys f.all_links) (keys f.active_links)) f)
    ∙ ap (λ (t : Relay). t.session)
        (forward_to_frame (sampled_peer_ids p r) packet (record r { window_index = window_end r }))

-- the sender of a tree check is not among the peers that it is forwarded to
finish-active :
    (p : PeerId) (r : Relay) → get p (tree_check_finish p r).active_links ≡ get p r.active_links
unfolding tree_check_finish
finish-active p r =
    let packet = Packet.tree_check r.this_peer in
    let f = forward_tree_check_packet p packet r in
    let same : get p f.active_links ≡ get p r.active_links =
      ground (arith, (forward_lem p p packet r).1, sampled_sound p p r) in
    ap (λ (t : Relay). get p t.active_links)
      (refresh_passive_frame (diff (keys f.all_links) (keys f.active_links)) f)
    ∙ same

stream_when_done :
    (session_id : ℕ) (id : PeerId) (connection : Sock) (j : ℕ) (r : Relay)
    → r.session.session_id ≡ session_id
    → get id r.active_links ≡ some j
    → (r.links j).status ≡ LinkStatus.offline
    → done r.parent_link_fut ≡ true
    → add_stream_begin session_id id connection r ≡ (emit (Output.close connection) r, none)
unfolding add_stream_begin
stream_when_done session_id id connection j r e1 e2 e3 e4 = ground arith

timeout-finish :
    (p : PeerId) (i j : ℕ) (r : Relay)
    → r.parent_link_fut ≡ pending
    → (upgrade_timeout p i j 2 r).0 ≡ tree_check_finish p (record r { parent_link_fut = cancelled })
unfolding upgrade_timeout upgrade_attempt
timeout-finish p i j r e = rw e

-- A parent that connects after the first wait has timed out is turned away: its connection is
-- closed, and nothing else happens.
pub late_parent_closed :
    (id : PeerId) (addr : Address) (connection : Sock) (r : Relay) (i j : ℕ)
    → IsAccepted id r
    → get id r.all_links ≡ some (i, j)
    → (r.links j).status ≡ LinkStatus.offline
    → add_stream_begin r.session.session_id id connection
        (upgrade_timeout id i j 2 (tree_check_begin true id addr r).0).0
      ≡ (
        emit
            (Output.close connection)
            (upgrade_timeout id i j 2 (tree_check_begin true id addr r).0).0,
        none,
      )
late_parent_closed id addr connection r i j ok e off =
    let r1 = (tree_check_begin true id addr r).0 in
    let accepted = tree_check_accepted id addr r i j ok e in
    let wait : r1.parent_link_fut ≡ pending =
      ap (λ (x : Relay × Progress). x.0.parent_link_fut) accepted ∙ ok.orphan in
    let r2 = record r1 { parent_link_fut = cancelled } in
    rw (timeout-finish id i j r1 wait) (
      stream_when_done r.session.session_id id connection j (tree_check_finish id r2)
        (ap (λ (x : Session). x.session_id) (finish-session id r2)
          ∙ ap (λ (x : Relay × Progress). x.0.session.session_id) accepted)
        (finish-active id r2
          ∙ ap (λ (x : Relay × Progress). get id x.0.active_links) accepted
          ∙ ground (arith, get-put id id j r.active_links))
        (ap (λ (l : ℕ → TreeLink). (l j).status) (finish-links id r2)
          ∙ ap (λ (x : Relay × Progress). (x.0.links j).status) accepted
          ∙ off)
        (ap done (finish-parent id r2)))
