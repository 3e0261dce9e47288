-- ===== src/Otm/Relay/Parent.antt =====
-- The parent future of a relay: who sets it, and that nothing changes it once it is done.
use peer_connect.Prelude.{
  ℕ, zero, suc, ◌+◌, Bool, true, false, Option, none, some, List, [], ◌∷◌, ◌≡◌, refl, ap, ◌∙◌,
  arith, get, put, keys, add, diff,
}
use peer_connect.Otm.Tree.{Address, Sock, PeerId, Direction}
use peer_connect.Otm.Relay.{
  Relay, Future, result, done, cancel, Packet, Output, emit, write, get_forward_links,
}
use peer_connect.Otm.Relay.Setup.{gossip_update_state, stop_session}
use peer_connect.Otm.Relay.Links.{
  gossip_downgrade_connection, gossip_tree_gather, gossip_print_every_onces_states, send_all,
  gather_under, passive_siblings,
}
use peer_connect.Otm.Relay.TreeCheck.{
  gossip_tree_reject, Progress, waiting, upgrade_attempt, upgrade_timeout, upgrade_done,
  tree_check_begin, tree_check_finish, forward_tree_check_packet, tree_check_accept,
  sampled_peer_ids, window_end, max_retries,
}
use peer_connect.Otm.Relay.Streams.{
  gossip_upgrade_connection, Outcome, activate_link, add_stream_begin,
}
use peer_connect.Otm.Relay.Frame.{
  send_all_frame, forward_to_frame, refresh_passive_frame, add_link_pairs_frame,
}
use peer_connect.Otm.Relay.Steps.{
  System, Task, init_task, check_task, activate_task, confirm_task, Event, step, resume, time_out,
  run, task_at, start_check, start_link, or_same, without_task,
}

pub forward-parent :
    (p : PeerId) (packet : Packet) (r : Relay)
    → (forward_tree_check_packet p packet r).parent_link_fut ≡ r.parent_link_fut
unfolding forward_tree_check_packet
forward-parent p packet r =
    ap (λ (t : Relay). t.parent_link_fut)
      (forward_to_frame (sampled_peer_ids p r) packet (record r { window_index = window_end r }))

pub finish-parent :
    (p : PeerId) (r : Relay) → (tree_check_finish p r).parent_link_fut ≡ r.parent_link_fut
unfolding tree_check_finish
finish-parent p r =
    let f = forward_tree_check_packet p (Packet.tree_check r.this_peer) r in
    ap (λ (t : Relay). t.parent_link_fut)
      (refresh_passive_frame (diff (keys f.all_links) (keys f.active_links)) f)
    ∙ forward-parent p (Packet.tree_check r.this_peer) r

pub attempt-parent :
    (p : PeerId) (i j n : ℕ) (r : Relay)
    → (upgrade_attempt p i j n r).0.parent_link_fut ≡ r.parent_link_fut
unfolding upgrade_attempt
attempt-parent p i j zero r = refl
attempt-parent p i j (suc n) r = ground (arith, finish-parent p r)

accept-parent :
    (id : PeerId) (o : Option (ℕ × ℕ)) (r : Relay)
    → (tree_check_accept id o r).0.parent_link_fut ≡ r.parent_link_fut
unfolding tree_check_accept
accept-parent id none r = refl
accept-parent id (some (i, j)) r = attempt-parent id i j max_retries (record r {
  expected_parent_peers = add id r.expected_parent_peers;
  active_links = put id j r.active_links;
})

begin-parent :
    (known : Bool) (id : PeerId) (addr : Address) (r : Relay)
    → (tree_check_begin known id addr r).0.parent_link_fut ≡ r.parent_link_fut
unfolding tree_check_begin
begin-parent false id addr r = refl
begin-parent true id addr r = ground (arith, accept-parent id (get id r.all_links) r)

reject-parent :
    (id : PeerId) (r : Relay) → (gossip_tree_reject id r).parent_link_fut ≡ r.parent_link_fut
unfolding gossip_tree_reject
reject-parent id r = ground (arith, forward-parent id (Packet.tree_check r.this_peer) r)

downgrade-parent :
    (id : PeerId) (r : Relay)
    → (gossip_downgrade_connection id r).parent_link_fut ≡ r.parent_link_fut
unfolding gossip_downgrade_connection
downgrade-parent id r = ground arith

stream-parent :
    (session_id : ℕ) (id : PeerId) (connection : Sock) (r : Relay)
    → (add_stream_begin session_id id connection r).0.parent_link_fut ≡ r.parent_link_fut
unfolding add_stream_begin
stream-parent session_id id connection r = ground arith

upgrade-parent :
    (id : PeerId) (r : Relay)
    → (gossip_upgrade_connection id r).0.parent_link_fut ≡ r.parent_link_fut
unfolding gossip_upgrade_connection
upgrade-parent id r = ground arith

activate-parent :
    (i : ℕ) (o : Outcome) (r : Relay) → (activate_link i o r).0.parent_link_fut ≡ r.parent_link_fut
unfolding activate_link
activate-parent i o r = ground arith

update-parent :
    (addresses : List (PeerId × Address × Address)) (r : Relay)
    → (gossip_update_state addresses r).parent_link_fut ≡ r.parent_link_fut
unfolding gossip_update_state
update-parent addresses r = ground (arith, (add_link_pairs_frame addresses r).parent)

pub send_all-parent :
    (is : List ℕ) (packet : Packet) (r : Relay)
    → (send_all is packet r).parent_link_fut ≡ r.parent_link_fut
send_all-parent is packet r = ap (λ (t : Relay). t.parent_link_fut) (send_all_frame is packet r)

gather_under-parent :
    (f : Future) (level : ℕ) (addr : Address) (r : Relay)
    → (or_same r (gather_under f level addr r)).parent_link_fut ≡ r.parent_link_fut
unfolding gather_under
gather_under-parent (result (some i)) level addr r =
    let packet = Packet.tree_gather (level + 1) (some (r.links i).peer_id) addr in
    send_all-parent (get_forward_links r) packet (emit (Output.datagram r.transport addr packet) r)
gather_under-parent _ level addr r = refl

gather-parent :
    (level : ℕ) (addr : Address) (r : Relay)
    → (or_same r (gossip_tree_gather level addr r)).parent_link_fut ≡ r.parent_link_fut
unfolding gossip_tree_gather
gather-parent level addr r = gather_under-parent r.parent_link_fut level addr r

print-parent :
    (id : PeerId) (r : Relay)
    → (gossip_print_every_onces_states id r).parent_link_fut ≡ r.parent_link_fut
unfolding gossip_print_every_onces_states
print-parent id r =
    send_all-parent (passive_siblings r (get_forward_links r)) (Packet.print_states id) r

stop-parent : (r : Relay) → (stop_session r).parent_link_fut ≡ r.parent_link_fut
unfolding stop_session
stop-parent r = ground arith

upgrade_done-parent :
    (p : PeerId) (j : ℕ) (r : Relay) → (upgrade_done p j r).0.parent_link_fut ≡ r.parent_link_fut
unfolding upgrade_done
upgrade_done-parent p j r =
    finish-parent p
      (record r { links = write j (record (r.links j) { direction = Direction.incoming }) r.links })

timeout-parent :
    (p : PeerId) (i j n : ℕ) (r : Relay)
    → (upgrade_timeout p i j n r).0.parent_link_fut ≡ cancel r.parent_link_fut
unfolding upgrade_timeout
timeout-parent p i j n r =
    attempt-parent p i j n (record r { parent_link_fut = cancel r.parent_link_fut })

abbrev fut : System → Future
fut s = s.relay.parent_link_fut

start_check-parent :
    (s : System) (x : Relay × Progress) → fut (start_check s x) ≡ x.0.parent_link_fut
start_check-parent s (r, waiting p i j n) = refl
start_check-parent s (r, _) = refl

start_link-parent :
    (task : ℕ → Task) (s : System) (x : Relay × Option ℕ)
    → fut (start_link task s x) ≡ x.0.parent_link_fut
start_link-parent task s (r, none) = refl
start_link-parent task s (r, some i) = refl

resume-parent :
    (t : Option Task) (o : Outcome) (s : System) → done (fut s) ≡ true → fut (resume t o s) ≡ fut s
unfolding resume
resume-parent none o s h = refl
resume-parent (some init_task) Outcome.refused s h = refl
resume-parent (some init_task) (Outcome.answered t b) s h = refl
resume-parent (some (check_task p i j n)) o s h =
    ground (arith, start_check-parent s (upgrade_done p j s.relay), upgrade_done-parent p j s.relay)
resume-parent (some (activate_task i)) o s h = activate-parent i o s.relay
resume-parent (some (confirm_task i)) o s h = ground arith

time_out-parent : (t : Option Task) (s : System) → done (fut s) ≡ true → fut (time_out t s) ≡ fut s
unfolding time_out
time_out-parent (some (check_task p i j n)) s h = ground arith
time_out-parent (some _) s h = refl
time_out-parent none s h = refl

step-parent : (e : Event) (s : System) → done (fut s) ≡ true → fut (step e s) ≡ fut s
unfolding step
step-parent Event.init s h = ground arith
step-parent (Event.made t) s h = refl
step-parent Event.stop s h = stop-parent s.relay
step-parent Event.root s h = ground arith
step-parent (Event.update_state addresses) s h = update-parent addresses s.relay
step-parent (Event.tree_check known id addr) s h =
    start_check-parent s (tree_check_begin known id addr s.relay)
    ∙ begin-parent known id addr s.relay
step-parent (Event.tree_reject id) s h = reject-parent id s.relay
step-parent (Event.upgrade id) s h =
    start_link-parent activate_task s (gossip_upgrade_connection id s.relay)
    ∙ upgrade-parent id s.relay
step-parent (Event.downgrade id) s h = downgrade-parent id s.relay
step-parent (Event.gather level addr) s h = gather-parent level addr s.relay
step-parent (Event.print_states id) s h = print-parent id s.relay
step-parent (Event.stream session id sock) s h =
    start_link-parent confirm_task s (add_stream_begin session id sock s.relay)
    ∙ stream-parent session id sock s.relay
step-parent (Event.timed_out k) s h = time_out-parent (task_at k s.tasks) (without_task k s) h
step-parent (Event.resumed k o) s h = resume-parent (task_at k s.tasks) o (without_task k s) h

-- Once the parent future of a relay is done, by a parent, as the root of the session or by a
-- cancellation, it stays as it is whatever happens afterwards and in whatever order: a relay has a
-- single parent, and a cancelled future gets none.
pub run-parent :
    (events : List Event) (s : System)
    → done s.relay.parent_link_fut ≡ true
    → (run events s).relay.parent_link_fut ≡ s.relay.parent_link_fut
unfolding run
run-parent [] s h = refl
run-parent (e ∷ events) s h =
    let same = step-parent e s h in run-parent events (step e s) (rw same h) ∙ same
