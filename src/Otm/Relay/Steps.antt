-- ===== src/Otm/Relay/Steps.antt =====
-- A relay with its coroutines in flight, and every step that the event loop can make with it: the
-- arrival of a datagram or a stream connection, and the resumption of a coroutine at its await. A
-- run is any sequence of steps, so every interleaving of the handlers is covered.
use peer_connect.Prelude.{
  ℕ, zero, suc, Bool, true, false, Option, none, some, List, [], ◌∷◌, if◌then◌else◌,
}
use peer_connect.Otm.Tree.{Address, Sock, PeerId}
use peer_connect.Otm.Relay.{Relay, Future, pending, cancelled, result, done}
use peer_connect.Otm.Relay.Setup.{
  session_init_begin, connection_made, session_init_end, gossip_update_state, stop_session,
}
use peer_connect.Otm.Relay.Links.{
  gossip_downgrade_connection, gossip_tree_gather, gossip_print_every_onces_states,
}
use peer_connect.Otm.Relay.TreeCheck.{
  gossip_tree_reject, Progress, waiting, upgrade_timeout, upgrade_done, tree_check_begin,
}
use peer_connect.Otm.Relay.Streams.{
  gossip_upgrade_connection, Outcome, activate_link, add_stream_begin, add_stream_end, set_root,
}

-- A coroutine that waits: for the endpoint, for the parent, for a peer that it connects to, or for
-- the confirmation to be sent.
pub data Task : Type 0 where
  init_task : Task
  check_task : PeerId → ℕ → ℕ → ℕ → Task
  activate_task : ℕ → Task
  confirm_task : ℕ → Task

pub record System : Type 0 where
  pub relay : Relay
  pub tasks : List Task

abbrev pub start_check : System → Relay × Progress → System
start_check s (r, waiting p i j left) = record {
  relay = r;
  tasks = check_task p i j left ∷ s.tasks;
}
start_check s (r, _) = record s { relay = r }

abbrev pub start_link : (ℕ → Task) → System → Relay × Option ℕ → System
start_link task s (r, none) = record s { relay = r }
start_link task s (r, some i) = record { relay = r; tasks = task i ∷ s.tasks }

-- The task at a position leaves the list.
abbrev pub task_at : ℕ → List Task → Option Task
task_at i [] = none
task_at zero (t ∷ ts) = some t
task_at (suc i) (t ∷ ts) = task_at i ts

abbrev pub drop_task : ℕ → List Task → List Task
drop_task i [] = []
drop_task zero (t ∷ ts) = ts
drop_task (suc i) (t ∷ ts) = t ∷ drop_task i ts

-- What can happen to a relay. The last four resume the task at a position.
pub data Event : Type 0 where
  init : Event
  made : Sock → Event
  stop : Event
  root : Event
  update_state : List (PeerId × Address × Address) → Event
  tree_check : Bool → PeerId → Address → Event
  tree_reject : PeerId → Event
  upgrade : PeerId → Event
  downgrade : PeerId → Event
  gather : ℕ → Address → Event
  print_states : PeerId → Event
  stream : ℕ → PeerId → Sock → Event
  timed_out : ℕ → Event
  resumed : ℕ → Outcome → Event

-- A tree check resumes when the parent future is done. If that was cancelled meanwhile, the
-- coroutine ends by the CancelledError.
unfoldable pub resume_check : Future → PeerId → ℕ → ℕ → ℕ → System → System
unfolding upgrade_done
resume_check pending p i j left s = record s { tasks = check_task p i j left ∷ s.tasks }
resume_check cancelled p i j left s = s
resume_check (result _) p i j left s = start_check s (upgrade_done p j s.relay)

-- The resumption of a task, with the task off the list. An endpoint that is refused is a
-- PermissionError.
unfoldable pub resume : Option Task → Outcome → System → System
unfolding session_init_end resume_check activate_link add_stream_end
resume none o s = s
resume (some init_task) Outcome.refused s = s
resume (some init_task) (Outcome.answered _ _) s = record s { relay = session_init_end s.relay }
resume (some (check_task p i j left)) o s = resume_check s.relay.parent_link_fut p i j left s
resume (some (activate_task i)) o s = record s { relay = (activate_link i o s.relay).0 }
resume (some (confirm_task i)) o s = record s { relay = add_stream_end i s.relay }

-- `wait_for` gives up on a parent that has not come; if it has, the wait goes on to its end.
unfoldable pub time_out_check : Bool → PeerId → ℕ → ℕ → ℕ → System → System
unfolding upgrade_timeout
time_out_check true p i j left s = record s { tasks = check_task p i j left ∷ s.tasks }
time_out_check false p i j left s = start_check s (upgrade_timeout p i j left s.relay)

-- The other tasks have no timeout here.
unfoldable pub time_out : Option Task → System → System
unfolding time_out_check
time_out (some (check_task p i j left)) s =
    time_out_check (done s.relay.parent_link_fut) p i j left s
time_out (some t) s = record s { tasks = t ∷ s.tasks }
time_out none s = s

abbrev pub or_same : Relay → Option Relay → Relay
or_same r none = r
or_same r (some r') = r'

abbrev pub without_task : ℕ → System → System
without_task k s = record s { tasks = drop_task k s.tasks }

unfoldable pub step : Event → System → System
unfolding session_init_begin connection_made set_root
step init s = if session_init_begin s.relay then record s { tasks = init_task ∷ s.tasks } else s
step (made t) s = record s { relay = connection_made t s.relay }
step stop s = record s { relay = stop_session s.relay }
step root s = record s { relay = set_root s.relay }
step (update_state addresses) s = record s { relay = gossip_update_state addresses s.relay }
step (tree_check known id addr) s = start_check s (tree_check_begin known id addr s.relay)
step (tree_reject id) s = record s { relay = gossip_tree_reject id s.relay }
step (upgrade id) s = start_link activate_task s (gossip_upgrade_connection id s.relay)
step (downgrade id) s = record s { relay = gossip_downgrade_connection id s.relay }
step (gather level addr) s = record s {
  relay = or_same s.relay (gossip_tree_gather level addr s.relay);
}
step (print_states id) s = record s { relay = gossip_print_every_onces_states id s.relay }
step (stream session id sock) s =
    start_link confirm_task s (add_stream_begin session id sock s.relay)
step (timed_out k) s = time_out (task_at k s.tasks) (without_task k s)
step (resumed k o) s = resume (task_at k s.tasks) o (without_task k s)

unfoldable pub run : List Event → System → System
run [] s = s
run (e ∷ events) s = run events (step e s)
