-- ===== src/Otm/Relay/Invariant.antt =====
-- The references of a relay stay consistent in every run, whatever the interleaving of handlers.
use peer_connect.Prelude.{
  ℕ, zero, suc, Bool, true, false, Option, none, some, List, [], ◌∷◌, ◌≡◌, refl, ◌⊎◌, inl, inr,
  arith, member, All,
}
use mathlib.Core.Path.{subst}
use peer_connect.Otm.Tree.{Sock, PeerId}
use peer_connect.Otm.Relay.{
  Relay, Future, pending, cancelled, result, done, cancel, set_result, active_of,
}
use peer_connect.Otm.Relay.Setup.{
  session_init_begin, connection_made, gossip_update_state, stop_session,
}
use peer_connect.Otm.Relay.Links.{
  gossip_downgrade_connection, gossip_tree_gather, gossip_print_every_onces_states,
}
use peer_connect.Otm.Relay.TreeCheck.{
  gossip_tree_reject, Progress, waiting, upgrade_attempt, upgrade_timeout, upgrade_done,
  tree_check_begin,
}
use peer_connect.Otm.Relay.Streams.{
  gossip_upgrade_connection, Outcome, activate_link, add_stream_begin, add_stream_end, set_root,
}
use peer_connect.Otm.Relay.Steps.{
  resume_check, time_out_check, System, Task, init_task, check_task, activate_task, confirm_task,
  Event, step, resume, time_out, run, task_at, drop_task, start_check, start_link, or_same,
  without_task,
}
use peer_connect.Otm.Relay.Linked.{IsLinked, Grows}
use peer_connect.Otm.Relay.LinkedSteps.{
  Keeps, Keeps-trans, attempt-Keeps, begin-Keeps, reject-Keeps,
}
use peer_connect.Otm.Relay.LinkedStreams.{
  stream-Keeps, upgrade-Keeps, activate-Keeps, stop-Keeps, gather-Keeps, print-Keeps,
  downgrade-Keeps,
}
use peer_connect.Otm.Relay.LinkedUpdate.{update-Keeps, upgrade_done-Keeps}

-- what holds of a waiting coroutine: the one that confirms a stream has an expected peer's link
abbrev pub TaskOk : Relay → Task → Type 0
TaskOk r init_task = ⊥
TaskOk r (check_task p i j left) = Unit
TaskOk r (activate_task i) = Unit
TaskOk r (confirm_task i) =
    (p : PeerId) × (member p r.expected_parent_peers ≡ true) × (active_of r p ≡ some i)

pub record IsSound (s : System) : Type 0 where
  pub linked : IsLinked s.relay
  pub tasks : All (TaskOk s.relay) s.tasks

TaskOk-Grows : (r r' : Relay) (t : Task) → Grows r r' → TaskOk r t → TaskOk r' t
TaskOk-Grows r r' init_task g h = h
TaskOk-Grows r r' (check_task p i j left) g h = tt
TaskOk-Grows r r' (activate_task i) g h = tt
TaskOk-Grows r r' (confirm_task i) g (p, known, found) = (p, g.expected p known, g.active p i found)

tasks-Grows : (r r' : Relay) (ts : List Task) → Grows r r' → All (TaskOk r) ts → All (TaskOk r') ts
tasks-Grows r r' [] g h = tt
tasks-Grows r r' (t ∷ ts) g h = (TaskOk-Grows r r' t g h.0, tasks-Grows r r' ts g h.1)

task_at-Ok :
    (r : Relay) (k : ℕ) (ts : List Task) (t : Task)
    → All (TaskOk r) ts
    → task_at k ts ≡ some t
    → TaskOk r t
task_at-Ok r k [] t h e = absurd (ground arith)
task_at-Ok r zero (u ∷ ts) t h e = let same : u ≡ t = cc in subst (TaskOk r) same h.0
task_at-Ok r (suc k) (u ∷ ts) t h e = task_at-Ok r k ts t h.1 e

drop_task-Ok :
    (r : Relay) (k : ℕ) (ts : List Task) → All (TaskOk r) ts → All (TaskOk r) (drop_task k ts)
drop_task-Ok r k [] h = tt
drop_task-Ok r zero (u ∷ ts) h = h.1
drop_task-Ok r (suc k) (u ∷ ts) h = (h.0, drop_task-Ok r k ts h.1)

-- a handler without a task of its own
IsSound-of_Keeps :
    (s : System) (r : Relay) → IsSound s → Keeps s.relay r → IsSound (record s { relay = r })
IsSound-of_Keeps s r h k = record {
  linked = k.0;
  tasks = tasks-Grows s.relay r s.tasks k.1 h.tasks;
}

start_check-IsSound :
    (s : System) (x : Relay × Progress) → IsSound s → Keeps s.relay x.0 → IsSound (start_check s x)
start_check-IsSound s (r, waiting p i j left) h k = record {
  linked = k.0;
  tasks = (tt, tasks-Grows s.relay r s.tasks k.1 h.tasks);
}
start_check-IsSound s (r, _) h k = IsSound-of_Keeps s r h k

start_link-IsSound :
    (task : ℕ → Task) (s : System) (x : Relay × Option ℕ)
    → IsSound s
    → Keeps s.relay x.0
    → ((i : ℕ) → x.1 ≡ some i → TaskOk x.0 (task i))
    → IsSound (start_link task s x)
start_link-IsSound task s (r, none) h k f = IsSound-of_Keeps s r h k
start_link-IsSound task s (r, some i) h k f = record {
  linked = k.0;
  tasks = (f i refl, tasks-Grows s.relay r s.tasks k.1 h.tasks);
}

-- a stream connection that is to be confirmed comes from an expected peer
stream-TaskOk :
    (session_id : ℕ) (id : PeerId) (connection : Sock) (r : Relay)
    → IsLinked r
    → (i : ℕ) → (add_stream_begin session_id id connection r).1 ≡ some i
    → TaskOk (add_stream_begin session_id id connection r).0 (confirm_task i)
unfolding add_stream_begin
stream-TaskOk session_id id connection r h i e = (id, ground arith, ground (arith, h.active id i))

cancel-Keeps :
    (r : Relay) → IsLinked r → Keeps r (record r { parent_link_fut = cancel r.parent_link_fut })
cancel-Keeps r h = (
  record {
    ready = h.ready;
    idle = h.idle;
    active = h.active;
    passive = h.passive;
    parent = λ i e. h.parent i (ground arith);
  },
  record { expected = λ p e. e; active = λ q i e. e },
)

timeout-Keeps :
    (p : PeerId) (i j n : ℕ) (r : Relay) → IsLinked r → Keeps r (upgrade_timeout p i j n r).0
unfolding upgrade_timeout
timeout-Keeps p i j n r h =
    let r' = record r { parent_link_fut = cancel r.parent_link_fut } in
    let k = cancel-Keeps r h in
    let k' = attempt-Keeps p i j n r' k.0 in
    Keeps-trans r r' (upgrade_attempt p i j n r').0 k k'.1 k'.0

set_result-cases :
    (f : Future) (x : Option ℕ) (k : ℕ)
    → set_result x f ≡ result (some k)
    → (x ≡ some k) ⊎ (f ≡ result (some k))
set_result-cases pending x k e = inl (ground arith)
set_result-cases cancelled x k e = absurd (ground arith)
set_result-cases (result old) x k e = inr e

set_result-Keeps :
    (x : Option ℕ) (r : Relay)
    → IsLinked r
    → ((i : ℕ)
        → x ≡ some i
        → (p : PeerId) × (member p r.expected_parent_peers ≡ true) × (active_of r p ≡ some i))
    → Keeps r (record r { parent_link_fut = set_result x r.parent_link_fut })
set_result-Keeps x r h ok = (
  record {
    ready = h.ready;
    idle = h.idle;
    active = h.active;
    passive = h.passive;
    parent = λ k m. elim (set_result-cases r.parent_link_fut x k m) [
      | inl e ↦ ok k e
      | inr e ↦ h.parent k e
    ];
  },
  record { expected = λ p m. m; active = λ q k m. m },
)

resume_check-IsSound :
    (f : Future) (p : PeerId) (i j n : ℕ) (s : System)
    → IsSound s
    → IsSound (resume_check f p i j n s)
unfolding resume_check
resume_check-IsSound pending p i j n s h = record { linked = h.linked; tasks = (tt, h.tasks) }
resume_check-IsSound cancelled p i j n s h = h
resume_check-IsSound (result x) p i j n s h =
    start_check-IsSound s (upgrade_done p j s.relay) h (upgrade_done-Keeps p j s.relay h.linked)

time_out_check-IsSound :
    (b : Bool) (p : PeerId) (i j n : ℕ) (s : System)
    → IsSound s
    → IsSound (time_out_check b p i j n s)
unfolding time_out_check
time_out_check-IsSound true p i j n s h = record { linked = h.linked; tasks = (tt, h.tasks) }
time_out_check-IsSound false p i j n s h =
    start_check-IsSound s (upgrade_timeout p i j n s.relay) h
      (timeout-Keeps p i j n s.relay h.linked)

resume-IsSound :
    (t : Option Task) (o : Outcome) (s : System)
    → IsSound s
    → ((u : Task) → t ≡ some u → TaskOk s.relay u)
    → IsSound (resume t o s)
unfolding resume
resume-IsSound none o s h ok = h
resume-IsSound (some init_task) o s h ok = absurd (ok init_task refl)
resume-IsSound (some (check_task p i j n)) o s h ok =
    resume_check-IsSound s.relay.parent_link_fut p i j n s h
resume-IsSound (some (activate_task i)) o s h ok =
    IsSound-of_Keeps s (activate_link i o s.relay).0 h (activate-Keeps i o s.relay h.linked)
resume-IsSound (some (confirm_task i)) o s h ok = IsSound-of_Keeps s (add_stream_end i s.relay) h (
    set_result-Keeps (some i) s.relay h.linked (λ k e.
      let same : i ≡ k = ground arith in
      subst
        (λ (n : ℕ).
          (p : PeerId) × (member p s.relay.expected_parent_peers ≡ true)
          × (active_of s.relay p ≡ some n))
        same (ok (confirm_task i) refl)))

time_out-IsSound :
    (t : Option Task) (s : System)
    → IsSound s
    → ((u : Task) → t ≡ some u → TaskOk s.relay u)
    → IsSound (time_out t s)
unfolding time_out
time_out-IsSound (some (check_task p i j n)) s h ok =
    time_out_check-IsSound (done s.relay.parent_link_fut) p i j n s h
time_out-IsSound (some t) s h ok = record { linked = h.linked; tasks = (ok t refl, h.tasks) }
time_out-IsSound none s h ok = h

without-IsSound : (k : ℕ) (s : System) → IsSound s → IsSound (without_task k s)
without-IsSound k s h = record { linked = h.linked; tasks = drop_task-Ok s.relay k s.tasks h.tasks }

-- the endpoint is there, so `session_init` returns at once
not_init : (r : Relay) → IsLinked r → session_init_begin r ≡ false
unfolding session_init_begin
not_init r h = ground (arith, h.ready)

transport-Keeps : (t : Sock) (r : Relay) → IsLinked r → Keeps r (connection_made t r)
unfolding connection_made
transport-Keeps t r h = (
  record {
    ready = h.ready;
    idle = h.idle;
    active = h.active;
    passive = h.passive;
    parent = h.parent;
  },
  record { expected = λ p m. m; active = λ q k m. m },
)

step-IsSound : (e : Event) (s : System) → IsSound s → IsSound (step e s)
unfolding step
step-IsSound Event.init s h = rw (not_init s.relay h.linked) h
step-IsSound (Event.made t) s h =
    IsSound-of_Keeps s (connection_made t s.relay) h (transport-Keeps t s.relay h.linked)
step-IsSound Event.stop s h =
    IsSound-of_Keeps s (stop_session s.relay) h (stop-Keeps s.relay h.linked)
step-IsSound Event.root s h =
    IsSound-of_Keeps s (set_root s.relay) h
      (set_result-Keeps none s.relay h.linked (λ i e. absurd (ground arith)))
step-IsSound (Event.update_state addresses) s h =
    IsSound-of_Keeps s (gossip_update_state addresses s.relay) h
      (update-Keeps addresses s.relay h.linked)
step-IsSound (Event.tree_check known id addr) s h =
    start_check-IsSound s (tree_check_begin known id addr s.relay) h
      (begin-Keeps known id addr s.relay h.linked)
step-IsSound (Event.tree_reject id) s h =
    IsSound-of_Keeps s (gossip_tree_reject id s.relay) h (reject-Keeps id s.relay h.linked)
step-IsSound (Event.upgrade id) s h =
    start_link-IsSound activate_task s (gossip_upgrade_connection id s.relay) h
      (upgrade-Keeps id s.relay h.linked) (λ i e. tt)
step-IsSound (Event.downgrade id) s h =
    IsSound-of_Keeps s (gossip_downgrade_connection id s.relay) h
      (downgrade-Keeps id s.relay h.linked)
step-IsSound (Event.gather level addr) s h =
    IsSound-of_Keeps s (or_same s.relay (gossip_tree_gather level addr s.relay)) h
      (gather-Keeps level addr s.relay h.linked)
step-IsSound (Event.print_states id) s h =
    IsSound-of_Keeps s (gossip_print_every_onces_states id s.relay) h
      (print-Keeps id s.relay h.linked)
step-IsSound (Event.stream session id sock) s h =
    start_link-IsSound confirm_task s (add_stream_begin session id sock s.relay) h
      (stream-Keeps session id sock s.relay h.linked)
      (stream-TaskOk session id sock s.relay h.linked)
step-IsSound (Event.timed_out k) s h =
    time_out-IsSound (task_at k s.tasks) (without_task k s) (without-IsSound k s h)
      (λ u e. task_at-Ok s.relay k s.tasks u h.tasks e)
step-IsSound (Event.resumed k o) s h =
    resume-IsSound (task_at k s.tasks) o (without_task k s) (without-IsSound k s h)
      (λ u e. task_at-Ok s.relay k s.tasks u h.tasks e)

-- In every run of a relay whose endpoint is there, whatever the handlers and their interleaving: an
-- active link is the active link that `all_links` holds for its peer, a passive link the passive
-- one, and a parent, if there is one, is the active link of a peer whose tree check was accepted
-- before. The states that a waiting coroutine relies on are kept, too.
pub run-IsSound : (events : List Event) (s : System) → IsSound s → IsSound (run events s)
unfolding run
run-IsSound [] s h = h
run-IsSound (e ∷ events) s h = run-IsSound events (step e s) (step-IsSound e s h)
