-- ===== src/Core/Connectivity.antt =====
-- Connectivity checks (src/core/connectivity.py) and the removal of a peer that cannot be reached
-- (src/core/peers.py). Peers that compare equal are one number, and so is the id of a future: the
-- position of its check, or of the task that submits a request. `ready` is the queue of the event
-- loop, first come first served; the outcomes of the ping and of the connection are events.
pub mod Recent
pub mod Twice
use peer_connect.Prelude.{
  ℕ, zero, suc, ◌+◌, ◌-◌, Bool, true, false, Option, none, some, List, [], ◌∷◌, ◌++◌, leb,
  if◌then◌else◌, length, get_elem?, set, Dict, get, put,
}
use peer_connect.Otm.Tree.{PeerId}

pub data ConnectivityCheckState : Type 0 where
  initiated req_check con_check completed : ConnectivityCheckState

pub record CheckRequest : Type 0 where
  pub time_stamp : ℕ
  pub peer : PeerId
  pub serious : Bool
  pub status : ConnectivityCheckState

-- the future of a check
pub data Outcome : Type 0 where
  pending cancelled : Outcome
  finished : Bool → Outcome

pub record Check : Type 0 where
  pub request : CheckRequest
  pub outcome : Outcome

-- what `new_check` returns: the future of a check, or a task that will submit the request
pub data Future : Type 0 where
  of_check of_task : ℕ → Future

-- coroutines that the loop has to start: `submit` as task of an id, `_new_check` of a check, and
-- `check_and_remove_if_needed`
pub data Ready : Type 0 where
  run_submit : ℕ → CheckRequest → Ready
  run_check : ℕ → Ready
  run_remove : PeerId → Ready

pub record World : Type 0 where
  pub now : ℕ
  pub last_checked : Dict ℕ
  pub checks : List Check
  pub tasks : ℕ
  pub submitted : Dict ℕ
  pub ready : List Ready
  pub waiting : List (Future × PeerId)
  pub pings : List PeerId
  pub offline : List PeerId

-- const.PING_TIME_CHECK_WINDOW, in the unit of `now`
abbrev pub ping_time_check_window : ℕ
ping_time_check_window = 3

unfoldable pub new_request : PeerId → Bool → World → CheckRequest
new_request p serious w = record {
  time_stamp = w.now;
  peer = p;
  serious = serious;
  status = initiated;
}

abbrev pub if_recent : CheckRequest → ℕ → Option Check → Option ℕ
if_recent r n none = none
if_recent r n (some c) =
    if leb (r.time_stamp - c.request.time_stamp) ping_time_check_window then some n else none

abbrev pub recent_of : CheckRequest → Option ℕ → List Check → Option ℕ
recent_of r none cs = none
recent_of r (some n) cs = if_recent r n (get_elem? cs n)

unfoldable pub check_for_recent : CheckRequest → World → Option ℕ
check_for_recent r w = recent_of r (get r.peer w.last_checked) w.checks

-- `new_check`: the call of the connector makes a task of `submit`
unfoldable pub new_check : PeerId → World → Future × World
unfolding check_for_recent new_request
new_check p w = elim (check_for_recent (new_request p false w) w) [
  | some n ↦ (of_check n, w)
  | none ↦ (
    of_task w.tasks,
    record w {
      tasks = suc w.tasks;
      ready = w.ready ++ run_submit w.tasks (new_request p false w) ∷ [];
    },
  )
]

-- `submit`, up to its await: `ensure_future` makes a task of `_new_check`
unfoldable pub submit : ℕ → CheckRequest → World → World
submit t r w = record w {
  last_checked = put r.peer (length w.checks) w.last_checked;
  checks = w.checks ++ (record { request = r; outcome = pending }) ∷ [];
  submitted = put t (length w.checks) w.submitted;
  ready = w.ready ++ run_check (length w.checks) ∷ [];
}

abbrev pub with_status : ConnectivityCheckState → Check → Check
with_status s c = record c { request = record c.request { status = s } }

abbrev pub is_pending : Outcome → Bool
is_pending pending = true
is_pending cancelled = false
is_pending (finished b) = false

-- `_new_check`, up to the wait for the reply; a cancelled one does not start
abbrev pub start_check : ℕ → Option Check → World → World
start_check n none w = w
start_check n (some c) w =
    if is_pending c.outcome
    then record w {
      checks = set w.checks n (with_status req_check c);
      pings = w.pings ++ c.request.peer ∷ [];
    }
    else w

-- The reply has come, the wait for it times out, and the connection that is tried then is made or
-- refused by an OSError.
pub data Sign : Type 0 where
  replied timed_out connected refused : Sign

abbrev pub finish : Bool → Check → Check
finish b c = record c { request = record c.request { status = completed }; outcome = finished b }

-- the rest of `_new_check`, by what it waits for
abbrev pub signal : Sign → ConnectivityCheckState → Check → Check
signal replied req_check c = finish true c
signal timed_out req_check c = with_status con_check c
signal connected con_check c = finish true c
signal refused con_check c = finish false c
signal _ _ c = c

abbrev pub signal_check : ℕ → Sign → Option Check → World → World
signal_check n s none w = w
signal_check n s (some c) w =
    if is_pending c.outcome
    then record w { checks = set w.checks n (signal s c.request.status c) }
    else w

-- the result that a future has, once it is done
abbrev pub result_of : Option Check → Option Outcome
result_of none = none
result_of (some c) = if is_pending c.outcome then none else some c.outcome

abbrev pub result_of_task : Option ℕ → List Check → Option Outcome
result_of_task none cs = none
result_of_task (some n) cs = result_of (get_elem? cs n)

unfoldable pub future_result : Future → World → Option Outcome
future_result (of_check n) w = result_of (get_elem? w.checks n)
future_result (of_task t) w = result_of_task (get t w.submitted) w.checks

-- `may_be_remove`; a cancelled future raises in its caller
unfoldable pub may_be_remove : PeerId → Outcome → World → World
may_be_remove p (finished true) w = w
may_be_remove p (finished false) w = record w { offline = w.offline ++ p ∷ [] }
may_be_remove p _ w = w

abbrev pub remove_by : PeerId → Option Outcome → World → World
remove_by p (some o) w = may_be_remove p o w
remove_by p none w = record w { ready = w.ready ++ run_remove p ∷ [] }

-- `remove_peer`
unfoldable pub remove_peer : PeerId → World → World
unfolding may_be_remove new_check future_result
remove_peer p w = let (f, w') = new_check p w in remove_by p (future_result f w') w'

-- `check_and_remove_if_needed`, up to its await
unfoldable pub check_and_remove_if_needed : PeerId → World → World
unfolding new_check
check_and_remove_if_needed p w =
    let (f, w') = new_check p w in record w' { waiting = w'.waiting ++ (f, p) ∷ [] }

unfoldable pub start : Ready → World → World
unfolding submit check_and_remove_if_needed
start (run_submit t r) w = submit t r w
start (run_check n) w = start_check n (get_elem? w.checks n) w
start (run_remove p) w = check_and_remove_if_needed p w

-- one round of the loop: the coroutine that is ready first
unfoldable pub run_ready : World → World
unfolding start
run_ready w = elim w.ready [ [] ↦ w | r ∷ rs ↦ start r (record w { ready = rs }) ]

-- the waiting coroutine goes on, if its future is done
abbrev pub drop_at {ℓ} : {A : Type ℓ} → ℕ → List A → List A
drop_at n [] = []
drop_at zero (x ∷ xs) = xs
drop_at (suc n) (x ∷ xs) = x ∷ drop_at n xs

abbrev pub wake_by : ℕ → Option Outcome → PeerId → World → World
unfolding may_be_remove
wake_by n none p w = w
wake_by n (some o) p w = may_be_remove p o (record w { waiting = drop_at n w.waiting })

unfoldable pub wake_one : ℕ → Option (Future × PeerId) → World → World
unfolding future_result wake_by
wake_one n none w = w
wake_one n (some (f, p)) w = wake_by n (future_result f w) p w

-- `__aexit__`: the futures of the last checks that are not done are cancelled
abbrev pub cancel_check : Option Check → ℕ → List Check → List Check
cancel_check none n cs = cs
cancel_check (some c) n cs =
    if is_pending c.outcome then set cs n (record c { outcome = cancelled }) else cs

unfoldable pub cancel_each : Dict ℕ → List Check → List Check
cancel_each [] cs = cs
cancel_each ((p, n) ∷ d) cs = cancel_each d (cancel_check (get_elem? cs n) n cs)

unfoldable pub exit_checks : World → World
unfolding cancel_each
exit_checks w = record w { checks = cancel_each w.last_checked w.checks }

pub data Event : Type 0 where
  passes : ℕ → Event
  removed : PeerId → Event
  checked : PeerId → Event
  runs : Event
  signs : ℕ → Sign → Event
  wakes : ℕ → Event
  exits : Event

unfoldable pub happen : Event → World → World
unfolding remove_peer new_check run_ready exit_checks wake_one
happen (passes n) w = record w { now = w.now + n }
happen (removed p) w = remove_peer p w
happen (checked p) w = (new_check p w).1
happen runs w = run_ready w
happen (signs n s) w = signal_check n s (get_elem? w.checks n) w
happen (wakes n) w = wake_one n (get_elem? w.waiting n) w
happen exits w = exit_checks w

unfoldable pub happen_all : List Event → World → World
unfolding happen
happen_all [] w = w
happen_all (e ∷ es) w = happen_all es (happen e w)
