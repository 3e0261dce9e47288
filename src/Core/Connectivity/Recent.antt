-- ===== src/Core/Connectivity/Recent.antt =====
-- A recent check, and a peer that the routing table drops.
use peer_connect.Prelude.{
  ℕ, suc, Bool, true, false, none, some, List, [], ◌∷◌, ◌++◌, ◌≡◌, refl, ap, ◌∙◌, arith,
  if◌then◌else◌, length, get_elem?, set, get, put, get-put,
}
use peer_connect.Otm.Tree.{PeerId}
use peer_connect.Core.Connectivity.{
  World, Check, Outcome, pending, finished, of_check, of_task, run_submit, run_check, run_remove,
  CheckRequest, ConnectivityCheckState, initiated, req_check, con_check, completed, new_request,
  check_for_recent, new_check, remove_peer, run_ready, happen, happen_all, signs, wakes, Sign,
  replied, timed_out, connected, refused, future_result, check_and_remove_if_needed, may_be_remove,
  remove_by, recent_of, signal,
}

pub get_elem?-append_last {ℓ} :
    {A : Type ℓ} (xs : List A) (x : A) → get_elem? (xs ++ x ∷ []) (length xs) ≡ some x
get_elem?-append_last [] x = refl
get_elem?-append_last (y ∷ xs) x = get_elem?-append_last xs x

pub set-append_last {ℓ} :
    {A : Type ℓ} (xs : List A) (x y : A) → set (xs ++ x ∷ []) (length xs) y ≡ xs ++ y ∷ []
set-append_last [] x y = refl
set-append_last (z ∷ xs) x y = ap (◌∷◌ z) (set-append_last xs x y)

-- the world with one more check of the peer, whose ping is out, and a removal that waits for it
abbrev pub asked : PeerId → World → World
asked p w = record w {
  last_checked = put p (length w.checks) w.last_checked;
  checks =
      w.checks
      ++ (record {
        request = record { time_stamp = w.now; peer = p; serious = false; status = req_check };
        outcome = pending;
      })
        ∷ [];
  tasks = suc w.tasks;
  submitted = put w.tasks (length w.checks) w.submitted;
  ready = [];
  waiting = w.waiting ++ (of_check (length w.checks), p) ∷ [];
  pings = w.pings ++ p ∷ [];
}

abbrev pub requested : PeerId → World → CheckRequest
requested p w = record { time_stamp = w.now; peer = p; serious = false; status = initiated }

pub new_check_recent :
    (p : PeerId) (w : World) (n : ℕ)
    → check_for_recent (new_request p false w) w ≡ some n
    → new_check p w ≡ (of_check n, w)
unfolding new_check
new_check_recent p w n e = rw (e, new_check) refl

abbrev pub with_submit : PeerId → World → World
with_submit p w = record w {
  tasks = suc w.tasks;
  ready = w.ready ++ run_submit w.tasks (requested p w) ∷ [];
}

pub new_check_new :
    (p : PeerId) (w : World)
    → check_for_recent (new_request p false w) w ≡ none
    → new_check p w ≡ (of_task w.tasks, with_submit p w)
unfolding new_check new_request
new_check_new p w e = rw (e, new_check) refl

remove_peer-eq :
    (p : PeerId) (w : World)
    → remove_peer p w
      ≡ remove_by p (future_result (new_check p w).0 (new_check p w).1) (new_check p w).1
unfolding remove_peer
remove_peer-eq p w = refl

remove-eq :
    (p : PeerId) (w : World)
    → check_and_remove_if_needed p w ≡ record (new_check p w).1 {
      waiting = (new_check p w).1.waiting ++ ((new_check p w).0, p) ∷ [];
    }
unfolding check_and_remove_if_needed
remove-eq p w = refl

-- the loop is idle, and the peer was not checked in the window
pub record IsQuiet (p : PeerId) (w : World) : Type 0 where
  pub idle : w.ready ≡ []
  pub unused : get w.tasks w.submitted ≡ none
  pub new : check_for_recent (new_request p false w) w ≡ none

module _ (p : PeerId) (w : World) (q : IsQuiet p w) where
  abbrev after_remove : World
  after_remove = record w {
    tasks = suc w.tasks;
    ready = run_submit w.tasks (requested p w) ∷ run_remove p ∷ [];
  }

  remove_peer-new : remove_peer p w ≡ after_remove
  unfolding future_result
  remove_peer-new = rw (remove_peer-eq, new_check_new p w q.new, q.unused, q.idle) refl

  abbrev after_submit : World
  after_submit = record w {
    last_checked = put p (length w.checks) w.last_checked;
    checks = w.checks ++ (record { request = requested p w; outcome = pending }) ∷ [];
    tasks = suc w.tasks;
    submitted = put w.tasks (length w.checks) w.submitted;
    ready = run_remove p ∷ run_check (length w.checks) ∷ [];
  }

  submit-new : run_ready after_remove ≡ after_submit
  unfolding run_ready
  submit-new = refl

  abbrev new_check_of : ConnectivityCheckState → Outcome → Check
  new_check_of st o = record { request = record (requested p w) { status = st }; outcome = o }

  recent_after :
      recent_of
        (requested p w)
        (get p (put p (length w.checks) w.last_checked))
        (w.checks ++ new_check_of initiated pending ∷ [])
      ≡ some (length w.checks)
  recent_after =
      rw (get-put p p (length w.checks) w.last_checked)
        (ground (arith, get_elem?-append_last w.checks (new_check_of initiated pending)))

  abbrev in_removal : World
  in_removal = record after_submit { ready = run_check (length w.checks) ∷ [] }

  remove-new :
      run_ready after_submit
      ≡ record in_removal { waiting = w.waiting ++ (of_check (length w.checks), p) ∷ [] }
  unfolding run_ready check_for_recent new_request
  remove-new =
      remove-eq p in_removal
      ∙ ap (λ r. record r.1 { waiting = r.1.waiting ++ (r.0, p) ∷ [] })
          (new_check_recent p in_removal (length w.checks) recent_after)

  check-new :
      run_ready (record in_removal { waiting = w.waiting ++ (of_check (length w.checks), p) ∷ [] })
      ≡ asked p w
  unfolding run_ready
  check-new = rw (get_elem?-append_last w.checks (new_check_of initiated pending)) (
      rw
        (set-append_last w.checks (new_check_of initiated pending) (new_check_of req_check pending))
        refl)

  runs-asked : run_ready (run_ready (run_ready (remove_peer p w))) ≡ asked p w
  runs-asked = rw (remove_peer-new, submit-new, remove-new, check-new) refl

  abbrev signalled : ConnectivityCheckState → Outcome → World
  signalled st o = record (asked p w) { checks = w.checks ++ new_check_of st o ∷ [] }

  -- a sign changes the new check alone
  sign-new :
      (s : Sign) (st st' : ConnectivityCheckState) (o : Outcome)
      → signal s st (new_check_of st pending) ≡ new_check_of st' o
      → happen (signs (length w.checks) s) (signalled st pending) ≡ signalled st' o
  unfolding happen
  sign-new s st st' o e = rw (get_elem?-append_last w.checks (new_check_of st pending)) (
      rw
        (
          set-append_last w.checks (new_check_of st pending)
              (signal s st (new_check_of st pending)),
          e,
        )
        refl)

  may_be_remove-offline :
      (b : Bool) (v : World)
      → v.offline ≡ w.offline
      → (may_be_remove p (finished b) v).offline ≡ (if b then w.offline else w.offline ++ p ∷ [])
  unfolding may_be_remove
  may_be_remove-offline true v e = e
  may_be_remove-offline false v e = rw e refl

  wake-new :
      (st : ConnectivityCheckState) (b : Bool)
      → (happen (wakes (length w.waiting)) (signalled st (finished b))).offline
        ≡ (if b then w.offline else w.offline ++ p ∷ [])
  unfolding happen future_result
  wake-new st b = rw (get_elem?-append_last w.waiting (of_check (length w.checks), p)) (
      rw (get_elem?-append_last w.checks (new_check_of st (finished b)))
        (may_be_remove-offline b _ refl))

  two-offline :
      (s : Sign) (st : ConnectivityCheckState) (b : Bool)
      → signal s req_check (new_check_of req_check pending) ≡ new_check_of st (finished b)
      → (happen_all (signs (length w.checks) s ∷ wakes (length w.waiting) ∷ []) (asked p w)).offline
        ≡ (if b then w.offline else w.offline ++ p ∷ [])
  unfolding happen_all
  two-offline s st b e =
      ap (λ v. (happen (wakes (length w.waiting)) v).offline)
        (sign-new s req_check st (finished b) e)
      ∙ wake-new st b

  three-offline :
      (s : Sign) (b : Bool)
      → signal s con_check (new_check_of con_check pending) ≡ new_check_of completed (finished b)
      → (happen_all
          (signs (length w.checks) timed_out
            ∷ signs (length w.checks) s
            ∷ wakes (length w.waiting)
            ∷ [])
          (asked p w)).offline
        ≡ (if b then w.offline else w.offline ++ p ∷ [])
  unfolding happen_all
  three-offline s b e =
      ap (λ v. (happen (wakes (length w.waiting)) (happen (signs (length w.checks) s) v)).offline)
        (sign-new timed_out req_check con_check pending refl)
      ∙ (ap (λ v. (happen (wakes (length w.waiting)) v).offline)
            (sign-new s con_check completed (finished b) e)
          ∙ wake-new completed b)

-- After a peer is dropped that was not checked recently, an idle loop makes one check of it, with one
-- ping, and the removal waits for that check, not for a second one. A reply, or a connection after the
-- ping has timed out, keeps the peer online; a refused connection after the timeout sets it offline.
pub remove_peer_lem :
    (p : PeerId) (w : World)
    → IsQuiet p w
    → (run_ready (run_ready (run_ready (remove_peer p w))) ≡ asked p w)
      × ((happen_all
            (signs (length w.checks) replied ∷ wakes (length w.waiting) ∷ [])
            (asked p w)).offline
          ≡ w.offline)
      × ((happen_all
            (signs (length w.checks) timed_out
              ∷ signs (length w.checks) connected
              ∷ wakes (length w.waiting)
              ∷ [])
            (asked p w)).offline
          ≡ w.offline)
      × ((happen_all
            (signs (length w.checks) timed_out
              ∷ signs (length w.checks) refused
              ∷ wakes (length w.waiting)
              ∷ [])
            (asked p w)).offline
          ≡ w.offline ++ p ∷ [])
remove_peer_lem p w q = (
  runs-asked p w q,
  two-offline p w q replied completed true refl,
  three-offline p w q connected true refl,
  three-offline p w q refused false refl,
)
