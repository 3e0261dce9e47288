-- ===== src/Core/Connectivity/Twice.antt =====
-- Two checks of a peer in one go.
use mathlib.Core.List.{append_assoc}
use peer_connect.Prelude.{false, none, [], ◌∷◌, ◌++◌, ◌≡◌, ap, ◌∙◌}
use peer_connect.Otm.Tree.{PeerId}
use peer_connect.Core.Connectivity.{
  World, pending, new_request, check_for_recent, new_check, run_ready, happen, happen_all, checked,
}
use peer_connect.Core.Connectivity.Recent.{requested, IsQuiet, with_submit, new_check_new}

again :
    (p : PeerId) (w : World)
    → IsQuiet p w
    → check_for_recent (new_request p false (with_submit p w)) (with_submit p w) ≡ none
unfolding check_for_recent new_request
again p w q = q.new

both :
    (p : PeerId) (w : World)
    → IsQuiet p w
    → (run_ready (run_ready (with_submit p (with_submit p w)))).checks
      ≡ w.checks
        ++ record { request = requested p w; outcome = pending }
          ∷ record { request = requested p w; outcome = pending }
          ∷ []
unfolding run_ready
both p w q = rw q.idle (
    append_assoc w.checks (record { request = requested p w; outcome = pending } ∷ [])
      (record { request = requested p w; outcome = pending } ∷ []))

-- Two checks of a peer that are asked for in one go both start, though the second is within the time
-- window of the first: a request is noted only when its task runs.
pub new_check_twice :
    (p : PeerId) (w : World)
    → IsQuiet p w
    → (run_ready (run_ready (happen_all (checked p ∷ checked p ∷ []) w))).checks
      ≡ w.checks
        ++ record { request = requested p w; outcome = pending }
          ∷ record { request = requested p w; outcome = pending }
          ∷ []
unfolding happen_all happen
new_check_twice p w q =
    ap (λ v. (run_ready (run_ready v)).checks)
      (ap (λ v. (new_check p v).1) (ap (λ r. r.1) (new_check_new p w q.new))
        ∙ ap (λ r. r.1) (new_check_new p (with_submit p w) (again p w q)))
    ∙ both p w q
