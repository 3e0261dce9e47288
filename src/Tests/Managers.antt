-- ===== src/Tests/Managers.antt =====
-- The theorems on the file manager, on the status of a transfer and on directories.
use peer_connect.Prelude.{ℕ, ◌*◌, ◌<◌, false, some, [], ◌∷◌, ◌≡◌, refl, arith}
use peer_connect.Files.States.{completed}
use peer_connect.Managers.Files.{
  Manager, unreachable, ran, state_after, not_attached, ended, send_files_to_peer,
}
use peer_connect.Managers.Files.Stuck.{next_ending, send_files_to_peer_lem}
use peer_connect.Transfers.Status.{Status, new_status, status_setup, run_status}
use peer_connect.Transfers.Status.Points.{run_status_lem}

abbrev manager : Manager
manager = record {
  books = record { continued = []; scheduled = []; completed = []; current = [] };
  next_id = 3;
  states = [];
  attached = [];
  confirmations = [];
}

send_files_to_peer_lem_example :
    ((send_files_to_peer 1 (ran completed false) manager).0 ≡ ended (ran completed false))
    × ((send_files_to_peer 1 unreachable (send_files_to_peer 1 (ran completed false) manager).1).0
        ≡ next_ending (state_after (ran completed false)) unreachable)
    × ((send_files_to_peer 1 unreachable (send_files_to_peer 1 unreachable manager).1).0
        ≡ not_attached)
    × ((send_files_to_peer 1 unreachable (send_files_to_peer 1 unreachable manager).1).1.attached
        ≡ (send_files_to_peer 1 unreachable manager).1.attached)
send_files_to_peer_lem_example =
    send_files_to_peer_lem 1 (ran completed false) unreachable manager refl

abbrev scaled : ℕ → ℕ
scaled i = i * 30

freq : (new_status 5).yield_freq ≡ 5
unfolding new_status
freq = refl

run_status_lem_example :
    (k : ℕ) × (s : Status) × (run_status
        (10 ∷ 40 ∷ 100 ∷ [])
        (status_setup scaled 0 100 (new_status 5))
      ≡ some (k, s))
    × (k < (new_status 5).yield_freq)
run_status_lem_example =
    run_status_lem scaled 0 100 3 (10 ∷ 40 ∷ 100 ∷ []) (new_status 5) freq (omega arith)
      (omega arith, (omega arith, (omega arith, tt)))
