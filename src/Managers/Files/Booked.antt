-- ===== src/Managers/Files/Booked.antt =====
-- What the manager keeps of the books.
use peer_connect.Prelude.{ℕ, inl, inr, get, Bool-cases, Option, none, some, List, [], ◌∷◌}
use peer_connect.Otm.Tree.{PeerId}
use peer_connect.Avails.Books.{
  Books, to_current, to_completed, to_continued, checked, to_scheduled, apply, add_to_current,
  check_running,
}
use peer_connect.Avails.Books.Laws.{IsKept, apply-IsKept}
use peer_connect.Files.States.{
  TransferState, preparing, connecting, sending, receiving, paused, aborting, completed,
}
use peer_connect.Managers.Files.{
  Manager, Outcome, state_after, send_finalize, send_new, can_attach, attach_or_new,
  send_files_to_peer, receive_finalize, file_receiver, schedule_otm, Action, sends, receives,
  schedules, act, act_all,
}

finalize-IsKept :
    (p : PeerId) (h : ℕ) (s : TransferState) (b : Books) → IsKept b → IsKept (send_finalize p h s b)
unfolding send_finalize apply
finalize-IsKept p h completed b k = apply-IsKept (to_completed p h) b k
finalize-IsKept p h aborting b k = apply-IsKept (to_completed p h) b k
finalize-IsKept p h paused b k = apply-IsKept (to_continued p h) b k
finalize-IsKept p h connecting b k = apply-IsKept (to_continued p h) b k
finalize-IsKept p h preparing b k = k
finalize-IsKept p h sending b k = k
finalize-IsKept p h receiving b k = k

receive-IsKept :
    (key h : ℕ) (s : TransferState) (b : Books) → IsKept b → IsKept (receive_finalize key h s b)
unfolding receive_finalize apply
receive-IsKept key h completed b k = apply-IsKept (to_completed key h) b k
receive-IsKept key h paused b k = apply-IsKept (to_continued key h) b k
receive-IsKept key h aborting b k = k
receive-IsKept key h connecting b k = k
receive-IsKept key h preparing b k = k
receive-IsKept key h sending b k = k
receive-IsKept key h receiving b k = k

send_new-IsKept :
    (p : PeerId) (o : Outcome) (m : Manager) → IsKept m.books → IsKept (send_new p o m).1.books
unfolding send_new apply
send_new-IsKept p o m k =
    finalize-IsKept p m.next_id (state_after o) (add_to_current p m.next_id m.books)
      (apply-IsKept (to_current p m.next_id) m.books k)

attach-IsKept :
    (p : PeerId) (o : Outcome) (r : Option ℕ × Books) (m : Manager)
    → IsKept r.1
    → IsKept (attach_or_new p o r m).1.books
attach-IsKept p o (some h, b) m k = elim (Bool-cases (can_attach (get h m.states))) [
  | inl e ↦ rw e k
  | inr e ↦ rw e k
]
attach-IsKept p o (none, b) m k = send_new-IsKept p o (record m { books = b }) k

act-IsKept : (a : Action) (m : Manager) → IsKept m.books → IsKept (act a m).books
unfolding act send_files_to_peer file_receiver schedule_otm apply
act-IsKept (sends p o) m k =
    attach-IsKept p o (check_running p m.books) m (apply-IsKept (checked p) m.books k)
act-IsKept (receives key h s) m k =
    receive-IsKept key h s (add_to_current key h m.books)
      (apply-IsKept (to_current key h) m.books k)
act-IsKept (schedules h) m k = apply-IsKept (to_scheduled h h) m.books k

-- Whatever is sent, received and scheduled, with whatever outcomes, no transfer counts both as running
-- and as paused in the books of the manager.
pub act_all-IsKept :
    (actions : List Action) (m : Manager) → IsKept m.books → IsKept (act_all actions m).books
unfolding act_all
act_all-IsKept [] m k = k
act_all-IsKept (a ∷ later) m k = act_all-IsKept later (act a m) (act-IsKept a m k)
