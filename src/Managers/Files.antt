-- ===== src/Managers/Files.antt =====
-- The file manager (src/managers/filemanager.py) and the pause of a directory transfer
-- (src/managers/directorymanager.py), over the books of transfers. A handle stands as its id; its state
-- is that of the transfer, as `send_files` and `recv_files` leave it.
pub mod Booked
pub mod Stuck
use peer_connect.Prelude.{
  ℕ, suc, Bool, true, false, Option, none, some, List, [], ◌∷◌, ◌++◌, if◌then◌else◌, Dict, get, put,
}
use peer_connect.Otm.Tree.{PeerId}
use peer_connect.Avails.Books.{
  Books, add_to_current, add_to_completed, add_to_continued, add_to_scheduled, get_scheduled,
  get_transfer, check_running,
}
use peer_connect.Files.States.{
  TransferState, preparing, connecting, sending, receiving, paused, aborting, completed, is_paused,
}

-- The books, the next id, the states of the senders by their handles, the handles that files were
-- attached to, and what the page was told.
pub record Manager : Type 0 where
  pub books : Books
  pub next_id : ℕ
  pub states : Dict TransferState
  pub attached : List ℕ
  pub confirmations : List (ℕ × Bool)

-- What becomes of a sender that was set up: the peer cannot be reached, the confirmation does not come
-- in time or the connection is lost before it, the peer rejects, or `send_files` ran and left a state,
-- with or without an OSError.
pub data Outcome : Type 0 where
  unreachable unconfirmed rejected : Outcome
  ran : TransferState → Bool → Outcome

-- `prepare_connection`: what an OSError makes of the state
abbrev pub revert : TransferState → TransferState
revert s = if is_paused s then s else preparing

-- the state of the sender when `_handle_sending` has ended
unfoldable pub state_after : Outcome → TransferState
state_after unreachable = revert connecting
state_after unconfirmed = connecting
state_after rejected = connecting
state_after (ran s true) = revert s
state_after (ran s false) = s

-- what the page is told of the confirmation
abbrev pub confirmation : Outcome → Bool
confirmation unreachable = false
confirmation unconfirmed = false
confirmation rejected = false
confirmation (ran s b) = true

-- `_send_finalize`
unfoldable pub send_finalize : PeerId → ℕ → TransferState → Books → Books
send_finalize p h completed b = add_to_completed p h b
send_finalize p h aborting b = add_to_completed p h b
send_finalize p h paused b = add_to_continued p h b
send_finalize p h connecting b = add_to_continued p h b
send_finalize p h preparing b = b
send_finalize p h sending b = b
send_finalize p h receiving b = b

-- How `send_files_to_peer` ends: a context manager that returns before its yield raises a RuntimeError;
-- `attach_files` raises an InvalidStateError, or an AttributeError of a handle that is no sender.
pub data Sent : Type 0 where
  not_yielded not_attached : Sent
  ended : Outcome → Sent

-- `_send_setup`, `_handle_sending` and `_send_finalize` in a row
unfoldable pub send_new : PeerId → Outcome → Manager → Sent × Manager
unfolding send_finalize state_after
send_new p o m = (
  ended o,
  record m {
    books = send_finalize p m.next_id (state_after o) (add_to_current p m.next_id m.books);
    next_id = suc m.next_id;
    states = put m.next_id (state_after o) m.states;
    confirmations = m.confirmations ++ (m.next_id, confirmation o) ∷ [];
  },
)

-- `attach_files` of the sender: only one that sends or is paused takes files
abbrev pub can_attach : Option TransferState → Bool
can_attach (some paused) = true
can_attach (some sending) = true
can_attach _ = false

abbrev pub attach_or_new : PeerId → Outcome → Option ℕ × Books → Manager → Sent × Manager
attach_or_new p o (some h, b) m =
    if can_attach (get h m.states)
    then (not_yielded, record m { books = b; attached = m.attached ++ h ∷ [] })
    else (not_attached, record m { books = b })
attach_or_new p o (none, b) m = send_new p o (record m { books = b })

unfoldable pub send_files_to_peer : PeerId → Outcome → Manager → Sent × Manager
send_files_to_peer p o m = attach_or_new p o (check_running p m.books) m

-- the end of `file_receiver`; `key` is the id of the request, under which the handle is booked
unfoldable pub receive_finalize : ℕ → ℕ → TransferState → Books → Books
receive_finalize key h completed b = add_to_completed key h b
receive_finalize key h paused b = add_to_continued key h b
receive_finalize key h _ b = b

-- `file_receiver` around a reception that leaves a state
unfoldable pub file_receiver : ℕ → ℕ → TransferState → Manager → Manager
unfolding receive_finalize
file_receiver key h s m = record m {
  books = receive_finalize key h s (add_to_current key h m.books);
}

-- `start_new_otm_file_transfer` and `new_otm_request_arrived`: the handle is booked under its id
unfoldable pub schedule_otm : ℕ → Manager → Manager
schedule_otm h m = record m { books = add_to_scheduled h h m.books }

-- `OTMConnectionHandler`: the relay that gets the link, if the session is known
unfoldable pub otm_connection : ℕ → Manager → Option ℕ
otm_connection session_id m = get_scheduled session_id m.books

-- `DirConnectionHandler`: the receiver is booked under its transfer id, and as completed if the reception
-- did not raise
unfoldable pub directory_connection : ℕ → ℕ → Bool → Books → Books
directory_connection transfer_id h raised b =
    if raised
    then add_to_current transfer_id h b
    else add_to_completed transfer_id h (add_to_current transfer_id h b)

-- `pause_transfer` of the directory manager; false is its ValueError
abbrev pub pause_found : PeerId → Option ℕ × Books → Bool × Books
pause_found p (none, b) = (false, b)
pause_found p (some h, b) = (true, add_to_continued p h b)

unfoldable pub pause_transfer : PeerId → ℕ → Books → Bool × Books
pause_transfer p h b = pause_found p (get_transfer p h b)

pub data Action : Type 0 where
  sends : PeerId → Outcome → Action
  receives : ℕ → ℕ → TransferState → Action
  schedules : ℕ → Action

unfoldable pub act : Action → Manager → Manager
act (sends p o) m = (send_files_to_peer p o m).1
act (receives key h s) m = file_receiver key h s m
act (schedules h) m = schedule_otm h m

unfoldable pub act_all : List Action → Manager → Manager
unfolding act
act_all [] m = m
act_all (a ∷ later) m = act_all later (act a m)
