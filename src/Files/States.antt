-- ===== src/Files/States.antt =====
-- The states of a transfer: `Sender` and `Receiver` (src/transfers/files/sender.py, receiver.py)
-- with `PauseMixIn`, `CommonExceptionHandlersMixIn` and `CommonAExitMixIn` (src/transfers/abc.py).
-- Both have the same operations; `active` is SENDING in a sender and RECEIVING in a receiver. An
-- exception is an object with an identity; the classes themselves are objects too.
pub mod Expected
use peer_connect.Prelude.{
  ℕ, ◌+◌, Bool, true, false, not, ◌&&◌, ◌||◌, List, [], ◌∷◌, ◌==◌, if◌then◌else◌,
}

pub data TransferState : Type 0 where
  preparing connecting sending receiving paused aborting completed : TransferState

abbrev pub is_paused : TransferState → Bool
is_paused paused = true
is_paused _ = false

abbrev pub is_aborting : TransferState → Bool
is_aborting aborting = true
is_aborting _ = false

-- a sender is active when it sends, a receiver when it receives
pub data Side : Type 0 where
  sender receiver : Side

abbrev pub active : Side → TransferState
active sender = sending
active receiver = receiving

abbrev pub is_active_state : Side → TransferState → Bool
is_active_state sender sending = true
is_active_state receiver receiving = true
is_active_state _ _ = false

pub data Kind : Type 0 where
  cancel_transfer transfer_incomplete os_error invalid_state runtime_error other : Kind

abbrev pub kind_eq : Kind → Kind → Bool
kind_eq cancel_transfer cancel_transfer = true
kind_eq transfer_incomplete transfer_incomplete = true
kind_eq os_error os_error = true
kind_eq invalid_state invalid_state = true
kind_eq runtime_error runtime_error = true
kind_eq other other = true
kind_eq _ _ = false

-- an exception, or a class of exceptions
pub data Object : Type 0 where
  instance_of : Kind → ℕ → Object
  class_of : Kind → Object

abbrev pub object_eq : Object → Object → Bool
object_eq (instance_of k i) (instance_of l j) = kind_eq k l && (i == j)
object_eq (class_of k) (class_of l) = kind_eq k l
object_eq _ _ = false

abbrev pub expected_in : Object → List Object → Bool
expected_in o [] = false
expected_in o (x ∷ xs) = object_eq x o || expected_in o xs

-- The handle; `fresh` is the identity of the next exception that it makes.
pub record Handle : Type 0 where
  pub state : TransferState
  pub to_stop : Bool
  pub expected_errors : List Object
  pub fresh : ℕ

-- A call returns, or raises an exception.
pub data Outcome : Type 0 where
  returns : Outcome
  raises : Object → Outcome

abbrev pub expect : Kind → Handle → Handle
expect k h = record h {
  expected_errors = instance_of k h.fresh ∷ h.expected_errors;
  fresh = h.fresh + 1;
}

abbrev raise_new : Kind → Handle → Outcome × Handle
raise_new k h = (raises (instance_of k h.fresh), record h { fresh = h.fresh + 1 })

unfoldable pub pause : Handle → Handle
pause h = record h { state = paused }

unfoldable pub resume : Side → Handle → Handle
resume side h = if not (is_paused h.state) then h else record h { state = active side }

-- `cancel`: an asyncio task does not support `set_exception`, which is a RuntimeError
unfoldable pub cancel : Side → Handle → Outcome × Handle
cancel side h =
    if not (is_active_state side h.state || is_paused h.state)
    then raise_new invalid_state h
    else raise_new runtime_error (expect cancel_transfer (record h { to_stop = true }))

-- `attach_files` of a sender
unfoldable pub attach_files : Handle → Outcome × Handle
attach_files h =
    if not (is_paused h.state || is_active_state sender h.state)
    then raise_new invalid_state h
    else (returns, h)

-- `continue_transfer` up to the exchange of the position
unfoldable pub continue_transfer : Side → Handle → Outcome × Handle
continue_transfer side h =
    if not (is_paused h.state) || h.to_stop
    then raise_new invalid_state h
    else (returns, record h { state = active side })

-- the end of `send_files` and `recv_files`
unfoldable pub complete : Handle → Handle
complete h = record h { state = completed }

-- `handle_exception`, by the class of the exception
unfoldable pub handle_exception : Kind → ℕ → Handle → Outcome × Handle
handle_exception cancel_transfer i h = (
  raises (instance_of cancel_transfer i),
  (if expected_in (instance_of cancel_transfer i) h.expected_errors
      then record h { state = aborting }
      else h),
)
handle_exception transfer_incomplete i h = (
  raises (instance_of transfer_incomplete i),
  (if expected_in (instance_of transfer_incomplete i) h.expected_errors then h else record h {
    state = paused;
    expected_errors = instance_of transfer_incomplete i ∷ h.expected_errors;
  }),
)
handle_exception os_error i h = (
  raises (instance_of transfer_incomplete h.fresh),
  expect transfer_incomplete (record h { state = paused }),
)
handle_exception k i h = (raises (instance_of k i), h)

-- `_raise_transfer_incomplete_and_change_state`
unfoldable pub raise_transfer_incomplete : Handle → Outcome × Handle
raise_transfer_incomplete h = (
  raises (instance_of transfer_incomplete h.fresh),
  expect transfer_incomplete (record h { state = paused }),
)

-- `__aexit__` with the class of an exception: whether it suppresses it
unfoldable pub aexit : Kind → Handle → Bool × Handle
aexit k h = if not (expected_in (class_of k) h.expected_errors) then (false, h) else (
  (kind_eq k transfer_incomplete && not (is_paused h.state))
      || (kind_eq k cancel_transfer && is_aborting h.state),
  record h { expected_errors = [] },
)

pub data Call : Type 0 where
  pauses resumes cancels attaches continues completes incompletes : Call
  fails : Kind → ℕ → Call
  exits : Kind → Call

unfoldable pub call : Side → Call → Handle → Handle
unfolding pause resume cancel attach_files continue_transfer complete handle_exception
    raise_transfer_incomplete aexit
call side pauses h = pause h
call side resumes h = resume side h
call side cancels h = (cancel side h).1
call side attaches h = (attach_files h).1
call side continues h = (continue_transfer side h).1
call side completes h = complete h
call side incompletes h = (raise_transfer_incomplete h).1
call side (fails k i) h = (handle_exception k i h).1
call side (exits k) h = (aexit k h).1

unfoldable pub calls : Side → List Call → Handle → Handle
unfolding call
calls side [] h = h
calls side (c ∷ cs) h = calls side cs (call side c h)
