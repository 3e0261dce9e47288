-- ===== src/Files/States/Expected.antt =====
-- The exceptions that a transfer expects, and which of them leave it.
use peer_connect.Prelude.{ℕ, false, List, [], ◌∷◌, ◌≡◌, refl, arith}
use peer_connect.Files.States.{
  Side, active, Kind, class_of, expected_in, Handle, returns, pause, resume, cancel, attach_files,
  continue_transfer, complete, handle_exception, raise_transfer_incomplete, aexit, Call, call,
  calls,
}

-- no class is among the expected errors
abbrev pub NoClass : Handle → Type 0
NoClass h = (k : Kind) → expected_in (class_of k) h.expected_errors ≡ false

fails-NoClass : (l : Kind) (i : ℕ) (h : Handle) → NoClass h → NoClass (handle_exception l i h).1
unfolding handle_exception
fails-NoClass Kind.cancel_transfer i h n k = ground (arith, n k)
fails-NoClass Kind.transfer_incomplete i h n k = ground (arith, n k)
fails-NoClass Kind.os_error i h n k = ground (arith, n k)
fails-NoClass Kind.invalid_state i h n k = n k
fails-NoClass Kind.runtime_error i h n k = n k
fails-NoClass Kind.other i h n k = n k

call-NoClass : (side : Side) (c : Call) (h : Handle) → NoClass h → NoClass (call side c h)
unfolding call pause resume cancel attach_files continue_transfer complete raise_transfer_incomplete
    aexit
call-NoClass side Call.pauses h n k = n k
call-NoClass side Call.resumes h n k = ground (arith, n k)
call-NoClass side Call.cancels h n k = ground (arith, n k)
call-NoClass side Call.attaches h n k = ground (arith, n k)
call-NoClass side Call.continues h n k = ground (arith, n k)
call-NoClass side Call.completes h n k = n k
call-NoClass side Call.incompletes h n k = ground (arith, n k)
call-NoClass side (Call.exits l) h n k = ground (arith, n k)
call-NoClass side (Call.fails l i) h n k = fails-NoClass l i h n k

calls-NoClass : (side : Side) (cs : List Call) (h : Handle) → NoClass h → NoClass (calls side cs h)
unfolding calls
calls-NoClass side [] h n = n
calls-NoClass side (c ∷ cs) h n = calls-NoClass side cs (call side c h) (call-NoClass side c h n)

-- Whatever was done with a transfer before, its `async with` block suppresses no exception, and the
-- expected errors stay as they are: the block looks for a class among them, and they are instances.
pub aexit_never_suppresses :
    (side : Side) (cs : List Call) (h : Handle) (k : Kind)
    → NoClass h
    → aexit k (calls side cs h) ≡ (false, calls side cs h)
unfolding aexit
aexit_never_suppresses side cs h k n = rw (calls-NoClass side cs h n k) refl

-- A transfer that was paused, a completed one too, goes on when it is continued, unless it was
-- cancelled.
pub continue_transfer-pause :
    (side : Side) (h : Handle)
    → h.to_stop ≡ false
    → continue_transfer side (pause h) ≡ (returns, record h { state = active side })
unfolding continue_transfer pause
continue_transfer-pause side h e = rw e refl
