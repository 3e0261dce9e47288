-- ===== src/Transfers/Status.antt =====
-- The points of a transfer at which its status is due (src/transfers/status.py). `scaled` stands for
-- `int(initial_limit + i * spacing)`, a float product. The point at the start is -1, so the record holds
-- the point plus one.
pub mod Iterator
pub mod Points
use peer_connect.Prelude.{
  ℕ, zero, suc, ◌+◌, min, Bool, true, false, Option, none, some, List, [], ◌∷◌, ◌++◌, leb, ltb,
  if◌then◌else◌,
}
use peer_connect.Prelude.Int.{ℤ, pos, ◌-ℤ◌, ◌+ℤ◌}

pub record Status : Type 0 where
  pub next_point_suc : ℕ
  pub yield_freq : ℕ
  pub current_status : ℕ
  pub yield_iterator : Option (List ℕ)
  pub progress_bar : Option ℤ

-- `iter(range(n))`
unfoldable pub range_from : ℕ → ℕ → List ℕ
range_from i zero = []
range_from i (suc n) = i ∷ range_from (suc i) n

unfoldable pub new_status : ℕ → Status
unfolding range_from
new_status yield_freq = record {
  next_point_suc = 0;
  yield_freq = yield_freq;
  current_status = 0;
  yield_iterator = some (range_from 0 yield_freq);
  progress_bar = none;
}

abbrev pub bar_update : ℤ → Option ℤ → Option ℤ
bar_update d none = none
bar_update d (some n) = some (n +ℤ d)

-- `update_status`; `none` is the AttributeError of a bar that is not set up
unfoldable pub update_status : ℕ → Status → Option Status
update_status status s = elim s.progress_bar [
  | none ↦ none
  | some n ↦ some (record s {
    current_status = status;
    progress_bar = some (n +ℤ (pos status -ℤ pos s.current_status));
  })
]

abbrev pub take_point : Option (List ℕ) → Status → Option (Bool × Status)
take_point none s = none
take_point (some []) s = none
take_point (some (p ∷ ps)) s =
    some (true, record s { next_point_suc = suc p; yield_iterator = some ps })

-- `should_yield`; `none` is the StopIteration of an iterator that has ended, or the TypeError of none
unfoldable pub should_yield : Status → Option (Bool × Status)
should_yield s =
    if leb s.next_point_suc s.current_status then take_point s.yield_iterator s else some (false, s)

unfoldable pub points_from : (ℕ → ℕ) → ℕ → ℕ → ℕ → List ℕ
points_from scaled final_limit i zero = []
points_from scaled final_limit i (suc n) =
    min final_limit (scaled i) ∷ points_from scaled final_limit (suc i) n

abbrev pub without_points : ℕ → ℕ → Status → Status
without_points initial_limit final_limit s = record s {
  progress_bar = some (pos initial_limit);
  next_point_suc = suc (final_limit + 1);
  yield_iterator = none;
}

abbrev pub with_points : ℕ → List ℕ → Status → Status
with_points initial_limit [] s = record s {
  progress_bar = some (pos initial_limit);
  yield_iterator = some [];
}
with_points initial_limit (p ∷ ps) s = record s {
  progress_bar = some (pos initial_limit);
  next_point_suc = suc p;
  yield_iterator = some ps;
}

-- `status_setup`, after the old bar was closed
unfoldable pub status_setup : (ℕ → ℕ) → ℕ → ℕ → Status → Status
unfolding points_from
status_setup scaled initial_limit final_limit s =
    if ltb s.yield_freq 2
    then without_points initial_limit final_limit s
    else with_points initial_limit (points_from scaled final_limit 0 s.yield_freq) s

-- a run of a transfer: the status is updated, then the decision is taken. The result counts the yields;
-- `none` is an error of one of the calls
abbrev pub counted : Bool → Option (ℕ × Status) → Option (ℕ × Status)
counted b none = none
counted true (some (n, s)) = some (suc n, s)
counted false (some (n, s)) = some (n, s)

unfoldable pub run_status : List ℕ → Status → Option (ℕ × Status)
unfolding update_status should_yield
run_status [] s = some (0, s)
run_status (status ∷ later) s = elim (update_status status s) [
  | none ↦ none
  | some s' ↦ elim (should_yield s') [
    | none ↦ none
    | some (b, s'') ↦ counted b (run_status later s'')
  ]
]

-- `StatusIterator`: its queue and the exception that stops it, where none is the sentinel
pub data Item : Type 0 where
  status : ℕ → Item
  stop_with : Option ℕ → Item

pub record StatusIterator : Type 0 where
  pub base : Status
  pub queue : List Item
  pub exp : Option ℕ

-- its `update_status` calls `put` and does not await it, so nothing is put
abbrev pub unawaited : Option (Bool × Status) → StatusIterator → Option StatusIterator
unawaited none it = none
unawaited (some (b, s)) it = some (record it { base = s })

abbrev pub update_by : Option Status → StatusIterator → Option StatusIterator
update_by none it = none
update_by (some s) it = unawaited (should_yield s) it

unfoldable pub update_iterator : ℕ → StatusIterator → Option StatusIterator
unfolding update_status
update_iterator n it = update_by (update_status n it.base) it

unfoldable pub stop : Option ℕ → StatusIterator → StatusIterator
stop any_exp it = record it { queue = it.queue ++ stop_with any_exp ∷ []; exp = any_exp }

-- what `__anext__` does with the queue: it waits, returns, ends the iteration or raises
pub data Next : Type 0 where
  waits ends : Next
  returns raises : ℕ → Next

unfoldable pub anext : StatusIterator → Next
anext it = elim it.queue [
  | [] ↦ waits
  | status n ∷ q ↦ returns n
  | stop_with none ∷ q ↦ ends
  | stop_with (some e) ∷ q ↦ raises e
]

abbrev pub and_then {ℓ} : {A : Type ℓ} → Option A → (A → Option A) → Option A
and_then none f = none
and_then (some x) f = f x

unfoldable pub update_all : List ℕ → StatusIterator → Option StatusIterator
unfolding update_iterator
update_all [] it = some it
update_all (n ∷ ns) it = and_then (update_iterator n it) (update_all ns)
