-- ===== src/Avails/Connect.antt =====
-- Connections (src/avails/connect.py) and the timeouts of their retries (src/avails/useables.py). Times
-- are whole numbers of one unit, for the floats of the source. What the sockets of the system do is an
-- argument.
pub mod Retries
pub mod Flow
use peer_connect.Prelude.{
  ℕ, zero, suc, ◌+◌, ◌-◌, ◌*◌, min, Bool, true, false, not, Option, none, some, List, [], ◌∷◌, ◌++◌,
  leb, ◌==◌, if◌then◌else◌, length, take, drop,
}
use peer_connect.Avails.Bytes.{Bytes}

-- `get_timeouts` with a number of retries
unfoldable pub get_timeouts : ℕ → ℕ → ℕ → ℕ → List ℕ
get_timeouts zero current factor max_value = []
get_timeouts (suc n) current factor max_value =
    min current max_value ∷ get_timeouts n (current * factor) factor max_value

-- `get_timeouts` with max_retries=-1, by the rounds of its loop: it yields the largest value alone,
-- and none before it has reached it
unfoldable pub endless_timeouts : ℕ → ℕ → ℕ → ℕ → List ℕ
endless_timeouts zero current factor max_value = []
endless_timeouts (suc rounds) current factor max_value =
    let rest = endless_timeouts rounds (current * factor) factor max_value in
    if leb max_value current then max_value ∷ rest else rest

-- How `connect_to_peer` ends: with a socket, with the OSError of a try or with its own one, in which
-- case no try was made.
pub data Connected : Type 0 where
  connected : ℕ → Connected
  raised : Connected

-- the loop over the timeouts. `attempt` says what the n-th try does at a timeout, `none` is an OSError;
-- the tries come with the result
unfoldable pub connect_each : (ℕ → ℕ → Option ℕ) → ℕ → ℕ → List ℕ → Connected × List ℕ
connect_each attempt retries retry_count [] = (raised, [])
connect_each attempt retries retry_count (timeout ∷ timeouts) =
    let rest = connect_each attempt retries (suc retry_count) timeouts in
    elim (attempt retry_count timeout) [
      | some sock ↦ (connected sock, timeout ∷ [])
      | none ↦
          if leb retries (suc retry_count)
          then (raised, timeout ∷ [])
          else (rest.0, timeout ∷ rest.1)
    ]

abbrev pub default_max_value : ℕ
default_max_value = 5000

-- `connect_to_peer` of an address that resolves, with a timeout; factor 2 and 5 seconds are the defaults
unfoldable pub connect_to_peer : (ℕ → ℕ → Option ℕ) → ℕ → ℕ → Connected × List ℕ
unfolding connect_each get_timeouts
connect_to_peer attempt timeout retries =
    connect_each attempt retries 0 (get_timeouts retries timeout 2 default_max_value)

-- What the calls of `is_socket_connected` meet: an OSError of `getpeername` or `recv`, no data yet, or
-- the byte that was peeked at; and whether the options can be set again.
pub data Peek : Type 0 where
  os_error would_block : Peek
  peeked : Bytes → Peek

unfoldable pub is_socket_connected : Peek → Bool → Bool
is_socket_connected p false = false
is_socket_connected os_error true = false
is_socket_connected would_block true = true
is_socket_connected (peeked bytes) true = not (length bytes == 0)

-- `ThroughputMixin`, with the rate as bytes and a time, which the source divides
pub record Throughput : Type 0 where
  pub bytes_total : ℕ
  pub window_start : ℕ
  pub rate : ℕ × ℕ

unfoldable pub update_throughput : ℕ → ℕ → ℕ → Throughput → Throughput
update_throughput rate_window nbytes current_time t =
    let total = t.bytes_total + nbytes in
    let dt = current_time - t.window_start in
    if leb rate_window dt
    then record { bytes_total = 0; window_start = current_time; rate = (total, dt) }
    else record t { bytes_total = total }

-- A `Sender` or a `Receiver`: whether its limiter is set, the bytes of the socket, and its measure.
pub record End : Type 0 where
  pub limiter : Bool
  pub stream : Bytes
  pub measure : Throughput

unfoldable pub pause : End → End
pause e = record e { limiter = false }

unfoldable pub resume : End → End
resume e = record e { limiter = true }

-- `Sender.__call__`; while the limiter is clear it waits, and nothing is sent
unfoldable pub send : ℕ → ℕ → Bytes → End → Option End
unfolding update_throughput
send rate_window now buf e =
    if e.limiter
    then some (record e {
      stream = e.stream ++ buf;
      measure = update_throughput rate_window (length buf) now e.measure;
    })
    else none

-- `Receiver.__call__`: one read, of which `arrived` bytes are there; the measure counts what was asked for
unfoldable pub recv : ℕ → ℕ → ℕ → ℕ → End → Option (Bytes × End)
unfolding update_throughput
recv rate_window now arrived nbytes e =
    if e.limiter
    then some (
      take (min arrived nbytes) e.stream,
      record e {
        stream = drop (min arrived nbytes) e.stream;
        measure = update_throughput rate_window nbytes now e.measure;
      },
    )
    else none

-- the calls of a `Receiver` in a row, each with its time, what has arrived and what is asked for; a
-- call that waits keeps the rest waiting
pub record Call : Type 0 where
  pub now : ℕ
  pub arrived : ℕ
  pub nbytes : ℕ

unfoldable pub recv_all : ℕ → List Call → End → Bytes × End
unfolding recv
recv_all rate_window [] e = ([], e)
recv_all rate_window (c ∷ cs) e = elim (recv rate_window c.now c.arrived c.nbytes e) [
  | none ↦ ([], e)
  | some (got, e') ↦ (got ++ (recv_all rate_window cs e').0, (recv_all rate_window cs e').1)
]
