-- ===== src/Avails/Wire.antt =====
-- `Wire` of src/avails/wire.py: length-prefixed messages over streams and datagrams.
pub mod Framing
use peer_connect.Prelude.{
  ℕ, suc, ◌+◌, ◌-◌, ◌*◌, min, Option, none, some, List, [], ◌∷◌, ◌++◌, ltb, ◌==◌, if◌then◌else◌,
  length, take, drop,
}
use peer_connect.Avails.Bytes.{Bytes, pack, unpack_be}

-- `struct.pack("!I", len(data)) + data`, what `send` and `send_async` write
unfoldable pub frame : Bytes → Option Bytes
unfolding pack
frame data_bytes = elim (pack 4 (length data_bytes)) [
  | none ↦ none
  | some size ↦ some (size ++ data_bytes)
]

abbrev pub max_datagram_send_size : ℕ
max_datagram_send_size = 1024 * 63

-- `send_datagram`; `none` is the ValueError of a message that is too long
unfoldable pub send_datagram : Bytes → Option Bytes
unfolding frame
send_datagram data_bytes =
    if ltb max_datagram_send_size (length data_bytes) then none else frame data_bytes

abbrev with_size : Option ℕ → Bytes → Option Bytes
with_size none payload = none
with_size (some size) payload = some (take size (drop 4 payload))

-- `load_datagram`; `none` is the struct.error of a short payload
unfoldable pub load_datagram : Bytes → Option Bytes
unfolding unpack_be
load_datagram payload = with_size (unpack_be 4 (take 4 payload)) payload

-- What a non-blocking socket does at a call of `recv`: it has no data yet (BlockingIOError, and the
-- call waits), or hands over so many bytes and one more, as far as wanted and there.
pub data Arrival : Type 0 where
  blocked : Arrival
  ready : ℕ → Arrival

-- The outcome of a read: the schedule ran out while it waited, the other end has closed
-- (ConnectionError), or the bytes, with what is left of the stream and of the schedule.
pub data Read : Type 0 where
  waiting closed : Read
  got : Bytes → Bytes → List Arrival → Read

-- `while len(buf) < n: buf += sock.recv(n - len(buf))`
unfoldable pub read_exact : ℕ → Bytes → Bytes → List Arrival → Read
read_exact n buf stream [] = if ltb (length buf) n then waiting else got buf stream []
read_exact n buf stream (blocked ∷ later) =
    let rest = read_exact n buf stream later in
    if ltb (length buf) n then rest else got buf stream (blocked ∷ later)
read_exact n buf stream (ready k ∷ later) =
    let chunk_len = min (suc k) (n - length buf) in
    let rest = read_exact n (buf ++ take chunk_len stream) (drop chunk_len stream) later in
    if ltb (length buf) n
    then (if length stream == 0 then closed else rest)
    else got buf stream (ready k ∷ later)

-- the second loop of `receive`, for the length that the first one has read
unfoldable pub read_sized : Option ℕ → Bytes → List Arrival → Read
unfolding read_exact
read_sized none stream later = closed
read_sized (some n) stream later = read_exact n [] stream later

unfoldable pub read_body : Read → Read
unfolding read_sized unpack_be
read_body waiting = waiting
read_body closed = closed
read_body (got size stream later) = read_sized (unpack_be 4 size) stream later

-- `receive`
unfoldable pub receive : Bytes → List Arrival → Read
unfolding read_body
receive stream later = read_body (read_exact 4 [] stream later)

-- `receive_async`: one `arecv` for the size and one for the data. A call returns what has arrived,
-- at most what was asked for; `k` and `l` bound the two calls. `none` is a struct.error, which goes
-- on as it is or as an OSError.
abbrev pub async_body : Option ℕ → ℕ → Bytes → Option Bytes
async_body none l stream = none
async_body (some n) l stream = some (take (min l n) stream)

unfoldable pub receive_async : ℕ → ℕ → Bytes → Option Bytes
unfolding unpack_be
receive_async k l stream =
    async_body (unpack_be 4 (take (min k 4) stream)) l (drop (min k 4) stream)

abbrev with_rest : Option ℕ → Bytes → Option (ℕ × Bytes)
with_rest none stream = none
with_rest (some n) stream = some (n, stream)

-- `use.recv_int` for a short integer, over one read; a failed unpack is a ValueError
unfoldable pub recv_int : ℕ → Bytes → Option (ℕ × Bytes)
unfolding unpack_be
recv_int width stream = with_rest (unpack_be width (take width stream)) (drop width stream)
