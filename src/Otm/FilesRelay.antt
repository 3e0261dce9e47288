-- ===== src/Otm/FilesRelay.antt =====
-- `OTMFilesRelay` (src/transfers/otm/relay.py): a chunk goes to every link that forwards, and the
-- reader counts the chunks; and `FilesSender.send_file` (src/transfers/otm/sender.py), which cuts a
-- file into chunks. `sends` says of a link how the send of the chunk ends.
pub mod Lagging
use peer_connect.Prelude.{
  ℕ, zero, suc, ◌+◌, ◌-◌, ◌*◌, Bool, true, false, Option, none, some, List, [], ◌∷◌, ◌++◌, ltb, leb,
  if◌then◌else◌, take, drop,
}
use peer_connect.Otm.Tree.{LinkStatus, is_lagging}
use peer_connect.Otm.Relay.{Relay, write, get_forward_links}
use peer_connect.Avails.Bytes.{Bytes}

-- how the send of a chunk to a link ends: in time, by the timeout, or by another error, as an OSError
pub data Sending : Type 0 where
  delivered timed_out broken : Sending

-- The relay, the links that got the chunk, and whether an error has left the loop.
pub record Forwarding : Type 0 where
  pub relay : Relay
  pub receivers : List ℕ
  pub raised : Bool

-- what a send leaves; only the timeout is caught
abbrev pub note_sending : Sending → ℕ → Forwarding → Forwarding
note_sending delivered i f = record f { receivers = f.receivers ++ i ∷ [] }
note_sending timed_out i f = record f {
  relay = record f.relay {
    links = write i (record (f.relay.links i) { status = LinkStatus.lagging }) f.relay.links;
  };
}
note_sending broken i f = record f { raised = true }

-- a round of the loop of `_forward_chunk`
unfoldable pub forward_on : (ℕ → Sending) → ℕ → Forwarding → Forwarding
unfolding is_lagging
forward_on sends i f = if is_lagging (f.relay.links i) then f else note_sending (sends i) i f

unfoldable pub forward_each : (ℕ → Sending) → List ℕ → Forwarding → Forwarding
unfolding forward_on
forward_each sends [] f = f
forward_each sends (i ∷ is) f =
    let rest = forward_each sends is (forward_on sends i f) in
    if (forward_on sends i f).raised then forward_on sends i f else rest

-- `_forward_chunk`; the links are a set, which `order` lists
unfoldable pub forward_chunk : (ℕ → Sending) → (List ℕ → List ℕ) → Relay → Forwarding
unfolding forward_each
forward_chunk sends order r =
    forward_each sends (order (get_forward_links r))
      (record { relay = r; receivers = []; raised = false })

-- What `_start_reader` has done with the lengths of the chunks that came: it has returned, or it
-- waits for another chunk.
pub data Reading : Type 0 where
  returned awaiting : Reading

unfoldable pub start_reader : ℕ → ℕ → List ℕ → Reading
start_reader chunk_counter total_bytes_len [] = awaiting
start_reader chunk_counter total_bytes_len (n ∷ lengths) =
    let rest = start_reader (chunk_counter + 1) total_bytes_len lengths in
    if leb total_bytes_len (chunk_counter * n) then returned else rest

-- `send_file`: the loop keeps the chunk that it cut last, and the chunk is sent after it. With no
-- chunk at all the name is unbound, which is an error.
unfoldable pub last_chunk : ℕ → ℕ → ℕ → ℕ → Option Bytes → Bytes → Option Bytes
last_chunk zero offset size chunk_size chunk content = chunk
last_chunk (suc rounds) offset size chunk_size chunk content =
    let rest =
      last_chunk rounds (offset + chunk_size) size chunk_size
        (some (take chunk_size (drop offset content))) content in
    if ltb offset size then rest else chunk

unfoldable pub send_file : ℕ → ℕ → ℕ → Bytes → Option Bytes
unfolding last_chunk
send_file seeked size chunk_size content =
    last_chunk (size - seeked) seeked size chunk_size none content
