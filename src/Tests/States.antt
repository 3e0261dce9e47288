-- ===== src/Tests/States.antt =====
-- The theorems on the states of a transfer, and on the chunks of a session's relay.
use peer_connect.Prelude.{
  ℕ, false, some, if◌then◌else◌, List, [], ◌∷◌, ◌≡◌, ◌++◌, refl, arith, ◌==◌, filter, member,
  member-append,
}
use peer_connect.Otm.Tree.{TreeLink, LinkType, LinkStatus, Direction}
use peer_connect.Otm.Relay.{Relay, new_relay, get_forward_links}
use peer_connect.Otm.FilesRelay.{Sending, timed_out, broken, forward_chunk}
use peer_connect.Otm.FilesRelay.Lagging.{delivers, reached, any_breaks, keeps, forward_chunk_lem}
use peer_connect.Files.States.{TransferState, Side, Kind, Handle, Call, aexit, calls}
use peer_connect.Files.States.Expected.{aexit_never_suppresses}

abbrev handle : Handle
handle = record { state = TransferState.sending; to_stop = false; expected_errors = []; fresh = 0 }

abbrev history : List Call
history = Call.pauses ∷ Call.cancels ∷ Call.fails Kind.os_error 3 ∷ []

aexit_never_suppresses_example :
    aexit Kind.transfer_incomplete (calls Side.sender history handle)
    ≡ (false, calls Side.sender history handle)
aexit_never_suppresses_example =
    aexit_never_suppresses Side.sender history handle Kind.transfer_incomplete (λ k. refl)

abbrev child : TreeLink
child = record {
  link_type = LinkType.active;
  peer_id = 2;
  id = 0;
  left = 20;
  right = 22;
  connection = some 50;
  status = LinkStatus.online;
  direction = Direction.outgoing;
}

-- a relay that forwards to the peers 2 and 3
unfoldable forwarder : Relay
unfolding new_relay
forwarder = record (new_relay 1 (record { session_id = 7; fanout = 2 }) 10 20 child) {
  active_links = (2, 0) ∷ (3, 1) ∷ [];
}

-- in the reversed order the link of the peer 3 times out, then that of the peer 2 breaks
abbrev sends : ℕ → Sending
sends i = if i == 0 then broken else timed_out

abbrev reverse : List ℕ → List ℕ
reverse [] = []
reverse (x ∷ xs) = reverse xs ++ x ∷ []

member-reverse : (xs : List ℕ) (i : ℕ) → member i (reverse xs) ≡ member i xs
member-reverse [] i = refl
member-reverse (x ∷ xs) i =
    ground (arith, member-append i (reverse xs) (x ∷ []), member-reverse xs i)

forward_chunk_lem_example :
    ((forward_chunk sends reverse forwarder).receivers
      ≡ filter (λ i. delivers (sends i)) (reached sends (reverse (get_forward_links forwarder))))
    × ((forward_chunk sends reverse forwarder).raised
        ≡ any_breaks sends (reverse (get_forward_links forwarder)))
    × (get_forward_links (forward_chunk sends reverse forwarder).relay
        ≡ filter
            (keeps sends (reached sends (reverse (get_forward_links forwarder))))
            (get_forward_links forwarder))
forward_chunk_lem_example = forward_chunk_lem sends reverse forwarder member-reverse
