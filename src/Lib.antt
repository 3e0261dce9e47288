-- ===== src/Lib.antt =====
-- The peer-to-peer file sharing of PeerConnect: the parts that carry its own logic.
--
-- Many peers share files over an overlay. `PalmTreeProtocol` (src/transfers/otm/palm_tree.py) makes a
-- hypercube of the peers of a session, invites them, and sends each the addresses that it finds for it.
-- Every peer then has a `PalmTreeRelay`, which keeps two links to each neighbour (src/transfers/otm/tree.py),
-- and the relays agree by tree checks, rejections and stream connections on a spanning tree, over
-- which the files are sent. Peers talk in length-prefixed messages (src/avails/wire.py).
--
-- A peer finds the network by the discovery (src/core/discover.py) and other peers by kademlia
-- (src/core/_kademlia.py) or a gossip search (src/core/gossip.py). What arrives as a datagram goes from the
-- endpoint to a dispatcher by its code and to a handler by its header (src/core/requests.py); what arrives
-- on a connection goes through the acceptor (src/core/acceptor.py). The managers (src/managers) book the
-- transfers of files and directories, and a peer that cannot be reached is checked before it counts as
-- offline (src/core/connectivity.py).
--
-- Files:
--   Prelude, Prelude/*     numbers, lists, and Python's dict and set keyed by numbers, with their laws
--   Otm/Tree               `TreeLink`: a link, its status and its direction
--   Otm/Relay              `PalmTreeRelay`: the state; a heap of links that the dicts share
--   Otm/Relay/Setup        session_init, connection_made, gossip_update_state, stop_session
--   Otm/Relay/TreeCheck    gossip_tree_check, forward_tree_check_packet, gossip_tree_reject
--   Otm/Relay/Streams      gossip_upgrade_connection, _activate_link, gossip_add_stream_link
--   Otm/Relay/Links        gossip_downgrade_connection, gossip_tree_gather, the print of all states
--   Otm/Relay/Steps        the coroutines in flight, and runs of events in any order
--   Otm/Relay/Frame, Parent, Window, Forward, Check, Linked, LinkedSteps,
--   LinkedStreams, LinkedUpdate, Invariant
--                          what holds of the relay
--   Otm/Hypercube          create_hypercube; its edges (Edges, Flip), its connectedness (Connected)
--                          and that it is an overlay (Distinct)
--   Otm/Inform             inform_peers and update_states; what becomes of the overlay (Laws)
--   Avails/Bytes           big-endian numbers, as struct packs them
--   Avails/Wire            `Wire`: frames, datagrams and the receivers (Framing)
--   Otm/Receiver           `FilesReceiver` (src/transfers/otm/receiver.py): chunks into files (Stream, Session)
--   Avails/Books           `TransfersBookKeeper` (src/avails/container.py) and its Laws
--   Avails/Cache           `SocketCache` (src/avails/container.py): its bound (Bounded), which sockets stay (Recent)
--   Files/Chunks           calculate_chunk_size, send_actual_file, recv_file_contents (src/transfers/files);
--                          the chunk size (Size), the loops (Transfer), both together (Roundtrip)
--   Files/Names            validatename (src/transfers/files/_fileobject.py) and its Unique result
--   Transfers/Rumor        rumor mongering (src/transfers/rumor.py): Sample, and that a rumor is told Once
--   Files/Session          send_files and recv_files (src/transfers/files), and both together (Whole)
--   Files/States           the states and exceptions of a transfer (src/transfers/abc.py): Expected
--   Otm/FilesRelay         _forward_chunk, _start_reader (src/transfers/otm/relay.py), send_file (sender.py)
--                          and what they do to lagging links (Lagging)
--   Core/Lists             Storage, get_more_peers (src/core/peers.py), _get_closest_list_id
--                          (src/core/_kademlia.py), and what they do (Closest)
--   Avails/Peers           RemotePeer (src/avails/remotepeer.py), PeerDict (src/avails/container.py),
--                          search_relevant_peers (src/avails/useables.py); ids (Ids), the search
--                          (Dicts), the cached bytes (Cached)
--   Avails/Connect         get_timeouts (src/avails/useables.py), connect_to_peer, Sender, Receiver
--                          (src/avails/connect.py); the retries (Retries), what is received (Flow)
--   Core/Connectivity      src/core/connectivity.py, remove_peer (src/core/peers.py); what becomes of a
--                          peer (Recent), and two checks at once (Twice)
--   Core/Dispatch          the transports, RequestsEndPoint, the dispatchers and ReplyRegistryMixIn;
--                          datagrams (Datagrams), task groups (Groups), replies (Replying)
--   Core/Kademlia          PeerServer, KadProtocol (src/core/_kademlia.py), get_remote_peer
--                          (src/core/peers.py); the receiver of RPCs (Rpc), who is found (Search),
--                          what is kept (Stores)
--   Core/Search            GossipSearch (src/core/peers.py), src/core/gossip.py; which replies
--                          a search gets (Routing)
--   Core/Acceptor          Acceptor, ProcessDataHandler (src/core/acceptor.py); messages (Messages)
--   Core/Connector         src/core/connector.py, over the socket cache (Keys)
--   Transfers/Status       src/transfers/status.py; when a status is due (Points), and the iterator
--                          of statuses (Iterator)
--   Managers/Files         src/managers/filemanager.py, pause_transfer and DirConnectionHandler
--                          (src/managers/directorymanager.py), over the books; what is booked (Booked)
--                          and which transfers stay (Stuck)
--   Files/Directory        DirSender, DirReceiver (src/transfers/files/directory.py): the round trip (Whole)
--                          against a tree that is made at once (Place), and the names that
--                          files get (Placed)
--   Core/Discovery         src/core/discover.py; how peers find each other (Passive)
--   Core/Kademlia/Crawl    SearchCrawler, PeerListGetter (src/core/peers.py), rpc_search_peers, rpc_ping
--                          (src/core/_kademlia.py)
--   Tests                  the theorems at concrete inputs
--
-- A coroutine is cut at its awaits: a handler runs to its await, the task waits in `System.tasks`, and
-- an event resumes it or times it out. An address, a socket and a peer id are numbers. `log2_from`
-- takes as many rounds as there are peers, which is enough since n ≤ 2 ^ n. A receiver reads from a
-- schedule of arrivals; when the schedule ends it still waits, and `receive-frame` says how many
-- arrivals suffice. What the system, msgpack and the kademlia package do (a crawl, a try to connect, the
-- bytes of an item, whether the routing table takes a peer for new) is an argument of the definitions that
-- use it, and a loop that waits for events takes the list of its rounds.
--
-- Not modelled: sockets and the event loop themselves, msgpack, the routing table of the kademlia
-- package, configuration, profiles, processes, logging, dialogs and the web page; the resumption of a
-- directory; the loop data_receiver over the chunks of a session (src/transfers/otm/receiver.py), which
-- raises before its first round; the wiring at the start.
pub mod Prelude
pub mod Otm
pub mod Avails
pub mod Files
pub mod Transfers
pub mod Core
pub mod Managers
pub mod Tests
