-- ===== src/Tests/Relays.antt =====
-- The theorems on `PalmTreeRelay` at a relay of the peer 1 in a session with the peers 2 and 3.
use peer_connect.Prelude.{
  ◌+◌, ◌≤◌, true, none, some, List, [], ◌∷◌, ◌++◌, ◌≡◌, refl, arith, if◌then◌else◌, length, get,
  member,
}
use peer_connect.Prelude.Int.{◌-ℤ◌, ◌+ℤ◌}
use peer_connect.Otm.Tree.{TreeLink, LinkType, new_link}
use peer_connect.Otm.Relay.{
  Relay, RelayState, cancelled, Packet, Output, active_of, slice, new_relay,
}
use peer_connect.Otm.Relay.Setup.{
  connection_made, session_init_end, gossip_update_state, add_link_pair, add_link_pairs,
}
use peer_connect.Otm.Relay.TreeCheck.{
  completed, upgrade_timeout, forward_tree_check_packet, sampled_peer_ids, window_end,
  online_outgoing,
}
use peer_connect.Otm.Relay.Streams.{Outcome}
use peer_connect.Otm.Relay.Steps.{System, Event, run}
use peer_connect.Otm.Relay.Window.{length-sampled-le}
use peer_connect.Otm.Relay.Forward.{forward_lem, sends}
use peer_connect.Otm.Relay.Check.{IsAccepted, tree_check_accepted, tree_check_unparented}
use peer_connect.Otm.Relay.Invariant.{IsSound, run-IsSound}

abbrev blank : TreeLink
unfolding new_link
blank = new_link 0 0 0 0 none LinkType.stale

-- the relay after `session_init`
unfoldable booted : Relay
unfolding new_relay session_init_end connection_made
booted =
    session_init_end
      (connection_made 5 (new_relay 1 (record { session_id = 7; fanout = 2 }) 10 20 blank))

-- the relay when the overlay has been told to it
unfoldable told_relay : Relay
unfolding gossip_update_state new_relay session_init_end connection_made
told_relay = gossip_update_state ((2, 12, 22) ∷ (3, 13, 23) ∷ []) booted

-- a tree check of 2, its parent's connection, and a rejection by 3
abbrev busy_events : List Event
busy_events =
    Event.update_state ((2, 12, 22) ∷ (3, 13, 23) ∷ [])
    ∷ Event.tree_check true 2 12
    ∷ Event.stream 7 2 50
    ∷ Event.resumed 0 Outcome.refused
    ∷ Event.resumed 0 Outcome.refused
    ∷ Event.tree_reject 3
    ∷ []

abbrev booted_system : System
booted_system = record { relay = booted; tasks = [] }

booted-IsSound : IsSound booted_system
unfolding booted session_init_end connection_made new_relay
booted-IsSound = record {
  linked = record {
    ready = omega arith;
    idle = λ early. refl;
    active = λ q i h. absurd (ground arith);
    passive = λ q i h. absurd (ground arith);
    parent = λ i h. absurd (ground arith);
  };
  tasks = tt;
}

run-IsSound_example : IsSound (run busy_events booted_system)
run-IsSound_example = run-IsSound busy_events booted_system booted-IsSound

told_samples : sampled_peer_ids 1 told_relay ≡ 2 ∷ 3 ∷ []
unfolding told_relay gossip_update_state add_link_pairs add_link_pair booted session_init_end
    connection_made new_relay new_link sampled_peer_ids slice window_end online_outgoing ◌+ℤ◌ ◌-ℤ◌
told_samples = refl

length-sampled-le_example :
    length (sampled_peer_ids 2 told_relay) + online_outgoing told_relay
    ≤ told_relay.session.fanout + 1
unfolding told_relay gossip_update_state add_link_pairs add_link_pair booted session_init_end
    connection_made new_relay new_link online_outgoing
length-sampled-le_example = length-sampled-le 2 told_relay 0 refl (omega arith) (omega arith)

forward_lem_example :
    ((forward_tree_check_packet 2 (Packet.tree_check 1) told_relay).out
      ≡ told_relay.out ++ sends told_relay (Packet.tree_check 1) (sampled_peer_ids 2 told_relay))
    × (get 3 (forward_tree_check_packet 2 (Packet.tree_check 1) told_relay).active_links ≡ (
        if member 3 (sampled_peer_ids 2 told_relay)
        then active_of told_relay 3
        else get 3 told_relay.active_links))
    × ((forward_tree_check_packet 2 (Packet.tree_check 1) told_relay).window_index
        ≡ window_end told_relay)
forward_lem_example = forward_lem 2 3 (Packet.tree_check 1) told_relay

told-IsAccepted : IsAccepted 2 told_relay
unfolding told_relay gossip_update_state add_link_pairs add_link_pair booted session_init_end
    connection_made new_relay new_link
told-IsAccepted = record {
  linked = refl;
  room = omega arith;
  orphan = refl;
  unchecked = omega arith;
}

-- the relay while it waits for its parent 2
abbrev asked_relay : Relay
asked_relay = record told_relay {
  expected_parent_peers = 2 ∷ [];
  active_links = (2, 0) ∷ [];
  out = Output.datagram (some 5) 12 (Packet.upgrade_conn 1) ∷ [];
}

tree_check_unparented_example :
    ((upgrade_timeout 2 1 0 2 asked_relay).1 ≡ completed)
    × ((upgrade_timeout 2 1 0 2 asked_relay).0.state ≡ RelayState.tree_check_done)
    × ((run (Event.stream 7 2 50 ∷ []) (record {
      relay = (upgrade_timeout 2 1 0 2 asked_relay).0;
      tasks = [];
    })).relay.parent_link_fut
        ≡ cancelled)
unfolding told_relay gossip_update_state add_link_pairs add_link_pair booted session_init_end
    connection_made new_relay new_link
tree_check_unparented_example =
    tree_check_unparented 2 12 told_relay asked_relay 1 0 2 (Event.stream 7 2 50 ∷ []) []
      (tree_check_accepted 2 12 told_relay 1 0 told-IsAccepted refl)
