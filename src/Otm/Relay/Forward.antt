-- ===== src/Otm/Relay/Forward.antt =====
-- What `forward_tree_check_packet` sends and which links it activates.
use peer_connect.Prelude.{
  ℕ, Option, none, some, List, [], ◌∷◌, ◌++◌, ◌≡◌, refl, ap, ◌∙◌, arith, if◌then◌else◌, get, member,
}
use peer_connect.Otm.Tree.{PeerId}
use peer_connect.Otm.Relay.{Relay, Packet, Output, active_of}
use peer_connect.Otm.Relay.TreeCheck.{
  forward_tree_check_packet, sampled_peer_ids, window_end, forward_to,
}
use peer_connect.Otm.Relay.Frame.{forward_to_frame, get-forward_to}
use peer_connect.Otm.Relay.TreeCheck.{forward_link}
use peer_connect.Otm.Relay.Window.{sampled_sound}
use mathlib.Core.List.{append_assoc, append-nil}

-- one datagram to each peer of the list that has links, in order, over its passive link
abbrev send_one : Relay → Packet → Option (ℕ × ℕ) → List Output
send_one r packet none = []
send_one r packet (some (i, j)) =
    Output.datagram (r.links i).connection (r.links i).right packet ∷ []

abbrev pub sends : Relay → Packet → List PeerId → List Output
sends r packet [] = []
sends r packet (p ∷ ps) = send_one r packet (get p r.all_links) ++ sends r packet ps

sends_same :
    (packet : Packet) (ps : List PeerId) (r r' : Relay)
    → r'.all_links ≡ r.all_links
    → r'.links ≡ r.links
    → sends r' packet ps ≡ sends r packet ps
sends_same packet [] r r' e f = refl
sends_same packet (p ∷ ps) r r' e f = rw (e, f, sends_same packet ps r r' e f)

forward_link-all_links :
    (p : PeerId) (packet : Packet) (o : Option (ℕ × ℕ)) (r : Relay)
    → (forward_link p packet o r).all_links ≡ r.all_links
unfolding forward_link
forward_link-all_links p packet none r = refl
forward_link-all_links p packet (some pair) r = refl

forward_link-links :
    (p : PeerId) (packet : Packet) (o : Option (ℕ × ℕ)) (r : Relay)
    → (forward_link p packet o r).links ≡ r.links
unfolding forward_link
forward_link-links p packet none r = refl
forward_link-links p packet (some pair) r = refl

out-forward_link :
    (p : PeerId) (packet : Packet) (o : Option (ℕ × ℕ)) (r : Relay)
    → (forward_link p packet o r).out ≡ r.out ++ send_one r packet o
unfolding forward_link
out-forward_link p packet none r = rw append-nil
out-forward_link p packet (some pair) r = refl

pub out-forward_to :
    (ps : List PeerId) (packet : Packet) (r : Relay)
    → (forward_to ps packet r).out ≡ r.out ++ sends r packet ps
unfolding forward_to
out-forward_to [] packet r = rw append-nil
out-forward_to (p ∷ ps) packet r =
    let next = forward_link p packet (get p r.all_links) r in
    rw (
      out-forward_to ps packet next,
      sends_same packet ps r next (forward_link-all_links p packet (get p r.all_links) r)
          (forward_link-links p packet (get p r.all_links) r),
      out-forward_link p packet (get p r.all_links) r,
      append_assoc,
    )

-- A forwarded tree check goes once to each sampled peer, over its passive link, and to nobody else.
-- Afterwards exactly the sampled peers have become active, by the active links that `all_links`
-- holds, the other active links are as before, and the window has moved to its end.
pub forward_lem :
    (sender q : PeerId) (packet : Packet) (r : Relay)
    → ((forward_tree_check_packet sender packet r).out
        ≡ r.out ++ sends r packet (sampled_peer_ids sender r))
      × (get q (forward_tree_check_packet sender packet r).active_links
          ≡ (if member q (sampled_peer_ids sender r) then active_of r q else get q r.active_links))
      × ((forward_tree_check_packet sender packet r).window_index ≡ window_end r)
unfolding forward_tree_check_packet
forward_lem sender q packet r =
    let ps = sampled_peer_ids sender r in
    let r0 = record r { window_index = window_end r } in
    (
      out-forward_to ps packet r0 ∙ ap (λ o. r.out ++ o) (sends_same packet ps r r0 refl refl),
      ground (arith, get-forward_to q ps packet r0, sampled_sound q sender r),
      ap (λ (t : Relay). t.window_index) (forward_to_frame ps packet r0),
    )
