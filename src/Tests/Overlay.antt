-- ===== src/Tests/Overlay.antt =====
-- The theorems on the overlay at sessions of a few peers.
use peer_connect.Prelude.{ℕ, some, List, [], ◌∷◌, ◌≡◌, refl, arith, keys, IsDistinct}
use peer_connect.Otm.Hypercube.{Adjacency, create_hypercube, id_at}
use peer_connect.Otm.Hypercube.Connected.{Reach, hypercube_connected}
use peer_connect.Otm.Hypercube.Distinct.{hypercube-IsOverlay}
use peer_connect.Otm.Inform.{
  Response, Reply, confirmed, timed_out, Overlay, inform_peers, update_states,
}
use peer_connect.Otm.Inform.Laws.{IsOverlay, empty_states, inform_peers_lem}

abbrev ids : List ℕ
ids = 11 ∷ 12 ∷ 13 ∷ 14 ∷ 15 ∷ []

ids-IsDistinct : IsDistinct ids
ids-IsDistinct = ground arith

abbrev own : Response
own = record { passive_addr = 10; active_addr = 20 }

hypercube-IsOverlay_example : IsOverlay (create_hypercube ids)
hypercube-IsOverlay_example = hypercube-IsOverlay ids ids-IsDistinct

hypercube_connected_example : Reach (create_hypercube ids) (id_at ids 0) (id_at ids 4)
hypercube_connected_example = hypercube_connected ids 4 (omega arith)

-- three peers with the ids 11, 12 and 13 in bytes; 112 and 113 are those of the last two as text
abbrev three : Adjacency
three = (11, 12 ∷ 13 ∷ []) ∷ (12, 11 ∷ []) ∷ (13, 11 ∷ []) ∷ []

abbrev replies : List Reply
replies = timed_out 112 ∷ confirmed 113 (record { passive_addr = 13; active_addr = 23 }) ∷ []

inform_peers_lem_example :
    (o : Overlay) × (inform_peers 11 own replies three ≡ some o)
    × (o.adjacency ≡ three)
    × (update_states 11 (keys o.confirmed_peers) o
        ≡ empty_states 11 (keys o.confirmed_peers) o.confirmed_peers)
inform_peers_lem_example = inform_peers_lem 11 own replies three (refl, (refl, tt))
