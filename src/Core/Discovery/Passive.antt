-- ===== src/Core/Discovery/Passive.antt =====
-- How two peers find each other, and when the passive mode ends.
use peer_connect.Prelude.{
  ℕ, zero, suc, ◌≤◌, min, Bool, true, false, List, [], ◌∷◌, ◌++◌, ◌≡◌, refl, inl, inr, arith, ◌==◌,
  Bool-cases,
}
use peer_connect.Core.Discovery.{
  Uri, network_find, network_find_reply, sends, bootstraps, handle_packet, send_packets, Round,
  enter_passive_mode,
}

-- A request is answered by every peer of another ip, with its own address, and the peer that asked then
-- bootstraps from just this address; the echo of its own request it ignores.
pub handle_packet_lem :
    (asker asked : Uri)
    → (asker.ip == asked.ip) ≡ false
    → (handle_packet asked asker (network_find asker) ≡ sends (network_find_reply asked) asker ∷ [])
      × (handle_packet asker asked (network_find_reply asked) ≡ bootstraps asked ∷ [])
      × (handle_packet asker asker (network_find asker) ≡ [])
unfolding handle_packet
handle_packet_lem asker asked apart =
    let back : (asked.ip == asker.ip) ≡ false = ground (arith, apart) in
    let own : (asker.ip == asker.ip) ≡ true = ground arith in
    (rw apart refl, rw back refl, rw own refl)

-- at most as many packets as retries, and at least one if there is a retry
pub send_packets-le :
    (n : ℕ) (boot : ℕ → Bool) → (send_packets n boot ≤ n) × (min 1 n ≤ send_packets n boot)
unfolding send_packets
send_packets-le zero boot = (omega arith, omega arith)
send_packets-le (suc n) boot = elim (Bool-cases (boot 0)) [
  | inl e ↦ rw e (omega arith, omega arith)
  | inr e ↦ rw e (omega (arith, (send_packets-le n (λ i. boot (suc i))).0), omega arith)
]

abbrev InNetwork : List Round → Type 0
InNetwork [] = Unit
InNetwork (r ∷ rs) = (r.is_bootstrapped ≡ true) × InNetwork rs

-- As long as the peer is in a network the passive mode sends nothing and does not end, also when the
-- program stops; it ends at the first round in which the peer is in none and the program stops.
pub enter_passive_mode_lem :
    (rs rs' : List Round) (r : Round)
    → InNetwork rs
    → r.is_bootstrapped ≡ false
    → r.finalizing ≡ true
    → (enter_passive_mode rs ≡ (0, false)) × (enter_passive_mode (rs ++ r ∷ rs') ≡ (0, true))
unfolding enter_passive_mode
enter_passive_mode_lem [] rs' r h b f = (refl, rw (b, f) refl)
enter_passive_mode_lem (q ∷ rs) rs' r h b f =
    let (stays, ends) = enter_passive_mode_lem rs rs' r h.1 b f in
    (rw (h.0, stays) refl, rw (h.0, ends) refl)
