-- ===== src/Tests/Core.antt =====
-- The theorems on the lists of peers at an id.
use Prim.Native.Nat.{bit_xor}
use peer_connect.Prelude.{◌≤◌, true, [], ◌∷◌, ◌≡◌, refl, arith, member}
use peer_connect.Core.Lists.{get_closest_list_id}
use peer_connect.Core.Lists.Closest.{get_closest_list_id_lem}

get_closest_list_id_lem_example :
    (member (get_closest_list_id 5 (0 ∷ 7 ∷ 9 ∷ [])) (0 ∷ 7 ∷ 9 ∷ []) ≡ true)
    × (bit_xor 5 (get_closest_list_id 5 (0 ∷ 7 ∷ 9 ∷ [])) ≤ bit_xor 5 7)
get_closest_list_id_lem_example =
    get_closest_list_id_lem 5 7 (0 ∷ 7 ∷ 9 ∷ []) refl refl (omega arith)
