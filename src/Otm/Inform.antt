-- ===== src/Otm/Inform.antt =====
-- `inform_peers` and `update_states` of `PalmTreeProtocol` (src/transfers/otm/palm_tree.py): the
-- peers that answer the invitation are confirmed, the others are discarded, and every confirmed peer
-- is told addresses. A reply has been awaited and parsed when it is handled; replies come in any order,
-- here a list. A peer has two ids, its bytes (`id`) and their text (`peer_id`), which are different keys
-- of a dictionary: both stand as numbers here, and no number is the id of both kinds. The adjacency has
-- the bytes as keys, and so has the confirmation of the center; a reply carries the text.
pub mod Laws
use peer_connect.Prelude.{
  Option, none, some, List, [], ◌∷◌, ◌==◌, if◌then◌else◌, Dict, get, put, remove,
}
use peer_connect.Otm.Tree.{PeerId, Address}
use peer_connect.Otm.Hypercube.{Adjacency, adjacent}

-- `PalmTreeInformResponse`, without the session key; its peer id stands in the reply
pub record Response : Type 0 where
  pub passive_addr : Address
  pub active_addr : Address

-- what `_trigger_schedular_of_peer` returns, each with the text of the peer's id
pub data Reply : Type 0 where
  confirmed : PeerId → Response → Reply
  timed_out : PeerId → Reply

abbrev cons_found : PeerId → Option (List PeerId) → Option (List PeerId)
cons_found y none = none
cons_found y (some l) = some (y ∷ l)

-- list.remove; `none` is the ValueError of an absent element
unfoldable remove_first : PeerId → List PeerId → Option (List PeerId)
remove_first x [] = none
remove_first x (y ∷ l) = let rest = remove_first x l in if y == x then some l else cons_found y rest

infixl 5 ◌>>=◌
abbrev pub ◌>>=◌ : {A B : Type 0} → Option A → (A → Option B) → Option B
none >>= f = none
some a >>= f = f a

-- for peer_id in adjacency_list[discarded]: adjacency_list[peer_id].remove(discarded)
unfoldable discard_from : List PeerId → PeerId → Adjacency → Option Adjacency
unfolding remove_first
discard_from [] d adj = some adj
discard_from (p ∷ ps) d adj =
    remove_first d (adjacent p adj) >>= λ l. discard_from ps d (put p l adj)

unfoldable pub discard_peer : PeerId → Adjacency → Option Adjacency
unfolding discard_from
discard_peer d adj = discard_from (adjacent d adj) d adj >>= λ adj'. some (remove d adj')

pub record Overlay : Type 0 where
  pub adjacency : Adjacency
  pub confirmed_peers : Dict Response

unfoldable pub handle_reply : Reply → Overlay → Option Overlay
unfolding discard_peer
handle_reply (confirmed p response) o =
    some (record o { confirmed_peers = put p response o.confirmed_peers })
handle_reply (timed_out p) o =
    discard_peer p o.adjacency >>= λ adj. some (record o { adjacency = adj })

-- the loop over the replies, after the center has confirmed itself
unfoldable pub handle_replies : List Reply → Overlay → Option Overlay
unfolding handle_reply
handle_replies [] o = some o
handle_replies (r ∷ replies) o = handle_reply r o >>= handle_replies replies

unfoldable pub inform_peers : PeerId → Response → List Reply → Adjacency → Option Overlay
unfolding handle_replies
inform_peers center own replies adj =
    handle_replies replies (record { adjacency = adj; confirmed_peers = put center own [] })

-- the addresses of the confirmed among some peers
unfoldable pub addresses_mapping : List PeerId → Dict Response → List (PeerId × Address × Address)
addresses_mapping [] c = []
addresses_mapping (p ∷ ps) c =
    let rest = addresses_mapping ps c in
    elim (get p c) [
      | none ↦ rest
      | some response ↦ (p, response.passive_addr, response.active_addr) ∷ rest
    ]

-- `update_states`, by the peers that are confirmed: what is sent to whom; the center's own state goes to its relay
unfoldable pub update_states :
    PeerId → List PeerId → Overlay → List (Address × List (PeerId × Address × Address))
unfolding addresses_mapping
update_states center [] o = []
update_states center (p ∷ ps) o =
    let rest = update_states center ps o in
    if p == center then rest else elim (get p o.confirmed_peers) [
      | none ↦ rest
      | some response ↦
          (response.passive_addr, addresses_mapping (adjacent p o.adjacency) o.confirmed_peers)
          ∷ rest
    ]
