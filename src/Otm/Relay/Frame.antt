-- ===== src/Otm/Relay/Frame.antt =====
-- What the loops of the handlers leave as it is.
use peer_connect.Prelude.{
  ℕ, ◌&&◌, Option, none, some, List, [], ◌∷◌, ◌≡◌, refl, arith, ◌==◌, if◌then◌else◌, get, has,
  member, ap, get-put, has_of_get, not-has_of_get,
}
use peer_connect.Otm.Tree.{Address, PeerId}
use peer_connect.Otm.Relay.{Relay, Packet, passive_of, active_of, send_passive_message}
use peer_connect.Otm.Relay.Links.{send_all}
use peer_connect.Otm.Relay.Setup.{add_link_pair, add_link_pairs}
use peer_connect.Otm.Relay.TreeCheck.{forward_link, forward_to, refresh_link, refresh_passive}

pub send_all_frame :
    (is : List ℕ) (packet : Packet) (r : Relay)
    → send_all is packet r ≡ record r { out = (send_all is packet r).out }
unfolding send_all
send_all_frame [] packet r = refl
send_all_frame (i ∷ is) packet r = send_all_frame is packet (send_passive_message i packet r)

abbrev Framed : Relay → Relay → Type 0
Framed r r' = r' ≡ record r { active_links = r'.active_links; out = r'.out }

forward_link_frame :
    (p : PeerId) (packet : Packet) (o : Option (ℕ × ℕ)) (r : Relay)
    → Framed r (forward_link p packet o r)
unfolding forward_link
forward_link_frame p packet none r = refl
forward_link_frame p packet (some pair) r = refl

Framed-trans : (r s t : Relay) → Framed r s → Framed s t → Framed r t
Framed-trans r s t h k = ground arith

pub forward_to_frame :
    (ps : List PeerId) (packet : Packet) (r : Relay)
    → forward_to ps packet r ≡ record r {
      active_links = (forward_to ps packet r).active_links;
      out = (forward_to ps packet r).out;
    }
unfolding forward_to
forward_to_frame [] packet r = refl
forward_to_frame (p ∷ ps) packet r =
    let next = forward_link p packet (get p r.all_links) r in
    Framed-trans r next (forward_to ps packet next)
      (forward_link_frame p packet (get p r.all_links) r) (forward_to_frame ps packet next)

abbrev active_in : Option (ℕ × ℕ) → Option ℕ
active_in none = none
active_in (some pair) = some pair.1

get-forward_link :
    (q p : PeerId) (packet : Packet) (o : Option (ℕ × ℕ)) (r : Relay)
    → get p r.all_links ≡ o
    → get q (forward_link p packet o r).active_links
      ≡ (if (p == q) && has q r.all_links then active_of r q else get q r.active_links)
unfolding forward_link
get-forward_link q p packet none r e =
    ground (arith, not-has_of_get p r.all_links e, λ (h : p ≡ q). ap (λ x. has x r.all_links) h)
get-forward_link q p packet (some pair) r e = ground (
  arith,
  has_of_get p r.all_links e,
  get-put p q pair.1 r.active_links,
  λ (h : p ≡ q). ap (λ x. has x r.all_links) h,
  λ (h : p ≡ q). ap (λ x. get x r.all_links) h,
)

-- The peers of the list that have links are active afterwards, by their active link.
pub get-forward_to :
    (q : PeerId) (ps : List PeerId) (packet : Packet) (r : Relay)
    → get q (forward_to ps packet r).active_links
      ≡ (if member q ps && has q r.all_links then active_of r q else get q r.active_links)
unfolding forward_to
get-forward_to q [] packet r = refl
get-forward_to q (p ∷ ps) packet r =
    let next = forward_link p packet (get p r.all_links) r in
    let frame = forward_link_frame p packet (get p r.all_links) r in
    ground (
      arith,
      get-forward_to q ps packet next,
      get-forward_link q p packet (get p r.all_links) r refl,
      ap (λ (t : Relay). get q t.all_links) frame,
      ap (λ (t : Relay). has q t.all_links) frame,
    )

refresh_link_frame :
    (p : PeerId) (o : Option ℕ) (r : Relay)
    → refresh_link p o r ≡ record r { passive_links = (refresh_link p o r).passive_links }
unfolding refresh_link
refresh_link_frame p none r = refl
refresh_link_frame p (some i) r = refl

pub refresh_passive_frame :
    (ps : List PeerId) (r : Relay)
    → refresh_passive ps r ≡ record r { passive_links = (refresh_passive ps r).passive_links }
unfolding refresh_passive
refresh_passive_frame [] r = refl
refresh_passive_frame (p ∷ ps) r = ground (
  arith,
  refresh_passive_frame ps (refresh_link p (passive_of r p) r),
  refresh_link_frame p (passive_of r p) r,
)

get-refresh_link :
    (q p : PeerId) (o : Option (ℕ × ℕ)) (r : Relay)
    → get p r.all_links ≡ o
    → get q (refresh_link p (passive_of r p) r).passive_links
      ≡ (if (p == q) && has q r.all_links then passive_of r q else get q r.passive_links)
unfolding refresh_link
get-refresh_link q p none r e =
    ground (arith, e, not-has_of_get p r.all_links e, λ (h : p ≡ q). ap (λ x. has x r.all_links) h)
get-refresh_link q p (some pair) r e = ground (
  arith,
  e,
  has_of_get p r.all_links e,
  get-put p q pair.0 r.passive_links,
  λ (h : p ≡ q). ap (λ x. has x r.all_links) h,
  λ (h : p ≡ q). ap (λ x. get x r.all_links) h,
)

-- The peers of the list that have links are passive afterwards, by their passive link.
pub get-refresh_passive :
    (q : PeerId) (ps : List PeerId) (r : Relay)
    → get q (refresh_passive ps r).passive_links
      ≡ (if member q ps && has q r.all_links then passive_of r q else get q r.passive_links)
unfolding refresh_passive
get-refresh_passive q [] r = refl
get-refresh_passive q (p ∷ ps) r =
    let next = refresh_link p (passive_of r p) r in
    let frame = refresh_link_frame p (passive_of r p) r in
    ground (
      arith,
      get-refresh_passive q ps next,
      get-refresh_link q p (get p r.all_links) r refl,
      ap (λ (t : Relay). get q t.all_links) frame,
      ap (λ (t : Relay). has q t.all_links) frame,
    )

-- What `gossip_update_state` cannot touch.
pub record SameParents (r r' : Relay) : Type 0 where
  pub parent : r'.parent_link_fut ≡ r.parent_link_fut
  pub expected : r'.expected_parent_peers ≡ r.expected_parent_peers
  pub active : r'.active_links ≡ r.active_links
  pub passive : r'.passive_links ≡ r.passive_links
  pub session : r'.session ≡ r.session
  pub state : r'.state ≡ r.state

pub add_link_pairs_frame :
    (addresses : List (PeerId × Address × Address)) (r : Relay)
    → SameParents r (add_link_pairs addresses r)
unfolding add_link_pairs add_link_pair
add_link_pairs_frame [] r = ground arith
add_link_pairs_frame (entry ∷ rest) r =
    let h = add_link_pairs_frame rest (add_link_pair entry r) in
    record {
      parent = h.parent;
      expected = h.expected;
      active = h.active;
      passive = h.passive;
      session = h.session;
      state = h.state;
    }
