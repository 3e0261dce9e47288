-- ===== src/Transfers/Rumor.antt =====
-- Rumor mongering: `SimpleRumorMessageList`, `DefaultRumorPolicy` and `RumorMongerProtocol`
-- (src/transfers/rumor.py), with `GossipMessage` (src/avails/wire.py). Clocks are numbers of some
-- unit of time. `random.randint(0, i)` is any number, taken modulo i + 1, and `random.random()` a
-- fraction of `scale`. The set of known peers is a parameter, as `_get_list_of_peers` is.
pub mod Sample
pub mod Once
use peer_connect.Prelude.{
  ℕ, ◌+◌, ◌-◌, ◌*◌, ◌%◌, Bool, true, false, not, ◌&&◌, ◌||◌, Option, none, some, List, [], ◌∷◌,
  ◌++◌, ltb, if◌then◌else◌, set, Dict, get, has, put, remove, member, add, union, diff,
}
use peer_connect.Otm.Tree.{PeerId}

-- the keys of the dict of a `WireData` that a check asks for, or another key
pub data Field : Type 0 where
  header msg_id version peer_id id created ttl message : Field

abbrev field_eq : Field → Field → Bool
field_eq header header = true
field_eq msg_id msg_id = true
field_eq version version = true
field_eq peer_id peer_id = true
field_eq id id = true
field_eq created created = true
field_eq ttl ttl = true
field_eq message message = true
field_eq _ _ = false

abbrev pub has_field : Field → List Field → Bool
has_field f [] = false
has_field f (g ∷ fs) = field_eq g f || has_field f fs

-- A message: its id, its time of creation, and the keys of its body.
pub record GossipMessage : Type 0 where
  pub message_id : ℕ
  pub created_at : ℕ
  pub body : List Field

-- the keys of `WireData.dict`
unfoldable pub dict_keys : List Field → List Field
dict_keys body = header ∷ msg_id ∷ version ∷ peer_id ∷ body

unfoldable pub fields_check : GossipMessage → Bool
unfolding dict_keys
fields_check m =
    let ks = dict_keys m.body in
    has_field id ks && has_field header ks && has_field created ks && has_field ttl ks

pub record RumorMessageItem : Type 0 where
  pub time_in : ℕ
  pub creation_time : ℕ
  pub peer_list : List PeerId

pub record Monger : Type 0 where
  pub message_list : Dict RumorMessageItem
  pub dropped : List ℕ
  pub sent : List (ℕ × PeerId)

abbrev pub node_pov_gossip_ttl : ℕ
node_pov_gossip_ttl = 3

abbrev pub global_gossip_ttl : ℕ
global_gossip_ttl = 6

unfoldable pub is_old_enough : ℕ → ℕ → Bool
is_old_enough current_time time_in = ltb node_pov_gossip_ttl (current_time - time_in)

-- one round of the loop of `_disseminate`
unfoldable pub drop_if_old : ℕ → ℕ → RumorMessageItem → Monger → Monger
unfolding is_old_enough
drop_if_old now m item g =
    if is_old_enough now item.time_in
    then record g { message_list = remove m g.message_list; dropped = add m g.dropped }
    else g

unfoldable pub disseminate_each : ℕ → Dict RumorMessageItem → Monger → Monger
unfolding drop_if_old
disseminate_each now [] g = g
disseminate_each now ((m, item) ∷ items) g = disseminate_each now items (drop_if_old now m item g)

-- `_disseminate` at a time; it goes over a copy
unfoldable pub disseminate : ℕ → Monger → Monger
unfolding disseminate_each
disseminate now g = disseminate_each now g.message_list g

unfoldable pub push : ℕ → GossipMessage → Monger → Monger
push now m g = record g {
  message_list =
      put m.message_id (record { time_in = now; creation_time = m.created_at; peer_list = [] })
        g.message_list;
}

-- the loop of `sample_peers`, from the position `i`
unfoldable pub reservoir_from : ℕ → ℕ → (ℕ → ℕ) → List PeerId → List PeerId → List PeerId
reservoir_from i size randint [] reservoir = reservoir
reservoir_from i size randint (p ∷ ps) reservoir =
    let j = randint i % (i + 1) in
    reservoir_from (i + 1) size randint ps (
      if ltb i size
      then reservoir ++ p ∷ []
      else if ltb j size
      then set reservoir j p
      else reservoir)

-- what `sample_peers` draws from the peers that were not told yet
unfoldable pub reservoir_of : ℕ → (ℕ → ℕ) → List PeerId → RumorMessageItem → List PeerId
unfolding reservoir_from
reservoir_of size randint peers item = reservoir_from 0 size randint (diff peers item.peer_list) []

abbrev pub alpha : ℕ
alpha = 3

abbrev pub send_to : ℕ → List PeerId → List (ℕ × PeerId)
send_to m [] = []
send_to m (p ∷ ps) = (m, p) ∷ send_to m ps

-- `_gossip_forward` with the item of the message; a missing one is a KeyError
unfoldable pub forward_item : (ℕ → ℕ) → List PeerId → ℕ → Option RumorMessageItem → Monger → Monger
unfolding reservoir_of
forward_item randint peers m none g = g
forward_item randint peers m (some item) g =
    let sampled = reservoir_of alpha randint peers item in
    record g {
      message_list =
          put m (record item { peer_list = union item.peer_list sampled }) g.message_list;
      sent = g.sent ++ send_to m sampled;
    }

unfoldable pub gossip_forward : (ℕ → ℕ) → List PeerId → ℕ → Monger → Monger
unfolding forward_item
gossip_forward randint peers m g = forward_item randint peers m (get m g.message_list) g

unfoldable pub gossip_message : (ℕ → ℕ) → List PeerId → ℕ → GossipMessage → Monger → Monger
unfolding push gossip_forward
gossip_message randint peers now m g = gossip_forward randint peers m.message_id (push now m g)

-- `should_rumor` at a time of the wall clock; the chance is at least 3/5
unfoldable pub should_rumor : ℕ → ℕ → ℕ → GossipMessage → Monger → Bool
should_rumor now drawn scale m g =
    let elapsed = now - m.created_at in
    not (member m.message_id g.dropped)
    && (not (ltb global_gossip_ttl elapsed)
        && (ltb (5 * drawn) (3 * scale)
            || ltb (drawn * global_gossip_ttl) ((global_gossip_ttl - elapsed) * scale)))

-- What a call of `message_arrived` finds: the clocks and the random numbers.
pub record Chance : Type 0 where
  pub clock : ℕ
  pub time : ℕ
  pub drawn : ℕ
  pub scale : ℕ
  pub randint : ℕ → ℕ

unfoldable pub message_arrived : List PeerId → Chance → GossipMessage → Monger → Monger
unfolding fields_check should_rumor gossip_forward gossip_message
message_arrived peers c m g =
    if not (fields_check m) || not (should_rumor c.time c.drawn c.scale m g)
    then g
    else if has m.message_id g.message_list
    then gossip_forward c.randint peers m.message_id g
    else gossip_message c.randint peers c.clock m g

pub data Happening : Type 0 where
  arrived : List PeerId → Chance → GossipMessage → Happening
  cleaned : ℕ → Happening

unfoldable pub happen : List Happening → Monger → Monger
unfolding message_arrived disseminate
happen [] g = g
happen (arrived peers c m ∷ hs) g = happen hs (message_arrived peers c m g)
happen (cleaned now ∷ hs) g = happen hs (disseminate now g)
