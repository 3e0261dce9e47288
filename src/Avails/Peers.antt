-- ===== src/Avails/Peers.antt =====
-- `RemotePeer` (src/avails/remotepeer.py), `PeerDict` (src/avails/container.py) and the search in it
-- (src/avails/useables.py). A text is the list of its code points; an ip address is a number. The
-- text `peer_id` of a peer is the decimal of its `long_id`, and stands here as that number.
pub mod Ids
pub mod Dicts
pub mod Cached
use peer_connect.Prelude.{
  ℕ, suc, Bool, true, false, ◌&&◌, ◌||◌, Option, none, some, List, [], ◌∷◌, ◌==◌, if◌then◌else◌,
  Dict, get, put, remove,
}
use peer_connect.Avails.Bytes.{Bytes, pack, unpack_from}

abbrev pub Text : Type 0
Text = List ℕ

pub record RemotePeer : Type 0 where
  pub byte_id : Bytes
  pub username : Text
  pub ip : ℕ
  pub conn_port : ℕ
  pub req_port : ℕ
  pub status : ℕ

-- `int(byte_id.hex(), 16)`
unfoldable pub long_id : RemotePeer → ℕ
unfolding unpack_from
long_id p = unpack_from 0 p.byte_id

unfoldable pub peer_id : RemotePeer → ℕ
unfolding long_id
peer_id p = long_id p

-- `int.to_bytes(16)`; `none` is the OverflowError
unfoldable pub convert_peer_id_to_byte_id : ℕ → Option Bytes
unfolding pack
convert_peer_id_to_byte_id n = pack 16 n

abbrev pub text_eq : Text → Text → Bool
text_eq [] [] = true
text_eq [] (d ∷ t) = false
text_eq (c ∷ s) [] = false
text_eq (c ∷ s) (d ∷ t) = (c == d) && text_eq s t

unfoldable pub peer_eq : RemotePeer → RemotePeer → Bool
peer_eq p q = (p.ip == q.ip) && ((p.conn_port == q.conn_port) && text_eq p.username q.username)

abbrev pub starts_with : Text → Text → Bool
starts_with [] t = true
starts_with (c ∷ s) [] = false
starts_with (c ∷ s) (d ∷ t) = (c == d) && starts_with s t

-- `s in t`
abbrev pub occurs : Text → Text → Bool
occurs s [] = starts_with s []
occurs s (d ∷ t) = starts_with s (d ∷ t) || occurs s t

unfoldable pub is_relevant : Text → RemotePeer → Bool
is_relevant match_string p = occurs match_string p.username

-- `PeerDict`
abbrev pub PeerDict : Type 0
PeerDict = Dict RemotePeer

-- `self.get(peer_id, None)`
unfoldable pub get_peer : ℕ → PeerDict → Option RemotePeer
get_peer k d = get k d

unfoldable pub add_peer : RemotePeer → PeerDict → PeerDict
unfolding peer_id
add_peer p d = put (peer_id p) p d

unfoldable pub extend : List RemotePeer → PeerDict → PeerDict
unfolding peer_id
extend [] d = d
extend (p ∷ ps) d = extend ps (put (peer_id p) p d)

unfoldable pub remove_peer : ℕ → PeerDict → Option RemotePeer × PeerDict
remove_peer k d = (get k d, remove k d)

-- the loop of `search_relevant_peers` over the copied ids. The search is a generator: `d` is the dict
-- when a step of it looks up an id, so `later` lists the dict at each step.
abbrev pub relevant_of : Text → Option RemotePeer → List RemotePeer → List RemotePeer
relevant_of s none rest = rest
relevant_of s (some p) rest = if is_relevant s p then p ∷ rest else rest

unfoldable pub search_each : Text → List ℕ → (ℕ → PeerDict) → List RemotePeer
unfolding is_relevant
search_each s [] at = []
search_each s (k ∷ ks) at = relevant_of s (get k (at 0)) (search_each s ks (λ n. at (suc n)))

-- `serialized`: the bytes are cached with the hash of the fields that they were made of
pub record ByteCache : Type 0 where
  pub hashed : ℕ
  pub bytes : Bytes

unfoldable pub serialized :
    (RemotePeer → ℕ)
    → (RemotePeer → Bytes)
    → RemotePeer
    → Option ByteCache
    → Bytes × Option ByteCache
serialized hash dumps p none = (dumps p, some (record { hashed = hash p; bytes = dumps p }))
serialized hash dumps p (some c) =
    if hash p == c.hashed
    then (c.bytes, some c)
    else (dumps p, some (record { hashed = hash p; bytes = dumps p }))

-- the bytes that a peer gives each time it is serialized, while its fields change between the calls
unfoldable pub serialized_all :
    (RemotePeer → ℕ) → (RemotePeer → Bytes) → List RemotePeer → Option ByteCache → List Bytes
unfolding serialized
serialized_all hash dumps [] c = []
serialized_all hash dumps (p ∷ ps) c =
    (serialized hash dumps p c).0 ∷ serialized_all hash dumps ps (serialized hash dumps p c).1
