-- ===== src/Otm/Tree.antt =====
-- `TreeLink` of src/transfers/otm/tree.py: one end of an edge between two peers of a session.
-- An address (ip, port) and a socket are opaque, and stand as numbers. A method that mutates the
-- link returns the new link; `clear` also returns the socket that it closes.
use peer_connect.Prelude.{ℕ, Bool, true, false, Option, none, some, ◌&&◌, ◌==◌}

abbrev pub Address : Type 0
Address = ℕ

abbrev pub Sock : Type 0
Sock = ℕ

abbrev pub PeerId : Type 0
PeerId = ℕ

pub data LinkType : Type 0 where
  passive active stale : LinkType

pub data LinkStatus : Type 0 where
  offline online lagging : LinkStatus

pub data Direction : Type 0 where
  outgoing incoming : Direction

pub record TreeLink : Type 0 where
  pub link_type : LinkType
  pub peer_id : PeerId
  pub id : ℕ
  pub left : Address
  pub right : Address
  pub connection : Option Sock
  pub status : LinkStatus
  pub direction : Direction

-- `__init__`; the id comes from the class's counter
unfoldable pub new_link : ℕ → Address → Address → PeerId → Option Sock → LinkType → TreeLink
new_link next a b peer_id connection link_type = record {
  link_type = link_type;
  peer_id = peer_id;
  id = next;
  left = a;
  right = b;
  connection = connection;
  status = offline;
  direction = outgoing;
}

-- the setter of `connection`
unfoldable pub set_connection : Sock → TreeLink → TreeLink
set_connection value link = record link { status = online; connection = some value }

unfoldable pub is_passive : TreeLink → Bool
is_passive link = elim link.link_type [ passive ↦ true | _ ↦ false ]

unfoldable pub is_active : TreeLink → Bool
is_active link = elim link.link_type [ active ↦ true | _ ↦ false ]

unfoldable pub is_online : TreeLink → Bool
is_online link = elim link.status [ online ↦ true | _ ↦ false ]

unfoldable pub is_lagging : TreeLink → Bool
is_lagging link = elim link.status [ lagging ↦ true | _ ↦ false ]

unfoldable pub is_outgoing : TreeLink → Bool
is_outgoing link = elim link.direction [ outgoing ↦ true | _ ↦ false ]

-- `__eq__`
unfoldable pub link_eq : TreeLink → TreeLink → Bool
link_eq link other = (other.id == link.id) && (link.right == other.right)

-- `clear`; an OSError of `close` is swallowed there
unfoldable pub clear : TreeLink → TreeLink × Option Sock
clear link = (record link { status = offline; connection = none }, link.connection)
