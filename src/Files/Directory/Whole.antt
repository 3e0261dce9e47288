-- ===== src/Files/Directory/Whole.antt =====
-- What stands in the directory of the receiver after a transfer.
use peer_connect.Prelude.{List}
use peer_connect.Avails.Bytes.{Bytes}
