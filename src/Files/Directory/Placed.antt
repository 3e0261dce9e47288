-- ===== src/Files/Directory/Placed.antt =====
-- Under which name a file of a directory arrives.
use peer_connect.Prelude.{[], ◌∷◌}
use peer_connect.Files.Names.{Name}
use peer_connect.Files.Directory.{RelPath}

abbrev last_of : Name → RelPath → Name
last_of d [] = d
last_of d (n ∷ p) = last_of n p
